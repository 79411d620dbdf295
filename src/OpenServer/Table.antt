-- ===== src/OpenServer/Table.antt =====
-- The table of clients of open_server_v2.c.
use unix_advanced_programing.Prelude.{
  ℕ, zero, suc, ◌≤◌, ◌≡◌, refl, sym, ap, ◌⊎◌, inl, inr, true, false, Bool-cases, Option, none, some,
  List, [], ◌∷◌, arith, length, get_elem?,
}
use unix_advanced_programing.Prelude.Int.{ℤ, pos, negsuc}
use unix_advanced_programing.OpenServer.{
  Client, is_free, resize, client_alloc, take_entry, client_add, same_fd, client_del,
}

abbrev pub AllUsed : List Client → Type 0
AllUsed [] = Unit {0}
AllUsed (c ∷ cs) = (is_free c ≡ false) × AllUsed cs

none_free : (i : ℕ) (fd : ℤ) (uid : ℕ) (l : List Client) → AllUsed l → take_entry i fd uid l ≡ none
unfolding take_entry is_free
none_free i fd uid [] h = refl
none_free i fd uid (c ∷ cs) (used, h) = rw (used, take_entry, none_free (suc i) fd uid cs h)

length-resize : (n : ℕ) (junk : Client) (l : List Client) → length (resize n junk l) ≡ n
unfolding resize
length-resize zero junk l = refl
length-resize (suc n) junk [] = ap suc (length-resize n junk [])
length-resize (suc n) junk (c ∷ cs) = ap suc (length-resize n junk cs)

beyond : (i : ℕ) (l : List Client) → length l ≤ i → get_elem? l i ≡ none
beyond i [] h = refl
beyond zero (c ∷ cs) h = absurd (omega arith)
beyond (suc i) (c ∷ cs) h = beyond i cs (omega arith)

alloc_overruns :
    (junk c : Client) (cs : List Client) (size : ℕ)
    → client_alloc junk (record { client = c ∷ cs; client_size = size }) ≡ none
unfolding client_alloc
alloc_overruns junk c cs size =
    rw (beyond 10 (resize 10 junk (c ∷ cs)) (omega (arith, length-resize 10 junk (c ∷ cs))))

-- A full table can take no client, with whatever fuel: `client_alloc` makes the array no larger than
-- ten entries, and then sets the ten entries behind its end.
pub client_add_overruns :
    (n : ℕ) (junk c : Client) (cs : List Client) (size : ℕ) (fd : ℤ) (uid : ℕ)
    → AllUsed (c ∷ cs)
    → client_add n junk fd uid (record { client = c ∷ cs; client_size = size }) ≡ none
unfolding client_add
client_add_overruns zero junk c cs size fd uid used = refl
client_add_overruns (suc n) junk c cs size fd uid used =
    rw (none_free 0 fd uid (c ∷ cs) used, client_add, alloc_overruns junk c cs size)

-- No client has the descriptor.
abbrev pub IsAbsent : ℤ → List Client → Type 0
IsAbsent fd [] = Unit {0}
IsAbsent fd (c ∷ cs) = (same_fd c.fd fd ≡ false) × IsAbsent fd cs

abbrev pub fds : List Client → List ℤ
fds [] = []
fds (c ∷ cs) = c.fd ∷ fds cs

same_fd_self : (fd : ℤ) → same_fd fd fd ≡ true
same_fd_self (pos n) = ground arith
same_fd_self (negsuc n) = ground arith

free_fd : (c : Client) → is_free c ≡ true → c.fd ≡ negsuc 0
unfolding is_free
free_fd c h = go c.fd refl h
  where
    go : (z : ℤ) → c.fd ≡ z → is_free c ≡ true → z ≡ negsuc 0
    go (pos n) e h = ground arith
    go (negsuc n) e h = ground arith

del_first :
    (fd : ℤ) (uid : ℕ) (cs : List Client)
    → client_del fd (record { fd = fd; uid = uid } ∷ cs) ≡ record { fd = negsuc 0; uid = uid } ∷ cs
unfolding client_del
del_first fd uid cs = rw (same_fd_self fd) refl

del_other :
    (fd : ℤ) (c : Client) (cs : List Client)
    → same_fd c.fd fd ≡ false
    → client_del fd (c ∷ cs) ≡ c ∷ client_del fd cs
unfolding client_del
del_other fd c cs h = rw h refl

entry_cases :
    (i j : ℕ) (fd : ℤ) (uid : ℕ) (c : Client) (cs l : List Client)
    → take_entry i fd uid (c ∷ cs) ≡ some (j, l)
    → ((is_free c ≡ true) × (l ≡ record { fd = fd; uid = uid } ∷ cs))
      ⊎ ((m : List Client) × (take_entry (suc i) fd uid cs ≡ some (j, m)) × (l ≡ c ∷ m))
unfolding take_entry
entry_cases i j fd uid c cs l e = elim (Bool-cases (is_free c)) [
  | inl free ↦ inl (free, ground arith)
  | inr used ↦ go (take_entry (suc i) fd uid cs) refl used
]
  where
    go :
        (r : Option (ℕ × List Client))
        → take_entry (suc i) fd uid cs ≡ r
        → is_free c ≡ false
        → ((is_free c ≡ true) × (l ≡ record { fd = fd; uid = uid } ∷ cs))
          ⊎ ((m : List Client) × (take_entry (suc i) fd uid cs ≡ some (j, m)) × (l ≡ c ∷ m))
    go none d used = ground arith
    go (some (k, m)) d used = inr (m, ground arith, ground arith)

-- `client_del` undoes an entry that `client_add` has made for a new descriptor: the descriptors in the
-- table are those of before, entry by entry.
pub client_del-take_entry :
    (i j : ℕ) (fd : ℤ) (uid : ℕ) (cs l : List Client)
    → IsAbsent fd cs
    → take_entry i fd uid cs ≡ some (j, l)
    → fds (client_del fd l) ≡ fds cs
unfolding take_entry
client_del-take_entry i j fd uid [] l h e = cc
client_del-take_entry i j fd uid (c ∷ cs) l (ne, h) e = elim (entry_cases i j fd uid c cs l e) [
  | inl (free, is) ↦ rw is (rw (del_first fd uid cs) (ap (λ z. z ∷ fds cs) (sym (free_fd c free))))
  | inr (m, there, is) ↦ rw is (
      rw (del_other fd c m ne)
        (ap (λ zs. c.fd ∷ zs) (client_del-take_entry (suc i) j fd uid cs m h there)))
]
