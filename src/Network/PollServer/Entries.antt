-- ===== src/Network/PollServer/Entries.antt =====
-- The entries of the table of clients: where the free ones lie, and what a change of one leaves.
use unix_advanced_programing.Prelude.{
  ℕ, zero, suc, ◌+◌, ◌-◌, ◌≢◌, ◌≤◌, ◌<◌, ◌≡◌, refl, ap, ◌∙◌, ◌⊎◌, inl, inr, true, false, Bool-cases,
  Option, none, some, List, [], ◌∷◌, arith, length, drop,
}
use unix_advanced_programing.Prelude.Int.{ℤ, is_neg}
use unix_advanced_programing.Network.PollServer.{Revents, PollFd, Server, set_revents, place}

abbrev pub AllFree : List PollFd → Type 0
AllFree [] = Unit {0}
AllFree (s ∷ ss) = (is_neg s.fd ≡ true) × AllFree ss

-- No entry in use lies behind `maxindex`, which points into the table.
pub record IsCompact (s : Server) : Type 0 where
  pub free_behind : AllFree (drop s.maxindex s.clients)
  pub in_table : s.maxindex ≤ length s.clients

-- The entries stay, or become free.
abbrev pub Shrinks : List PollFd → List PollFd → Type 0
Shrinks [] [] = Unit {0}
Shrinks [] (t ∷ ts) = ⊥
Shrinks (s ∷ ss) [] = ⊥
Shrinks (s ∷ ss) (t ∷ ts) = ((t.fd ≡ s.fd) ⊎ (is_neg t.fd ≡ true)) × Shrinks ss ts

pub Shrinks-refl : (ss : List PollFd) → Shrinks ss ss
Shrinks-refl [] = tt
Shrinks-refl (s ∷ ss) = (inl refl, Shrinks-refl ss)

pub Shrinks-length : (ss ts : List PollFd) → Shrinks ss ts → length ts ≡ length ss
Shrinks-length [] [] h = refl
Shrinks-length [] (t ∷ ts) h = elim h [ ]
Shrinks-length (s ∷ ss) [] h = elim h [ ]
Shrinks-length (s ∷ ss) (t ∷ ts) (_, h) = ap suc (Shrinks-length ss ts h)

pub Shrinks-AllFree :
    (m : ℕ) (ss ts : List PollFd) → Shrinks ss ts → AllFree (drop m ss) → AllFree (drop m ts)
Shrinks-AllFree zero [] [] h f = tt
Shrinks-AllFree (suc m) [] [] h f = tt
Shrinks-AllFree m [] (t ∷ ts) h f = elim h [ ]
Shrinks-AllFree m (s ∷ ss) [] h f = elim h [ ]
Shrinks-AllFree zero (s ∷ ss) (t ∷ ts) (inl e, h) (n, f) =
    (ap is_neg e ∙ n, Shrinks-AllFree zero ss ts h f)
Shrinks-AllFree zero (s ∷ ss) (t ∷ ts) (inr e, h) (n, f) = (e, Shrinks-AllFree zero ss ts h f)
Shrinks-AllFree (suc m) (s ∷ ss) (t ∷ ts) (_, h) f = Shrinks-AllFree m ss ts h f

pub set_revents-Shrinks :
    (n : ℕ) (rs : List Revents) (ss : List PollFd) → Shrinks ss (set_revents n rs ss)
unfolding set_revents
set_revents-Shrinks zero rs ss = Shrinks-refl ss
set_revents-Shrinks (suc n) [] ss = Shrinks-refl ss
set_revents-Shrinks (suc n) (r ∷ rs) [] = tt
set_revents-Shrinks (suc n) (r ∷ rs) (s ∷ ss) = (inl refl, set_revents-Shrinks n rs ss)

pub AllFree-drop :
    (m m' : ℕ) (ss : List PollFd) → m ≤ m' → AllFree (drop m ss) → AllFree (drop m' ss)
AllFree-drop zero zero ss h f = f
AllFree-drop zero (suc m') [] h f = tt
AllFree-drop zero (suc m') (s ∷ ss) h (_, f) = AllFree-drop zero m' ss (omega arith) f
AllFree-drop (suc m) zero ss h f = absurd (omega arith)
AllFree-drop (suc m) (suc m') [] h f = tt
AllFree-drop (suc m) (suc m') (s ∷ ss) h f = AllFree-drop m m' ss (omega arith) f

abbrev pub filled : ℤ → PollFd → PollFd
filled connfd s = record s { fd = connfd; events = true }

-- Either this entry is the one filled, or it is used and one of the others is filled.
pub place_cases :
    (i j : ℕ) (connfd : ℤ) (s : PollFd) (ss ts : List PollFd)
    → place i connfd (s ∷ ss) ≡ some (j, ts)
    → ((is_neg s.fd ≡ true) × (j ≡ i) × (ts ≡ filled connfd s ∷ ss))
      ⊎ ((us : List PollFd) × (is_neg s.fd ≡ false)
          × (place (suc i) connfd ss ≡ some (j, us))
          × (ts ≡ s ∷ us))
unfolding place
place_cases i j connfd s ss ts e = elim (Bool-cases (is_neg s.fd)) [
  | inl free ↦ inl (free, ground arith, ground arith)
  | inr used ↦ go (place (suc i) connfd ss) refl used
]
  where
    go :
        (r : Option (ℕ × List PollFd))
        → place (suc i) connfd ss ≡ r
        → is_neg s.fd ≡ false
        → ((is_neg s.fd ≡ true) × (j ≡ i) × (ts ≡ filled connfd s ∷ ss))
          ⊎ ((us : List PollFd) × (is_neg s.fd ≡ false)
              × (place (suc i) connfd ss ≡ some (j, us))
              × (ts ≡ s ∷ us))
    go none d used = ground arith
    go (some (k, us)) d used = inr (us, used, ground arith, ground arith)

pub place-nil : (i j : ℕ) (connfd : ℤ) (ts : List PollFd) → place i connfd [] ≢ some (j, ts)
unfolding place
place-nil i j connfd ts = λ e. cc

-- The new entry lies in the table.
pub place_bounds :
    (i j : ℕ) (connfd : ℤ) (ss ts : List PollFd)
    → place i connfd ss ≡ some (j, ts)
    → (i ≤ j) × (j < i + length ss) × (length ts ≡ length ss)
place_bounds i j connfd [] ts e = absurd (place-nil i j connfd ts e)
place_bounds i j connfd (s ∷ ss) ts e = elim (place_cases i j connfd s ss ts e) [
  | inl (_, at, is) ↦ (omega arith, omega arith, rw is refl)
  | inr (us, _, there, is) ↦
      let b = place_bounds (suc i) j connfd ss us there in
      (omega arith, omega arith, rw is (ap suc b.2))
]

-- The entries behind the new one are free if they were.
pub place-AllFree :
    (i m m' j : ℕ) (connfd : ℤ) (ss ts : List PollFd)
    → place i connfd ss ≡ some (j, ts)
    → m ≤ m'
    → j < i + m'
    → AllFree (drop m ss)
    → AllFree (drop m' ts)
place-AllFree i m m' j connfd [] ts e le lj f = absurd (place-nil i j connfd ts e)
place-AllFree i m zero j connfd (s ∷ ss) ts e le lj f =
    absurd (omega (arith, (place_bounds i j connfd (s ∷ ss) ts e).0))
place-AllFree i m (suc m') j connfd (s ∷ ss) ts e le lj f =
    elim (place_cases i j connfd s ss ts e) [
      | inl (_, at, is) ↦ rw is (AllFree-drop m (suc m') (s ∷ ss) le f)
      | inr (us, used, there, is) ↦ rw is (
          place-AllFree (suc i) (m - 1) m' j connfd ss us there (omega arith) (omega arith)
            (tail_free m used f))
    ]
  where
    tail_free :
        (n : ℕ) → is_neg s.fd ≡ false → AllFree (drop n (s ∷ ss)) → AllFree (drop (n - 1) ss)
    tail_free zero used (free, _) = cc
    tail_free (suc n) used f = let e : suc n - 1 ≡ n = omega arith in rw e f
