-- ===== src/Network/PollServer/Descriptors.antt =====
-- The connections that the server holds open, against its table.
use mathlib.Core.List.{Mem, Perm, mem-cons_self, perm_middle, append_assoc}
use mathlib.Core.List.Perm
use unix_advanced_programing.Prelude.{
  ℕ, zero, suc, ◌≡◌, refl, ap, inl, inr, Bool, true, false, Bool-cases, Option, none, some, List,
  [], ◌∷◌, ◌++◌, replicate, if◌then◌else◌, ltb, ◌==◌,
}
use unix_advanced_programing.Prelude.Int.{ℤ, negsuc, is_neg, is_pos, pred_ℤ}
use unix_advanced_programing.Posix.{eintr, enametoolong, einval, other, ReadResult, got, read_err}
use unix_advanced_programing.Network.PollServer.{
  Revents, PollFd, Calls, Server, poll_init, set_revents, place, is_ready, served, serve, scan,
  scan_clients, accepted, polled, poll_round, poll_rounds, econnreset,
}
use unix_advanced_programing.Network.PollServer.Entries.{place_cases}

-- Documented behaviour of the calls. `opened` are the open connections: `accept` adds the one that it
-- returns, `close` removes the one that it is given, and the others keep them.
pub record IsKernel (c : Calls) : Type 0 where
  pub opened : c.World → List ℤ
  pub poll_law : (l : List PollFd) (w : c.World) → opened (c.poll l w).1 ≡ opened w
  pub accept_law :
      (fd n : ℤ) (w w' : c.World)
      → c.accept fd w ≡ (n, w')
      → is_neg n ≡ false
      → Perm (opened w') (n ∷ opened w)
  pub refused_law :
      (fd n : ℤ) (w w' : c.World) → c.accept fd w ≡ (n, w') → is_neg n ≡ true → opened w' ≡ opened w
  pub read_law : (fd : ℤ) (n : ℕ) (w : c.World) → opened (c.read fd n w).1 ≡ opened w
  pub write_law : (fd : ℤ) (bs : List ℕ) (w : c.World) → opened (c.write fd bs w) ≡ opened w
  pub close_law :
      (fd : ℤ) (w : c.World) → Mem fd (opened w) → Perm (opened w) (fd ∷ opened (c.close fd w))

abbrev pub held : ℤ → List ℤ
held fd = if is_neg fd then [] else fd ∷ []

-- The descriptors in the table.
abbrev pub descriptors : List PollFd → List ℤ
descriptors [] = []
descriptors (s ∷ ss) = held s.fd ++ descriptors ss

perm_exchange : (a b c : List ℤ) → Perm (a ++ (b ++ c)) (b ++ (a ++ c))
perm_exchange [] b c = Perm.rfl
perm_exchange (x ∷ a) b c =
    Perm.trans (Perm.cons x (perm_exchange a b c)) (Perm.symm (perm_middle b (a ++ c)))

set_revents-descriptors :
    (n : ℕ) (rs : List Revents) (ss : List PollFd)
    → descriptors (set_revents n rs ss) ≡ descriptors ss
unfolding set_revents
set_revents-descriptors zero rs ss = refl
set_revents-descriptors (suc n) [] ss = refl
set_revents-descriptors (suc n) (r ∷ rs) [] = refl
set_revents-descriptors (suc n) (r ∷ rs) (s ∷ ss) =
    ap (λ l. held s.fd ++ l) (set_revents-descriptors n rs ss)

-- A free entry gives place to the new connection.
place-descriptors :
    (i j : ℕ) (connfd : ℤ) (ss ts : List PollFd)
    → place i connfd ss ≡ some (j, ts)
    → Perm (descriptors ts) (held connfd ++ descriptors ss)
unfolding place
place-descriptors i j connfd [] ts e = cc
place-descriptors i j connfd (s ∷ ss) ts e = elim (place_cases i j connfd s ss ts e) [
  | inl (free, _, is) ↦ rw (is, free) Perm.rfl
  | inr (us, _, there, is) ↦ rw is (
      Perm.trans (Perm.append_left (held s.fd) (place-descriptors (suc i) j connfd ss us there))
        (perm_exchange (held s.fd) (held connfd) (descriptors ss)))
]

module _ {c : Calls} (k : IsKernel c) where
  open c use {World, poll, accept, read, write, close}
  open k use {opened, poll_law, accept_law, refused_law, read_law, write_law, close_law}

  closed :
      (fd : ℤ) (others : List ℤ) (w : World)
      → Perm (opened w) (fd ∷ others)
      → Perm (opened (close fd w)) others
  closed fd others w p =
      Perm.cons_inv (Perm.trans (Perm.symm (close_law fd w ((Perm.mem_iff p).1 mem-cons_self))) p)

  served-descriptors :
      (s : PollFd) (r : ReadResult) (w : World) (others : List ℤ)
      → is_neg s.fd ≡ false
      → Perm (opened w) (held s.fd ++ others)
      → Perm (opened (served c s (r, w)).1) (held (served c s (r, w)).0.fd ++ others)
  unfolding served
  served-descriptors s (got []) w others used p = closed s.fd others w (rw used at p)
  served-descriptors s (got (b ∷ bs)) w others used p = rw (write_law s.fd (b ∷ bs) w) p
  served-descriptors s (read_err eintr) w others used p = p
  served-descriptors s (read_err enametoolong) w others used p = p
  served-descriptors s (read_err einval) w others used p = p
  served-descriptors s (read_err (other e)) w others used p = elim (Bool-cases (e == econnreset)) [
    | inl reset ↦ rw (reset, served) (closed s.fd others w (rw used at p))
    | inr kept ↦ rw (kept, served) p
  ]

  serve-descriptors :
      (s : PollFd) (w : World) (others : List ℤ)
      → is_neg s.fd ≡ false
      → Perm (opened w) (held s.fd ++ others)
      → Perm (opened (serve c s w).1) (held (serve c s w).0.fd ++ others)
  unfolding serve
  serve-descriptors s w others used p =
      served-descriptors s (read s.fd 512 w).0 (read s.fd 512 w).1 others used
        (rw (read_law s.fd 512 w) p)

  -- The open connections are the descriptors in the table, and `others`.
  abbrev Balanced : List ℤ → List PollFd × World → Type 0
  Balanced others (ss, w) = Perm (opened w) (others ++ descriptors ss)

  Balanced-cases :
      (others : List ℤ) (b : Bool) (x y : List PollFd × World)
      → (b ≡ true → Balanced others x)
      → (b ≡ false → Balanced others y)
      → Balanced others (elim b [ true ↦ x | false ↦ y ])
  Balanced-cases others true x y hx hy = hx refl
  Balanced-cases others false x y hx hy = hy refl

  -- The entry in front, set aside for the rest of the loop and put back.
  aside :
      (h others d : List ℤ) {l : List ℤ} → Perm l (h ++ (others ++ d)) → Perm l ((h ++ others) ++ d)
  aside h others d p = rw (append_assoc h others d) p

  put_back :
      (h others d : List ℤ) {l : List ℤ} → Perm l ((h ++ others) ++ d) → Perm l (others ++ (h ++ d))
  put_back h others d p = Perm.trans (rw (append_assoc h others d) at p) (perm_exchange h others d)

  scan-Balanced :
      (n : ℕ) (nready : ℤ) (ss : List PollFd) (w : World) (others : List ℤ)
      → Balanced others (ss, w)
      → Balanced others (scan c n nready ss w)
  unfolding scan
  scan-Balanced zero nready ss w others p = p
  scan-Balanced (suc n) nready [] w others p = p
  scan-Balanced (suc n) nready (s ∷ ss) w others p =
      let h = held s.fd in
      let front = Perm.trans p (perm_exchange others h (descriptors ss)) in
      let past =
        put_back h others _
          (scan-Balanced n nready ss w (h ++ others) (aside h others (descriptors ss) front)) in
      let s' = (serve c s w).0 in
      let w' = (serve c s w).1 in
      Balanced-cases others (is_neg s.fd) _ _ (λ free. past)
        (λ used.
          Balanced-cases others (is_ready s) _ _
            (λ ready.
              let here = serve-descriptors s w (others ++ descriptors ss) used front in
              Balanced-cases others (is_pos (pred_ℤ nready)) _ _
                (λ more. put_back (held s'.fd) others _ (
                  scan-Balanced n (pred_ℤ nready) ss w' (held s'.fd ++ others)
                    (aside (held s'.fd) others (descriptors ss) here)))
                (λ last. Perm.trans here (perm_exchange (held s'.fd) others (descriptors ss))))
            (λ idle. past))

  -- The server that goes on, if it does, holds open just the connections of its table.
  abbrev pub Holds : Option (Server × World) → Type 0
  Holds none = Unit {0}
  Holds (some (s, w)) = Perm (opened w) (descriptors s.clients)

  scan_clients-Holds :
      (nready : ℤ) (s : Server) (w : World)
      → Perm (opened w) (descriptors s.clients)
      → Holds (scan_clients c nready s w)
  unfolding scan_clients
  scan_clients-Holds nready s w p = scan-Balanced s.maxindex nready s.clients w [] p

  Holds-if :
      (b : Bool) (x y : Option (Server × World)) → Holds x → Holds y → Holds (if b then x else y)
  Holds-if true x y hx hy = hx
  Holds-if false x y hx hy = hy

  accepted-Holds :
      (nready : ℤ) (s : Server) (connfd : ℤ) (w : World)
      → Perm (opened w) (held connfd ++ descriptors s.clients)
      → Holds (accepted c nready s (connfd, w))
  unfolding accepted
  accepted-Holds nready s connfd w p = go (place 1 connfd s.clients) refl
    where
      go :
          (r : Option (ℕ × List PollFd))
          → place 1 connfd s.clients ≡ r
          → Holds (accepted c nready s (connfd, w))
      go none e = rw (e, accepted) tt
      go (some (i, ts)) e =
          let s' : Server = record s {
            clients = ts;
            maxindex = if ltb s.maxindex i then i else s.maxindex;
          } in
          let q = Perm.trans p (Perm.symm (place-descriptors 1 i connfd s.clients ts e)) in
          rw (e, accepted)
            (Holds-if (is_pos (pred_ℤ nready)) _ _ (scan_clients-Holds (pred_ℤ nready) s' w q) q)

  accept-descriptors :
      (fd : ℤ) (w : World) (l : List ℤ)
      → Perm (opened w) l
      → Perm (opened (accept fd w).1) (held (accept fd w).0 ++ l)
  accept-descriptors fd w l p = elim (Bool-cases (is_neg (accept fd w).0)) [
    | inl none_new ↦ rw (none_new, refused_law fd _ w _ refl none_new) p
    | inr new ↦ rw new (Perm.trans (accept_law fd _ w _ refl new) (Perm.cons _ p))
  ]

  polled-Holds :
      (s : Server) (nready : ℤ) (rs : List Revents) (w : World)
      → Perm (opened w) (descriptors s.clients)
      → Holds (polled c s ((nready, rs), w))
  unfolding polled
  polled-Holds s nready [] w p = scan_clients-Holds nready s w p
  polled-Holds s nready (r ∷ rs) w p =
      let e = set_revents-descriptors s.maxindex rs s.clients in
      let s' : Server = record s {
        listener = record s.listener { revents = r };
        clients = set_revents s.maxindex rs s.clients;
      } in
      Holds-if r.rdnorm _ _
        (accepted-Holds nready s' (accept s.listener.fd w).0 (accept s.listener.fd w).1
          (rw e (accept-descriptors s.listener.fd w (descriptors s.clients) p)))
        (scan_clients-Holds nready s' w (rw e p))

  poll_round-Holds :
      (s : Server) (w : World) → Perm (opened w) (descriptors s.clients) → Holds (poll_round c s w)
  unfolding poll_round
  poll_round-Holds s w p = polled-Holds s _ _ _ (rw (poll_law _ w) p)

  rounds-Holds :
      (n : ℕ) (s : Server) (w : World)
      → Perm (opened w) (descriptors s.clients)
      → Holds (poll_rounds c n s w)
  unfolding poll_rounds
  rounds-Holds zero s w p = p
  rounds-Holds (suc n) s w p =
      go (λ s' w' p'. rounds-Holds n s' w' p') (poll_round c s w) (poll_round-Holds s w p)
    where
      go :
          ((s' : Server) (w' : World)
            → Perm (opened w') (descriptors s'.clients)
            → Holds (poll_rounds c n s' w'))
          → (r : Option (Server × World)) → Holds r
          → Holds (elim r [ none ↦ none | some (s', w') ↦ poll_rounds c n s' w' ])
      go next none h = tt
      go next (some (s', w')) h = next s' w' h

  descriptors_free : (n : ℕ) (s : PollFd) → is_neg s.fd ≡ true → descriptors (replicate n s) ≡ []
  descriptors_free zero s h = refl
  descriptors_free (suc n) s h = rw h (descriptors_free n s h)

  -- From the start on, with no connection open: in every round each connection that was accepted and
  -- not closed stands in the table as often as it is open, and nothing else does. No connection is
  -- dropped without a `close`, and none is closed that stays in the table.
  pub poll_server-Holds :
      (n : ℕ) (listenfd : ℤ) (junk : PollFd) (w : World)
      → opened w ≡ []
      → Holds (poll_rounds c n (poll_init listenfd junk) w)
  unfolding poll_init
  poll_server-Holds n listenfd junk w e =
      rounds-Holds n _ w
        (rw (e, descriptors_free 1023 (record junk { fd = negsuc 0 }) refl) Perm.rfl)
