-- ===== src/Network/PollServer/Table.antt =====
-- The table of clients against `maxindex`.
use unix_advanced_programing.Prelude.{
  ℕ, zero, suc, ◌≡◌, refl, ◌⊎◌, inl, inr, Bool, true, false, Bool-cases, Option, none, some, List,
  [], ◌∷◌, arith, drop, replicate, ltb, if◌then◌else◌, ◌==◌,
}
use unix_advanced_programing.Prelude.Int.{ℤ, negsuc, is_neg, is_pos, pred_ℤ}
use unix_advanced_programing.Posix.{eintr, enametoolong, einval, other, ReadResult, got, read_err}
use unix_advanced_programing.Network.PollServer.{
  Revents, PollFd, Calls, Server, poll_init, set_revents, place, is_ready, served, serve, scan,
  scan_clients, accepted, polled, poll_round, poll_rounds, econnreset,
}
use unix_advanced_programing.Network.PollServer.Entries.{
  AllFree, IsCompact, Shrinks, Shrinks-refl, Shrinks-length, Shrinks-AllFree, set_revents-Shrinks,
  place_bounds, place-AllFree,
}

module _ (c : Calls) where
  open c use {World, poll, accept, read}

  served-Shrinks :
      (s : PollFd) (r : ReadResult) (w : World)
      → ((served c s (r, w)).0.fd ≡ s.fd) ⊎ (is_neg (served c s (r, w)).0.fd ≡ true)
  unfolding served
  served-Shrinks s (got []) w = inr refl
  served-Shrinks s (got (b ∷ bs)) w = inl refl
  served-Shrinks s (read_err eintr) w = inl refl
  served-Shrinks s (read_err enametoolong) w = inl refl
  served-Shrinks s (read_err einval) w = inl refl
  served-Shrinks s (read_err (other e)) w = elim (Bool-cases (e == econnreset)) [
    | inl reset ↦ inr (rw (reset, served) refl)
    | inr kept ↦ inl (rw (kept, served) refl)
  ]

  scan-Shrinks : (n : ℕ) (k : ℤ) (ss : List PollFd) (w : World) → Shrinks ss (scan c n k ss w).0
  unfolding scan serve
  scan-Shrinks zero k ss w = Shrinks-refl ss
  scan-Shrinks (suc n) k [] w = tt
  scan-Shrinks (suc n) k (s ∷ ss) w = elim (Bool-cases (is_neg s.fd)) [
    | inl free ↦ rw (free, scan) (inl refl, scan-Shrinks n k ss w)
    | inr used ↦
        rw (used, scan)
          (elim (Bool-cases (is_ready s)) [
            | inr idle ↦ rw (idle, scan) (inl refl, scan-Shrinks n k ss w)
            | inl ready ↦
                rw (ready, scan)
                  (let first = served-Shrinks s (read s.fd 512 w).0 (read s.fd 512 w).1 in
                    elim (Bool-cases (is_pos (pred_ℤ k))) [
                      | inr last ↦ rw (last, scan) (first, Shrinks-refl ss)
                      | inl more ↦
                          rw (more, scan) (first, scan-Shrinks n (pred_ℤ k) ss (serve c s w).1)
                    ])
          ])
  ]

  -- The server that goes on, if it does, is compact.
  abbrev pub Keeps : Option (Server × World) → Type 0
  Keeps none = Unit {0}
  Keeps (some (s, w)) = IsCompact s

  Keeps-if :
      (b : Bool) (x y : Option (Server × World)) → Keeps x → Keeps y → Keeps (if b then x else y)
  Keeps-if true x y hx hy = hx
  Keeps-if false x y hx hy = hy

  scan_clients-Keeps : (k : ℤ) (s : Server) (w : World) → IsCompact s → Keeps (scan_clients c k s w)
  unfolding scan_clients
  scan_clients-Keeps k s w v =
      let h = scan-Shrinks s.maxindex k s.clients w in
      record {
        free_behind = Shrinks-AllFree s.maxindex s.clients _ h v.free_behind;
        in_table = omega (arith, v.in_table, Shrinks-length s.clients _ h);
      }

  abbrev widened : ℕ → ℕ → ℕ
  widened m i = if ltb m i then i else m

  placed-IsCompact :
      (i : ℕ) (connfd : ℤ) (s : Server) (ts : List PollFd)
      → place 1 connfd s.clients ≡ some (i, ts)
      → IsCompact s
      → IsCompact (record s { clients = ts; maxindex = widened s.maxindex i })
  placed-IsCompact i connfd s ts e v =
      let b = place_bounds 1 i connfd s.clients ts e in
      record {
        free_behind =
            place-AllFree 1 s.maxindex (widened s.maxindex i) i connfd s.clients ts e (ground arith)
              (ground arith) v.free_behind;
        in_table = ground (arith, b.1, b.2, v.in_table);
      }

  accepted-Keeps :
      (k : ℤ) (s : Server) (connfd : ℤ) (w : World)
      → IsCompact s
      → Keeps (accepted c k s (connfd, w))
  unfolding accepted
  accepted-Keeps k s connfd w v = go (place 1 connfd s.clients) refl
    where
      go :
          (r : Option (ℕ × List PollFd))
          → place 1 connfd s.clients ≡ r
          → Keeps (accepted c k s (connfd, w))
      go none e = rw (e, accepted) tt
      go (some (i, ts)) e =
          let v' = placed-IsCompact i connfd s ts e v in
          elim (Bool-cases (is_pos (pred_ℤ k))) [
            | inl more ↦ rw (e, accepted, more) (scan_clients-Keeps (pred_ℤ k) _ w v')
            | inr last ↦ rw (e, accepted, last) v'
          ]

  revents-IsCompact :
      (r : Revents) (rs : List Revents) (s : Server)
      → IsCompact s
      → IsCompact (record s {
        listener = record s.listener { revents = r };
        clients = set_revents s.maxindex rs s.clients;
      })
  revents-IsCompact r rs s v =
      let h = set_revents-Shrinks s.maxindex rs s.clients in
      record {
        free_behind = Shrinks-AllFree s.maxindex s.clients _ h v.free_behind;
        in_table = omega (arith, v.in_table, Shrinks-length s.clients _ h);
      }

  polled-Keeps :
      (s : Server) (k : ℤ) (rs : List Revents) (w : World)
      → IsCompact s
      → Keeps (polled c s ((k, rs), w))
  unfolding polled
  polled-Keeps s k [] w v = scan_clients-Keeps k s w v
  polled-Keeps s k (r ∷ rs) w v =
      let v' = revents-IsCompact r rs s v in
      Keeps-if r.rdnorm _ _ (accepted-Keeps k _ _ _ v') (scan_clients-Keeps k _ w v')

  poll_round-Keeps : (s : Server) (w : World) → IsCompact s → Keeps (poll_round c s w)
  unfolding poll_round
  poll_round-Keeps s w v = polled-Keeps s _ _ _ v

  rounds-Keeps : (n : ℕ) (s : Server) (w : World) → IsCompact s → Keeps (poll_rounds c n s w)
  unfolding poll_rounds
  rounds-Keeps zero s w v = v
  rounds-Keeps (suc n) s w v =
      go (λ s' w' v'. rounds-Keeps n s' w' v') (poll_round c s w) (poll_round-Keeps s w v)
    where
      go :
          ((s' : Server) (w' : World) → IsCompact s' → Keeps (poll_rounds c n s' w'))
          → (r : Option (Server × World)) → Keeps r
          → Keeps (elim r [ none ↦ none | some (s', w') ↦ poll_rounds c n s' w' ])
      go next none h = tt
      go next (some (s', w')) h = next s' w' h

  free-AllFree : (n m : ℕ) (s : PollFd) → is_neg s.fd ≡ true → AllFree (drop m (replicate n s))
  free-AllFree zero zero s h = tt
  free-AllFree zero (suc m) s h = tt
  free-AllFree (suc n) zero s h = (h, free-AllFree n zero s h)
  free-AllFree (suc n) (suc m) s h = free-AllFree n m s h

  -- From the start on, whatever the calls answer: behind `maxindex` every entry is free, so that `poll`
  -- is given every client, and `maxindex` stays within the table.
  pub poll_server-IsCompact :
      (n : ℕ) (listenfd : ℤ) (junk : PollFd) (w : World)
      → Keeps (poll_rounds c n (poll_init listenfd junk) w)
  unfolding poll_init
  poll_server-IsCompact n listenfd junk w = rounds-Keeps n _ w (record {
    free_behind = free-AllFree 1023 0 (record junk { fd = negsuc 0 }) refl;
    in_table = omega arith;
  })
