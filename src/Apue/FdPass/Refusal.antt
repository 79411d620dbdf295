-- ===== src/Apue/FdPass/Refusal.antt =====
-- What `recv_fd` of common/apue.c cannot return.
use unix_advanced_programing.Prelude.{
  ℕ, zero, suc, ◌-◌, ◌≤◌, ◌≡◌, refl, ◌⊎◌, inl, inr, true, Bool-cases, Option, none, some, List, [],
  ◌∷◌, ◌==◌, ltb, arith, length, take, if◌then◌else◌, subst,
}
use unix_advanced_programing.Prelude.Int.{ℤ, pos, negsuc}
use unix_advanced_programing.Apue.FdPass.{
  Received, datagram, recv_failed, Receiver, Recv, returned, undefined, out_of_fuel, Scan, plain,
  misplaced, status, scan, refused, recv_tail, recv_status, recv_message, after_scan, recv_loop,
  recv_fd,
}

module _ (r : Receiver) (maxline fd : ℕ) (error_process : List ℕ → ℤ) where
  open r use {World, recvmsg}

  -- No descriptor among the ways to end.
  abbrev NoDescriptor : Recv World → Type 0
  NoDescriptor (returned (pos d) w) = ⊥
  NoDescriptor (returned (negsuc n) w) = Unit {0}
  NoDescriptor (undefined w) = Unit {0}
  NoDescriptor out_of_fuel = Unit {0}

  tail-NoDescriptor :
      (again : World → Recv World) (new : ℤ) (st : ℕ) (text : List ℕ) (w : World)
      → NoDescriptor (again w)
      → ((st ≡ 0) ⊎ ((n : ℕ) × (new ≡ negsuc n)))
      → NoDescriptor (recv_tail r maxline fd error_process again new st text w)
  unfolding recv_tail
  tail-NoDescriptor again new st text w ih h =
      elim (Bool-cases (refused r maxline fd error_process text)) [
        | inl no' ↦ rw no' tt
        | inr fine ↦ rw fine (go h)
      ]
    where
      go :
          ((st ≡ 0) ⊎ ((n : ℕ) × (new ≡ negsuc n)))
          → NoDescriptor (if ltb 0 st then returned new w else again w)
      go (inl z) = rw z ih
      go (inr (n, e)) = elim (Bool-cases (ltb 0 st)) [
        | inl some' ↦ rw (some', e) tt
        | inr none' ↦ rw none' ih
      ]

  status-NoDescriptor :
      (again : World → Recv World) (st : ℕ) (control : Option ℕ) (text : List ℕ) (w : World)
      → NoDescriptor (again w)
      → NoDescriptor (recv_status r maxline fd error_process again st control text w)
  unfolding recv_status
  status-NoDescriptor again zero none text w ih = tt
  status-NoDescriptor again zero (some d) text w ih =
      tail-NoDescriptor again (pos d) 0 text w ih (inl refl)
  status-NoDescriptor again (suc n) control text w ih =
      tail-NoDescriptor again (negsuc n) (suc n) text w ih (inr (n, refl))

  scan-NoDescriptor :
      (again : World → Recv World) (bs : List ℕ) (control : Option ℕ) (w : World) (s : Scan)
      → NoDescriptor (again w)
      → NoDescriptor (after_scan r maxline fd error_process again bs control w s)
  unfolding after_scan
  scan-NoDescriptor again bs control w plain ih =
      tail-NoDescriptor again (negsuc 0) 0 bs w ih (inl refl)
  scan-NoDescriptor again bs control w misplaced ih = tt
  scan-NoDescriptor again bs control w (status st) ih =
      status-NoDescriptor again st control (take (length bs - 2) bs) w ih

  message-NoDescriptor :
      (again : World → Recv World) (m : Received × World)
      → ((w : World) → NoDescriptor (again w))
      → NoDescriptor (recv_message r maxline fd error_process again m)
  unfolding recv_message
  message-NoDescriptor again (recv_failed, w) ih = tt
  message-NoDescriptor again (datagram [] control, w) ih = tt
  message-NoDescriptor again (datagram (b ∷ bs) control, w) ih =
      scan-NoDescriptor again (b ∷ bs) control w (scan (length (b ∷ bs)) 0 (b ∷ bs)) (ih w)

  loop-NoDescriptor : (k : ℕ) (w : World) → NoDescriptor (recv_loop r maxline fd error_process k w)
  unfolding recv_loop
  loop-NoDescriptor zero w = tt
  loop-NoDescriptor (suc k) w =
      message-NoDescriptor (recv_loop r maxline fd error_process k) (recvmsg fd maxline w)
        (λ v. loop-NoDescriptor k v)

  -- Whatever comes, `recv_fd` returns no descriptor: a value that it returns is negative.
  pub recv_fd_negative :
      (fuel : ℕ) (w w' : World) (v : ℤ)
      → recv_fd r maxline fd error_process fuel true w ≡ returned v w'
      → (n : ℕ) × (v ≡ negsuc n)
  unfolding recv_fd
  recv_fd_negative fuel w w' (pos d) e = absurd (subst NoDescriptor e (loop-NoDescriptor fuel w))
  recv_fd_negative fuel w w' (negsuc n) e = (n, refl)

-- With `MAXLINE` as apue.h has it, a buffer of one byte.
module _ (r : Receiver) (fd : ℕ) (error_process : List ℕ → ℤ) where
  open r use {World, recvmsg}

  -- -1 is the one value to return.
  abbrev OnlyMinusOne : Recv World → Type 0
  OnlyMinusOne (returned v w) = v ≡ negsuc 0
  OnlyMinusOne (undefined w) = Unit {0}
  OnlyMinusOne out_of_fuel = Unit {0}

  byte-OnlyMinusOne :
      (again : World → Recv World) (b : ℕ) (control : Option ℕ) (w : World)
      → OnlyMinusOne (again w)
      → OnlyMinusOne (recv_message r 1 fd error_process again (datagram (b ∷ []) control, w))
  unfolding recv_message after_scan recv_tail scan
  byte-OnlyMinusOne again b control w ih = elim (Bool-cases (b == 0)) [
    | inl z ↦ rw z tt
    | inr other ↦ rw other (elim (Bool-cases (refused r 1 fd error_process (b ∷ []))) [
      | inl no' ↦ rw no' refl
      | inr fine ↦ rw fine ih
    ])
  ]

  message-OnlyMinusOne :
      (again : World → Recv World) (m : Received × World) (v : World)
      → recvmsg fd 1 v ≡ m
      → ((w w' : World) (bs : List ℕ) (control : Option ℕ)
          → recvmsg fd 1 w ≡ (datagram bs control, w')
          → length bs ≤ 1)
      → ((w : World) → OnlyMinusOne (again w))
      → OnlyMinusOne (recv_message r 1 fd error_process again m)
  unfolding recv_message
  message-OnlyMinusOne again (recv_failed, w) v e fits ih = tt
  message-OnlyMinusOne again (datagram [] control, w) v e fits ih = tt
  message-OnlyMinusOne again (datagram (b ∷ []) control, w) v e fits ih =
      byte-OnlyMinusOne again b control w (ih w)
  message-OnlyMinusOne again (datagram (b ∷ c ∷ cs) control, w) v e fits ih =
      absurd (omega (arith, fits v w (b ∷ c ∷ cs) control e))

  loop-OnlyMinusOne :
      ((w w' : World) (bs : List ℕ) (control : Option ℕ)
        → recvmsg fd 1 w ≡ (datagram bs control, w')
        → length bs ≤ 1)
      → (k : ℕ) (w : World) → OnlyMinusOne (recv_loop r 1 fd error_process k w)
  unfolding recv_loop
  loop-OnlyMinusOne fits zero w = tt
  loop-OnlyMinusOne fits (suc k) w =
      message-OnlyMinusOne (recv_loop r 1 fd error_process k) (recvmsg fd 1 w) w refl fits
        (λ v. loop-OnlyMinusOne fits k v)

  -- With the one-byte buffer of apue.h, and `recvmsg` storing no more than there is room for, the only
  -- value that `recv_fd` returns is -1: no status of the sender comes through.
  pub recv_fd_one_byte :
      ((w w' : World) (bs : List ℕ) (control : Option ℕ)
        → recvmsg fd 1 w ≡ (datagram bs control, w')
        → length bs ≤ 1)
      → (fuel : ℕ) (w w' : World) (v : ℤ) → recv_fd r 1 fd error_process fuel true w ≡ returned v w'
      → v ≡ negsuc 0
  unfolding recv_fd
  recv_fd_one_byte fits fuel w w' v e = subst OnlyMinusOne e (loop-OnlyMinusOne fits fuel w)
