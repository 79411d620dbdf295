-- ===== src/Network/Ipc/Retry.antt =====
-- The repeated attempts of a client: when they end, and what they leave.
use unix_advanced_programing.Prelude.{
  ℕ, zero, suc, ◌<◌, ◌≡◌, refl, subst, ap, ◌∙◌, Option, none, some, List, ◌∷◌, arith,
}
use unix_advanced_programing.Prelude.Int.{ℤ, pos, negsuc}
use unix_advanced_programing.Apue.UnixSocket.Calls.{FilePath, Kernel, erase, IsTracked}
use unix_advanced_programing.Network.Ipc.{
  pause, retry_loop, connect_retry, tried, opened_socket, connect_retry_v2,
}

module _ (k : Kernel) (sleep : ℕ → k.World → k.World) (fd : ℕ) (addr : FilePath) where
  open k use {World, connect}

  -- The world behind one attempt and its pause, and behind `n` of them.
  abbrev pub attempt : World → World
  attempt w = sleep 1 (connect fd addr w).1

  abbrev pub attempts : ℕ → World → World
  attempts zero w = w
  attempts (suc n) w = attempts n (attempt w)

  abbrev pub IsFailure : ℤ × World → Type 0
  IsFailure (pos n, w) = ⊥
  IsFailure (negsuc n, w) = Unit {0}

  abbrev pub IsSuccess : ℤ × World → Type 0
  IsSuccess (pos n, w) = Unit {0}
  IsSuccess (negsuc n, w) = ⊥

  retry_failed :
      (n : ℕ) (w : World)
      → IsFailure (connect fd addr w)
      → connect_retry k sleep (suc n) fd addr w ≡ connect_retry k sleep n fd addr (attempt w)
  unfolding connect_retry
  retry_failed n w h = go (connect fd addr w) refl h
    where
      go :
          (r : ℤ × World)
          → connect fd addr w ≡ r
          → IsFailure r
          → connect_retry k sleep (suc n) fd addr w ≡ connect_retry k sleep n fd addr (attempt w)
      go (pos m, v) e h = elim h [ ]
      go (negsuc m, v) e h = rw (e, retry_loop, ap (λ (r : ℤ × World). r.1) e, pause)

  retry_done :
      (n : ℕ) (w : World)
      → IsSuccess (connect fd addr w)
      → connect_retry k sleep (suc n) fd addr w ≡ some (pos 0, (connect fd addr w).1)
  unfolding connect_retry
  retry_done n w h = go (connect fd addr w) refl h
    where
      go :
          (r : ℤ × World)
          → connect fd addr w ≡ r
          → IsSuccess r
          → connect_retry k sleep (suc n) fd addr w ≡ some (pos 0, (connect fd addr w).1)
      go (pos m, v) e h = rw (e, retry_loop, ap (λ (r : ℤ × World). r.1) e)
      go (negsuc m, v) e h = elim h [ ]

  -- `connect_retry` goes on until the first attempt that succeeds: with fuel for the `n` attempts before
  -- it, which fail, it returns 0 right behind it.
  pub connect_retry-attempts :
      (n fuel : ℕ) (w : World)
      → n < fuel
      → ((i : ℕ) → i < n → IsFailure (connect fd addr (attempts i w)))
      → IsSuccess (connect fd addr (attempts n w))
      → connect_retry k sleep fuel fd addr w ≡ some (pos 0, (connect fd addr (attempts n w)).1)
  connect_retry-attempts n zero w h fails ok = absurd (omega arith)
  connect_retry-attempts zero (suc fuel) w h fails ok = retry_done fuel w ok
  connect_retry-attempts (suc n) (suc fuel) w h fails ok =
      retry_failed fuel w (fails 0 (omega arith))
      ∙ connect_retry-attempts n fuel (attempt w) (omega arith)
          (λ i lt. fails (suc i) (omega arith)) ok

  -- Where no attempt succeeds `connect_retry` never returns, however much fuel is given: the pause is
  -- not doubled, and the -1 behind the loop is not reached.
  pub connect_retry_stuck :
      (fuel : ℕ) (w : World)
      → ((i : ℕ) → IsFailure (connect fd addr (attempts i w)))
      → connect_retry k sleep fuel fd addr w ≡ none
  unfolding connect_retry
  connect_retry_stuck zero w fails = refl
  connect_retry_stuck (suc fuel) w fails =
      retry_failed fuel w (fails 0) ∙ connect_retry_stuck fuel (attempt w) (λ i. fails (suc i))

-- The sockets of the second version.
module _ {k : Kernel} (t : IsTracked k) (sleep : ℕ → k.World → k.World) where
  open k use {World, socket, connect, close}
  open t use {opened, socket_ok, socket_err, close_law, connect_law}

  erase_self : (a : ℕ) (xs : List ℕ) → erase a (a ∷ xs) ≡ xs
  erase_self a xs = ground arith

  -- Where the loop returns, the socket returned is open besides those of before, or with -1 none is.
  abbrev pub Held : List ℕ → Option (ℤ × World) → Type 0
  Held fds none = Unit {0}
  Held fds (some (pos fd, w)) = opened w ≡ fd ∷ fds
  Held fds (some (negsuc n, w)) = opened w ≡ fds

  module _ (quiet : (n : ℕ) (w : World) → opened (sleep n w) ≡ opened w) where
    tried-Held :
        (fds : List ℕ) (next : World → Option (ℤ × World)) (fd : ℕ) (r : ℤ × World)
        → ((v : World) → opened v ≡ fds → Held fds (next v))
        → opened r.1 ≡ fd ∷ fds
        → Held fds (tried k sleep next 1 fd r)
    unfolding tried
    tried-Held fds next fd (pos m, w) ih o = o
    tried-Held fds next fd (negsuc m, w) ih o =
        ih (sleep 1 (close fd w))
          (quiet 1 (close fd w) ∙ (close_law fd w).0 ∙ ap (erase fd) o ∙ erase_self fd fds)

    opened-Held :
        (next : World → Option (ℤ × World)) (addr : FilePath) (w : World) (r : ℤ × World)
        → ((v : World) → opened v ≡ opened w → Held (opened w) (next v))
        → socket w ≡ r
        → Held (opened w) (opened_socket k sleep next 1 addr r)
    unfolding opened_socket
    opened-Held next addr w (pos fd, v) ih e =
        tried-Held (opened w) next fd (connect fd addr v) ih
          ((connect_law fd addr v).0 ∙ (socket_ok w v fd e).0)
    opened-Held next addr w (negsuc n, v) ih e = (socket_err w v n e).0

    -- `connect_retry_v2` leaves open the socket that it returns and the ones of before, or with -1 only
    -- those of before: each attempt that fails gives its socket back.
    pub connect_retry_v2-Held :
        (fuel : ℕ) (addr : FilePath) (w : World)
        → Held (opened w) (connect_retry_v2 k sleep fuel addr w)
    unfolding connect_retry_v2
    connect_retry_v2-Held zero addr w = tt
    connect_retry_v2-Held (suc n) addr w =
        opened-Held _ addr w (socket w)
          (λ v o.
            subst (λ fds. Held fds (connect_retry_v2 k sleep n addr v)) o
              (connect_retry_v2-Held n addr v))
          refl
