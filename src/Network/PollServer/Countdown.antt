-- ===== src/Network/PollServer/Countdown.antt =====
-- The early end of the loop over the clients, against a loop that looks at every client.
use unix_advanced_programing.Prelude.{
  ℕ, zero, suc, ◌+◌, ◌≤◌, ◌≡◌, refl, not, ◌&&◌, List, [], ◌∷◌, arith, if◌then◌else◌,
}
use unix_advanced_programing.Prelude.Int.{pos, is_neg}
use unix_advanced_programing.Network.PollServer.{PollFd, Calls, is_ready, serve, scan}

-- How many of the first `n` entries are clients with a ready descriptor.
abbrev pub readies : ℕ → List PollFd → ℕ
readies zero ss = 0
readies (suc n) [] = 0
readies (suc n) (s ∷ ss) = (if not (is_neg s.fd) && is_ready s then 1 else 0) + readies n ss

module _ (c : Calls) where
  open c use {World}

  -- Every ready client among the first `n` entries is served, in the order of the table.
  unfoldable pub serve_ready : ℕ → List PollFd → World → List PollFd × World
  serve_ready zero ss w = (ss, w)
  serve_ready (suc n) [] w = ([], w)
  serve_ready (suc n) (s ∷ ss) w =
      let here = (if not (is_neg s.fd) && is_ready s then serve c s w else (s, w)) in
      let rest = serve_ready n ss here.1 in (here.0 ∷ rest.0, rest.1)

  none_ready :
      (n : ℕ) (ss : List PollFd) (w : World) → readies n ss ≡ 0 → serve_ready n ss w ≡ (ss, w)
  unfolding serve_ready is_ready
  none_ready zero ss w h = refl
  none_ready (suc n) [] w h = refl
  none_ready (suc n) (s ∷ ss) w h = ground (arith, none_ready n ss w)

  -- Where `nready` is at least the number of ready clients, ending the loop when it has been counted
  -- down to 0 leaves no ready client unserved: the loop does what the one without a count does.
  pub scan-serve_ready :
      (n k : ℕ) (ss : List PollFd) (w : World)
      → readies n ss ≤ k
      → scan c n (pos k) ss w ≡ serve_ready n ss w
  unfolding scan serve_ready is_ready
  scan-serve_ready zero k ss w h = refl
  scan-serve_ready (suc n) k [] w h = refl
  scan-serve_ready (suc n) zero (s ∷ ss) w h = ground (arith, scan-serve_ready n 0 ss w)
  scan-serve_ready (suc n) (suc zero) (s ∷ ss) w h =
      ground (arith, scan-serve_ready n 1 ss w, none_ready n ss (serve c s w).1)
  scan-serve_ready (suc n) (suc (suc k)) (s ∷ ss) w h =
      ground (
        arith,
        scan-serve_ready n (suc (suc k)) ss w,
        scan-serve_ready n (suc k) ss (serve c s w).1,
      )
