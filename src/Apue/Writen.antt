-- ===== src/Apue/Writen.antt =====
-- `writen` of common/apue.c.
pub mod Total
use unix_advanced_programing.Prelude.{
  ℕ, zero, suc, true, false, Option, none, some, List, [], ◌==◌, if◌then◌else◌, length, drop,
}
use unix_advanced_programing.Posix.{
  Ssize, bytes, minus_one, WriteResult, put, write_err, Writer, size_sub,
}

module _ (s : Writer) (fd n : ℕ) where
  open s use {World, write}

  -- `bs` are the bytes from `ptr` on, `nleft` of them.
  writen_round :
      (ℕ → List ℕ → World → Option (Ssize × World))
      → ℕ
      → List ℕ
      → WriteResult × World
      → Option (Ssize × World)
  writen_round next nleft bs (put zero, w) = some (bytes (size_sub n nleft), w)
  writen_round next nleft bs (put (suc k), w) = next (size_sub nleft (suc k)) (drop (suc k) bs) w
  writen_round next nleft bs (write_err e, w) =
      if nleft == n then some (minus_one (some e), w) else some (bytes (size_sub n nleft), w)

  -- `while (nleft > 0)`
  writen_loop : ℕ → ℕ → List ℕ → World → Option (Ssize × World)
  writen_loop zero nleft bs w = none
  writen_loop (suc k) nleft bs w = elim (nleft == 0) [
    | true ↦ some (bytes (size_sub n nleft), w)
    | false ↦ writen_round (writen_loop k) nleft bs (write fd bs w)
  ]

-- `writen(fd, ptr, n)` with the `n` bytes at `ptr`.
unfoldable pub writen : (s : Writer) → ℕ → ℕ → List ℕ → s.World → Option (Ssize × s.World)
unfolding writen_loop writen_round
writen s fd fuel bs w = writen_loop s fd (length bs) fuel (length bs) bs w
