-- ===== src/Unp/Writen.antt =====
-- `Writen` of util/unp.c.
pub mod Total
pub mod Reliable
pub mod Plain
use unix_advanced_programing.Prelude.{
  ℕ, zero, suc, true, false, Option, none, some, List, [], ◌==◌, length, drop,
}
use unix_advanced_programing.Posix.{
  eintr, Ssize, bytes, minus_one, WriteResult, put, write_err, Writer, size_sub,
}

module _ (s : Writer) (fd n : ℕ) where
  open s use {World, write}

  -- `bs` are the bytes from `ptr` on, `nleft` of them.
  writen_round :
      (ℕ → List ℕ → World → Option (Ssize × World))
      → ℕ
      → List ℕ
      → WriteResult × World
      → Option (Ssize × World)
  writen_round next nleft bs (put zero, w) = some (minus_one none, w)
  writen_round next nleft bs (put (suc k), w) = next (size_sub nleft (suc k)) (drop (suc k) bs) w
  writen_round next nleft bs (write_err eintr, w) = next nleft bs w
  writen_round next nleft bs (write_err e, w) = some (minus_one (some e), w)

  -- `while (nleft > 0)`
  writen_loop : ℕ → ℕ → List ℕ → World → Option (Ssize × World)
  writen_loop zero nleft bs w = none
  writen_loop (suc k) nleft bs w = elim (nleft == 0) [
    | true ↦ some (bytes (size_sub n nleft), w)
    | false ↦ writen_round (writen_loop k) nleft bs (write fd bs w)
  ]

-- `Writen(fd, vptr, n)` with the `n` bytes at `vptr`.
pub writen : (s : Writer) → ℕ → ℕ → List ℕ → s.World → Option (Ssize × s.World)
unfolding writen_loop writen_round
writen s fd fuel bs w = writen_loop s fd (length bs) fuel (length bs) bs w
