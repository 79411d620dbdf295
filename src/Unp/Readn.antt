-- ===== src/Unp/Readn.antt =====
-- `Readn` and `Writen` of util/unp.c.
pub mod Total
use unix_advanced_programing.Prelude.{
  ℕ, zero, suc, true, false, Option, none, some, List, [], ◌∷◌, ◌++◌, ◌==◌, length,
}
use unix_advanced_programing.Posix.{
  eintr, bytes, minus_one, ReadResult, got, read_err, Reader, Ret, ret_of, size_sub,
}

module _ (r : Reader) (fd n : ℕ) where
  open r use {World, read}

  -- One round of the loop after `read`: `next` is the loop's next round.
  readn_round :
      (ℕ → List ℕ → World → Option (Ret World))
      → ℕ
      → List ℕ
      → ReadResult × World
      → Option (Ret World)
  readn_round next nleft buf (got [], w) = some (ret_of (bytes (size_sub n nleft)) buf w)
  readn_round next nleft buf (got (b ∷ bs), w) =
      next (size_sub nleft (length (b ∷ bs))) (buf ++ (b ∷ bs)) w
  readn_round next nleft buf (read_err eintr, w) = next nleft buf w
  readn_round next nleft buf (read_err e, w) = some (ret_of (minus_one (some e)) buf w)

  -- `while (nleft > 0)`, with fuel; `none` means that the fuel ran out.
  readn_loop : ℕ → ℕ → List ℕ → World → Option (Ret World)
  readn_loop zero nleft buf w = none
  readn_loop (suc k) nleft buf w = elim (nleft == 0) [
    | true ↦ some (ret_of (bytes (size_sub n nleft)) buf w)
    | false ↦ readn_round (readn_loop k) nleft buf (read fd nleft w)
  ]

  pub readn : ℕ → World → Option (Ret World)
  unfolding readn_loop readn_round
  readn fuel w = readn_loop fuel n [] w
