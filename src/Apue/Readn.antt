-- ===== src/Apue/Readn.antt =====
-- `readn` of common/apue.c. It differs from `Readn` of util/unp.c: it does not retry an interrupted
-- read, and gives up with -1 only while nothing has been read.
pub mod Total
use unix_advanced_programing.Prelude.{
  ℕ, zero, suc, true, false, Option, none, some, List, [], ◌∷◌, ◌++◌, ◌==◌, if◌then◌else◌, length,
}
use unix_advanced_programing.Posix.{
  bytes, minus_one, ReadResult, got, read_err, Reader, Ret, ret_of, size_sub,
}

module _ (r : Reader) (fd n : ℕ) where
  open r use {World, read}

  readn_round :
      (ℕ → List ℕ → World → Option (Ret World))
      → ℕ
      → List ℕ
      → ReadResult × World
      → Option (Ret World)
  readn_round next nleft buf (got [], w) = some (ret_of (bytes (size_sub n nleft)) buf w)
  readn_round next nleft buf (got (b ∷ bs), w) =
      next (size_sub nleft (length (b ∷ bs))) (buf ++ (b ∷ bs)) w
  readn_round next nleft buf (read_err e, w) =
      if nleft == n
      then some (ret_of (minus_one (some e)) buf w)
      else some (ret_of (bytes (size_sub n nleft)) buf w)

  -- `while (nleft > 0)`
  readn_loop : ℕ → ℕ → List ℕ → World → Option (Ret World)
  readn_loop zero nleft buf w = none
  readn_loop (suc k) nleft buf w = elim (nleft == 0) [
    | true ↦ some (ret_of (bytes (size_sub n nleft)) buf w)
    | false ↦ readn_round (readn_loop k) nleft buf (read fd nleft w)
  ]

  pub readn : ℕ → World → Option (Ret World)
  unfolding readn_loop readn_round
  readn fuel w = readn_loop fuel n [] w
