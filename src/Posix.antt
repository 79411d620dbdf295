-- ===== src/Posix.antt =====
-- What the sources use of POSIX `read` and `write`: the results and `errno` as values, and the
-- calls themselves as parameters, since they are not code of this repository.
pub mod Stream
pub mod Sink
pub mod Printf
pub mod Script
pub mod Tape
pub mod Plain
use unix_advanced_programing.Prelude.{ℕ, ◌+◌, ◌-◌, ◌%◌, ◌^◌, ◌≤◌, ◌<◌, ◌≡◌, List, Option, arith}

-- The `errno` values that the sources name; `other` stands for all the rest.
pub data Errno : Type 0 where
  eintr enametoolong einval : Errno
  other : ℕ → Errno

-- An `ssize_t` result: a count, or -1 with the `errno` that the failing call has set, if it set one.
pub data Ssize : Type 0 where
  bytes : ℕ → Ssize
  minus_one : Option Errno → Ssize

-- `read` stores bytes (none at end of file) or fails.
pub data ReadResult : Type 0 where
  got : List ℕ → ReadResult
  read_err : Errno → ReadResult

-- `write` takes a number of the bytes or fails.
pub data WriteResult : Type 0 where
  put : ℕ → WriteResult
  write_err : Errno → WriteResult

-- `read(fd, buf, n)` over the state of everything outside the process.
pub record Reader : Type 1 where
  pub World : Type 0
  pub read : ℕ → ℕ → World → ReadResult × World

-- `write(fd, buf, n)`, with the `n` bytes of `buf` as a list.
pub record Writer : Type 1 where
  pub World : Type 0
  pub write : ℕ → List ℕ → World → WriteResult × World

-- What a reading loop leaves: its result, the bytes stored at `ptr`, and the world.
pub record Ret (W : Type 0) : Type 0 where
  pub ret : Ssize
  pub buf : List ℕ
  pub world : W

abbrev pub ret_of : {W : Type 0} → Ssize → List ℕ → W → Ret W
ret_of r b w = record { ret = r; buf = b; world = w }

-- `a - b` at type `size_t`.
abbrev pub size_sub : ℕ → ℕ → ℕ
size_sub a b = (a + 2 ^ 64 - b % 2 ^ 64) % 2 ^ 64

-- Where the difference is not negative nothing wraps.
pub size_sub-eq-sub : (a b : ℕ) → b ≤ a → a < 2 ^ 64 → size_sub a b ≡ a - b
size_sub-eq-sub a b h small = omega arith
