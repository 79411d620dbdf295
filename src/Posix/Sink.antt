-- ===== src/Posix/Sink.antt =====
-- Documented behaviour of `write` on a byte stream: what the writing loops rely on.
use unix_advanced_programing.Prelude.{ℕ, ◌≤◌, ◌<◌, ◌≡◌, List, ◌++◌, length, take}
use unix_advanced_programing.Posix.{Errno, eintr, put, write_err, Writer}

-- `sent` are the bytes taken so far, in order. A write takes a prefix of the bytes that it is given,
-- possibly none; a failed write takes nothing.
pub record IsSink (s : Writer) (fd : ℕ) : Type 0 where
  pub sent : s.World → List ℕ
  pub patience : s.World → ℕ
  pub put_law :
      (bs : List ℕ) (w w' : s.World) (k : ℕ)
      → s.write fd bs w ≡ (put k, w')
      → (sent w' ≡ sent w ++ take k bs) × (k ≤ length bs) × (patience w' ≤ patience w)
  pub err_law :
      (bs : List ℕ) (w w' : s.World) (e : Errno)
      → s.write fd bs w ≡ (write_err e, w')
      → (sent w' ≡ sent w) × (patience w' ≤ patience w) × (e ≡ eintr → patience w' < patience w)
