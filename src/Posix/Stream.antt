-- ===== src/Posix/Stream.antt =====
-- Documented behaviour of `read` on a byte stream (a socket, a pipe, a terminal or a file): what the
-- reading loops rely on.
use unix_advanced_programing.Prelude.{ℕ, ◌≤◌, ◌<◌, ◌≡◌, List, [], ◌++◌, length}
use unix_advanced_programing.Posix.{Errno, eintr, got, read_err, Reader}

-- `pending` are the bytes up to end of file that nobody has read yet, and `patience` bounds the
-- number of signals that still interrupt a read. A read takes a prefix of the pending bytes, at most
-- as long as asked for, and nothing only at end of file; a failed read takes nothing.
pub record IsStream (r : Reader) (fd : ℕ) : Type 0 where
  pub pending : r.World → List ℕ
  pub patience : r.World → ℕ
  pub got_law :
      (n : ℕ) (w w' : r.World) (bs : List ℕ)
      → r.read fd n w ≡ (got bs, w')
      → (pending w ≡ bs ++ pending w')
        × (length bs ≤ n)
        × (patience w' ≤ patience w)
        × (bs ≡ [] → 0 < n → pending w ≡ [])
  pub err_law :
      (n : ℕ) (w w' : r.World) (e : Errno)
      → r.read fd n w ≡ (read_err e, w')
      → (pending w' ≡ pending w)
        × (patience w' ≤ patience w)
        × (e ≡ eintr → patience w' < patience w)
