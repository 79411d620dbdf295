-- ===== src/Files/AioCopy/Kernel.antt =====
-- Documented behaviour of asynchronous input and output on regular files, without failures.
use unix_advanced_programing.Prelude.{
  ℕ, ◌+◌, ◌-◌, ◌≤◌, ◌<◌, ◌≡◌, ◌≢◌, ◌&&◌, Option, some, List, length, take, drop, get_elem?,
  if◌then◌else◌, ltb, leb,
}
use unix_advanced_programing.Posix.{got, put}
use unix_advanced_programing.Files.AioCopy.{Status, in_progress, failed, Calls}

-- What a worker has asked for last.
pub data Request : Type 0 where
  reading : ℕ → ℕ → Request
  writing : ℕ → List ℕ → Request

-- `input` is the file that is read and `output` the other one, byte by byte. A read that has ended
-- gives the bytes from its offset on, as many as it asked for or as there are; a write that has ended
-- has put its bytes at its offset and has left the others. `patience` bounds the EINPROGRESS answers
-- that are still to come.
pub record IsAio (c : Calls) (input : List ℕ) : Type 0 where
  pub asked : c.World → ℕ → Option Request
  pub output : c.World → ℕ → Option ℕ
  pub patience : c.World → ℕ
  pub read_law :
      (i off n : ℕ) (w : c.World)
      → (asked (c.aio_read i off n w) i ≡ some (reading off n))
        × ((j : ℕ) → i ≢ j → asked (c.aio_read i off n w) j ≡ asked w j)
        × ((p : ℕ) → output (c.aio_read i off n w) p ≡ output w p)
        × (patience (c.aio_read i off n w) ≤ patience w)
  pub write_law :
      (i off : ℕ) (bs : List ℕ) (w : c.World)
      → (asked (c.aio_write i off bs w) i ≡ some (writing off bs))
        × ((j : ℕ) → i ≢ j → asked (c.aio_write i off bs w) j ≡ asked w j)
        × ((p : ℕ) → output (c.aio_write i off bs w) p ≡ output w p)
        × (patience (c.aio_write i off bs w) ≤ patience w)
  pub error_law :
      (i : ℕ) (w w' : c.World) (st : Status) (r : Request)
      → c.aio_error i w ≡ (st, w')
      → asked w i ≡ some r
      → (st ≢ failed)
        × ((j : ℕ) → asked w' j ≡ asked w j)
        × ((p : ℕ) → output w' p ≡ output w p)
        × (patience w' ≤ patience w)
        × (st ≡ in_progress → patience w' < patience w)
  pub read_return_law :
      (i off n : ℕ) (w : c.World)
      → asked w i ≡ some (reading off n)
      → ((c.read_return i w).0 ≡ got (take n (drop off input)))
        × ((j : ℕ) → asked (c.read_return i w).1 j ≡ asked w j)
        × ((p : ℕ) → output (c.read_return i w).1 p ≡ output w p)
        × (patience (c.read_return i w).1 ≤ patience w)
  pub write_return_law :
      (i off : ℕ) (bs : List ℕ) (w : c.World)
      → asked w i ≡ some (writing off bs)
      → ((c.write_return i w).0 ≡ put (length bs))
        × ((j : ℕ) → asked (c.write_return i w).1 j ≡ asked w j)
        × ((p : ℕ)
            → output (c.write_return i w).1 p ≡ (
                if leb off p && ltb p (off + length bs)
                then get_elem? bs (p - off)
                else output w p))
        × (patience (c.write_return i w).1 ≤ patience w)
  pub suspend_law :
      (w : c.World)
      → ((j : ℕ) → asked (c.aio_suspend w) j ≡ asked w j)
        × ((p : ℕ) → output (c.aio_suspend w) p ≡ output w p)
        × (patience (c.aio_suspend w) ≤ patience w)
