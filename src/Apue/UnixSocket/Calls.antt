-- ===== src/Apue/UnixSocket/Calls.antt =====
-- The system calls of a UNIX domain connection, and what is documented of the descriptors, the memory
-- and the `errno` that they handle.
use unix_advanced_programing.Prelude.{
  ℕ, suc, ◌≡◌, Bool, true, false, Option, none, some, List, ◌==◌, if◌then◌else◌, [], ◌∷◌,
}
use unix_advanced_programing.Prelude.Int.{ℤ, pos, negsuc}
use unix_advanced_programing.Posix.{Errno}

-- A path as its bytes.
abbrev pub FilePath : Type 0
FilePath = List ℕ

pub record Kernel : Type 1 where
  pub World : Type 0
  pub socket : World → ℤ × World
  pub bind : ℕ → FilePath → World → ℤ × World
  pub listen : ℕ → ℕ → World → ℤ × World
  pub accept : ℕ → World → Option (ℕ × FilePath) × World
  pub connect : ℕ → FilePath → World → ℤ × World
  pub close : ℕ → World → World
  pub unlink : FilePath → World → World
  pub stat : FilePath → World → Option ℕ × World
  pub malloc : World → Bool × World
  pub free : World → World
  pub errno : World → Errno
  pub set_errno : Errno → World → World

-- `xs` without the first `a`.
abbrev pub erase : ℕ → List ℕ → List ℕ
erase a [] = []
erase a (x ∷ xs) = if x == a then xs else x ∷ erase a xs

-- `opened` are the descriptors of the process and `blocks` counts its allocated blocks. A call that
-- is not named here opens, closes, allocates and frees nothing.
pub record IsTracked (k : Kernel) : Type 0 where
  pub opened : k.World → List ℕ
  pub blocks : k.World → ℕ
  pub socket_ok :
      (w w' : k.World) (fd : ℕ)
      → k.socket w ≡ (pos fd, w')
      → (opened w' ≡ fd ∷ opened w) × (blocks w' ≡ blocks w)
  pub socket_err :
      (w w' : k.World) (n : ℕ)
      → k.socket w ≡ (negsuc n, w')
      → (opened w' ≡ opened w) × (blocks w' ≡ blocks w)
  pub accept_ok :
      (l : ℕ) (w w' : k.World) (fd : ℕ) (p : FilePath)
      → k.accept l w ≡ (some (fd, p), w')
      → (opened w' ≡ fd ∷ opened w) × (blocks w' ≡ blocks w)
  pub accept_err :
      (l : ℕ) (w w' : k.World)
      → k.accept l w ≡ (none, w')
      → (opened w' ≡ opened w) × (blocks w' ≡ blocks w)
  pub malloc_ok :
      (w w' : k.World)
      → k.malloc w ≡ (true, w')
      → (opened w' ≡ opened w) × (blocks w' ≡ suc (blocks w))
  pub malloc_err :
      (w w' : k.World) → k.malloc w ≡ (false, w') → (opened w' ≡ opened w) × (blocks w' ≡ blocks w)
  pub free_law :
      (w : k.World) (n : ℕ)
      → blocks w ≡ suc n
      → (opened (k.free w) ≡ opened w) × (blocks (k.free w) ≡ n)
  pub close_law :
      (fd : ℕ) (w : k.World)
      → (opened (k.close fd w) ≡ erase fd (opened w)) × (blocks (k.close fd w) ≡ blocks w)
  pub bind_law :
      (fd : ℕ) (p : FilePath) (w : k.World)
      → (opened (k.bind fd p w).1 ≡ opened w) × (blocks (k.bind fd p w).1 ≡ blocks w)
  pub listen_law :
      (fd n : ℕ) (w : k.World)
      → (opened (k.listen fd n w).1 ≡ opened w) × (blocks (k.listen fd n w).1 ≡ blocks w)
  pub connect_law :
      (fd : ℕ) (p : FilePath) (w : k.World)
      → (opened (k.connect fd p w).1 ≡ opened w) × (blocks (k.connect fd p w).1 ≡ blocks w)
  pub unlink_law :
      (p : FilePath) (w : k.World)
      → (opened (k.unlink p w) ≡ opened w) × (blocks (k.unlink p w) ≡ blocks w)
  pub stat_law :
      (p : FilePath) (w : k.World)
      → (opened (k.stat p w).1 ≡ opened w) × (blocks (k.stat p w).1 ≡ blocks w)
  pub set_errno_law :
      (e : Errno) (w : k.World)
      → (k.errno (k.set_errno e w) ≡ e)
        × (opened (k.set_errno e w) ≡ opened w)
        × (blocks (k.set_errno e w) ≡ blocks w)
