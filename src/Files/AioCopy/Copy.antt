-- ===== src/Files/AioCopy/Copy.antt =====
-- The whole of `aio_test1`, against the change of each byte of the file.
use unix_advanced_programing.Prelude.{ℕ, ◌≡◌, List, map, get_elem?}
use unix_advanced_programing.Files.AioCopy.{Calls, End, finished, exited, out_of_fuel}
use unix_advanced_programing.Files.AioCopy.Kernel.{IsAio}

module _ {c : Calls} {input : List ℕ} (k : IsAio c input) (change : ℕ → ℕ) where
  open c use {World, aio_suspend}
  open k use {asked, output, patience, suspend_law}

  -- The copying ends with every byte of the file, changed, at its place in the output.
  abbrev pub Copied : End World → Type 0
  Copied (finished w) = (p : ℕ) → output w p ≡ get_elem? (map change input) p
  Copied exited = ⊥
  Copied out_of_fuel = ⊥
