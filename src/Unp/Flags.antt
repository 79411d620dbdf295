-- ===== src/Unp/Flags.antt =====
-- The file status flags of util/unp.c: `get_fl`, `set_fl` and `clear_fl`. A word is the bit pattern of an
-- `int` of 32 bits. `fcntl` with F_GETFL and with F_SETFL is an argument; `fatal` is `err_quit`, which
-- prints and ends the process.
pub mod Bitwise
use Prim.Native.Nat.{bit_and, bit_or}
use unix_advanced_programing.Prelude.{ℕ, Bool, not, Option, none, some, ◌==◌}
use unix_advanced_programing.Prelude.Bits.{bit_not}

-- F_GETFL: `none` is a negative result. F_SETFL: `false` is a negative result.
pub record Fcntl (W : Type 0) : Type 0 where
  pub getfl : W → Option ℕ × W
  pub setfl : ℕ → W → Bool × W

-- How a function of this file ends: it returns, or `err_quit` ends the process.
pub data Ending (A : Type 0) : Type 0 where
  returned : A → Ending A
  quit : Ending A

module _ {W : Type 0} (k : Fcntl W) where
  unfoldable pub test_fl : ℕ → Option ℕ × W → Ending Bool × W
  test_fl flags (none, w) = (quit, w)
  test_fl flags (some val, w) = (returned (not (bit_and val flags == 0)), w)

  unfoldable pub get_fl : ℕ → W → Ending Bool × W
  unfolding test_fl
  get_fl flags w = test_fl flags (k.getfl w)

  -- The Boolean tells whether the write succeeded; if not, `err_sys` prints a message.
  unfoldable pub put_fl : ℕ → W → Ending Bool × W
  put_fl val w = let (ok, w') = k.setfl val w in (returned ok, w')

  unfoldable pub write_fl : (ℕ → ℕ) → Option ℕ × W → Ending Bool × W
  unfolding put_fl
  write_fl change (none, w) = (quit, w)
  write_fl change (some val, w) = put_fl (change val) w

  unfoldable pub set_fl : ℕ → W → Ending Bool × W
  unfolding write_fl
  set_fl flags w = write_fl (λ val. bit_or val flags) (k.getfl w)

  unfoldable pub clear_fl : ℕ → W → Ending Bool × W
  unfolding write_fl
  clear_fl flags w = write_fl (λ val. bit_and val (bit_not 32 flags)) (k.getfl w)
