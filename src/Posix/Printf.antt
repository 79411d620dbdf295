-- ===== src/Posix/Printf.antt =====
-- A printed text: its format, without the end of the line, and the values of its conversions. The
-- conversion itself is the C library's. `%s` of NULL is `null`, and `%x` prints an `unsigned`.
use Prim.Native.String.{String}
use unix_advanced_programing.Prelude.{ℕ, List}
use unix_advanced_programing.Prelude.Int.{ℤ}

pub data Arg : Type 0 where
  int : ℤ → Arg
  hex : ℕ → Arg
  text : String → Arg
  null : Arg

pub data Line : Type 0 where
  line : (format : String) (args : List Arg) → Line
