-- ===== src/Environment.antt =====
-- UnixAdvancedProgramming/ch7_12_process: the look-up of environment variables (thread_test.c), and the
-- numbers of process accounting (process_control.c).
pub mod Lookup
pub mod Accounting
mod Examples
use unix_advanced_programing.Prelude.{
  ℕ, zero, suc, ◌+◌, ◌-◌, ◌*◌, ◌/◌, ◌%◌, ◌^◌, Bool, true, false, ◌&&◌, Option, none, some, List, [],
  ◌∷◌, length, take, drop, get_elem?, if◌then◌else◌, ◌==◌, ltb,
}

-- MAXSTRINGSZ
abbrev pub max_string_size : ℕ
max_string_size = 4096

-- `strncmp(name, entry, strlen(name)) == 0`, for texts as their bytes without the zero byte.
unfoldable pub strncmp_eq : List ℕ → List ℕ → Bool
strncmp_eq [] entry = true
strncmp_eq (c ∷ cs) [] = false
strncmp_eq (c ∷ cs) (d ∷ ds) = c == d && strncmp_eq cs ds

-- `entry[len] == '='`
unfoldable pub equals_at : ℕ → List ℕ → Bool
equals_at len entry = elim (get_elem? entry len) [ none ↦ false | some c ↦ c == b'=' ]

unfoldable pub names : List ℕ → List ℕ → Bool
unfolding strncmp_eq equals_at
names name entry = strncmp_eq name entry && equals_at (length name) entry

-- What is copied into `envbuf_m`.
unfoldable pub getenv_m : List ℕ → List (List ℕ) → Option (List ℕ)
unfolding names
getenv_m name [] = none
getenv_m name (entry ∷ environ) =
    let others = getenv_m name environ in
    if names name entry
    then some (take (max_string_size - 1) (drop (suc (length name)) entry))
    else others

-- The results of `getenv_r_m`: ENOENT, ENOSPC, or 0 with what is copied into the buffer.
pub data Found : Type 0 where
  enoent enospc : Found
  copied : List ℕ → Found

-- The copy starts at `entry[len]`, which is the `=`.
unfoldable pub getenv_r_m : List ℕ → ℕ → List (List ℕ) → Found
unfolding names
getenv_r_m name buflen [] = enoent
getenv_r_m name buflen (entry ∷ environ) =
    let others = getenv_r_m name buflen environ in
    if names name entry
    then if ltb buflen (length (drop (suc (length name)) entry))
      then enospc
      else copied (take buflen (drop (length name) entry))
    else others

-- `while (exp-- > 0) val *= 8;`
unfoldable pub scale : ℕ → ℕ → ℕ
scale zero val = val
scale (suc exp) val = scale exp (val * 8)

-- The low 13 bits of a `comp_t` are the value and the high three the exponent.
unfoldable pub compt2ulong : ℕ → ℕ
unfolding scale
compt2ulong comptime = scale (comptime / 2 ^ 13 % 8) (comptime % 2 ^ 13)
