-- ===== src/Environment/Examples.antt =====
-- The theorems on environment variables and accounting numbers at concrete inputs.
use unix_advanced_programing.Prelude.{
  ℕ, ◌*◌, ◌/◌, ◌%◌, ◌^◌, ◌<◌, ◌≡◌, refl, none, some, List, [], ◌∷◌, arith, take,
}
use unix_advanced_programing.Environment.{getenv_m, compt2ulong}
use unix_advanced_programing.Environment.Lookup.{lookup, getenv_m-lookup}
use unix_advanced_programing.Environment.Accounting.{compt2ulong-value}

-- `A=1` and `HI=2`.
abbrev environ : List (List ℕ)
environ = (b'A' ∷ b'=' ∷ b'1' ∷ []) ∷ (b'H' ∷ b'I' ∷ b'=' ∷ b'2' ∷ []) ∷ []

getenv_m-lookup_example :
    getenv_m (b'H' ∷ b'I' ∷ []) environ
    ≡ elim (lookup (b'H' ∷ b'I' ∷ []) environ) [ none ↦ none | some value ↦ some (take 4095 value) ]
getenv_m-lookup_example = getenv_m-lookup (b'H' ∷ b'I' ∷ []) environ (refl, (refl, tt))

-- The value 3 with the exponent 2.
compt2ulong-value_example :
    (compt2ulong 16387 ≡ 16387 % 2 ^ 13 * 8 ^ (16387 / 2 ^ 13)) × (compt2ulong 16387 < 2 ^ 34)
compt2ulong-value_example = compt2ulong-value 16387 (omega arith)
