-- ===== src/Unp/Readline/Spec.antt =====
-- What a line is, apart from the code that reads one.
use unix_advanced_programing.Prelude.{ℕ, suc, ◌≡◌, ◌≢◌, List, [], ◌∷◌, ◌++◌, length}

-- No newline among the bytes.
abbrev pub IsOpen : List ℕ → Type 0
IsOpen [] = Unit {0}
IsOpen (c ∷ cs) = (c ≢ 10) × IsOpen cs

pub IsOpen-snoc : (xs : List ℕ) (c : ℕ) → IsOpen xs → c ≢ 10 → IsOpen (xs ++ c ∷ [])
IsOpen-snoc [] c h ne = (ne, tt)
IsOpen-snoc (x ∷ xs) c h ne = (h.0, IsOpen-snoc xs c h.1 ne)

-- How a line ends in a buffer of `maxlen` bytes, with `rest` behind it in the stream, and the count
-- that is reported for it.
pub data Ends (maxlen : ℕ) (line rest : List ℕ) (count : ℕ) : Type 0 where
  at_newline :
      (body : List ℕ)
      → IsOpen body
      → line ≡ body ++ 10 ∷ []
      → count ≡ length line
      → Ends maxlen line rest count
  at_eof : IsOpen line → rest ≡ [] → count ≡ length line → Ends maxlen line rest count
  at_limit :
      IsOpen line
      → suc (length line) ≡ maxlen
      → count ≡ suc (length line)
      → Ends maxlen line rest count
