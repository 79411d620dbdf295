-- ===== src/Files/Examples.antt =====
-- The theorems on ch13_io at concrete inputs.
use unix_advanced_programing.Prelude.{ℕ, ◌≡◌, refl, true, false, Option, none, some, List, [], ◌∷◌}
use unix_advanced_programing.Files.AioCopy.{aio_test1, translate, finished}
use unix_advanced_programing.Files.AioCopy.Rot13.{ascii_letter}
use unix_advanced_programing.Files.AioCopy.Background.{Background, background}

abbrev word : List ℕ
word = 104 ∷ 105 ∷ 33 ∷ []

abbrev idle_world : Background
idle_world = record {
  requests = λ i. none;
  out = λ p. none;
  busy = true ∷ false ∷ true ∷ true ∷ [];
}

abbrev first_byte : Option ℕ
first_byte = elim (aio_test1 (background word) (translate ascii_letter) 3 20 idle_world) [
  | finished w ↦ w.out 0
  | _ ↦ none
]

-- `h` becomes `u`.
first_byte_run : first_byte ≡ some 117
unfolding aio_test1 translate
first_byte_run = refl
