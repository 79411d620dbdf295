-- ===== src/Files/AioCopy/Rot13.antt =====
-- `translate` of aio_test1.c.
use unix_advanced_programing.Prelude.{
  ℕ, ◌<◌, ◌≡◌, Bool, true, false, ◌&&◌, ◌||◌, leb, ◌==◌, arith, if◌then◌else◌,
}
use unix_advanced_programing.Files.AioCopy.{translate}

-- `isalpha` in the C locale.
abbrev pub ascii_letter : ℕ → Bool
ascii_letter c = (leb b'A' c && leb c b'Z') || (leb b'a' c && leb c b'z')

-- Where `isalpha` knows the ASCII letters and no others, `translate` maps bytes to bytes and is its
-- own inverse, and it changes exactly the letters.
pub translate_twice :
    (isalpha : ℕ → Bool) (c : ℕ)
    → ((x : ℕ) → isalpha x ≡ ascii_letter x)
    → c < 256
    → (translate isalpha c < 256)
      × (translate isalpha (translate isalpha c) ≡ c)
      × ((translate isalpha c == c) ≡ (if ascii_letter c then false else true))
unfolding translate
translate_twice isalpha c h small = ground (arith, h c, h (translate isalpha c))
