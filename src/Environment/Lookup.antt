-- ===== src/Environment/Lookup.antt =====
-- `getenv_m` against a look-up in a list of names and values.
use unix_advanced_programing.Prelude.{
  ℕ, zero, suc, ◌≡◌, refl, inl, inr, Bool, true, false, ◌&&◌, Bool-cases, Option, none, some, List,
  [], ◌∷◌, arith, length, take, drop, if◌then◌else◌, ◌==◌,
}
use unix_advanced_programing.Environment.{equals_at, names, getenv_m, copied, getenv_r_m}

-- An entry as its name, up to the first `=`, and its value.
pub split_entry : List ℕ → Option (List ℕ × List ℕ)
split_entry [] = none
split_entry (c ∷ cs) =
    let rest = split_entry cs in
    if c == b'='
    then some ([], cs)
    else elim rest [ none ↦ none | some (name, value) ↦ some (c ∷ name, value) ]

pub same : List ℕ → List ℕ → Bool
same [] [] = true
same [] (d ∷ ds) = false
same (c ∷ cs) [] = false
same (c ∷ cs) (d ∷ ds) = c == d && same cs ds

-- The value of the first entry with the name.
pub lookup : List ℕ → List (List ℕ) → Option (List ℕ)
lookup name [] = none
lookup name (entry ∷ entries) =
    let others = lookup name entries in
    elim (split_entry entry) [
      | none ↦ others
      | some (key, value) ↦ if same name key then some value else others
    ]

-- A name without `=`.
abbrev pub IsName : List ℕ → Type 0
IsName [] = Unit {0}
IsName (c ∷ cs) = ((c == b'=') ≡ false) × IsName cs

-- Whether an entry has the name, by its parts.
abbrev has_name : List ℕ → Option (List ℕ × List ℕ) → Bool
has_name name none = false
has_name name (some (key, value)) = same name key

abbrev value_or : Option (List ℕ × List ℕ) → List ℕ → List ℕ
value_or none d = d
value_or (some (key, value)) d = value

names-has_name :
    (name entry : List ℕ) → IsName name → names name entry ≡ has_name name (split_entry entry)
unfolding names split_entry same
names-has_name [] [] h = refl
names-has_name [] (c ∷ cs) h = ground arith
names-has_name (n ∷ ns) [] h = refl
names-has_name (n ∷ ns) (c ∷ cs) (hn, h) = ground (arith, names-has_name ns cs h)

names-value_or :
    (name entry : List ℕ)
    → IsName name
    → names name entry ≡ true
    → value_or (split_entry entry) [] ≡ drop (suc (length name)) entry
unfolding names split_entry
names-value_or [] [] h e = cc
names-value_or [] (c ∷ cs) h e = ground arith
names-value_or (n ∷ ns) [] h e = cc
names-value_or (n ∷ ns) (c ∷ cs) (hn, h) e = ground (arith, names-value_or ns cs h)

-- For a name without `=`, `getenv_m` returns the first 4095 bytes of the value that the first entry with
-- the name has, and NULL where no entry has it.
pub getenv_m-lookup :
    (name : List ℕ) (environ : List (List ℕ))
    → IsName name
    → getenv_m name environ
      ≡ elim (lookup name environ) [ none ↦ none | some value ↦ some (take 4095 value) ]
unfolding getenv_m lookup
getenv_m-lookup name [] h = refl
getenv_m-lookup name (entry ∷ environ) h = ground (
  arith,
  names-has_name name entry h,
  names-value_or name entry h,
  getenv_m-lookup name environ h,
)

equals-drop :
    (n : ℕ) (l : List ℕ) → equals_at n l ≡ true → (rest : List ℕ) × (drop n l ≡ b'=' ∷ rest)
unfolding equals_at
equals-drop zero [] e = cc
equals-drop (suc n) [] e = cc
equals-drop zero (c ∷ cs) e = (cs, ground arith)
equals-drop (suc n) (c ∷ cs) e = equals-drop n cs e

equals_of_names :
    (name entry : List ℕ) → names name entry ≡ true → equals_at (length name) entry ≡ true
unfolding names
equals_of_names name entry e = ground arith

-- What `getenv_r_m` copies begins with the `=`, for every name and every buffer that is not empty.
pub getenv_r_m-equals :
    (name : List ℕ) (buflen : ℕ) (environ : List (List ℕ)) (buf : List ℕ)
    → getenv_r_m name (suc buflen) environ ≡ copied buf
    → (rest : List ℕ) × (buf ≡ b'=' ∷ rest)
unfolding getenv_r_m
getenv_r_m-equals name buflen [] buf e = cc
getenv_r_m-equals name buflen (entry ∷ environ) buf e = elim (Bool-cases (names name entry)) [
  | inr other ↦ getenv_r_m-equals name buflen environ buf (rw (other, getenv_r_m) at e)
  | inl named ↦
      let (rest, is) = equals-drop (length name) entry (equals_of_names name entry named) in
      (take buflen rest, ground (arith, is))
]
