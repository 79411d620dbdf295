-- ===== src/Terminal/Password.antt =====
-- The loop of `getpass_m` of term_io.c, over the characters that the terminal gives.
use mathlib.Core.List.{append-nil, append_assoc}
use unix_advanced_programing.Prelude.{
  ℕ, zero, suc, ◌+◌, ◌≤◌, ◌≡◌, refl, ap, true, false, List, [], ◌∷◌, ◌++◌, arith, length, take,
  if◌then◌else◌, ◌==◌, ltb, length-append, length-take, take-nil, Bool-cases, inl, inr,
}

abbrev pub max_pass_len : ℕ
max_pass_len = 8

-- What is in `buf`, and the characters that were not read. An empty list is EOF.
unfoldable pub getpass_loop : List ℕ → List ℕ → List ℕ × List ℕ
getpass_loop buf [] = (buf, [])
getpass_loop buf (c ∷ cs) =
    let more = getpass_loop (buf ++ (c ∷ [])) cs in
    if c == b'\n' then (buf, cs) else if ltb (length buf) max_pass_len then more else (buf, cs)

-- The buffer that is returned, with its zero byte.
unfoldable pub getpass_m : List ℕ → List ℕ × List ℕ
unfolding getpass_loop
getpass_m input = let (buf, rest) = getpass_loop [] input in (buf ++ (0 ∷ []), rest)

-- The characters before the first end of line.
abbrev pub first_line : List ℕ → List ℕ
first_line [] = []
first_line (c ∷ cs) = if c == b'\n' then [] else c ∷ first_line cs

loop_lem :
    (room : ℕ) (buf cs : List ℕ)
    → length buf + room ≡ 8
    → (getpass_loop buf cs).0 ≡ buf ++ take room (first_line cs)
unfolding getpass_loop
loop_lem room buf [] h = rw (take-nil room, append-nil buf)
loop_lem zero buf (c ∷ cs) h = elim (Bool-cases (c == b'\n')) [
  | inl line_end ↦ rw (line_end, append-nil buf)
  | inr other ↦
      let full : ltb (length buf) 8 ≡ false = ground arith in rw (other, full, append-nil buf)
]
loop_lem (suc room) buf (c ∷ cs) h = elim (Bool-cases (c == b'\n')) [
  | inl line_end ↦ rw (line_end, append-nil buf)
  | inr other ↦
      let free : ltb (length buf) 8 ≡ true = ground arith in
      rw (
        other,
        free,
        loop_lem room (buf ++ (c ∷ [])) cs (omega (arith, length-append buf (c ∷ []))),
        append_assoc,
      )
]

-- `getpass_m` returns the first eight characters of the line, or all of them if there are fewer, with a
-- zero byte behind them: never more than the nine bytes of the buffer.
pub getpass_m-take :
    (input : List ℕ)
    → ((getpass_m input).0 ≡ take 8 (first_line input) ++ (0 ∷ []))
      × (length (getpass_m input).0 ≤ 9)
unfolding getpass_m
getpass_m-take input =
    let e = loop_lem 8 [] input refl in
    (
      ap (λ (l : List ℕ). l ++ (0 ∷ [])) e,
      omega (
        arith,
        ap (λ (l : List ℕ). length l) e,
        length-append (getpass_loop [] input).0 (0 ∷ []),
        length-take 8 (first_line input),
      ),
    )
