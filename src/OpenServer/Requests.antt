-- ===== src/OpenServer/Requests.antt =====
-- The requests of open_server_v1.c.
use unix_advanced_programing.Prelude.{
  ℕ, suc, ◌+◌, ◌*◌, ◌≡◌, ◌≢◌, refl, inl, inr, false, Bool-cases, Option, none, some, List, [], ◌∷◌,
  arith, set, replicate, ◌==◌, leb,
}
use unix_advanced_programing.OpenServer.{Argv, tokens, fill_args, cli_args, buf_args}

-- `argc` stays even.
fill_args_even :
    (k argc : ℕ) (argv argv' : Argv) (ts : List (List ℕ)) (n : ℕ)
    → argc ≡ 2 * k
    → fill_args argc argv ts ≡ some (n, argv')
    → (j : ℕ) × (n ≡ 2 * j)
unfolding fill_args
fill_args_even k argc argv argv' [] n e is = (k, ground arith)
fill_args_even k argc argv argv' (t ∷ ts) n e is = elim (Bool-cases (leb 49 (argc + 1))) [
  | inl many ↦ absurd (ground arith)
  | inr few ↦
      fill_args_even (suc k) (argc + 1 + 1) (set argv (argc + 1 + 1) (some t)) argv' ts n
        (omega (arith, e)) (rw (few, fill_args) at is)
]

cli_args_refused : (argc : ℕ) (argv : Argv) → argc ≢ 3 → cli_args argc argv ≡ none
unfolding cli_args
cli_args_refused argc argv ne = let other : (argc == 3) ≡ false = ground arith in rw other refl

-- `buf_args` fails on every request, since it never hands `cli_args` three arguments.
pub buf_args_refused : (buf : List ℕ) → buf_args buf ≡ none
unfolding buf_args
buf_args_refused buf = split (tokens [] buf)
  where
    filled :
        (r : Option (ℕ × Argv)) (others : List (List ℕ)) (argv : Argv)
        → fill_args 0 argv others ≡ r
        → ◌≡◌ {A = Option (Option (List ℕ) × Option (List ℕ))}
            (elim r as (λ x. Option (Option (List ℕ) × Option (List ℕ))) [
              | none ↦ none
              | some (argc, argv') ↦ cli_args argc argv'
            ])
            none
    filled none others argv e = refl
    filled (some (argc, argv')) others argv e =
        let (j, even) = fill_args_even 0 0 argv argv' others argc refl e in
        cli_args_refused argc argv' (λ three. omega arith)

    split :
        (ts : List (List ℕ))
        → ◌≡◌ {A = Option (Option (List ℕ) × Option (List ℕ))}
            (elim ts as (λ x. Option (Option (List ℕ) × Option (List ℕ))) [
              | [] ↦ none
              | first ∷ others ↦ elim (fill_args 0 (set (replicate 50 none) 0 (some buf)) others) [
                | none ↦ none
                | some (argc, argv) ↦ cli_args argc argv
              ]
            ])
            none
    split [] = refl
    split (first ∷ others) = filled _ others (set (replicate 50 none) 0 (some buf)) refl
