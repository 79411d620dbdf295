-- ===== src/Threads/Barrier/Merge.antt =====
-- `merge` of barier_test1.c on parts in ascending order.
use mathlib.Core.List.{
  Mem, Perm, Pairwise, mem-cons_self, forall_mem-cons, mem-cons_of_mem, perm_middle, not-mem-nil,
}
use mathlib.Core.List.Pairwise
use mathlib.Core.List.Perm
use native.Mathlib.Nat.{add-zero, add-suc, suc-add, zero-add}
use unix_advanced_programing.Prelude.{
  ℕ, zero, suc, ◌+◌, ◌≡◌, refl, ap, ◌⊎◌, inl, inr, true, Option, none, some, List, [], ◌∷◌, arith,
  length, length-append, set, get_elem?, Bool-cases, ◌∙◌,
}
use unix_advanced_programing.Prelude.Int.{ℤ}
use unix_advanced_programing.Prelude.Int.Order.{
  lt_ℤ, ◌≼◌, ≼_refl, ≼_trans, ≼_of_lt, IsSorted, IsBelow, IsBelow-append, IsBelow-head,
}
use unix_advanced_programing.Threads.Barrier.{
  long_max, find_min, take_min, merge_rounds, concat, merge,
}

abbrev pub AllSorted : List (List ℤ) → Type 0
AllSorted [] = Unit {0}
AllSorted (p ∷ ps) = IsSorted p × AllSorted ps

-- `random` stays below LONG_MAX, from which the search for the least head starts.
abbrev pub AllSmall : List ℤ → Type 0
AllSmall l = (x : ℤ) → Mem x l → lt_ℤ x long_max ≡ true

pub AllSmall-nil : AllSmall []
AllSmall-nil = λ x m. absurd (not-mem-nil m)

pub AllSmall-cons : (x : ℤ) (l : List ℤ) → lt_ℤ x long_max ≡ true → AllSmall l → AllSmall (x ∷ l)
AllSmall-cons x l h hs = (forall_mem-cons (λ y. hlevel)).1 (h, hs)

abbrev HeadsAbove : ℤ → List (List ℤ) → Type 0
HeadsAbove a [] = Unit {0}
HeadsAbove a ([] ∷ ps) = HeadsAbove a ps
HeadsAbove a ((x ∷ xs) ∷ ps) = (a ≼ x) × HeadsAbove a ps

-- Nothing is below `m`, and `min_idx` has stayed; or a least head has been found at `k`.
abbrev Found : ℕ → ℤ → Option ℕ → List (List ℤ) → Option ℕ → Type 0
Found i m j parts res =
    ((res ≡ j) × HeadsAbove m parts)
    ⊎ ((k : ℕ) × (x : ℤ) × (xs : List ℤ) × (res ≡ some (i + k))
        × (get_elem? parts k ≡ some (x ∷ xs))
        × (x ≼ m)
        × HeadsAbove x parts)

find_min-Found :
    (i : ℕ) (m : ℤ) (j : Option ℕ) (parts : List (List ℤ))
    → Found i m j parts (find_min i m j parts)
unfolding find_min
find_min-Found i m j [] = inl (refl, tt)
find_min-Found i m j ([] ∷ ps) = elim (find_min-Found (suc i) m j ps) [
  | inl h ↦ inl h
  | inr (k, x, xs, e, g, le, h) ↦ inr (suc k, x, xs, rw e (rw (suc-add, add-suc)), g, le, h)
]
find_min-Found i m j ((y ∷ ys) ∷ ps) = elim (Bool-cases (lt_ℤ y m)) [
  | inl less ↦ rw less (elim (find_min-Found (suc i) y (some i) ps) [
    | inl (e, h) ↦ inr (0, y, ys, rw e (rw add-zero), refl, ≼_of_lt y m less, (≼_refl y, h))
    | inr (k, x, xs, e, g, le, h) ↦ inr (
      suc k,
      x,
      xs,
      rw e (rw (suc-add, add-suc)),
      g,
      ≼_trans x y m le (≼_of_lt y m less),
      (le, h),
    )
  ])
  | inr more ↦ rw more (elim (find_min-Found (suc i) m j ps) [
    | inl (e, h) ↦ inl (e, (refl, h))
    | inr (k, x, xs, e, g, le, h) ↦
        inr (suc k, x, xs, rw e (rw (suc-add, add-suc)), g, le, (≼_trans x m y le more, h))
  ])
]

-- A head below all heads is below all numbers.
IsBelow-concat :
    (a : ℤ) (parts : List (List ℤ))
    → AllSorted parts
    → HeadsAbove a parts
    → IsBelow a (concat parts)
IsBelow-concat a [] s h = λ x m. absurd (not-mem-nil m)
IsBelow-concat a ([] ∷ ps) (_, s) h = IsBelow-concat a ps s h
IsBelow-concat a ((x ∷ xs) ∷ ps) (sp, s) (le, h) =
    IsBelow-append a (IsBelow-head a x le sp) (IsBelow-concat a ps s h)

-- Where numbers are left, one of them is below LONG_MAX.
concat-nil :
    (parts : List (List ℤ))
    → AllSmall (concat parts)
    → HeadsAbove long_max parts
    → concat parts ≡ []
concat-nil [] small h = refl
concat-nil ([] ∷ ps) small h = concat-nil ps small h
concat-nil ((x ∷ xs) ∷ ps) small (le, h) = ground (arith, small x mem-cons_self)

length-zero : (l : List ℤ) → length l ≡ 0 → l ≡ []
length-zero [] h = refl
length-zero (x ∷ l) h = absurd (omega arith)

module _ (x : ℤ) (xs : List ℤ) where
  set-perm :
      (k : ℕ) (parts : List (List ℤ))
      → get_elem? parts k ≡ some (x ∷ xs)
      → Perm (concat parts) (x ∷ concat (set parts k xs))
  set-perm k [] g = cc
  set-perm zero (p ∷ ps) g = let e : p ≡ x ∷ xs = cc in rw e Perm.rfl
  set-perm (suc k) (p ∷ ps) g =
      Perm.trans (Perm.append_left p (set-perm k ps g)) (perm_middle p (concat (set ps k xs)))

  length-set_tail :
      (k : ℕ) (parts : List (List ℤ))
      → get_elem? parts k ≡ some (x ∷ xs)
      → length (concat parts) ≡ suc (length (concat (set parts k xs)))
  length-set_tail k [] g = cc
  length-set_tail zero (p ∷ ps) g = let e : p ≡ x ∷ xs = cc in rw e refl
  length-set_tail (suc k) (p ∷ ps) g = omega (
    arith,
    length-append p (concat ps),
    length-append p (concat (set ps k xs)),
    length-set_tail k ps g,
  )

  AllSorted-set :
      (k : ℕ) (parts : List (List ℤ))
      → get_elem? parts k ≡ some (x ∷ xs)
      → AllSorted parts
      → AllSorted (set parts k xs)
  AllSorted-set k [] g s = cc
  AllSorted-set zero (p ∷ ps) g (sp, s) =
      let e : p ≡ x ∷ xs = cc in (Pairwise.of_cons (rw e at sp), s)
  AllSorted-set (suc k) (p ∷ ps) g (sp, s) = (sp, AllSorted-set k ps g s)

abbrev pub Merged : List ℤ → Option (List ℤ) → Type 0
Merged l res = (out : List ℤ) × (res ≡ some out) × IsSorted out × Perm out l

round_takes :
    (n k : ℕ) (j : Option ℕ) (parts : List (List ℤ)) (x : ℤ) (xs out : List ℤ)
    → find_min 0 long_max j parts ≡ some k
    → get_elem? parts k ≡ some (x ∷ xs)
    → merge_rounds n (some k) (set parts k xs) ≡ some out
    → merge_rounds (suc n) j parts ≡ some (x ∷ out)
unfolding merge_rounds take_min
round_takes n k j parts x xs out e g is = rw (e, g, take_min, is)

-- One round: what `find_min` has found can be taken.
round :
    (n : ℕ) (j : Option ℕ) (parts : List (List ℤ))
    → ((j' : Option ℕ) (ps : List (List ℤ))
        → length (concat ps) ≡ n
        → AllSorted ps
        → AllSmall (concat ps)
        → Merged (concat ps) (merge_rounds n j' ps))
    → length (concat parts) ≡ suc n
    → AllSorted parts
    → AllSmall (concat parts)
    → Found 0 long_max j parts (find_min 0 long_max j parts)
    → Merged (concat parts) (merge_rounds (suc n) j parts)
round n j parts ih len sorted small (inl (e, h)) =
    absurd (omega (arith, ap length (concat-nil parts small h)))
round n j parts ih len sorted small (inr (k, x, xs, e, g, le, h)) =
    let p = set-perm x xs k parts g in
    let (out, is, so, po) =
      ih (some k) (set parts k xs) (omega (arith, length-set_tail x xs k parts g))
        (AllSorted-set x xs k parts g sorted)
        (λ y m. small y ((Perm.mem_iff p).1 (mem-cons_of_mem x m))) in
    (
      x ∷ out,
      round_takes n k j parts x xs out (e ∙ ap some (zero-add k)) g is,
      Pairwise.cons
          (λ y m.
            IsBelow-concat x parts sorted h y
              ((Perm.mem_iff p).1 (mem-cons_of_mem x ((Perm.mem_iff po).0 m))))
          so,
      Perm.trans (Perm.cons x po) (Perm.symm p),
    )

rounds-Merged :
    (n : ℕ) (j : Option ℕ) (parts : List (List ℤ))
    → length (concat parts) ≡ n
    → AllSorted parts
    → AllSmall (concat parts)
    → Merged (concat parts) (merge_rounds n j parts)
unfolding merge_rounds
rounds-Merged zero j parts len sorted small =
    let e : concat parts ≡ [] = length-zero (concat parts) len in
    ([], refl, Pairwise.nil, rw e Perm.rfl)
rounds-Merged (suc n) j parts len sorted small =
    round n j parts (rounds-Merged n) len sorted small (find_min-Found 0 long_max j parts)

-- `merge` of parts in ascending order with numbers below LONG_MAX never reads behind a part or
-- through an unset `min_idx`, and leaves all the numbers in ascending order.
pub merge_sorted :
    (parts : List (List ℤ))
    → AllSorted parts
    → AllSmall (concat parts)
    → Merged (concat parts) (merge parts)
unfolding merge
merge_sorted parts sorted small = rounds-Merged _ none parts refl sorted small
