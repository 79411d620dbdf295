-- ===== src/Threads/Barrier/Exchange.antt =====
-- `heapsort` of barier_test1.c with `complong`.
use mathlib.Core.List.{Perm, Pairwise, not-mem-nil}
use mathlib.Core.List.Perm
use unix_advanced_programing.Prelude.{
  ℕ, zero, suc, ◌-◌, ◌≤◌, ◌≡◌, refl, true, List, [], ◌∷◌, arith, length, Bool-cases, inl, inr, ap,
}
use unix_advanced_programing.Prelude.Int.{ℤ, pos, negsuc, is_pos, is_neg, is_zero}
use unix_advanced_programing.Prelude.Int.Order.{
  lt_ℤ, ◌≼◌, ≼_refl, ≼_trans, ≼_of_lt, IsSorted, IsBelow, IsBelow-cons, IsBelow-perm,
}
use unix_advanced_programing.Threads.Barrier.{complong, exchange, exchange_rounds, heapsort}

-- `complong` is positive exactly when the first number is the greater one, negative exactly when it
-- is the smaller one, and 0 exactly when they are equal.
pub complong_three_way :
    (a b : ℤ)
    → (is_pos (complong a b) ≡ lt_ℤ b a)
      × (is_neg (complong a b) ≡ lt_ℤ a b)
      × (is_zero (complong a b) ≡ true → a ≡ b)
      × (a ≡ b → is_zero (complong a b) ≡ true)
unfolding complong
complong_three_way (pos a) (pos b) = ground arith
complong_three_way (pos a) (negsuc b) = ground arith
complong_three_way (negsuc a) (pos b) = ground arith
complong_three_way (negsuc a) (negsuc b) = ground arith

-- What the rounds of `jx` do: the least element comes first, and no element is lost.
record Passed (x : ℤ) (ys : List ℤ) (r : ℤ × List ℤ) : Type 0 where
  least_first : r.0 ≼ x
  below : IsBelow r.0 r.1
  kept : Perm (r.0 ∷ r.1) (x ∷ ys)
  same_length : length r.1 ≡ length ys

exchange-Passed : (x : ℤ) (ys : List ℤ) → Passed x ys (exchange complong x ys)
unfolding exchange
exchange-Passed x [] = record {
  least_first = ≼_refl x;
  below = λ y m. absurd (not-mem-nil m);
  kept = Perm.rfl;
  same_length = refl;
}
exchange-Passed x (y ∷ ys) = elim (Bool-cases (lt_ℤ y x)) [
  | inl more ↦
      rw ((complong_three_way x y).0, more)
        (let p = exchange-Passed y ys in
          record {
            least_first = ≼_trans _ y x p.least_first (≼_of_lt y x more);
            below = IsBelow-cons _ x (≼_trans _ y x p.least_first (≼_of_lt y x more)) p.below;
            kept = Perm.trans (Perm.swap _ _ _) (Perm.cons x p.kept);
            same_length = ap suc p.same_length;
          })
  | inr less ↦
      rw ((complong_three_way x y).0, less)
        (let p = exchange-Passed x ys in
          record {
            least_first = p.least_first;
            below = IsBelow-cons _ y (≼_trans _ x y p.least_first less) p.below;
            kept = Perm.trans (Perm.swap _ _ _) (Perm.trans (Perm.cons y p.kept) (Perm.swap _ _ _));
            same_length = ap suc p.same_length;
          })
]

rounds-perm : (n : ℕ) (l : List ℤ) → Perm (exchange_rounds complong n l) l
unfolding exchange_rounds
rounds-perm zero l = Perm.rfl
rounds-perm (suc n) [] = Perm.rfl
rounds-perm (suc n) (x ∷ xs) =
    Perm.trans (Perm.cons _ (rounds-perm n _)) (exchange-Passed x xs).kept

-- `length l - 1` rounds are enough.
rounds-IsSorted : (n : ℕ) (l : List ℤ) → length l ≤ suc n → IsSorted (exchange_rounds complong n l)
unfolding exchange_rounds
rounds-IsSorted zero [] h = Pairwise.nil
rounds-IsSorted zero (x ∷ []) h = Pairwise.cons (λ y m. absurd (not-mem-nil m)) Pairwise.nil
rounds-IsSorted zero (x ∷ y ∷ l) h = absurd (omega arith)
rounds-IsSorted (suc n) [] h = Pairwise.nil
rounds-IsSorted (suc n) (x ∷ xs) h =
    let p = exchange-Passed x xs in
    Pairwise.cons (IsBelow-perm _ (rounds-perm n _) p.below)
      (rounds-IsSorted n _ (omega (arith, p.same_length)))

-- `heapsort` with `complong` leaves the same numbers in ascending order.
pub heapsort_sorts : (l : List ℤ) → IsSorted (heapsort complong l) × Perm (heapsort complong l) l
unfolding heapsort
heapsort_sorts l = (rounds-IsSorted (length l - 1) l (omega arith), rounds-perm (length l - 1) l)
