-- ===== src/Threads/Examples/Sorting.antt =====
-- The theorems on barier_test1.c at concrete inputs.
use mathlib.Core.List.{Perm}
use unix_advanced_programing.Prelude.{
  ℕ, zero, suc, ◌<◌, ◌≡◌, refl, inl, inr, some, List, [], ◌∷◌, length, arith,
}
use unix_advanced_programing.Prelude.Int.{ℤ, pos}
use unix_advanced_programing.Prelude.Int.Order.{IsSorted}
use unix_advanced_programing.Threads.Barrier.{complong, heapsort, concat, barrier_test}
use unix_advanced_programing.Threads.Barrier.Exchange.{heapsort_sorts}
use unix_advanced_programing.Threads.Barrier.Merge.{AllSmall, AllSmall-nil, AllSmall-cons}
use unix_advanced_programing.Threads.Barrier.Parallel.{Occurs, barrier_test-heapsort}

abbrev numbers : List ℤ
numbers = pos 7 ∷ pos 2 ∷ pos 9 ∷ pos 2 ∷ []

heapsort_sorts_example :
    IsSorted (heapsort complong numbers) × Perm (heapsort complong numbers) numbers
heapsort_sorts_example = heapsort_sorts numbers

abbrev parts : List (List ℤ)
parts = (pos 7 ∷ pos 2 ∷ []) ∷ (pos 9 ∷ pos 2 ∷ []) ∷ []

small : AllSmall numbers
small =
    AllSmall-cons _ _ refl
      (AllSmall-cons _ _ refl (AllSmall-cons _ _ refl (AllSmall-cons _ _ refl AllSmall-nil)))

started : (i : ℕ) → i < length parts → Occurs i (1 ∷ 0 ∷ [])
started zero h = inr (inl refl)
started (suc zero) h = inl refl
started (suc (suc i)) h = absurd (omega arith)

-- Two threads, the second one first.
barrier_test-heapsort_example :
    barrier_test (1 ∷ 0 ∷ []) parts ≡ some (heapsort complong (concat parts))
barrier_test-heapsort_example = barrier_test-heapsort (1 ∷ 0 ∷ []) parts started small
