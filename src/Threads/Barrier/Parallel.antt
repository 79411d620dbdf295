-- ===== src/Threads/Barrier/Parallel.antt =====
-- The whole of barier_test1.c, against one sort of the whole array.
use mathlib.Core.List.{Perm}
use mathlib.Core.List.Perm
use unix_advanced_programing.Prelude.{
  ℕ, zero, suc, ◌≡◌, refl, ◌∙◌, ap, ◌⊎◌, inl, inr, ◌<◌, ◌+◌, Option, none, some, List, [], ◌∷◌,
  length, set, get_elem?, arith,
}
use unix_advanced_programing.Prelude.Int.{ℤ}
use unix_advanced_programing.Prelude.Int.Order.{IsSorted, ascending_unique}
use unix_advanced_programing.Threads.Barrier.{
  complong, heapsort, thread_fun, run_threads, concat, barrier_test,
}
use unix_advanced_programing.Threads.Barrier.Exchange.{heapsort_sorts}
use unix_advanced_programing.Threads.Barrier.Merge.{AllSorted, AllSmall, merge_sorted}

-- A thread has been started for the part `i`.
abbrev pub Occurs : ℕ → List ℕ → Type 0
Occurs i [] = ⊥
Occurs i (j ∷ order) = (i ≡ j) ⊎ Occurs i order

-- The parts from number `i` on are sorted, as far as their thread is none of those still to come.
abbrev SortedBut : ℕ → List ℕ → List (List ℤ) → Type 0
SortedBut i order [] = Unit {0}
SortedBut i order (p ∷ ps) = (IsSorted p ⊎ Occurs i order) × SortedBut (suc i) order ps

set-perm :
    (l : List ℤ) (i : ℕ) (parts : List (List ℤ)) {q : List ℤ}
    → get_elem? parts i ≡ some q
    → Perm l q
    → Perm (concat (set parts i l)) (concat parts)
set-perm l i [] g p = cc
set-perm l zero (r ∷ ps) {q} g p = let e : r ≡ q = cc in rw e (Perm.append_right (concat ps) p)
set-perm l (suc i) (r ∷ ps) g p = Perm.append_left r (set-perm l i ps g p)

-- The thread loses no number.
thread_fun-perm :
    (i : ℕ) (parts : List (List ℤ)) → Perm (concat (thread_fun i parts)) (concat parts)
unfolding thread_fun
thread_fun-perm i parts = go (get_elem? parts i) refl
  where
    go :
        (o : Option (List ℤ))
        → get_elem? parts i ≡ o
        → Perm (concat (thread_fun i parts)) (concat parts)
    go none e = rw (e, thread_fun) Perm.rfl
    go (some q) e =
        rw (e, thread_fun) (set-perm (heapsort complong q) i parts e (heapsort_sorts q).1)

run_threads-perm :
    (order : List ℕ) (parts : List (List ℤ))
    → Perm (concat (run_threads order parts)) (concat parts)
unfolding run_threads
run_threads-perm [] parts = Perm.rfl
run_threads-perm (i ∷ order) parts =
    Perm.trans (run_threads-perm order (thread_fun i parts)) (thread_fun-perm i parts)

drop-SortedBut :
    (i j : ℕ) (order : List ℕ) (parts : List (List ℤ))
    → j < i
    → SortedBut i (j ∷ order) parts
    → SortedBut i order parts
drop-SortedBut i j order [] h s = tt
drop-SortedBut i j order (p ∷ ps) h (inl sp, s) =
    (inl sp, drop-SortedBut (suc i) j order ps (omega arith) s)
drop-SortedBut i j order (p ∷ ps) h (inr (inl e), s) = absurd (omega arith)
drop-SortedBut i j order (p ∷ ps) h (inr (inr o), s) =
    (inr o, drop-SortedBut (suc i) j order ps (omega arith) s)

set-SortedBut :
    (l : List ℤ) (i k j : ℕ) (order : List ℕ) (parts : List (List ℤ))
    → IsSorted l
    → j ≡ i + k
    → SortedBut i (j ∷ order) parts
    → SortedBut i order (set parts k l)
set-SortedBut l i k j order [] sl e s = tt
set-SortedBut l i zero j order (p ∷ ps) sl e (_, s) =
    (inl sl, drop-SortedBut (suc i) j order ps (omega arith) s)
set-SortedBut l i (suc k) j order (p ∷ ps) sl e (inl sp, s) =
    (inl sp, set-SortedBut l (suc i) k j order ps sl (omega arith) s)
set-SortedBut l i (suc k) j order (p ∷ ps) sl e (inr (inl d), s) = absurd (omega arith)
set-SortedBut l i (suc k) j order (p ∷ ps) sl e (inr (inr o), s) =
    (inr o, set-SortedBut l (suc i) k j order ps sl (omega arith) s)

-- No part has the number `j`.
past-SortedBut :
    (i k j : ℕ) (order : List ℕ) (parts : List (List ℤ))
    → get_elem? parts k ≡ none
    → j ≡ i + k
    → SortedBut i (j ∷ order) parts
    → SortedBut i order parts
past-SortedBut i k j order [] g e s = tt
past-SortedBut i zero j order (p ∷ ps) g e s = cc
past-SortedBut i (suc k) j order (p ∷ ps) g e (inl sp, s) =
    (inl sp, past-SortedBut (suc i) k j order ps g (omega arith) s)
past-SortedBut i (suc k) j order (p ∷ ps) g e (inr (inl d), s) = absurd (omega arith)
past-SortedBut i (suc k) j order (p ∷ ps) g e (inr (inr o), s) =
    (inr o, past-SortedBut (suc i) k j order ps g (omega arith) s)

thread_fun-SortedBut :
    (i : ℕ) (order : List ℕ) (parts : List (List ℤ))
    → SortedBut 0 (i ∷ order) parts
    → SortedBut 0 order (thread_fun i parts)
unfolding thread_fun
thread_fun-SortedBut i order parts s = go (get_elem? parts i) refl
  where
    go : (o : Option (List ℤ)) → get_elem? parts i ≡ o → SortedBut 0 order (thread_fun i parts)
    go none e = rw (e, thread_fun) (past-SortedBut 0 i i order parts e (omega arith) s)
    go (some q) e =
        rw (e, thread_fun)
          (set-SortedBut (heapsort complong q) 0 i i order parts (heapsort_sorts q).0 (omega arith)
            s)

run_threads-SortedBut :
    (order : List ℕ) (parts : List (List ℤ))
    → SortedBut 0 order parts
    → SortedBut 0 [] (run_threads order parts)
unfolding run_threads
run_threads-SortedBut [] parts s = s
run_threads-SortedBut (i ∷ order) parts s =
    run_threads-SortedBut order (thread_fun i parts) (thread_fun-SortedBut i order parts s)

SortedBut-AllSorted : (i : ℕ) (parts : List (List ℤ)) → SortedBut i [] parts → AllSorted parts
SortedBut-AllSorted i [] s = tt
SortedBut-AllSorted i (p ∷ ps) (inl sp, s) = (sp, SortedBut-AllSorted (suc i) ps s)
SortedBut-AllSorted i (p ∷ ps) (inr o, s) = elim o [ ]

started-SortedBut :
    (i : ℕ) (order : List ℕ) (parts : List (List ℤ))
    → ((k j : ℕ) → k < length parts → j ≡ i + k → Occurs j order)
    → SortedBut i order parts
started-SortedBut i order [] h = tt
started-SortedBut i order (p ∷ ps) h = (
  inr (h 0 i (omega arith) (omega arith)),
  started-SortedBut (suc i) order ps (λ k j lt e. h (suc k) j (omega arith) (omega arith)),
)

-- In whatever order the threads sort, with one started for each part and numbers below LONG_MAX, the
-- program returns what one run of the sort on the whole array returns.
pub barrier_test-heapsort :
    (order : List ℕ) (nums : List (List ℤ))
    → ((i : ℕ) → i < length nums → Occurs i order)
    → AllSmall (concat nums)
    → barrier_test order nums ≡ some (heapsort complong (concat nums))
unfolding barrier_test
barrier_test-heapsort order nums started small =
    let kept = run_threads-perm order nums in
    let s =
      run_threads-SortedBut order nums
        (started-SortedBut 0 order nums (λ k j lt e. started j (omega arith))) in
    let (out, is, so, po) =
      merge_sorted (run_threads order nums) (SortedBut-AllSorted 0 (run_threads order nums) s)
        (λ x m. small x ((Perm.mem_iff kept).0 m)) in
    let (sh, ph) = heapsort_sorts (concat nums) in
    is ∙ ap some (ascending_unique _ _ (Perm.trans po (Perm.trans kept (Perm.symm ph))) so sh)
