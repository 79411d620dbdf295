-- ===== src/Threads/Barrier.antt =====
-- UnixAdvancedProgramming/ch7_12_process/barier_test1.c: eight threads sort the parts of an array,
-- wait at a barrier, and the first thread merges the parts. An index that only moves forward
-- through an array is the rest of the array from there on; `nums` is the list of its parts.
pub mod Exchange
pub mod Merge
pub mod Parallel
use unix_advanced_programing.Prelude.{
  ℕ, zero, suc, ◌-◌, ◌^◌, ◌≡◌, Bool, true, false, ◌&&◌, Option, none, some, List, [], ◌∷◌, ◌++◌,
  length, set, get_elem?, if◌then◌else◌, ◌>>=◌, ◌==◌,
}
use unix_advanced_programing.Prelude.Int.{ℤ, pos, negsuc, is_pos}
use unix_advanced_programing.Prelude.Int.Order.{lt_ℤ}

-- `l1 == l2`
abbrev pub eq_ℤ : ℤ → ℤ → Bool
eq_ℤ (pos a) (pos b) = a == b
eq_ℤ (negsuc a) (negsuc b) = a == b
eq_ℤ _ _ = false

unfoldable pub complong : ℤ → ℤ → ℤ
complong l1 l2 = if eq_ℤ l1 l2 then pos 0 else if lt_ℤ l2 l1 then pos 1 else negsuc 0

-- The rounds of `jx`, with `p[ix]` and the elements from `p[ix + 1]` on: the new `p[ix]`, and the others.
unfoldable pub exchange : (ℤ → ℤ → ℤ) → ℤ → List ℤ → ℤ × List ℤ
exchange cmp x [] = (x, [])
exchange cmp x (y ∷ ys) =
    let rest = exchange cmp (if is_pos (cmp x y) then y else x) ys in
    (rest.0, (if is_pos (cmp x y) then x else y) ∷ rest.1)

-- `n` rounds of `ix`, on the elements from `p[ix]` on.
unfoldable pub exchange_rounds : (ℤ → ℤ → ℤ) → ℕ → List ℤ → List ℤ
unfolding exchange
exchange_rounds cmp zero p = p
exchange_rounds cmp (suc n) [] = []
exchange_rounds cmp (suc n) (x ∷ xs) =
    let rest = exchange cmp x xs in rest.0 ∷ exchange_rounds cmp n rest.1

-- With `len` 0, `len - 1` is SIZE_MAX; each of those rounds finds nothing to compare.
unfoldable pub heapsort : (ℤ → ℤ → ℤ) → List ℤ → List ℤ
unfolding exchange_rounds
heapsort cmp p = exchange_rounds cmp (length p - 1) p

abbrev pub long_max : ℤ
long_max = pos (2 ^ 63 - 1)

-- The thread that is started with part `i` sorts it in place.
unfoldable pub thread_fun : ℕ → List (List ℤ) → List (List ℤ)
unfolding heapsort complong
thread_fun i nums = elim (get_elem? nums i) [
  | none ↦ nums
  | some part ↦ set nums i (heapsort complong part)
]

-- The threads in the order in which they sort; they share no element, and the barrier lets the first
-- thread go on only behind the last of them.
unfoldable pub run_threads : List ℕ → List (List ℤ) → List (List ℤ)
unfolding thread_fun
run_threads [] nums = nums
run_threads (i ∷ order) nums = run_threads order (thread_fun i nums)

-- The rounds of `i`: from the part `i` on, `min_num` and `min_idx`. A part is what is left of it;
-- `none` is the value of `min_idx` before anything has set it.
unfoldable pub find_min : ℕ → ℤ → Option ℕ → List (List ℤ) → Option ℕ
find_min i min_num min_idx [] = min_idx
find_min i min_num min_idx ([] ∷ parts) = find_min (suc i) min_num min_idx parts
find_min i min_num min_idx ((x ∷ xs) ∷ parts) =
    find_min (suc i) (if lt_ℤ x min_num then x else min_num)
      (if lt_ℤ x min_num then some i else min_idx) parts

-- `snums[start_idx] = nums[idx[min_idx]]; idx[min_idx]++;`, or `none` where `min_idx` is not set or
-- its part is at its end, so that an element outside is read.
unfoldable pub take_min : Option ℕ → List (List ℤ) → Option (ℤ × List (List ℤ))
take_min none parts = none
take_min (some i) parts = elim (get_elem? parts i) [
  | none ↦ none
  | some [] ↦ none
  | some (x ∷ xs) ↦ some (x, set parts i xs)
]

-- The rounds of `start_idx`, as many as there are elements; `min_idx` stays from one to the next.
unfoldable pub merge_rounds : ℕ → Option ℕ → List (List ℤ) → Option (List ℤ)
unfolding find_min take_min
merge_rounds zero min_idx parts = some []
merge_rounds (suc n) min_idx parts =
    let next = find_min 0 long_max min_idx parts in
    do (x, parts') ← take_min next parts; rest ← merge_rounds n next parts'; some (x ∷ rest)

abbrev pub concat : List (List ℤ) → List ℤ
concat [] = []
concat (p ∷ ps) = p ++ concat ps

unfoldable pub merge : List (List ℤ) → Option (List ℤ)
unfolding merge_rounds
merge parts = merge_rounds (length (concat parts)) none parts

-- From the creation of the threads to the array `snums`.
unfoldable pub barrier_test : List ℕ → List (List ℤ) → Option (List ℤ)
unfolding run_threads merge
barrier_test order nums = merge (run_threads order nums)
