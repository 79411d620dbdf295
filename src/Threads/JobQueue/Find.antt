-- ===== src/Threads/JobQueue/Find.antt =====
-- `job_find` of lock_test4.c.
use unix_advanced_programing.Prelude.{
  ℕ, zero, suc, ◌<◌, ◌≡◌, refl, ◌≢◌, ◌⊎◌, inl, inr, Bool-cases, true, false, some, [], ◌∷◌, ◌++◌,
  ◌==◌, ==_iff, arith, length, ap,
}
use unix_advanced_programing.Threads.JobQueue.{Ptr, null, Queue, find_loop, job_find}
use unix_advanced_programing.Threads.JobQueue.Seg.{Jobs, Forward, IsQueue, Seg-Forward, load-job}

-- No job of the list is for the thread.
abbrev pub Free : ℕ → Jobs → Type 0
Free id [] = Unit {0}
Free id ((x, i) ∷ xs) = (i ≢ id) × Free id xs

-- `p` is the first job of the list for the thread, or null where there is none.
abbrev pub IsFirst : ℕ → Jobs → Ptr → Type 0
IsFirst id xs p =
    ((p ≡ null) × Free id xs)
    ⊎ ((front : Jobs) × (back : Jobs) × (xs ≡ front ++ (p, id) ∷ back) × Free id front)

IsFirst-cons :
    (id : ℕ) (x i : ℕ) (xs : Jobs) (p : Ptr) → i ≢ id → IsFirst id xs p → IsFirst id ((x, i) ∷ xs) p
IsFirst-cons id x i xs p ne (inl (a, b)) = inl (a, (ne, b))
IsFirst-cons id x i xs p ne (inr (front, back, e, f)) =
    inr ((x, i) ∷ front, back, ap (λ l. (x, i) ∷ l) e, (ne, f))

module _ (q : Queue) (id : ℕ) where
  find_loop-IsFirst :
      (k : ℕ) (xs : Jobs) (p : Ptr)
      → Forward q.heap p xs
      → length xs < k
      → (r : Ptr) × (find_loop id k p q ≡ some r) × IsFirst id xs r
  unfolding find_loop
  find_loop-IsFirst zero xs p way fuel = absurd (omega arith)
  find_loop-IsFirst (suc k) [] p way fuel = (null, rw way, inl (refl, tt))
  find_loop-IsFirst (suc k) ((x, i) ∷ xs) p (at, ne, n, b, held, way) fuel =
      let (r, is, first) = find_loop-IsFirst k xs n way (omega arith) in
      let some_job : (p == null) ≡ false = ground arith in
      let loaded = load-job q p n b i (ground arith) (ground arith) in
      elim (Bool-cases (i == id)) [
        | inl hit ↦ (
          p,
          rw (some_job, loaded, hit, find_loop),
          inr ([], xs, rw (at, (==_iff i id).0 hit), tt),
        )
        | inr miss ↦ (
          r,
          rw (some_job, loaded, miss, find_loop) is,
          IsFirst-cons id x i xs r (ground arith) first,
        )
      ]

  -- `job_find` on a queue, with fuel for every job of it and the lock taken, returns the first job for
  -- the thread, or null if there is none.
  pub job_find-IsFirst :
      (fuel : ℕ) (xs : Jobs)
      → IsQueue q xs
      → length xs < fuel
      → (r : Ptr) × (job_find true fuel id q ≡ some r) × IsFirst id xs r
  unfolding job_find
  job_find-IsFirst fuel xs is enough =
      find_loop-IsFirst fuel xs q.q_head (Seg-Forward q.heap null q.q_head q.q_tail xs is.chain)
        enough
