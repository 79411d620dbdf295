-- ===== src/Threads/JobQueue/Add.antt =====
-- `job_insert` and `job_append` of lock_test4.c.
use unix_advanced_programing.Prelude.{ℕ, ◌≡◌, refl, ◌≢◌, some, [], ◌∷◌, ◌++◌, arith}
use unix_advanced_programing.Threads.JobQueue.{
  null, job, Heap, write, Queue, queue, job_insert, job_append,
}
use unix_advanced_programing.Threads.JobQueue.Seg.{
  Jobs, Out, Seg, Forward, IsQueue, Seg-write, Seg-split, Out-split,
}

-- `job_insert` of a job that is in no queue puts it in front of all others.
pub job_insert-cons :
    (q : Queue) (jp n b i : ℕ) (xs : Jobs)
    → IsQueue q xs
    → jp ≢ null
    → q.heap jp ≡ some (job n b i)
    → Out jp xs
    → (q' : Queue) × (job_insert jp q ≡ some q') × IsQueue q' ((jp, i) ∷ xs)
unfolding job_insert write
job_insert-cons q jp n b i [] is ne at out =
    let (hd, tl) = is.chain in
    (
      queue jp jp (write (write q.heap jp (job n null i)) jp (job q.q_head null i)),
      ground arith,
      record { chain = (refl, ne, null, ground arith, (refl, refl)); distinct = (tt, tt) },
    )
job_insert-cons q jp n b i ((x, k) ∷ xs) is ne at out =
    let (hd, xne, nx, held, rest) = is.chain in
    let h₁ : Heap = write q.heap jp (job n null i) in
    let h₂ : Heap = write h₁ jp (job q.q_head null i) in
    let h₃ : Heap = write h₂ q.q_head (job nx jp k) in
    let apart : Out q.q_head xs = rw hd is.distinct.0 in
    let kept : Seg h₃ x nx xs q.q_tail null =
      Seg-write _ _ _ _ _ _ _ xs apart
        (Seg-write _ _ _ _ _ _ _ xs out.1 (Seg-write _ _ _ _ _ _ _ xs out.1 rest)) in
    (
      queue jp q.q_tail h₃,
      ground arith,
      record {
        chain = (refl, ne, x, ground arith, (refl, xne, nx, ground arith, kept));
        distinct = (out, is.distinct);
      },
    )

-- `job_append` to an empty queue makes the job its only one.
pub job_append-nil :
    (q : Queue) (jp n b i : ℕ)
    → IsQueue q []
    → jp ≢ null
    → q.heap jp ≡ some (job n b i)
    → (q' : Queue) × (job_append jp q ≡ some q') × IsQueue q' ((jp, i) ∷ [])
unfolding job_append write
job_append-nil q jp n b i is ne at =
    let (hd, tl) = is.chain in
    (
      queue jp jp (write (write q.heap jp (job n q.q_tail i)) jp (job null q.q_tail i)),
      ground arith,
      record { chain = (refl, ne, null, ground arith, (refl, refl)); distinct = (tt, tt) },
    )

-- `job_append` to a queue that holds a job loses all the jobs in it: the way from the new head leads
-- to the appended job and ends there.
pub job_append_loses :
    (q : Queue) (jp n b i : ℕ) (xs : Jobs) (y k : ℕ)
    → IsQueue q (xs ++ (y, k) ∷ [])
    → jp ≢ null
    → q.heap jp ≡ some (job n b i)
    → Out jp (xs ++ (y, k) ∷ [])
    → (q' : Queue) × (job_append jp q ≡ some q') × Forward q'.heap q'.q_head ((jp, i) ∷ [])
unfolding job_append write
job_append_loses q jp n b i xs y k is ne at out =
    let (a, c, front, (cy, yne, m, held, end)) =
      Seg-split q.heap null q.q_head q.q_tail null xs ((y, k) ∷ []) is.chain in
    let apart = (Out-split jp xs ((y, k) ∷ []) out).1.0 in
    let h₂ : Heap = write (write q.heap jp (job n q.q_tail i)) jp (job null q.q_tail i) in
    (
      queue jp q.q_tail (write h₂ q.q_tail (job jp a k)),
      ground arith,
      (refl, ne, null, q.q_tail, ground arith, refl),
    )
