-- ===== src/Threads/JobQueue/Remove.antt =====
-- `job_remove` of lock_test4.c.
use unix_advanced_programing.Prelude.{
  ℕ, ◌≡◌, refl, sym, subst, inl, inr, Bool-cases, ◌==◌, some, [], ◌∷◌, ◌++◌, arith,
}
use unix_advanced_programing.Threads.JobQueue.{null, job, write, Queue, queue, job_remove}
use unix_advanced_programing.Threads.JobQueue.Seg.{
  Jobs, Out, Forward, IsQueue, Seg-write, Seg-split, Distinct-mid, Seg-last, Seg-relink,
  Seg-Forward, Forward-KeepsWay,
}

-- `job_remove` of the first job leaves the queue of the others.
pub job_remove_first :
    (q : Queue) (jp i : ℕ) (xs : Jobs)
    → IsQueue q ((jp, i) ∷ xs)
    → (q' : Queue) × (job_remove jp q ≡ some q') × IsQueue q' xs
unfolding job_remove write
job_remove_first q jp i [] is =
    let (hd, ne, n, held, end) = is.chain in
    (queue n null q.heap, ground arith, record { chain = (end.0, refl); distinct = tt })
job_remove_first q jp i ((x, k) ∷ xs) is =
    let (hd, ne, n, held, (nx, xne, m, xheld, rest)) = is.chain in
    let (apart, (out, fine)) = is.distinct in
    (
      queue n q.q_tail (write q.heap n (job m null k)),
      ground (arith, Seg-last q.heap jp n q.q_tail null jp x k xs is.chain.4 apart),
      record {
        chain = (
          nx,
          xne,
          m,
          ground arith,
          Seg-write _ _ _ _ _ n _ xs (subst (λ a. Out a xs) (sym nx) out) rest,
        );
        distinct = (out, fine);
      },
    )

-- `job_remove` of the last of several jobs leaves the queue of the others.
pub job_remove_last :
    (q : Queue) (x k : ℕ) (xs : Jobs) (jp i : ℕ)
    → IsQueue q (((x, k) ∷ xs) ++ (jp, i) ∷ [])
    → (q' : Queue) × (job_remove jp q ≡ some q') × IsQueue q' ((x, k) ∷ xs)
unfolding job_remove write
job_remove_last q x k xs jp i is =
    let (a, c, front, (at, ne, n, held, (stop, end))) =
      Seg-split q.heap null q.q_head q.q_tail null ((x, k) ∷ xs) ((jp, i) ∷ []) is.chain in
    let (out, _, fine, _) = Distinct-mid ((x, k) ∷ xs) jp i [] is.distinct in
    let (b, j, ane, last, linked) = Seg-relink q.heap null q.q_head a c null x k xs fine front in
    (
      queue q.q_head a (write q.heap a (job null b j)),
      ground arith,
      record { chain = linked; distinct = fine },
    )

-- `job_remove` of a job with others before it and behind it removes nothing: the way from the head
-- still leads through it.
pub job_remove_keeps :
    (q : Queue) (x k : ℕ) (xs : Jobs) (jp i : ℕ) (y l : ℕ) (ys : Jobs)
    → IsQueue q (((x, k) ∷ xs) ++ (jp, i) ∷ (y, l) ∷ ys)
    → (q' : Queue) × (job_remove jp q ≡ some q')
      × Forward q'.heap q'.q_head (((x, k) ∷ xs) ++ (jp, i) ∷ (y, l) ∷ ys)
unfolding job_remove write
job_remove_keeps q x k xs jp i y l ys is =
    let (a, c, front, (at, ne, n, held, (ny, yne, m, yheld, rest))) =
      Seg-split q.heap null q.q_head q.q_tail null ((x, k) ∷ xs) ((jp, i) ∷ (y, l) ∷ ys) is.chain in
    let (out, behind, _, _) = Distinct-mid ((x, k) ∷ xs) jp i ((y, l) ∷ ys) is.distinct in
    let apart = Seg-last q.heap jp n q.q_tail null jp y l ys (ny, yne, m, yheld, rest) behind in
    (
      queue q.q_head q.q_tail (write (write q.heap jp (job n jp i)) jp (job n jp i)),
      ground arith,
      Forward-KeepsWay q.heap _ q.q_head (((x, k) ∷ xs) ++ (jp, i) ∷ (y, l) ∷ ys)
          (λ z n' b' i' e. elim (Bool-cases (z == jp)) [
            | inl here ↦ (jp, ground arith)
            | inr there ↦ (b', ground arith)
          ])
          (Seg-Forward q.heap null q.q_head q.q_tail (((x, k) ∷ xs) ++ (jp, i) ∷ (y, l) ∷ ys)
            is.chain),
    )
