-- ===== src/Threads/Examples/Queues.antt =====
-- Queues of one, two and three jobs, and a job outside.
use unix_advanced_programing.Prelude.{
  ℕ, ◌≡◌, ◌≢◌, refl, true, false, some, none, [], ◌∷◌, ◌==◌, if◌then◌else◌, arith,
}
use unix_advanced_programing.Threads.JobQueue.{job, Heap, Queue, queue, job_insert, job_find}
use unix_advanced_programing.Threads.JobQueue.Seg.{IsQueue}
use unix_advanced_programing.Threads.JobQueue.Add.{job_insert-cons}
use unix_advanced_programing.Threads.JobQueue.Find.{IsFirst, job_find-IsFirst}

-- Job 9, for thread 90, is in no queue.
abbrev alone : Heap
alone p = if p == 9 then some (job 0 0 90) else none

abbrev two : Heap
two p = if p == 1 then some (job 2 0 10) else if p == 2 then some (job 0 1 20) else alone p

abbrev three : Heap
three p =
    if p == 1
    then some (job 2 0 10)
    else if p == 2
    then some (job 3 1 20)
    else if p == 3
    then some (job 0 2 30)
    else alone p

differ : (a b : ℕ) → (a == b) ≡ false → a ≢ b
differ a b e = ground arith

two-IsQueue : IsQueue (queue 1 2 two) ((1, 10) ∷ (2, 20) ∷ [])
two-IsQueue = record {
  chain = (refl, differ 1 0 refl, 2, refl, (refl, differ 2 0 refl, 0, refl, (refl, refl)));
  distinct = ((differ 1 2 refl, tt), (tt, tt));
}

three-IsQueue : IsQueue (queue 1 3 three) ((1, 10) ∷ (2, 20) ∷ (3, 30) ∷ [])
three-IsQueue = record {
  chain = (
    refl,
    differ 1 0 refl,
    2,
    refl,
    (refl, differ 2 0 refl, 3, refl, (refl, differ 3 0 refl, 0, refl, (refl, refl))),
  );
  distinct = ((differ 1 2 refl, (differ 1 3 refl, tt)), ((differ 2 3 refl, tt), (tt, tt)));
}

job_insert_example :
    (q : Queue) × (job_insert 9 (queue 1 2 two) ≡ some q)
    × IsQueue q ((9, 90) ∷ (1, 10) ∷ (2, 20) ∷ [])
job_insert_example =
    job_insert-cons (queue 1 2 two) 9 0 0 90 ((1, 10) ∷ (2, 20) ∷ []) two-IsQueue (differ 9 0 refl)
      refl (differ 9 1 refl, (differ 9 2 refl, tt))

job_find_example :
    (r : ℕ) × (job_find true 4 20 (queue 1 3 three) ≡ some r)
    × IsFirst 20 ((1, 10) ∷ (2, 20) ∷ (3, 30) ∷ []) r
job_find_example =
    job_find-IsFirst (queue 1 3 three) 20 4 ((1, 10) ∷ (2, 20) ∷ (3, 30) ∷ []) three-IsQueue
      (omega arith)
