-- ===== src/Threads/JobQueue.antt =====
-- ch7_12_process/lock_test4.c: a doubly linked queue of jobs on an explicit heap. Each function is one
-- critical section: it runs from the lock to the unlock with no step of another thread between.
pub mod Seg
pub mod Add
pub mod Remove
pub mod Find
use unix_advanced_programing.Prelude.{
  ◌>>=◌, ℕ, zero, suc, Bool, true, false, Option, none, some, ◌==◌, if◌then◌else◌,
}

abbrev pub Ptr : Type 0
Ptr = ℕ

abbrev pub null : Ptr
null = 0

-- `struct job`; `j_id` is the thread that handles it.
pub record Job : Type 0 where
  pub j_next : Ptr
  pub j_prev : Ptr
  pub j_id : ℕ

abbrev pub job : Ptr → Ptr → ℕ → Job
job n p i = record { j_next = n; j_prev = p; j_id = i }

abbrev pub Heap : Type 0
Heap = Ptr → Option Job

unfoldable pub write : Heap → Ptr → Job → Heap
write h p j a = if a == p then some j else h a

-- `struct queue` and the jobs that it can reach. (The lock is held throughout.)
pub record Queue : Type 0 where
  pub q_head : Ptr
  pub q_tail : Ptr
  pub heap : Heap

abbrev pub queue : Ptr → Ptr → Heap → Queue
queue hd tl h = record { q_head = hd; q_tail = tl; heap = h }

-- `none` is a read or write through a pointer to no job.
pub load : Ptr → Queue → Option Job
load p q = if p == null then none else q.heap p

pub store : Ptr → Job → Queue → Queue
store p j q = record q { heap = write q.heap p j }

-- `p->j_next = v` and `p->j_prev = v`
pub set_next : Ptr → Ptr → Queue → Option Queue
unfolding load store
set_next p v q = do j ← load p q; some (store p (record j { j_next = v }) q)

pub set_prev : Ptr → Ptr → Queue → Option Queue
unfolding load store
set_prev p v q = do j ← load p q; some (store p (record j { j_prev = v }) q)

unfoldable pub queue_init : Heap → Queue
queue_init h = queue null null h

pub job_insert : Ptr → Queue → Option Queue
unfolding set_next set_prev
job_insert jp q = do
  q ← set_prev jp null q
  q ← set_next jp q.q_head q
  q ← (if q.q_head == null then some (record q { q_tail = jp }) else set_prev q.q_head jp q)
  some (record q { q_head = jp })

pub job_append : Ptr → Queue → Option Queue
unfolding set_next set_prev
job_append jp q = do
  q ← set_prev jp q.q_tail q
  q ← set_next jp null q
  q ← (if q.q_tail == null then some (record q { q_tail = jp }) else set_next q.q_tail jp q)
  some (record q { q_head = jp })

remove_head : Ptr → Queue → Option Queue
unfolding set_prev load
remove_head jp q = do
  j ← load jp q
  let q' = record q { q_head = j.j_next }
  if jp == q'.q_tail then some (record q' { q_tail = null }) else set_prev j.j_next j.j_prev q'

remove_tail : Ptr → Queue → Option Queue
unfolding set_next load
remove_tail jp q = do
  j ← load jp q
  let q' = record q { q_tail = j.j_prev }
  if jp == q'.q_head then some (record q' { q_head = null }) else set_next j.j_prev j.j_next q'

remove_middle : Ptr → Queue → Option Queue
unfolding set_next set_prev load
remove_middle jp q = do
  j ← load jp q
  next ← load j.j_next q
  q ← set_prev jp next.j_prev q
  j ← load jp q
  prev ← load j.j_prev q
  set_next jp prev.j_next q

pub job_remove : Ptr → Queue → Option Queue
unfolding remove_head remove_tail remove_middle
job_remove jp q =
    if jp == q.q_head
    then remove_head jp q
    else if jp == q.q_tail
    then remove_tail jp q
    else remove_middle jp q

-- `for (jp = qp->q_head; jp != NULL; jp = jp->j_next)`; the outer `none` is a bad pointer or the end
-- of the fuel.
find_loop : ℕ → ℕ → Ptr → Queue → Option Ptr
find_loop id zero p q = none
find_loop id (suc k) p q = elim (p == null) [
  | true ↦ some null
  | false ↦ load p q >>= λ j.
      (let rest = find_loop id k j.j_next q in if j.j_id == id then some p else rest)
]

-- `locked` says whether `pthread_rwlock_rdlock` returned 0.
pub job_find : Bool → ℕ → ℕ → Queue → Option Ptr
unfolding find_loop load
job_find locked fuel id q = if locked then find_loop id fuel q.q_head q else some null
