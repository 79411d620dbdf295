-- ===== src/Threads/WorkQueue.antt =====
-- The work queue of UnixAdvancedProgramming/ch7_12_process/cond_test1.c: threads that take messages under
-- `qlock` and wait on `qready`. Each critical section of `qlock` is one step, since no other thread is in
-- one at the time; `pthread_cond_wait` gives the lock up as the thread falls asleep, and may return without
-- a signal. A message is the number that the producer writes into it.
pub mod Delivery
pub mod Wakeup
pub mod Drain
use unix_advanced_programing.Prelude.{
  ℕ, zero, suc, ◌≡◌, ◌≢◌, Option, none, some, List, [], ◌∷◌, get_elem?, set, replicate,
}

-- Where a thread of `process_msg` stands: before the lock, in `pthread_cond_wait`, or at work on the
-- message that it has taken.
pub data Consumer : Type 0 where
  locking asleep : Consumer
  working : (mp : ℕ) → Consumer

-- Before `enqueue_msg`, or between its unlock and `pthread_cond_signal`.
pub data Producer : Type 0 where
  making signalling : Producer

-- `workq` is the list of the messages that hang on it by `m_next`; `cnt` counts those made, and `freed`
-- are those given back to `free`.
pub record System : Type 0 where
  pub workq : List ℕ
  pub consumers : List Consumer
  pub producer : Producer
  pub cnt : ℕ
  pub freed : List ℕ

-- The critical section of `process_msg`.
unfoldable pub take_msg : List ℕ → Consumer × List ℕ
take_msg [] = (asleep, [])
take_msg (mp ∷ m_next) = (working mp, m_next)

-- The critical section of `enqueue_msg`.
unfoldable pub enqueue_msg : ℕ → List ℕ → List ℕ
enqueue_msg mp workq = mp ∷ workq

unfoldable pub consumed : ℕ → System → System
unfolding take_msg
consumed i s =
    let (c, rest) = take_msg s.workq in record s { workq = rest; consumers = set s.consumers i c }

-- `free(mp)`, and back to the lock.
unfoldable pub freed_msg : ℕ → ℕ → System → System
freed_msg i mp s = record s { consumers = set s.consumers i locking; freed = mp ∷ s.freed }

unfoldable pub produced : System → System
unfolding enqueue_msg
produced s = record s {
  workq = enqueue_msg (suc s.cnt) s.workq;
  cnt = suc s.cnt;
  producer = signalling;
}

-- A sleeper goes for the lock, and then tests `workq` again.
unfoldable pub woken : ℕ → System → System
woken i s = record s { consumers = set s.consumers i locking }

unfoldable pub signalled : System → System
signalled s = record s { producer = making }

-- The steps of the threads, in any order.
pub data Step (s : System) : System → Type 0 where
  lock : (i : ℕ) → get_elem? s.consumers i ≡ some locking → Step s (consumed i s)
  finish : (i mp : ℕ) → get_elem? s.consumers i ≡ some (working mp) → Step s (freed_msg i mp s)
  enqueue : s.producer ≡ making → Step s (produced s)
  signal :
      (i : ℕ)
      → s.producer ≡ signalling
      → get_elem? s.consumers i ≡ some asleep
      → Step s (signalled (woken i s))
  signal_none :
      s.producer ≡ signalling
      → ((i : ℕ) → get_elem? s.consumers i ≢ some asleep)
      → Step s (signalled s)
  spurious : (i : ℕ) → get_elem? s.consumers i ≡ some asleep → Step s (woken i s)

-- `cond_test1` with `n` threads.
unfoldable pub cond_test1 : ℕ → System
cond_test1 n = record {
  workq = [];
  consumers = replicate n locking;
  producer = making;
  cnt = 0;
  freed = [];
}

pub data Reached (n : ℕ) : System → Type 0 where
  started : Reached n (cond_test1 n)
  stepped : (s t : System) → Reached n s → Step s t → Reached n t
