-- ===== src/Threads/WorkQueue/Wakeup.antt =====
-- The condition variable of cond_test1.c: the threads that a message in the queue may count on.
use unix_advanced_programing.Prelude.{
  ℕ, zero, suc, ◌<◌, ◌≡◌, ◌≢◌, refl, ◌∙◌, ◌⊎◌, inl, inr, some, List, [], ◌∷◌, get_elem?, set, arith,
  get_elem?-set_self, length, length-set, length-replicate,
}
use unix_advanced_programing.Threads.WorkQueue.{
  Consumer, locking, asleep, working, signalling, System, take_msg, consumed, freed_msg, produced,
  woken, signalled, Step, lock, finish, enqueue, signal, signal_none, spurious, cond_test1, Reached,
  started, stepped,
}

abbrev pub Awake : List Consumer → Type 0
Awake cs =
    (i : ℕ) × ((get_elem? cs i ≡ some locking) ⊎ ((mp : ℕ) × (get_elem? cs i ≡ some (working mp))))

-- A message in the queue has a signal coming, or a thread that is not asleep.
abbrev pub Attended : System → Type 0
Attended s = (s.workq ≡ []) ⊎ ((s.producer ≡ signalling) ⊎ Awake s.consumers)

elem-lt : (cs : List Consumer) (i : ℕ) (c : Consumer) → get_elem? cs i ≡ some c → i < length cs
elem-lt [] i c e = cc
elem-lt (x ∷ cs) zero c e = omega arith
elem-lt (x ∷ cs) (suc i) c e = omega (arith, elem-lt cs i c e)

-- A thread that has just gone for the lock is awake.
set-Awake :
    (cs : List Consumer) (i : ℕ) (b : Consumer) → get_elem? cs i ≡ some b → Awake (set cs i locking)
set-Awake cs i b e = (i, inl (get_elem?-set_self cs i locking (elem-lt cs i b e)))

took-Attended :
    (s : System) (i : ℕ) (q : List ℕ)
    → s.workq ≡ q
    → get_elem? s.consumers i ≡ some locking
    → ((take_msg q).1 ≡ []) ⊎ Awake (set s.consumers i (take_msg q).0)
unfolding take_msg
took-Attended s i [] e at = inl refl
took-Attended s i (mp ∷ q) e at =
    inr (
      i,
      inr (mp, get_elem?-set_self s.consumers i (working mp) (elem-lt s.consumers i locking at)),
    )

first-Awake : (cs : List Consumer) → 0 < length cs → get_elem? cs 0 ≢ some asleep → Awake cs
first-Awake [] lt ne = absurd (omega arith)
first-Awake (locking ∷ cs) lt ne = (0, inl refl)
first-Awake (asleep ∷ cs) lt ne = absurd (ne refl)
first-Awake (working mp ∷ cs) lt ne = (0, inr (mp, refl))

Step-Attended : (s t : System) → 0 < length s.consumers → Step s t → Attended t
unfolding consumed freed_msg produced woken signalled
Step-Attended s _ lt (lock i at) = elim (took-Attended s i s.workq refl at) [
  | inl empty ↦ inl empty
  | inr awake ↦ inr (inr awake)
]
Step-Attended s _ lt (finish i mp at) = inr (inr (set-Awake s.consumers i (working mp) at))
Step-Attended s _ lt (enqueue e) = inr (inl refl)
Step-Attended s _ lt (signal i e at) = inr (inr (set-Awake s.consumers i asleep at))
Step-Attended s _ lt (signal_none e no_sleeper) =
    inr (inr (first-Awake s.consumers lt (no_sleeper 0)))
Step-Attended s _ lt (spurious i at) = inr (inr (set-Awake s.consumers i asleep at))

Step-length : (s t : System) → Step s t → length t.consumers ≡ length s.consumers
unfolding consumed freed_msg produced woken signalled
Step-length s _ (lock i at) = length-set s.consumers i _
Step-length s _ (finish i mp at) = length-set s.consumers i _
Step-length s _ (enqueue e) = refl
Step-length s _ (signal i e at) = length-set s.consumers i _
Step-length s _ (signal_none e no_sleeper) = refl
Step-length s _ (spurious i at) = length-set s.consumers i _

pub Reached-length : (n : ℕ) (s : System) → Reached n s → length s.consumers ≡ n
unfolding cond_test1
Reached-length n _ started = length-replicate n locking
Reached-length n _ (stepped s t r st) = Step-length s t st ∙ Reached-length n s r

-- With a thread at all, no wake-up is lost: in every reachable state, if there is a message in the queue
-- then a signal is about to be sent, or some thread is not asleep.
pub Reached-Attended : (n : ℕ) (s : System) → 0 < n → Reached n s → Attended s
unfolding cond_test1
Reached-Attended n _ lt started = inl refl
Reached-Attended n _ lt (stepped s t r st) =
    Step-Attended s t (omega (arith, Reached-length n s r)) st
