-- ===== src/Threads/WorkQueue/Delivery.antt =====
-- Where the messages of cond_test1.c are.
use unix_advanced_programing.Prelude.{
  ℕ, zero, suc, ◌+◌, ◌≡◌, refl, ◌&&◌, some, List, [], ◌∷◌, get_elem?, set, replicate, ◌==◌, leb,
  if◌then◌else◌, arith,
}
use unix_advanced_programing.Threads.WorkQueue.{
  Consumer, locking, asleep, working, System, take_msg, enqueue_msg, consumed, freed_msg, produced,
  woken, signalled, Step, lock, finish, enqueue, signal, signal_none, spurious, cond_test1, Reached,
  started, stepped,
}

-- How often a message stands in a list, and in the hands of the threads.
abbrev pub copies : ℕ → List ℕ → ℕ
copies m [] = 0
copies m (x ∷ xs) = (if m == x then 1 else 0) + copies m xs

abbrev pub at_work : ℕ → Consumer → ℕ
at_work m (working mp) = if m == mp then 1 else 0
at_work m c = 0

abbrev pub in_hands : ℕ → List Consumer → ℕ
in_hands m [] = 0
in_hands m (c ∷ cs) = at_work m c + in_hands m cs

abbrev pub places : ℕ → System → ℕ
places m s = copies m s.workq + in_hands m s.consumers + copies m s.freed

abbrev pub made_once : ℕ → ℕ → ℕ
made_once m cnt = if leb 1 m && leb m cnt then 1 else 0

in_hands-set :
    (m i : ℕ) (b c : Consumer) (cs : List Consumer)
    → get_elem? cs i ≡ some b
    → in_hands m (set cs i c) + at_work m b ≡ in_hands m cs + at_work m c
in_hands-set m i b c [] e = cc
in_hands-set m zero b c (x ∷ cs) e = let is : x ≡ b = cc in rw is (omega arith)
in_hands-set m (suc i) b c (x ∷ cs) e = omega (arith, in_hands-set m i b c cs e)

in_hands-replicate : (m n : ℕ) → in_hands m (replicate n locking) ≡ 0
in_hands-replicate m zero = refl
in_hands-replicate m (suc n) = omega (arith, in_hands-replicate m n)

took :
    (m i : ℕ) (s : System) (q : List ℕ)
    → s.workq ≡ q
    → get_elem? s.consumers i ≡ some locking
    → copies m (take_msg q).1 + in_hands m (set s.consumers i (take_msg q).0)
      ≡ copies m q + in_hands m s.consumers
unfolding take_msg
took m i s [] e at = omega (arith, in_hands-set m i locking asleep s.consumers at)
took m i s (mp ∷ q) e at = omega (arith, in_hands-set m i locking (working mp) s.consumers at)

Step-places :
    (m : ℕ) (s t : System)
    → Step s t
    → places m s ≡ made_once m s.cnt
    → places m t ≡ made_once m t.cnt
unfolding consumed freed_msg produced woken signalled enqueue_msg
Step-places m s _ (lock i at) h = omega (arith, took m i s s.workq refl at)
Step-places m s _ (finish i mp at) h =
    omega (arith, in_hands-set m i (working mp) locking s.consumers at)
Step-places m s _ (enqueue e) h = ground arith
Step-places m s _ (signal i e at) h = omega (arith, in_hands-set m i asleep locking s.consumers at)
Step-places m s _ (signal_none e no_sleeper) h = h
Step-places m s _ (spurious i at) h = omega (arith, in_hands-set m i asleep locking s.consumers at)

-- However the threads are interleaved, each message that has been made is in exactly one place, once:
-- in the queue, in the hands of one thread, or freed. None is lost, and none is processed or freed twice.
pub Reached-places : (n m : ℕ) (s : System) → Reached n s → places m s ≡ made_once m s.cnt
unfolding cond_test1
Reached-places n m _ started = ground (arith, in_hands-replicate m n)
Reached-places n m _ (stepped s t r st) = Step-places m s t st (Reached-places n m s r)
