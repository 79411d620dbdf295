-- ===== src/Threads/WorkQueue/Drain.antt =====
-- How the threads of cond_test1.c come to the end of the queue.
use unix_advanced_programing.Prelude.{ℕ, ◌+◌, ◌*◌, ◌<◌, ◌≡◌, List, [], ◌∷◌, length}
use unix_advanced_programing.Threads.WorkQueue.{
  Consumer, working, Producer, making, signalling, System, Step,
}
use unix_advanced_programing.Threads.WorkQueue.Delivery.{copies, made_once}

-- A sequence of steps in which no message is made.
pub data Run : System → System → Type 0 where
  still : (s : System) → Run s s
  onwards : (s t u : System) → Step s t → t.cnt ≡ s.cnt → Run t u → Run s u

abbrev effort : Consumer → ℕ
effort (working mp) = 2
effort c = 0

abbrev efforts : List Consumer → ℕ
efforts [] = 0
efforts (c ∷ cs) = effort c + efforts cs

abbrev coming : Producer → ℕ
coming making = 0
coming signalling = 1

-- What is left to do.
abbrev left : System → ℕ
left s = 3 * length s.workq + efforts s.consumers + coming s.producer

-- A step that leaves less to do.
abbrev Onward : System → Type 0
Onward s = (t : System) × Step s t × (t.cnt ≡ s.cnt) × (left t < left s)

-- Every message made so far has been freed, once.
abbrev pub Drained : System → ℕ → Type 0
Drained s cnt = (s.workq ≡ []) × ((m : ℕ) → copies m s.freed ≡ made_once m cnt)
