-- ===== src/Threads/Examples/Messages.antt =====
-- The theorems on cond_test1.c at concrete inputs: two threads and one message.
use unix_advanced_programing.Prelude.{◌≡◌, refl}
use unix_advanced_programing.Threads.WorkQueue.{
  System, take_msg, enqueue_msg, consumed, produced, woken, signalled, lock, enqueue, signal,
  cond_test1, Reached, started, stepped,
}
use unix_advanced_programing.Threads.WorkQueue.Delivery.{places, made_once, Reached-places}

-- The first thread falls asleep, and a message comes.
abbrev one_message : System
one_message = produced (consumed 0 (cond_test1 2))

-- The signal wakes the thread, and it takes the message.
abbrev one_taken : System
one_taken = consumed 0 (signalled (woken 0 one_message))

one_message-Reached : Reached 2 one_message
unfolding cond_test1 consumed take_msg produced
one_message-Reached = stepped _ _ (stepped _ _ started (lock 0 refl)) (enqueue refl)

one_taken-Reached : Reached 2 one_taken
unfolding cond_test1 consumed take_msg produced enqueue_msg woken signalled
one_taken-Reached = stepped _ _ (stepped _ _ one_message-Reached (signal 0 refl refl)) (lock 0 refl)

reached_places_example : places 1 one_taken ≡ made_once 1 one_taken.cnt
reached_places_example = Reached-places 2 1 one_taken one_taken-Reached
