-- ===== src/Signals/Examples/Turns.antt =====
-- The theorems on TELL_WAIT and its kin at concrete inputs: the child tells its parent first.
use unix_advanced_programing.Prelude.{refl, ◌⊎◌, true, false, [], ◌∷◌}
use unix_advanced_programing.Signals.Tell.{
  wait_parent, Process, tell_wait, kill, begun, turn_from, turn, Step, child_turn, Reached, here,
  next,
}
use unix_advanced_programing.Signals.Tell.First.{started, FirstWait, tell_wait-first}
use unix_advanced_programing.Signals.Tell.Exchange.{
  parent_program, child_program, Finished, exchange-Finished,
}

abbrev parent : Process
parent = tell_wait false parent_program

abbrev child : Process
child = tell_wait false child_program

abbrev telling : Process
telling = record child { todo = wait_parent ∷ []; told = 1 }

told_parent : Reached (started false false parent_program child_program) (kill parent, telling)
unfolding tell_wait turn turn_from begun
told_parent = next (parent, child) _ here (child_turn parent child telling true refl)

tell_wait-first_example :
    FirstWait (kill parent) telling.told × FirstWait telling (kill parent).told
tell_wait-first_example =
    tell_wait-first false false parent_program child_program (kill parent) telling told_parent

exchange-Finished_example :
    ((t : Process × Process) × Step (kill parent, telling) t)
    ⊎ (Finished (kill parent) × Finished telling)
exchange-Finished_example = exchange-Finished false false (kill parent) telling told_parent
