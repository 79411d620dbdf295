-- ===== src/Signals/Tell.antt =====
-- TELL_WAIT, TELL_PARENT, WAIT_PARENT, TELL_CHILD and WAIT_CHILD of process_relation.c: a parent and its
-- child that wait for each other by signals. Each of the two is sent one signal only, SIGUSR2 the parent
-- and SIGUSR1 the child, and `usr_signal_handler` sets `sigflag`. Each call of the system is one step.
pub mod First
pub mod Exchange
use unix_advanced_programing.Prelude.{
  ℕ, zero, suc, Bool, true, false, ◌&&◌, ◌||◌, not, Option, none, some, List, [], ◌∷◌,
  if◌then◌else◌, ◌≡◌,
}

-- The calls of a process, in the order of its program.
pub data Action : Type 0 where
  tell_parent wait_parent tell_child wait_child : Action

-- Between two actions; before the test of `sigflag`; between the test and `sigsuspend`; in `sigsuspend`.
pub data Pc : Type 0 where
  ready : Pc
  testing calling suspended : (wait : Action) → Pc

-- `pending`, `blocked` and `old_blocked` are about the signal that the process is sent: whether it is
-- pending, in the mask of the process, and in `oldmask`. `told` and `waited` count the calls that have
-- returned.
pub record Process : Type 0 where
  pub todo : List Action
  pub at : Pc
  pub sigflag : Bool
  pub pending : Bool
  pub blocked : Bool
  pub old_blocked : Bool
  pub told : ℕ
  pub waited : ℕ

-- `TELL_WAIT`, before the actions of a program; `old` says whether the signal was blocked before.
unfoldable pub tell_wait : Bool → List Action → Process
tell_wait old todo = record {
  todo = todo;
  at = ready;
  sigflag = false;
  pending = false;
  blocked = true;
  old_blocked = old;
  told = 0;
  waited = 0;
}

-- The signal arrives: in `sigsuspend` the handler runs and the call returns, with the mask of before;
-- elsewhere the handler runs, or the signal stays pending where it is blocked.
unfoldable pub arrived : Pc → Process → Process
arrived (suspended wait) p = record p { sigflag = true; at = testing wait }
arrived other p = if p.blocked then record p { pending = true } else record p { sigflag = true }

-- `kill`
unfoldable pub kill : Process → Process
unfolding arrived
kill p = arrived p.at p

-- `WAIT_CHILD` sets `sigflag` to 0, `WAIT_PARENT` does not.
abbrev pub resets : Action → Bool
resets wait_child = true
resets other = false

-- `sigprocmask(SIG_SETMASK, &oldmask, NULL)`: a pending signal is delivered where it is not blocked.
unfoldable pub restored : Process → Process
restored p =
    if p.pending && not p.old_blocked
    then record p { blocked = p.old_blocked; pending = false; sigflag = true }
    else record p { blocked = p.old_blocked }

-- The end of `WAIT_PARENT` and `WAIT_CHILD`, behind the loop.
unfoldable pub wait_done : Action → Process → Process
unfolding restored
wait_done wait p =
    restored
      (record p { sigflag = p.sigflag && not (resets wait); at = ready; waited = suc p.waited })

-- The next action of the program.
unfoldable pub begun : List Action → Process → Option (Process × Bool)
begun [] p = none
begun (tell_parent ∷ todo) p = some (record p { todo = todo; told = suc p.told }, true)
begun (tell_child ∷ todo) p = some (record p { todo = todo; told = suc p.told }, true)
begun (wait_parent ∷ todo) p = some (record p { todo = todo; at = testing wait_parent }, false)
begun (wait_child ∷ todo) p = some (record p { todo = todo; at = testing wait_child }, false)

-- A step of a process, and whether it sends the signal to the other one; `none` where it has ended, or
-- sleeps in `sigsuspend`.
unfoldable pub turn_from : Pc → Process → Option (Process × Bool)
unfolding begun wait_done
turn_from ready p = begun p.todo p
turn_from (testing wait) p =
    some (if p.sigflag then wait_done wait p else record p { at = calling wait }, false)
turn_from (calling wait) p = some (
  if p.pending
      then record p { pending = false; sigflag = true; at = testing wait }
      else record p { at = suspended wait },
  false,
)
turn_from (suspended wait) p = none

unfoldable pub turn : Process → Option (Process × Bool)
unfolding turn_from
turn p = turn_from p.at p

abbrev pub signal_to : Bool → Process → Process
signal_to sent p = if sent then kill p else p

-- The parent and the child, whose steps come in any order.
pub data Step : Process × Process → Process × Process → Type 0 where
  parent_turn :
      (p c p' : Process) (sent : Bool)
      → turn p ≡ some (p', sent)
      → Step (p, c) (p', signal_to sent c)
  child_turn :
      (p c c' : Process) (sent : Bool)
      → turn c ≡ some (c', sent)
      → Step (p, c) (signal_to sent p, c')

pub data Reached (s : Process × Process) : Process × Process → Type 0 where
  here : Reached s s
  next : (t u : Process × Process) → Reached s t → Step t u → Reached s u
