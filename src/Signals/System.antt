-- ===== src/Signals/System.antt =====
-- `system_m1` of process_relation.c: a command is run by the shell, while the caller ignores SIGINT and
-- SIGQUIT and blocks SIGCHLD. The failure messages are left out.
pub mod Restores
use unix_advanced_programing.Prelude.{ℕ, zero, suc, Bool, true, false, Option, none, some}
use unix_advanced_programing.Prelude.Int.{ℤ, pos, negsuc}
use unix_advanced_programing.Signals.Actions.{
  Sig, sigint, sigquit, sigchld, Act, sig_ign, Mask, SignalCalls,
}

-- The results of `waitpid`: the status of the child, EINTR, or another error.
pub data WaitResult : Type 0 where
  status : (stat : ℤ) → WaitResult
  interrupted failed : WaitResult

pub record Calls : Type (0 + 1) where
  pub World : Type 0
  pub signals : SignalCalls World
  pub fork : World → ℤ × World
  pub waitpid : ℤ → World → WaitResult × World

-- The ways out: a return, or in the child the call of `execl`.
pub data End (W : Type 0) : Type 0 where
  returned : (ret : ℤ) (w : W) → End W
  execl : (w : W) → End W

-- `childmask`
abbrev pub childmask : Mask
childmask sigchld = true
childmask other = false

module _ (c : Calls) where
  open c use {World, signals, fork, waitpid}
  open signals use {sigaction, block_mask, set_mask}

  -- The reset of the actions and of the mask, which stands behind the wait and in the child.
  unfoldable pub reset : Act → Act → Mask → World → World
  reset saveintr savequit savemask w =
      set_mask savemask (sigaction sigquit savequit (sigaction sigint saveintr w).1).1

  -- A result of `waitpid`; `none` where the fuel of the loop does not reach.
  unfoldable pub wait_ended : (World → Option (ℤ × World)) → WaitResult × World → Option (ℤ × World)
  wait_ended again (status stat, v) = some (stat, v)
  wait_ended again (interrupted, v) = again v
  wait_ended again (failed, v) = some (negsuc 0, v)

  unfoldable pub waited : ℕ → ℤ → World → Option (ℤ × World)
  unfolding wait_ended
  waited zero pid w = none
  waited (suc fuel) pid w = wait_ended (waited fuel pid) (waitpid pid w)

  -- The parent, behind the loop.
  unfoldable pub parent_done : Act → Act → Mask → Option (ℤ × World) → Option (End World)
  unfolding reset
  parent_done saveintr savequit savemask none = none
  parent_done saveintr savequit savemask (some (stat, w)) =
      some (returned stat (reset saveintr savequit savemask w))

  unfoldable pub forked : ℕ → Act → Act → Mask → ℤ × World → Option (End World)
  unfolding reset parent_done waited
  forked fuel saveintr savequit savemask (negsuc n, w) =
      parent_done saveintr savequit savemask (some (negsuc 0, w))
  forked fuel saveintr savequit savemask (pos zero, w) =
      some (execl (reset saveintr savequit savemask w))
  forked fuel saveintr savequit savemask (pos (suc n), w) =
      parent_done saveintr savequit savemask (waited fuel (pos (suc n)) w)

  unfoldable pub blocked : ℕ → Act → Act → Option Mask × World → Option (End World)
  unfolding forked
  blocked fuel saveintr savequit (none, w) = some (returned (negsuc 0) w)
  blocked fuel saveintr savequit (some savemask, w) =
      forked fuel saveintr savequit savemask (fork w)

  unfoldable pub quit_ignored : ℕ → Act → Option Act × World → Option (End World)
  unfolding blocked
  quit_ignored fuel saveintr (none, w) = some (returned (negsuc 0) w)
  quit_ignored fuel saveintr (some savequit, w) =
      blocked fuel saveintr savequit (block_mask childmask w)

  unfoldable pub int_ignored : ℕ → Option Act × World → Option (End World)
  unfolding quit_ignored
  int_ignored fuel (none, w) = some (returned (negsuc 0) w)
  int_ignored fuel (some saveintr, w) = quit_ignored fuel saveintr (sigaction sigquit sig_ign w)

  -- `given` is false where `cmdstring` is NULL.
  unfoldable pub system_m1 : ℕ → (given : Bool) → World → Option (End World)
  unfolding int_ignored
  system_m1 fuel false w = some (returned (pos 1) w)
  system_m1 fuel true w = int_ignored fuel (sigaction sigint sig_ign w)
