-- ===== src/Signals/Abort.antt =====
-- `abort1` of process_relation.c: the process ends by SIGABRT, whatever its action for it is.
pub mod Terminated
use unix_advanced_programing.Prelude.{ℕ, Bool, true, false}
use unix_advanced_programing.Signals.Actions.{
  Sig, sigabrt, Act, sig_dfl, sig_ign, handler, Mask, SignalCalls,
}

-- What becomes of `kill(getpid(), SIGABRT)`: the signal ends the process; its handler does not return; or
-- the call comes back.
pub data Raised (W : Type 0) : Type 0 where
  terminated away back : (w : W) → Raised W

pub record Calls : Type (0 + 1) where
  pub World : Type 0
  pub signals : SignalCalls World
  pub raise : World → Raised World
  pub fflush : World → World

-- The ways out of `abort1`.
pub data End (W : Type 0) : Type 0 where
  killed caught : (w : W) → End W
  exited : (code : ℕ) (w : W) → End W

-- `sigfillset` and `sigdelset(&mask, SIGABRT)`
abbrev pub all_but_abort : Mask
all_but_abort sigabrt = false
all_but_abort other = true

module _ (c : Calls) where
  open c use {World, signals, raise, fflush}
  open signals use {sigaction, current, set_mask}

  -- SIG_IGN is replaced by SIG_DFL, and the streams are flushed where the action is SIG_DFL.
  unfoldable pub prepared : Act → World → World
  prepared sig_ign w = fflush (sigaction sigabrt sig_dfl w).1
  prepared sig_dfl w = fflush w
  prepared (handler id) w = w

  -- Behind the second `kill`.
  unfoldable pub second : Raised World → End World
  second (terminated w) = killed w
  second (away w) = caught w
  second (back w) = exited 1 w

  -- Behind the first `kill`.
  unfoldable pub first : Raised World → End World
  unfolding second
  first (terminated w) = killed w
  first (away w) = caught w
  first (back w) = second (raise (set_mask all_but_abort (sigaction sigabrt sig_dfl (fflush w)).1))

  unfoldable pub abort1 : World → End World
  unfolding prepared first
  abort1 w = first (raise (set_mask all_but_abort (prepared (current sigabrt w) w)))
