-- ===== src/Signals/Actions.antt =====
-- Signal actions and masks, for `system_m1` and `abort1` of process_relation.c: `sigaction` and
-- `sigprocmask` as parameters, and what is documented of them.
use unix_advanced_programing.Prelude.{ℕ, Bool, ◌||◌, ◌≡◌, ◌≢◌, Option, some}

pub data Sig : Type 0 where
  sigint sigquit sigchld sigabrt : Sig
  another : (signo : ℕ) → Sig

-- SIG_DFL, SIG_IGN, or a handler.
pub data Act : Type 0 where
  sig_dfl sig_ign : Act
  handler : (id : ℕ) → Act

abbrev pub Mask : Type 0
Mask = Sig → Bool

-- `sigaction` gives the action of before, or fails; with NULL for the new one it is `current`.
-- `block_mask` is `sigprocmask` with SIG_BLOCK, and `set_mask` with SIG_SETMASK.
pub record SignalCalls (World : Type 0) : Type 0 where
  pub sigaction : Sig → Act → World → Option Act × World
  pub current : Sig → World → Act
  pub block_mask : Mask → World → Option Mask × World
  pub set_mask : Mask → World → World

-- Documented behaviour for signals that can be caught. `action` and `mask` are those of the process.
pub record IsSignals {World : Type 0} (c : SignalCalls World) : Type 0 where
  pub action : World → Sig → Act
  pub mask : World → Mask
  pub sigaction_law :
      (s : Sig) (a : Act) (w : World)
      → ((c.sigaction s a w).0 ≡ some (action w s))
        × (action (c.sigaction s a w).1 s ≡ a)
        × ((t : Sig) → t ≢ s → action (c.sigaction s a w).1 t ≡ action w t)
        × (mask (c.sigaction s a w).1 ≡ mask w)
  pub current_law : (s : Sig) (w : World) → c.current s w ≡ action w s
  pub block_law :
      (m : Mask) (w : World)
      → ((c.block_mask m w).0 ≡ some (mask w))
        × ((t : Sig) → action (c.block_mask m w).1 t ≡ action w t)
        × (mask (c.block_mask m w).1 ≡ (λ t. mask w t || m t))
  pub set_law :
      (m : Mask) (w : World)
      → ((t : Sig) → action (c.set_mask m w) t ≡ action w t) × (mask (c.set_mask m w) ≡ m)

-- The same actions and the same mask in two worlds.
abbrev pub SameSignals :
    {World : Type 0} {c : SignalCalls World} → IsSignals c → World → World → Type 0
SameSignals k w v = ((t : Sig) → k.action v t ≡ k.action w t) × (k.mask v ≡ k.mask w)
