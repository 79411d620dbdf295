-- ===== src/Signals/Abort/Terminated.antt =====
-- How `abort1` ends the process.
use unix_advanced_programing.Prelude.{◌≡◌, refl, sym, ap, subst, ◌∙◌, Bool, true, false}
use unix_advanced_programing.Signals.Actions.{
  Sig, sigabrt, Act, sig_dfl, sig_ign, handler, Mask, IsSignals, SameSignals,
}
use unix_advanced_programing.Signals.Abort.{
  Raised, terminated, away, back, Calls, End, killed, caught, exited, all_but_abort, prepared,
  second, first, abort1,
}

-- Documented behaviour of the calls. SIGABRT ends the process exactly where its action is SIG_DFL and it
-- is not blocked; a handler may return or not, and may do anything. `flushed` says that no stream holds
-- unwritten output.
pub record IsProcess (c : Calls) : Type 0 where
  pub known : IsSignals c.signals
  pub flushed : c.World → Bool
  pub default_law :
      (w : c.World)
      → known.action w sigabrt ≡ sig_dfl
      → known.mask w sigabrt ≡ false
      → (v : c.World) × (c.raise w ≡ terminated v)
  pub ended_law :
      (w v : c.World)
      → c.raise w ≡ terminated v
      → (known.action w sigabrt ≡ sig_dfl) × (flushed v ≡ flushed w)
  pub flush_law : (w : c.World) → (flushed (c.fflush w) ≡ true) × SameSignals known w (c.fflush w)
  pub action_law :
      (s : Sig) (a : Act) (w : c.World) → flushed (c.signals.sigaction s a w).1 ≡ flushed w
  pub mask_law : (m : Mask) (w : c.World) → flushed (c.signals.set_mask m w) ≡ flushed w

module _ {c : Calls} (k : IsProcess c) where
  open c use {World, signals, raise, fflush}
  open k use {known, flushed, default_law, ended_law, flush_law, action_law, mask_law}
  open known use {action, mask, sigaction_law, current_law, set_law}
  open signals use {sigaction, current, set_mask}

  -- The process is ended by the signal with its streams flushed, or does not come back from a handler.
  abbrev pub Aborted : End World → Type 0
  Aborted (killed w) = flushed w ≡ true
  Aborted (caught w) = Unit
  Aborted (exited code w) = ⊥

  -- Ready to be ended by the signal.
  abbrev Doomed : World → Type 0
  Doomed w = (action w sigabrt ≡ sig_dfl) × (mask w sigabrt ≡ false) × (flushed w ≡ true)

  masked-Doomed :
      (w : World)
      → action w sigabrt ≡ sig_dfl
      → flushed w ≡ true
      → Doomed (set_mask all_but_abort w)
  masked-Doomed w act out =
      let (kept, is) = set_law all_but_abort w in
      (kept sigabrt ∙ act, ap (λ m. m sigabrt) is, mask_law all_but_abort w ∙ out)

  second-Aborted : (w : World) → Doomed w → Aborted (second c (raise w))
  unfolding second
  second-Aborted w doomed =
      let (v, e) = default_law w doomed.0 doomed.1 in
      subst (λ r. Aborted (second c r)) (sym e) ((ended_law w v e).1 ∙ doomed.2)

  -- SIG_DFL is set on the flushed streams.
  reset-Doomed :
      (w : World) → Doomed (set_mask all_but_abort (sigaction sigabrt sig_dfl (fflush w)).1)
  reset-Doomed w =
      let (_, act, _, _) = sigaction_law sigabrt sig_dfl (fflush w) in
      masked-Doomed _ act (action_law sigabrt sig_dfl (fflush w) ∙ (flush_law w).0)

  first-Aborted :
      (w : World) (r : Raised World)
      → raise w ≡ r
      → (action w sigabrt ≡ sig_dfl → flushed w ≡ true)
      → mask w sigabrt ≡ false
      → Aborted (first c r)
  unfolding first
  first-Aborted w (terminated v) e out unmasked =
      let (act, same) = ended_law w v e in same ∙ out act
  first-Aborted w (away v) e out unmasked = tt
  first-Aborted w (back v) e out unmasked = second-Aborted _ (reset-Doomed v)

  -- With the first signal sent, streams that the signal would leave have been flushed.
  prepared-flushed :
      (a : Act) (w : World)
      → action w sigabrt ≡ a
      → action (prepared c a w) sigabrt ≡ sig_dfl
      → flushed (prepared c a w) ≡ true
  unfolding prepared
  prepared-flushed sig_dfl w e act = (flush_law w).0
  prepared-flushed sig_ign w e act = (flush_law _).0
  prepared-flushed (handler id) w e act = let no : handler id ≡ sig_dfl = sym e ∙ act in cc

  -- Whatever the action for SIGABRT is and whatever a handler does, `abort1` never reaches its `exit`: the
  -- signal ends the process, with every stream flushed, or a handler does not return.
  pub abort1-Aborted : (w : World) → Aborted (abort1 c w)
  unfolding abort1
  abort1-Aborted w =
      let v = prepared c (current sigabrt w) w in
      let (kept, is) = set_law all_but_abort v in
      first-Aborted (set_mask all_but_abort v) (raise (set_mask all_but_abort v)) refl
        (λ act.
          mask_law all_but_abort v
          ∙ prepared-flushed (current sigabrt w) w (sym (current_law sigabrt w))
              (sym (kept sigabrt) ∙ act))
        (ap (λ m. m sigabrt) is)
