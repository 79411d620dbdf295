-- ===== src/Signals/System/Restores.antt =====
-- What `system_m1` leaves of the signal actions and the mask.
use unix_advanced_programing.Prelude.{
  ℕ, zero, suc, ◌<◌, ◌≤◌, ◌≡◌, ◌≢◌, refl, sym, ap, subst, ◌∙◌, ◌⊎◌, inl, inr, Bool, true, false,
  Option, none, some, arith,
}
use unix_advanced_programing.Prelude.Int.{ℤ, pos, negsuc}
use unix_advanced_programing.Signals.Actions.{
  Sig, sigint, sigquit, sigchld, sigabrt, another, Act, sig_ign, Mask, IsSignals, SameSignals,
}
use unix_advanced_programing.Signals.System.{
  WaitResult, status, interrupted, failed, Calls, End, returned, execl, childmask, reset,
  wait_ended, waited, parent_done, forked, blocked, quit_ignored, int_ignored, system_m1,
}

-- Documented behaviour of the calls. `fork` and `waitpid` leave the actions and the mask of the caller,
-- a child has those of its parent, and `patience` bounds the signals that may still interrupt a wait.
pub record IsShell (c : Calls) : Type 0 where
  pub known : IsSignals c.signals
  pub patience : c.World → ℕ
  pub fork_law :
      (w : c.World) → SameSignals known w (c.fork w).1 × (patience (c.fork w).1 ≤ patience w)
  pub wait_law :
      (pid : ℤ) (w w' : c.World) (r : WaitResult)
      → c.waitpid pid w ≡ (r, w')
      → SameSignals known w w' × (r ≡ interrupted → patience w' < patience w)
  pub action_patience :
      (s : Sig) (a : Act) (w : c.World) → patience (c.signals.sigaction s a w).1 ≤ patience w
  pub block_patience : (m : Mask) (w : c.World) → patience (c.signals.block_mask m w).1 ≤ patience w

module _ {c : Calls} (k : IsShell c) where
  open c use {World, signals, fork, waitpid}
  open k use {known, patience, fork_law, wait_law, action_patience, block_patience}
  open known use {action, mask, sigaction_law, block_law, set_law}
  open signals use {sigaction, block_mask, set_mask}

  -- The actions and the mask are those of `w` before the first of the calls.
  abbrev Changed : Act → Act → Mask → World → World → Type 0
  Changed saveintr savequit savemask w v =
      (saveintr ≡ action w sigint)
      × (savequit ≡ action w sigquit)
      × (savemask ≡ mask w)
      × ((t : Sig) → t ≢ sigint → t ≢ sigquit → action v t ≡ action w t)

  int_or_quit : (t : Sig) → (t ≡ sigint) ⊎ (t ≡ sigquit) ⊎ ((t ≢ sigint) × (t ≢ sigquit))
  int_or_quit sigint = inl refl
  int_or_quit sigquit = inr (inl refl)
  int_or_quit sigchld = inr (inr ((λ e. cc), (λ e. cc)))
  int_or_quit sigabrt = inr (inr ((λ e. cc), (λ e. cc)))
  int_or_quit (another n) = inr (inr ((λ e. cc), (λ e. cc)))

  int_ne_quit : sigint ≢ sigquit
  int_ne_quit e = cc

  reset-SameSignals :
      (saveintr savequit : Act) (savemask : Mask) (w v : World)
      → Changed saveintr savequit savemask w v
      → SameSignals known w (reset c saveintr savequit savemask v)
  unfolding reset
  reset-SameSignals saveintr savequit savemask w v (is_int, is_quit, is_mask, rest) =
      let v1 = (sigaction sigint saveintr v).1 in
      let v2 = (sigaction sigquit savequit v1).1 in
      let (set1, at1, others1, mask1) = sigaction_law sigint saveintr v in
      let (set2, at2, others2, mask2) = sigaction_law sigquit savequit v1 in
      let (kept, is) = set_law savemask v2 in
      (
        (λ t. elim (int_or_quit t) [
          | inl e ↦
              subst (λ s. action (set_mask savemask v2) s ≡ action w s) (sym e)
                (kept sigint ∙ others2 sigint int_ne_quit ∙ at1 ∙ is_int)
          | inr (inl e) ↦
              subst (λ s. action (set_mask savemask v2) s ≡ action w s) (sym e)
                (kept sigquit ∙ at2 ∙ is_quit)
          | inr (inr (ne1, ne2)) ↦ kept t ∙ others2 t ne2 ∙ others1 t ne1 ∙ rest t ne1 ne2
        ]),
        is ∙ is_mask,
      )

  -- What `waitpid` has said of the child, or -1.
  abbrev pub Answered : ℤ → Type 0
  Answered ret = (ret ≡ negsuc 0) ⊎ ((pid : ℤ) × (u : World) × ((waitpid pid u).0 ≡ status ret))

  -- The loop comes to an end, and changes no action and no mask.
  abbrev Waited : World → Option (ℤ × World) → Type 0
  Waited w none = ⊥
  Waited w (some (stat, v)) = SameSignals known w v × Answered stat

  same_trans :
      (u v w : World) → SameSignals known u v → SameSignals known v w → SameSignals known u w
  same_trans u v w (a, m) (b, n) = ((λ t. b t ∙ a t), n ∙ m)

  ended-Waited :
      (again : World → Option (ℤ × World)) (pid : ℤ) (w : World) (r : WaitResult × World)
      → waitpid pid w ≡ r
      → ((v : World) → SameSignals known w v → patience v < patience w → Waited w (again v))
      → Waited w (wait_ended c again r)
  unfolding wait_ended
  ended-Waited again pid w (status stat, v) e h =
      ((wait_law pid w v (status stat) e).0, inr (pid, w, ap (λ (r : WaitResult × World). r.0) e))
  ended-Waited again pid w (interrupted, v) e h =
      let (same, less) = wait_law pid w v interrupted e in h v same (less refl)
  ended-Waited again pid w (failed, v) e h = ((wait_law pid w v failed e).0, inl refl)

  Waited-weaken :
      (u w : World) (r : Option (ℤ × World)) → SameSignals known u w → Waited w r → Waited u r
  Waited-weaken u w none same h = h
  Waited-weaken u w (some (stat, v)) same (after, said) = (same_trans u w v same after, said)

  waited-Waited :
      (fuel : ℕ) (pid : ℤ) (w : World) → patience w < fuel → Waited w (waited c fuel pid w)
  unfolding waited
  waited-Waited zero pid w h = absurd (omega arith)
  waited-Waited (suc fuel) pid w h =
      ended-Waited (waited c fuel pid) pid w (waitpid pid w) refl (λ v same less.
        Waited-weaken w v (waited c fuel pid v) same (waited-Waited fuel pid v (omega arith)))

  -- The signals are as in `w` at the end, and in the child where it calls `execl`.
  abbrev pub Restored : World → Option (End World) → Type 0
  Restored w none = ⊥
  Restored w (some (returned ret v)) = SameSignals known w v × ((ret ≡ pos 1) ⊎ Answered ret)
  Restored w (some (execl v)) = SameSignals known w v

  Changed-later :
      (saveintr savequit : Act) (savemask : Mask) (w v u : World)
      → SameSignals known v u
      → Changed saveintr savequit savemask w v
      → Changed saveintr savequit savemask w u
  Changed-later saveintr savequit savemask w v u (same, _) (a, b, m, rest) =
      (a, b, m, λ t ne1 ne2. same t ∙ rest t ne1 ne2)

  parent-Restored :
      (saveintr savequit : Act) (savemask : Mask) (w v : World) (r : Option (ℤ × World))
      → Changed saveintr savequit savemask w v
      → Waited v r
      → Restored w (parent_done c saveintr savequit savemask r)
  unfolding parent_done
  parent-Restored saveintr savequit savemask w v none changed h = h
  parent-Restored saveintr savequit savemask w v (some (stat, u)) changed (same, said) = (
    reset-SameSignals saveintr savequit savemask w u
        (Changed-later saveintr savequit savemask w v u same changed),
    inr said,
  )

  forked-Restored :
      (fuel : ℕ) (saveintr savequit : Act) (savemask : Mask) (w v : World) (pid : ℤ)
      → Changed saveintr savequit savemask w v
      → patience v < fuel
      → Restored w (forked c fuel saveintr savequit savemask (pid, v))
  unfolding forked
  forked-Restored fuel saveintr savequit savemask w v (negsuc n) changed h =
      parent-Restored saveintr savequit savemask w v (some (negsuc 0, v)) changed
        (((λ t. refl), refl), inl refl)
  forked-Restored fuel saveintr savequit savemask w v (pos zero) changed h =
      reset-SameSignals saveintr savequit savemask w v changed
  forked-Restored fuel saveintr savequit savemask w v (pos (suc n)) changed h =
      parent-Restored saveintr savequit savemask w v (waited c fuel (pos (suc n)) v) changed
        (waited-Waited fuel (pos (suc n)) v h)

  -- With the actions set aside, before the mask is changed.
  both_ignored :
      (fuel : ℕ) (saveintr savequit : Act) (w v : World)
      → Changed saveintr savequit (mask v) w v
      → patience v < fuel
      → Restored w (blocked c fuel saveintr savequit (block_mask childmask v))
  unfolding blocked
  both_ignored fuel saveintr savequit w v (a, b, m, rest) h =
      let u = (block_mask childmask v).1 in
      let (said, kept, _) = block_law childmask v in
      let (same, less) = fork_law u in
      subst (λ o. Restored w (blocked c fuel saveintr savequit (o, u))) (sym said)
        (forked-Restored fuel saveintr savequit (mask v) w (fork u).1 (fork u).0
          (Changed-later saveintr savequit (mask v) w u (fork u).1 same
            (a, b, m, λ t ne1 ne2. kept t ∙ rest t ne1 ne2))
          (omega (arith, less, block_patience childmask v)))

  -- Where `sigaction` and `sigprocmask` do not fail: with fuel for every signal that may interrupt the
  -- wait, `system_m1` ends. The caller has the actions and the mask of before again and the status that
  -- `waitpid` gave, or -1, or 1 for no command; and the child has them again as it calls `execl`.
  pub system_m1-Restored :
      (fuel : ℕ) (given : Bool) (w : World)
      → patience w < fuel
      → Restored w (system_m1 c fuel given w)
  unfolding system_m1 int_ignored quit_ignored
  system_m1-Restored fuel false w h = (((λ t. refl), refl), inl refl)
  system_m1-Restored fuel true w h =
      let v1 = (sigaction sigint sig_ign w).1 in
      let v2 = (sigaction sigquit sig_ign v1).1 in
      let (said1, at1, others1, mask1) = sigaction_law sigint sig_ign w in
      let (said2, at2, others2, mask2) = sigaction_law sigquit sig_ign v1 in
      subst (λ o. Restored w (int_ignored c fuel (o, v1))) (sym said1)
        (subst (λ o. Restored w (quit_ignored c fuel (action w sigint) (o, v2))) (sym said2)
          (both_ignored fuel (action w sigint) (action v1 sigquit) w v2
            (
              refl,
              others1 sigquit (λ e. cc),
              mask2 ∙ mask1,
              λ t ne1 ne2. others2 t ne2 ∙ others1 t ne1,
            )
            (omega (arith, action_patience sigint sig_ign w, action_patience sigquit sig_ign v1))))
