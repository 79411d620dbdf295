-- ===== src/Terminal/Modes/Session.antt =====
-- Any sequence of calls on one terminal, and `tty_atexit` behind it.
use unix_advanced_programing.Prelude.{
  ℕ, ◌≡◌, ◌≢◌, refl, sym, ◌∙◌, ◌⊎◌, inl, inr, Bool, true, false, List, [], ◌∷◌, arith, subst,
}
use unix_advanced_programing.Prelude.Int.{ℤ, pos, negsuc}
use unix_advanced_programing.Terminal.Modes.{
  Termios, TtyState, reset, raw, cbreak, Tty, Calls, is_cbreak, is_raw, was_reset, tty_reset,
  tty_atexit, Command, enter_cbreak, enter_raw, leave, command, commands,
}
use unix_advanced_programing.Terminal.Modes.Settings.{
  IsTerminal, Switched, tty_modes_switch, tty_modes_refused,
}

module _ {c : Calls} {fd : ℕ} (k : IsTerminal c fd) (original : Termios)
    (sup : k.Supported original) where
  open c use {World, tcsetattr}
  open k use {settings, restore_law}

  -- The settings are the original ones, or a mode has been entered and they are saved.
  abbrev Restorable : Tty × World → Type 0
  Restorable (s, w) =
      ((s.ttystate ≡ reset) × (settings w ≡ original))
      ⊎ ((s.ttystate ≢ reset) × (s.save_termios ≡ original) × (s.ttysavefd ≡ pos fd))

  switched :
      (check : Termios → Bool) (mode : TtyState) (savefd : ℤ) (before : Termios)
      (r : ℤ × (Tty × World))
      → mode ≢ reset
      → before ≡ original
      → Switched k check mode savefd before r
      → Restorable r.1
  switched check mode savefd before r ne old (inl (_, st, fd_saved, saved, _)) =
      inr ((λ e. ne (sym st ∙ e)), saved ∙ old, fd_saved)
  switched check mode savefd before r ne old (inr (_, st, _, same)) = inl (st, same ∙ old)

  any_idle :
      (n : ℕ) (s : Tty) (w : World) → s.ttystate ≡ reset → tty_reset c n s w ≡ (pos 0, (s, w))
  unfolding tty_reset
  any_idle n s w st = ground arith

  reset_busy :
      (s : Tty) (w : World)
      → s.ttystate ≢ reset
      → tty_reset c fd s w ≡ was_reset c s (tcsetattr fd s.save_termios w)
  unfolding tty_reset
  reset_busy s w ne = ground arith

  -- The terminal as it was.
  abbrev pub IsOriginal : Tty × World → Type 0
  IsOriginal (s, w) = (s.ttystate ≡ reset) × (settings w ≡ original)

  restored :
      (s : Tty) (r : Bool × World)
      → r.0 ≡ true
      → settings r.1 ≡ original
      → ((was_reset c s r).0 ≡ pos 0) × IsOriginal (was_reset c s r).1
  unfolding was_reset
  restored s (false, w) ok same = cc
  restored s (true, w) ok same = (refl, (refl, same))

  leave-IsOriginal :
      (s : Tty) (w : World)
      → Restorable (s, w)
      → ((tty_reset c fd s w).0 ≡ pos 0) × IsOriginal (tty_reset c fd s w).1
  leave-IsOriginal s w (inl (st, same)) = rw (any_idle fd s w st) (refl, (st, same))
  leave-IsOriginal s w (inr (ne, saved, _)) =
      let law = restore_law s.save_termios w (rw saved sup) in
      rw (reset_busy s w ne) (restored s (tcsetattr fd s.save_termios w) law.0 (law.1 ∙ saved))

  entered :
      (check : Termios → Bool) (mode : TtyState) (s : Tty) (w : World) (r : ℤ × (Tty × World))
      → mode ≢ reset
      → Restorable (s, w)
      → (s.ttystate ≡ reset → Switched k check mode s.ttysavefd (settings w) r)
      → (s.ttystate ≢ reset → r ≡ (negsuc 0, (s, w)))
      → Restorable r.1
  entered check mode s w r ne (inl (st, same)) free busy =
      switched check mode s.ttysavefd (settings w) r ne same (free st)
  entered check mode s w r ne (inr v) free busy = rw (busy v.0) (inr v)

  command-Restorable :
      (x : Command) (s : Tty) (w : World) → Restorable (s, w) → Restorable (command c fd x (s, w))
  unfolding command
  command-Restorable enter_cbreak s w v =
      entered is_cbreak cbreak s w _ (λ e. cc) v (λ st. (tty_modes_switch k s w st).0)
        (λ ne. (tty_modes_refused k s w ne).0)
  command-Restorable enter_raw s w v =
      entered is_raw raw s w _ (λ e. cc) v (λ st. (tty_modes_switch k s w st).1)
        (λ ne. (tty_modes_refused k s w ne).1)
  command-Restorable leave s w v = inl (leave-IsOriginal s w v).1

  commands-Restorable :
      (xs : List Command) (s : Tty) (w : World)
      → Restorable (s, w)
      → Restorable (commands c fd xs (s, w))
  unfolding commands
  commands-Restorable [] s w v = v
  commands-Restorable (x ∷ xs) s w v =
      commands-Restorable xs (command c fd x (s, w)).0 (command c fd x (s, w)).1
        (command-Restorable x s w v)

  atexit-settings :
      (s : Tty) (w : World) → Restorable (s, w) → settings (tty_atexit c s w).1 ≡ original
  unfolding tty_atexit
  atexit-settings s w v = go s.ttysavefd refl v
    where
      go :
          (z : ℤ)
          → s.ttysavefd ≡ z
          → Restorable (s, w)
          → settings
              (elim z as (λ x. Tty × World) [ pos n ↦ (tty_reset c n s w).1 | negsuc n ↦ (s, w) ]).1
            ≡ original
      go (pos n) e (inl (st, same)) = rw (any_idle n s w st) same
      go (pos n) e (inr (ne, saved, at)) =
          let is : fd ≡ n = ground arith in
          subst (λ m. settings (tty_reset c m s w).1.1 ≡ original) is
            (leave-IsOriginal s w (inr (ne, saved, at))).1.1
      go (negsuc n) e (inl (st, same)) = same
      go (negsuc n) e (inr (ne, saved, at)) = absurd (ground arith)

  -- On a terminal that takes back settings it has had, a program that starts in the state RESET and
  -- then calls `tty_cbreak`, `tty_raw` and `tty_reset` in any order, whichever of them fail: what
  -- `tty_atexit` leaves are the settings of the start, and so does a `tty_reset`, which then returns
  -- 0.
  pub tty_session_restores :
      (xs : List Command) (s : Tty) (w : World)
      → s.ttystate ≡ reset
      → settings w ≡ original
      → (settings (tty_atexit c (commands c fd xs (s, w)).0 (commands c fd xs (s, w)).1).1
          ≡ original)
        × ((tty_reset c fd (commands c fd xs (s, w)).0 (commands c fd xs (s, w)).1).0 ≡ pos 0)
        × IsOriginal (tty_reset c fd (commands c fd xs (s, w)).0 (commands c fd xs (s, w)).1).1
  tty_session_restores xs s w st same =
      let v = commands-Restorable xs s w (inl (st, same)) in
      let left = leave-IsOriginal (commands c fd xs (s, w)).0 (commands c fd xs (s, w)).1 v in
      (atexit-settings (commands c fd xs (s, w)).0 (commands c fd xs (s, w)).1 v, left.0, left.1)
