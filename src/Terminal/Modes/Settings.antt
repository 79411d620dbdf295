-- ===== src/Terminal/Modes/Settings.antt =====
-- What `tty_cbreak` and `tty_raw` do to the settings of a terminal.
use unix_advanced_programing.Prelude.{
  ℕ, ◌≡◌, ◌≢◌, refl, ◌∙◌, ◌⊎◌, inl, inr, Bool, true, false, Bool-cases, Option, none, some, arith,
  subst,
}
use unix_advanced_programing.Prelude.Int.{ℤ, pos, negsuc}
use unix_advanced_programing.Terminal.Modes.{
  Termios, TtyState, reset, raw, cbreak, Tty, Calls, cbreak_settings, is_cbreak, raw_settings,
  is_raw, confirm, was_set, was_got, tty_mode, tty_cbreak, tty_raw,
}

-- Documented behaviour of the calls on one terminal. A call of `tcsetattr` that fails changes nothing;
-- one that does not fail may have made only some of the changes. Settings that the terminal has had
-- can be set again.
pub record IsTerminal (c : Calls) (fd : ℕ) : Type (0 + 1) where
  pub settings : c.World → Termios
  pub Supported : Termios → Type 0
  pub current : (w : c.World) → Supported (settings w)
  pub get_law :
      (w w' : c.World) (t : Option Termios)
      → c.tcgetattr fd w ≡ (t, w')
      → (settings w' ≡ settings w) × ((u : Termios) → t ≡ some u → u ≡ settings w)
  pub fail_law :
      (t : Termios) (w w' : c.World) → c.tcsetattr fd t w ≡ (false, w') → settings w' ≡ settings w
  pub restore_law :
      (t : Termios) (w : c.World)
      → Supported t
      → ((c.tcsetattr fd t w).0 ≡ true) × (settings (c.tcsetattr fd t w).1 ≡ t)

module _ {c : Calls} {fd : ℕ} (k : IsTerminal c fd) where
  open c use {World, tcgetattr, tcsetattr}
  open k use {settings, Supported, current, get_law, fail_law, restore_law}

  -- Either the mode has been entered, and the settings of before are saved; or -1 is returned, and the
  -- settings and the state are those of before.
  abbrev pub Switched : (Termios → Bool) → TtyState → ℤ → Termios → ℤ × (Tty × World) → Type 0
  Switched check mode savefd before (ret, (s, w)) =
      ((ret ≡ pos 0)
        × (s.ttystate ≡ mode)
        × (s.ttysavefd ≡ pos fd)
        × (s.save_termios ≡ before)
        × (check (settings w) ≡ true))
      ⊎ ((ret ≡ negsuc 0) × (s.ttystate ≡ reset) × (s.ttysavefd ≡ savefd) × (settings w ≡ before))

  module _ (set : Termios → Termios) (check : Termios → Bool) (mode : TtyState) where
    confirm-Switched :
        (s : Tty) (before : Termios) (w1 w : World) (t : Option Termios)
        → s.ttystate ≡ reset
        → s.save_termios ≡ before
        → Supported before
        → tcgetattr fd w1 ≡ (t, w)
        → Switched check mode s.ttysavefd before (confirm c check mode fd s (t, w))
    unfolding confirm
    confirm-Switched s before w1 w none st save sup e =
        inr (refl, st, refl, rw save (restore_law before w sup).1)
    confirm-Switched s before w1 w (some t) st save sup e =
        let law = get_law w1 w (some t) e in
        elim (Bool-cases (check t)) [
          | inl good ↦
              rw (good, confirm) (inl (refl, refl, refl, save, rw (law.0, ← law.1 t refl) good))
          | inr bad ↦ rw (bad, confirm) (inr (refl, st, refl, rw save (restore_law before w sup).1))
        ]

    was_set-Switched :
        (s : Tty) (t before : Termios) (w1 w : World) (ok : Bool)
        → s.ttystate ≡ reset
        → s.save_termios ≡ before
        → Supported before
        → settings w1 ≡ before
        → tcsetattr fd t w1 ≡ (ok, w)
        → Switched check mode s.ttysavefd before (was_set c check mode fd s (ok, w))
    unfolding was_set
    was_set-Switched s t before w1 w false st save sup old e =
        inr (refl, st, refl, fail_law t w1 w e ∙ old)
    was_set-Switched s t before w1 w true st save sup old e =
        confirm-Switched s before w _ _ st save sup refl

    was_got-Switched :
        (s : Tty) (w1 w : World) (t : Option Termios)
        → s.ttystate ≡ reset
        → tcgetattr fd w1 ≡ (t, w)
        → Switched check mode s.ttysavefd (settings w1) (was_got c set check mode fd s (t, w))
    unfolding was_got
    was_got-Switched s w1 w none st e = inr (refl, st, refl, (get_law w1 w none e).0)
    was_got-Switched s w1 w (some t) st e =
        let law = get_law w1 w (some t) e in
        was_set-Switched (record s { save_termios = t }) (set t) (settings w1) w _ _ st
          (law.1 t refl) (current w1) law.0 refl

    pub tty_mode-Switched :
        (s : Tty) (w : World)
        → s.ttystate ≡ reset
        → Switched check mode s.ttysavefd (settings w) (tty_mode c set check mode fd s w)
    unfolding tty_mode
    tty_mode-Switched s w st =
        subst (Switched check mode s.ttysavefd (settings w)) (entered s.ttystate st)
          (was_got-Switched s w _ _ st refl)
      where
        entered :
            (x : TtyState)
            → x ≡ reset
            → was_got c set check mode fd s (tcgetattr fd w) ≡ elim x [
              | reset ↦ was_got c set check mode fd s (tcgetattr fd w)
              | _ ↦ (negsuc 0, (s, w))
            ]
        entered reset e = refl
        entered raw e = cc
        entered cbreak e = cc

    -- In another state nothing is done.
    pub tty_mode_refused :
        (s : Tty) (w : World)
        → s.ttystate ≢ reset
        → tty_mode c set check mode fd s w ≡ (negsuc 0, (s, w))
    unfolding tty_mode
    tty_mode_refused s w ne = ground arith

  -- In another state than RESET both return -1 and change nothing.
  pub tty_modes_refused :
      (s : Tty) (w : World)
      → s.ttystate ≢ reset
      → (tty_cbreak c fd s w ≡ (negsuc 0, (s, w))) × (tty_raw c fd s w ≡ (negsuc 0, (s, w)))
  unfolding tty_cbreak tty_raw
  tty_modes_refused s w ne = (
    tty_mode_refused cbreak_settings is_cbreak cbreak s w ne,
    tty_mode_refused raw_settings is_raw raw s w ne,
  )

  -- On a terminal that takes back settings it has had, from the state RESET, `tty_cbreak` and
  -- `tty_raw` each either return 0, and then the settings in force are those of the mode and the ones
  -- of before are saved, or return -1 and leave the settings and the state as they were.
  pub tty_modes_switch :
      (s : Tty) (w : World)
      → s.ttystate ≡ reset
      → Switched is_cbreak cbreak s.ttysavefd (settings w) (tty_cbreak c fd s w)
        × Switched is_raw raw s.ttysavefd (settings w) (tty_raw c fd s w)
  unfolding tty_cbreak tty_raw
  tty_modes_switch s w st = (
    tty_mode-Switched cbreak_settings is_cbreak cbreak s w st,
    tty_mode-Switched raw_settings is_raw raw s w st,
  )
