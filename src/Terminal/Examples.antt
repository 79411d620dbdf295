-- ===== src/Terminal/Examples.antt =====
-- The theorems on the terminal at concrete inputs.
use unix_advanced_programing.Prelude.{ℕ, ◌≡◌, refl, true, false, Option, some, List, [], ◌∷◌}
use unix_advanced_programing.Prelude.Int.{pos, negsuc}
use unix_advanced_programing.Terminal.Modes.{
  Termios, reset, raw, cbreak, Tty, Calls, is_cbreak, is_raw, tty_cbreak, tty_raw, tty_reset,
  tty_atexit, enter_cbreak, enter_raw, leave, commands, Command,
}
use unix_advanced_programing.Terminal.Modes.Settings.{IsTerminal, Switched, tty_modes_switch}
use unix_advanced_programing.Terminal.Modes.Session.{IsOriginal, tty_session_restores}

-- A terminal that takes all settings.
abbrev obedient : Calls
obedient = record {
  World = Termios;
  tcgetattr = λ fd w. (some w, w);
  tcsetattr = λ fd t w. (true, t);
}

gets :
    (fd : ℕ) (w w' : Termios) (t : Option Termios)
    → obedient.tcgetattr fd w ≡ (t, w')
    → (w' ≡ w) × ((u : Termios) → t ≡ some u → u ≡ w)
gets fd w w' t e = (cc, (λ u is. cc))

never_fails : (fd : ℕ) (t w w' : Termios) → obedient.tcsetattr fd t w ≡ (false, w') → w' ≡ w
never_fails fd t w w' e = cc

abbrev obedient_IsTerminal : (fd : ℕ) → IsTerminal obedient fd
obedient_IsTerminal fd = record {
  settings = λ w. w;
  Supported = λ t. Unit {0};
  current = λ w. tt;
  get_law = λ w w' t e. gets fd w w' t e;
  fail_law = λ t w w' e. never_fails fd t w w' e;
  restore_law = λ t w s. (refl, refl);
}

abbrev usual : Termios
usual = record {
  echo = true;
  icanon = true;
  iexten = true;
  isig = true;
  brkint = false;
  icrnl = true;
  inpck = false;
  istrip = false;
  ixon = true;
  parenb = false;
  opost = true;
  size = 8;
  vmin = 1;
  vtime = 0;
  others = 0;
}

abbrev fresh : Tty
fresh = record { ttystate = reset; save_termios = usual; ttysavefd = negsuc 0 }

tty_modes_switch_example :
    Switched
      (obedient_IsTerminal 0)
      is_cbreak
      cbreak
      fresh.ttysavefd
      usual
      (tty_cbreak obedient 0 fresh usual)
    × Switched
        (obedient_IsTerminal 0)
        is_raw
        raw
        fresh.ttysavefd
        usual
        (tty_raw obedient 0 fresh usual)
tty_modes_switch_example = tty_modes_switch (obedient_IsTerminal 0) fresh usual refl

abbrev session : List Command
session = enter_cbreak ∷ enter_raw ∷ leave ∷ enter_raw ∷ []

tty_session_restores_example :
    ((tty_atexit obedient
        (commands obedient 0 session (fresh, usual)).0
        (commands obedient 0 session (fresh, usual)).1).1
      ≡ usual)
    × ((tty_reset obedient 0
          (commands obedient 0 session (fresh, usual)).0
          (commands obedient 0 session (fresh, usual)).1).0
        ≡ pos 0)
    × IsOriginal
        (obedient_IsTerminal 0)
        usual
        tt
        (tty_reset obedient 0
          (commands obedient 0 session (fresh, usual)).0
          (commands obedient 0 session (fresh, usual)).1).1
tty_session_restores_example =
    tty_session_restores (obedient_IsTerminal 0) usual tt session fresh usual refl refl
