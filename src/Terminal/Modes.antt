-- ===== src/Terminal/Modes.antt =====
-- `tty_cbreak`, `tty_raw`, `tty_reset` and `tty_atexit` of term_io.c, over `tcgetattr` and `tcsetattr`
-- as parameters. `errno` and the printed messages are left out.
pub mod Settings
pub mod Session
use unix_advanced_programing.Prelude.{
  ℕ, Bool, true, false, ◌&&◌, not, Option, none, some, List, [], ◌∷◌, if◌then◌else◌, ◌==◌,
}
use unix_advanced_programing.Prelude.Int.{ℤ, pos, negsuc}

-- The fields of `struct termios` that the program names, the flags one by one; `size` is the number of
-- bits of CSIZE, and `others` stands for all the rest.
pub record Termios : Type 0 where
  pub echo : Bool
  pub icanon : Bool
  pub iexten : Bool
  pub isig : Bool
  pub brkint : Bool
  pub icrnl : Bool
  pub inpck : Bool
  pub istrip : Bool
  pub ixon : Bool
  pub parenb : Bool
  pub opost : Bool
  pub size : ℕ
  pub vmin : ℕ
  pub vtime : ℕ
  pub others : ℕ

pub data TtyState : Type 0 where
  reset raw cbreak : TtyState

-- `ttystate`, `save_termios` and `ttysavefd`.
pub record Tty : Type 0 where
  pub ttystate : TtyState
  pub save_termios : Termios
  pub ttysavefd : ℤ

-- `tcgetattr` gives the settings or fails; `tcsetattr` says whether it has not failed.
pub record Calls : Type (0 + 1) where
  pub World : Type 0
  pub tcgetattr : ℕ → World → Option Termios × World
  pub tcsetattr : ℕ → Termios → World → Bool × World

unfoldable pub cbreak_settings : Termios → Termios
cbreak_settings t = record t { echo = false; icanon = false; vmin = 1; vtime = 0 }

-- The test whether all the changes were made.
unfoldable pub is_cbreak : Termios → Bool
is_cbreak t = not t.echo && (not t.icanon && (t.vmin == 1 && t.vtime == 0))

unfoldable pub raw_settings : Termios → Termios
raw_settings t = record t {
  echo = false;
  icanon = false;
  iexten = false;
  isig = false;
  brkint = false;
  icrnl = false;
  inpck = false;
  istrip = false;
  ixon = false;
  parenb = false;
  size = 8;
  opost = false;
  vmin = 1;
  vtime = 0;
}

unfoldable pub is_raw : Termios → Bool
is_raw t =
    not t.echo
    && (not t.icanon
        && (not t.iexten
            && (not t.isig
                && (not t.brkint
                    && (not t.icrnl
                        && (not t.inpck
                            && (not t.istrip
                                && (not t.ixon
                                    && (not t.parenb
                                        && (t.size == 8
                                            && (not t.opost
                                                && (t.vmin == 1 && t.vtime == 0))))))))))))

module _ (c : Calls) where
  open c use {World, tcgetattr, tcsetattr}

  -- From the second `tcgetattr` on: a failure sets the saved settings again.
  unfoldable pub confirm :
      (Termios → Bool) → TtyState → ℕ → Tty → Option Termios × World → ℤ × (Tty × World)
  confirm check mode fd s (none, w) = (negsuc 0, (s, (tcsetattr fd s.save_termios w).1))
  confirm check mode fd s (some t, w) =
      if check t
      then (pos 0, (record s { ttystate = mode; ttysavefd = pos fd }, w))
      else (negsuc 0, (s, (tcsetattr fd s.save_termios w).1))

  -- Behind the first `tcsetattr`.
  unfoldable pub was_set : (Termios → Bool) → TtyState → ℕ → Tty → Bool × World → ℤ × (Tty × World)
  unfolding confirm
  was_set check mode fd s (false, w) = (negsuc 0, (s, w))
  was_set check mode fd s (true, w) = confirm check mode fd s (tcgetattr fd w)

  -- Behind the first `tcgetattr`.
  unfoldable pub was_got :
      (Termios → Termios)
      → (Termios → Bool)
      → TtyState
      → ℕ
      → Tty
      → Option Termios × World
      → ℤ × (Tty × World)
  unfolding was_set
  was_got settings check mode fd s (none, w) = (negsuc 0, (s, w))
  was_got settings check mode fd s (some t, w) =
      was_set check mode fd (record s { save_termios = t }) (tcsetattr fd (settings t) w)

  -- `tty_cbreak` and `tty_raw` differ in the settings, the test and the new state.
  unfoldable pub tty_mode :
      (Termios → Termios) → (Termios → Bool) → TtyState → ℕ → Tty → World → ℤ × (Tty × World)
  unfolding was_got
  tty_mode settings check mode fd s w = elim s.ttystate [
    | reset ↦ was_got settings check mode fd s (tcgetattr fd w)
    | _ ↦ (negsuc 0, (s, w))
  ]

  unfoldable pub tty_cbreak : ℕ → Tty → World → ℤ × (Tty × World)
  unfolding tty_mode cbreak_settings is_cbreak
  tty_cbreak = tty_mode cbreak_settings is_cbreak cbreak

  unfoldable pub tty_raw : ℕ → Tty → World → ℤ × (Tty × World)
  unfolding tty_mode raw_settings is_raw
  tty_raw = tty_mode raw_settings is_raw raw

  -- Behind the `tcsetattr` of `tty_reset`.
  unfoldable pub was_reset : Tty → Bool × World → ℤ × (Tty × World)
  was_reset s (false, w) = (negsuc 0, (s, w))
  was_reset s (true, w) = (pos 0, (record s { ttystate = reset }, w))

  unfoldable pub tty_reset : ℕ → Tty → World → ℤ × (Tty × World)
  unfolding was_reset
  tty_reset fd s w = elim s.ttystate [
    | reset ↦ (pos 0, (s, w))
    | _ ↦ was_reset s (tcsetattr fd s.save_termios w)
  ]

  unfoldable pub tty_atexit : Tty → World → Tty × World
  unfolding tty_reset
  tty_atexit s w = elim s.ttysavefd [ pos fd ↦ (tty_reset fd s w).1 | negsuc n ↦ (s, w) ]

  -- `isatty_m`
  unfoldable pub isatty_m : ℕ → World → Bool × World
  isatty_m fd w = let (t, w') = tcgetattr fd w in (elim t [ none ↦ false | some u ↦ true ], w')

-- The calls that a program makes on its terminal.
pub data Command : Type 0 where
  enter_cbreak enter_raw leave : Command

unfoldable pub command : (c : Calls) → ℕ → Command → Tty × c.World → Tty × c.World
unfolding tty_cbreak tty_raw tty_reset
command c fd enter_cbreak (s, w) = (tty_cbreak c fd s w).1
command c fd enter_raw (s, w) = (tty_raw c fd s w).1
command c fd leave (s, w) = (tty_reset c fd s w).1

unfoldable pub commands : (c : Calls) → ℕ → List Command → Tty × c.World → Tty × c.World
unfolding command
commands c fd [] sw = sw
commands c fd (x ∷ xs) sw = commands c fd xs (command c fd x sw)
