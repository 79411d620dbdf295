-- ===== src/Network/ConnectTimeout.antt =====
-- `connect_timeo` of UnixNetworkProgrammingVol1/ch14_advanced_io_function/main.c, over the wrapper `Signal`.
-- The calls are parameters, and the address is left out.
pub mod Restores
use unix_advanced_programing.Prelude.{ℕ, zero, suc, Option, none, some, [], ◌∷◌, if◌then◌else◌}
use unix_advanced_programing.Prelude.Int.{ℤ, pos, is_neg}
use unix_advanced_programing.Posix.{Errno, eintr, enametoolong, einval, other}
use unix_advanced_programing.Posix.Printf.{int}
use unix_advanced_programing.Unp.Wrappers.{sigalrm, signal}
use unix_advanced_programing.Unp.Wrappers.Effects.{Console, printf, perform}

abbrev pub etimedout : Errno
etimedout = other 110

-- `sigaction` takes the handler and the flags, and gives the old handler or fails. `connect` may be
-- interrupted by the alarm.
pub record Calls : Type (0 + 1) where
  pub World : Type 0
  pub Handler : Type 0
  pub sa_interrupt : ℕ
  pub sa_restart : ℕ
  pub sig_err : Handler
  pub connect_alarm_handler : Handler
  pub sigaction : ℕ → Handler → ℕ → World → Option Handler × World
  pub alarm : ℕ → World → ℕ × World
  pub connect : ℕ → World → ℤ × World
  pub close : ℕ → World → World
  pub errno : World → Errno
  pub set_errno : Errno → World → World

module _ (c : Calls) where
  open c use {
    World, Handler, sa_interrupt, sa_restart, sig_err, connect_alarm_handler, sigaction, alarm,
    connect, close, errno, set_errno,
  }

  unfoldable pub on_alarm : Handler → World → Option Handler × World
  unfolding signal
  on_alarm = signal sa_interrupt sa_restart sigaction sigalrm

  -- What `Signal` returns.
  unfoldable pub returned_by : Option Handler → Handler
  returned_by none = sig_err
  returned_by (some func) = func

  -- `if (errno == EINTR) errno = ETIMEDOUT`
  unfoldable pub translated : Errno → World → World
  translated eintr w = set_errno etimedout w
  translated enametoolong w = w
  translated einval w = w
  translated (other n) w = w

  -- Behind `connect`.
  unfoldable pub connected : ℕ → ℤ → World → World
  unfolding translated
  connected sockfd n w =
      if is_neg n then translated (errno (close sockfd w)) (close sockfd w) else w

  -- Behind `alarm`; `err_sys` of util.h only prints.
  unfoldable pub warned : ℕ → Console World → Console World
  unfolding printf
  warned zero s = s
  warned (suc n) s = printf "connect_time: alaram was already set %d" (int (pos (suc n)) ∷ []) s

  -- `alarm(0)` and the handler of before.
  unfoldable pub disarmed : Handler → World → World
  unfolding on_alarm
  disarmed sigfunc w = (on_alarm sigfunc (alarm 0 w).1).1

  unfoldable pub connect_timeo : ℕ → ℕ → Console World → ℤ × Console World
  unfolding on_alarm returned_by connected warned disarmed perform
  connect_timeo sockfd nsec s =
      let (sigfunc, s1) = perform (on_alarm connect_alarm_handler) s in
      let (remain_sec, s2) = perform (alarm nsec) s1 in
      let (n, s3) = perform (connect sockfd) (warned remain_sec s2) in
      (n, record s3 { world = disarmed (returned_by sigfunc) (connected sockfd n s3.world) })
