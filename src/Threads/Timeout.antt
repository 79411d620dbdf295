-- ===== src/Threads/Timeout.antt =====
-- `timeout` and `makethread` of UnixAdvancedProgramming/ch7_12_process/lock_test5.c. The clock, `malloc` and
-- the thread calls are arguments, by their results; an error number is 0 for success. Times are not
-- negative.
pub mod Wait
use unix_advanced_programing.Prelude.{
  ℕ, ◌+◌, ◌-◌, ◌*◌, Bool, true, false, ltb, leb, ◌==◌, ◌&&◌, ◌||◌, if◌then◌else◌,
}
use unix_advanced_programing.Prelude.Int.{ℤ, pos, pred_ℤ}

pub record Timespec : Type 0 where
  pub tv_sec : ℕ
  pub tv_nsec : ℕ

abbrev pub sectonsec : ℕ
sectonsec = 1000000000

-- What becomes of the function that `timeout` is given: a thread runs it behind a sleep, `timeout` runs it
-- at once, nothing runs it, or `ASSERT` ends the process.
pub data Fate : Type 0 where
  sleeps : (to_wait_sec : ℤ) (to_wait_nsec : ℕ) → Fate
  runs lost aborts : Fate

-- The error number of `makethread`, from those of its three calls.
unfoldable pub makethread : (attr_init setdetachstate create : ℕ) → ℕ
makethread attr_init setdetachstate create =
    if attr_init == 0 then (if setdetachstate == 0 then create else setdetachstate) else attr_init

-- `when->tv_nsec > now.tv_sec` is the source's comparison.
unfoldable pub is_ahead : Timespec → Timespec → Bool
is_ahead when now =
    ltb now.tv_sec when.tv_sec || (when.tv_sec == now.tv_sec && ltb now.tv_sec when.tv_nsec)

unfoldable pub to_wait : Timespec → Timespec → ℤ × ℕ
to_wait when now =
    if leb now.tv_nsec when.tv_nsec
    then (pos (when.tv_sec - now.tv_sec), when.tv_nsec - now.tv_nsec)
    else (pred_ℤ (pos (when.tv_sec - now.tv_sec)), sectonsec - now.tv_nsec + when.tv_nsec)

unfoldable pub timeout : (allocated : Bool) (err : ℕ) → Timespec → Timespec → Fate
unfolding is_ahead to_wait
timeout allocated err when now =
    if is_ahead when now
    then (if allocated
        then (if err == 0 then sleeps (to_wait when now).0 (to_wait when now).1 else lost)
        else aborts)
    else runs
