-- ===== src/Process/Daemon.antt =====
-- `daemonize` and `set_cloexec` of UnixAdvancedProgramming/ch13_io/daemon_test1.c, as the process sees it
-- that is the child of both forks. The calls are parameters, and messages are left out.
pub mod Descriptors
pub mod Detached
pub mod Completes
use unix_advanced_programing.Prelude.{
  ℕ, zero, suc, Bool, true, false, ◌&&◌, Option, none, some, List, [], ◌∷◌, ◌==◌, if◌then◌else◌,
}
use unix_advanced_programing.Prelude.Int.{ℤ, pos, negsuc}

-- `getrlimit` gives `rlim_max`, with `none` for RLIM_INFINITY, or fails. `ignore_hup` is the `sigaction`
-- on SIGHUP, `open_null` opens /dev/null, and `dup` is of the given descriptor; the Booleans say whether
-- a call has not failed.
pub record Calls : Type (0 + 1) where
  pub World : Type 0
  pub umask : ℕ → World → World
  pub getrlimit : World → Option (Option ℕ) × World
  pub fork : World → ℤ × World
  pub setsid : World → World
  pub ignore_hup : World → Bool × World
  pub chdir_root : World → Bool × World
  pub close : ℕ → World → World
  pub open_null : World → ℤ × World
  pub dup : ℕ → World → ℤ × World
  pub openlog : World → World

-- The ways out: the daemon goes on; `err_ret` has returned from `daemonize`; or the process has ended.
pub data End (W : Type 0) : Type 0 where
  detached given_up exited : (w : W) → End W

-- `fd0 != 0 || fd1 != 1 || fd2 != 2`, negated.
unfoldable pub is_fd : ℕ → ℤ → Bool
is_fd n (pos fd) = fd == n
is_fd n (negsuc m) = false

-- `rlim_max`, with 1024 for RLIM_INFINITY.
unfoldable pub limit_of : Option ℕ → ℕ
limit_of none = 1024
limit_of (some max) = max

module _ (c : Calls) where
  open c use {
    World, umask, getrlimit, fork, setsid, ignore_hup, chdir_root, close, open_null, dup, openlog,
  }

  -- The loop over the descriptors from `i` on, of which `n` are left.
  unfoldable pub close_all : ℕ → ℕ → World → World
  close_all zero i w = w
  close_all (suc n) i w = close_all n (suc i) (close i w)

  -- Behind the three descriptors.
  unfoldable pub checked : ℤ → ℤ → ℤ × World → End World
  unfolding is_fd
  checked fd0 fd1 (fd2, w) = elim (is_fd 0 fd0 && (is_fd 1 fd1 && is_fd 2 fd2)) [
    | true ↦ detached (openlog w)
    | false ↦ exited (openlog w)
  ]

  unfoldable pub second_dup : ℤ → ℤ × World → End World
  unfolding checked
  second_dup fd0 (fd1, w) = checked fd0 fd1 (dup 0 w)

  unfoldable pub first_dup : ℤ × World → End World
  unfolding second_dup
  first_dup (fd0, w) = second_dup fd0 (dup 0 w)

  unfoldable pub moved : ℕ → Bool × World → End World
  unfolding first_dup close_all
  moved limit (false, w) = exited w
  moved limit (true, w) = first_dup (open_null (close_all limit 0 w))

  unfoldable pub second_fork : ℕ → ℤ × World → End World
  unfolding moved
  second_fork limit (negsuc n, w) = given_up w
  second_fork limit (pos zero, w) = moved limit (chdir_root w)
  second_fork limit (pos (suc n), w) = exited w

  unfoldable pub hup_ignored : ℕ → Bool × World → End World
  unfolding second_fork
  hup_ignored limit (false, w) = exited w
  hup_ignored limit (true, w) = second_fork limit (fork w)

  unfoldable pub first_fork : ℕ → ℤ × World → End World
  unfolding hup_ignored
  first_fork limit (negsuc n, w) = given_up w
  first_fork limit (pos zero, w) = hup_ignored limit (ignore_hup (setsid w))
  first_fork limit (pos (suc n), w) = exited w

  unfoldable pub limited : Option (Option ℕ) × World → End World
  unfolding first_fork limit_of
  limited (none, w) = exited w
  limited (some max, w) = first_fork (limit_of max) (fork w)

  unfoldable pub daemonize : World → End World
  unfolding limited
  daemonize w = limited (getrlimit (umask 0 w))
