-- ===== src/Process/Daemon/Completes.antt =====
-- `daemonize` where no call of it fails.
use unix_advanced_programing.Prelude.{ℕ, ◌<◌, ◌≤◌, ◌≡◌}
use unix_advanced_programing.Process.Daemon.{Calls, End, detached}
use unix_advanced_programing.Process.Daemon.Descriptors.{
  closed, dev_null, Process, IsUnix, Succeeds,
}

module _ {c : Calls} (k : IsUnix c) (s : Succeeds k) where
  open c use {
    World, umask, getrlimit, fork, setsid, ignore_hup, chdir_root, open_null, dup, openlog,
  }
  open k use {state, open_law, dup_law}
  open s use {fork_child, hup_done, chdir_done, open_lowest, dup_lowest}

  abbrev Detaches : End World → Type 0
  Detaches e = (v : World) × (e ≡ detached v)

  -- The first `n` of the three descriptors are /dev/null, and the others are closed.
  abbrev Filled : ℕ → World → Type 0
  Filled n w =
      ((m : ℕ) → m < n → (state w).files m ≡ dev_null)
      × ((m : ℕ) → n ≤ m → m < 3 → (state w).files m ≡ closed)
