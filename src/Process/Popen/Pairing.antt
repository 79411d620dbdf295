-- ===== src/Process/Popen/Pairing.antt =====
-- `pclose_m` against the `popen_m` that has made its stream.
use unix_advanced_programing.Prelude.{ℕ, suc, ◌≡◌, ◌<◌, none, some, length, get_elem?}
use unix_advanced_programing.Prelude.Int.{pos}
use unix_advanced_programing.Process.Popen.{Calls, ChildPid, Opened, stream}

-- `childpid` has an entry for each of the descriptors below `maxfd`.
abbrev pub IsTable : ChildPid → Type 0
IsTable none = Unit
IsTable (some pids) = length pids ≡ 4096

module _ (c : Calls) where
  open c use {World, calloc, pipe, fork, close, fdopen, fclose}

  -- The entry of the stream is the child that `fork` has made.
  abbrev pub Recorded : Opened World → Type 0
  Recorded (stream fd pids w) =
      (length pids ≡ 4096)
      × (fd < 4096)
      × ((pid : ℕ) × (u : World) × ((fork u).0 ≡ pos (suc pid))
          × (get_elem? pids fd ≡ some (suc pid)))
  Recorded other = Unit
