-- ===== src/Process/Popen.antt =====
-- `popen_m` and `pclose_m` of UnixAdvancedProgramming/ch13_io/ipc_test.c. The calls are parameters; `errno`
-- is kept where the code sets it.
pub mod Descriptors
pub mod Pairing
use unix_advanced_programing.Prelude.{
  ℕ, zero, suc, Bool, true, false, ◌||◌, Option, none, some, List, [], ◌∷◌, get_elem?, set,
  replicate, leb, ◌==◌, if◌then◌else◌,
}
use unix_advanced_programing.Prelude.Int.{ℤ, pos, negsuc}

-- `type`: "r", "w", or anything else.
pub data Mode : Type 0 where
  read_mode write_mode bad_mode : Mode

pub data WaitResult : Type 0 where
  status : (stat : ℤ) → WaitResult
  interrupted failed : WaitResult

-- `fdopen` says whether there is a stream, and the number of a stream is that of its descriptor; `fclose`
-- says whether it has not failed.
pub record Calls : Type (0 + 1) where
  pub World : Type 0
  pub calloc : World → Bool × World
  pub pipe : World → Option (ℕ × ℕ) × World
  pub fork : World → ℤ × World
  pub close : ℕ → World → World
  pub dup2 : ℕ → ℕ → World → World
  pub fdopen : ℕ → World → Bool × World
  pub fclose : ℕ → World → Bool × World
  pub waitpid : ℕ → World → WaitResult × World

abbrev pub max_fd : ℕ
max_fd = 4096

-- `childpid`: NULL, or the process for each descriptor, 0 where there is none.
abbrev pub ChildPid : Type 0
ChildPid = Option (List ℕ)

-- What becomes of `popen_m`: a stream; NULL, with the call that failed or the `errno` that is set; or the
-- child, as it calls `execl`.
pub data Null : Type 0 where
  einval calloc_null pipe_null emfile fork_null fdopen_null : Null

pub data Opened (W : Type 0) : Type 0 where
  stream : (fd : ℕ) (pids : List ℕ) (w : W) → Opened W
  null : (why : Null) (pids : ChildPid) (w : W) → Opened W
  execl : (w : W) → Opened W

module _ (c : Calls) where
  open c use {World, calloc, pipe, fork, close, dup2, fdopen, fclose, waitpid}

  -- The child closes the streams of the popens before, whose descriptors are the indices from `i` on.
  unfoldable pub close_others : ℕ → List ℕ → World → World
  close_others i [] w = w
  close_others i (pid ∷ pids) w = close_others (suc i) pids (if pid == 0 then w else close i w)

  -- The child's end of the pipe becomes its standard input or output.
  unfoldable pub moved_to : ℕ → ℕ → World → World
  moved_to fd std w = if fd == std then w else close fd (dup2 fd std w)

  unfoldable pub child : Mode → ℕ × ℕ → List ℕ → World → World
  unfolding close_others moved_to
  child read_mode (fd0, fd1) pids w = close_others 0 pids (moved_to fd1 1 (close fd0 w))
  child other (fd0, fd1) pids w = close_others 0 pids (moved_to fd0 0 (close fd1 w))

  -- `childpid[fileno(fp)] = pid`
  unfoldable pub recorded : ℕ → ℕ → List ℕ → Bool × World → Opened World
  recorded fd pid pids (false, w) = null fdopen_null (some pids) w
  recorded fd pid pids (true, w) = stream fd (set pids fd pid) w

  unfoldable pub parent : Mode → ℕ × ℕ → ℕ → List ℕ → World → Opened World
  unfolding recorded
  parent read_mode (fd0, fd1) pid pids w = recorded fd0 pid pids (fdopen fd0 (close fd1 w))
  parent other (fd0, fd1) pid pids w = recorded fd1 pid pids (fdopen fd1 (close fd0 w))

  unfoldable pub forked : Mode → ℕ × ℕ → List ℕ → ℤ × World → Opened World
  unfolding child parent
  forked mode fds pids (negsuc n, w) = null fork_null (some pids) w
  forked mode fds pids (pos zero, w) = execl (child mode fds pids w)
  forked mode fds pids (pos (suc n), w) = parent mode fds (suc n) pids w

  unfoldable pub piped : Mode → List ℕ → Option (ℕ × ℕ) × World → Opened World
  unfolding forked
  piped mode pids (none, w) = null pipe_null (some pids) w
  piped mode pids (some (fd0, fd1), w) =
      if leb max_fd fd0 || leb max_fd fd1
      then null emfile (some pids) (close fd1 (close fd0 w))
      else forked mode (fd0, fd1) pids (fork w)

  unfoldable pub allocated : Mode → Bool × World → Opened World
  unfolding piped
  allocated mode (false, w) = null calloc_null none w
  allocated mode (true, w) = piped mode (replicate max_fd 0) (pipe w)

  unfoldable pub popen_m : Mode → ChildPid → World → Opened World
  unfolding piped allocated
  popen_m bad_mode pids w = null einval pids w
  popen_m mode none w = allocated mode (calloc w)
  popen_m mode (some pids) w = piped mode pids (pipe w)

  unfoldable pub wait_ended : (World → Option (ℤ × World)) → WaitResult × World → Option (ℤ × World)
  wait_ended again (status stat, w) = some (stat, w)
  wait_ended again (interrupted, w) = again w
  wait_ended again (failed, w) = some (negsuc 0, w)

  unfoldable pub wait_loop : ℕ → ℕ → World → Option (ℤ × World)
  unfolding wait_ended
  wait_loop zero pid w = none
  wait_loop (suc fuel) pid w = wait_ended (wait_loop fuel pid) (waitpid pid w)

  unfoldable pub stream_closed : ℕ → ℕ → Bool × World → Option (ℤ × World)
  unfolding wait_loop
  stream_closed fuel pid (false, w) = some (negsuc 0, w)
  stream_closed fuel pid (true, w) = wait_loop fuel pid w

  -- The table and the result; `none` for a result that the fuel of the wait does not reach.
  unfoldable pub closed_by : ℕ → ℕ → List ℕ → Option ℕ → World → ChildPid × Option (ℤ × World)
  unfolding stream_closed
  closed_by fuel fd pids none w = (some pids, some (negsuc 0, w))
  closed_by fuel fd pids (some zero) w = (some pids, some (negsuc 0, w))
  closed_by fuel fd pids (some (suc n)) w =
      (some (set pids fd 0), stream_closed fuel (suc n) (fclose fd w))

  unfoldable pub pclose_m : ℕ → ℕ → ChildPid → World → ChildPid × Option (ℤ × World)
  unfolding closed_by
  pclose_m fuel fd none w = (none, some (negsuc 0, w))
  pclose_m fuel fd (some pids) w = closed_by fuel fd pids (get_elem? pids fd) w
