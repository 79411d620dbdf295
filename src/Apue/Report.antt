-- ===== src/Apue/Report.antt =====
-- `pr_exit`, `pr_limits` and `pr_mask` of common/apue.c. What the macros of <sys/wait.h> read of a status,
-- `getrlimit` and the signal mask are arguments. `WCOREDUMP` and `WIFCONTINUED` are defined.
-- Texts printed one behind the other make up one line, which the text "\n" ends.
use Prim.Native.String.{String}
use unix_advanced_programing.Prelude.{
  ℕ, Bool, true, false, Option, none, some, List, [], ◌∷◌, ◌++◌, if◌then◌else◌,
}
use unix_advanced_programing.Prelude.Int.{ℤ, pos, to_int}
use unix_advanced_programing.Posix.Printf.{int, text, Line, line}

-- The macros on one status.
pub record WaitStatus : Type 0 where
  pub wifexited : Bool
  pub wexitstatus : ℤ
  pub wifsignaled : Bool
  pub wtermsig : ℤ
  pub wcoredump : Bool
  pub wifstopped : Bool
  pub wstopsig : ℤ
  pub wifcontinued : Bool

unfoldable pub pr_exit : WaitStatus → List Line
pr_exit status =
    if status.wifexited
    then line "normal termination, exit status:%d" (int status.wexitstatus ∷ []) ∷ []
    else if status.wifsignaled
    then line "abnormal termination, signal number:%d %s"
        (int status.wtermsig ∷ text (if status.wcoredump then "(core file generated)" else "") ∷ [])
      ∷ []
    else if status.wifstopped
    then line "child stoped, signal number:%d" (int status.wstopsig ∷ []) ∷ []
    else if status.wifcontinued
    then line "continued?" [] ∷ []
    else []

-- A limit, `none` for RLIM_INFINITY. `%10d` prints its low 32 bits as an `int`.
unfoldable pub pr_limit : (infinite finite : String) → Option ℕ → Line
pr_limit infinite finite none = line infinite []
pr_limit infinite finite (some lim) = line finite (int (to_int (pos lim)) ∷ [])

-- `none` is a failed `getrlimit`: `err_ret` prints and returns.
unfoldable pub pr_limits : String → Option (Option ℕ × Option ℕ) → List Line
unfolding pr_limit
pr_limits name none = line "getrlimit() error" [] ∷ []
pr_limits name (some (rlim_cur, rlim_max)) =
    line "%-14s " (text name ∷ [])
    ∷ pr_limit "(infinite)  " "%10d  " rlim_cur
    ∷ pr_limit "(infinite)" "%10d" rlim_max
    ∷ line "\n" []
    ∷ []

-- The signals that `pr_mask` asks for, in its order; SIGFPE is there twice.
pub data Asked : Type 0 where
  sigint sigfpe sigquit sigusr1 sigusr2 sigalrm : Asked

unfoldable pub masked : Bool → String → List Line
masked true name = line name [] ∷ []
masked false name = []

-- `none` is a failed `sigprocmask`: `err_ret` prints and returns. `errno` is as before at the end.
unfoldable pub pr_mask : String → Option (Asked → Bool) → List Line
unfolding masked
pr_mask str none = line "sigprocmask error" [] ∷ []
pr_mask str (some sigismember) =
    line "%s masked signals: " (text str ∷ []) ∷ masked (sigismember sigint) "SIGINT\t"
    ++ masked (sigismember sigfpe) "SIGFPE\t"
    ++ masked (sigismember sigquit) "SIGQUIT\t"
    ++ masked (sigismember sigusr1) "SIGUSR1\t"
    ++ masked (sigismember sigusr2) "SIGUSR2\t"
    ++ masked (sigismember sigalrm) "SIGALRM\t"
    ++ masked (sigismember sigfpe) "SIGFPE\t"
    ++ line "\n" [] ∷ []
