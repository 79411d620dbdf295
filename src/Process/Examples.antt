-- ===== src/Process/Examples.antt =====
-- The theorems on `popen_m` and `pclose_m` at concrete inputs.
mod Daemons
use unix_advanced_programing.Prelude.{
  ℕ, ◌≡◌, ◌≢◌, refl, true, Option, none, some, List, [], ◌∷◌, replicate, arith,
}
use unix_advanced_programing.Prelude.Int.{pos}
use unix_advanced_programing.Apue.UnixSocket.Calls.{erase}
use unix_advanced_programing.Process.Popen.{read_mode, Calls, status, popen_m}
use unix_advanced_programing.Process.Popen.Descriptors.{IsPiped, Accounted, popen_m-Accounted}

-- Calls that succeed, on the open descriptors: every pipe has the ends 5 and 6, and every child the
-- number 9.
abbrev plain : Calls
plain = record {
  World = List ℕ;
  calloc = λ w. (true, w);
  pipe = λ w. (some (5, 6), 5 ∷ 6 ∷ w);
  fork = λ w. (pos 9, w);
  close = λ fd w. erase fd w;
  dup2 = λ old new w. w;
  fdopen = λ fd w. (true, w);
  fclose = λ fd w. (true, erase fd w);
  waitpid = λ pid w. (status (pos 0), w);
}

plain_pipe :
    (w w' : List ℕ) (fd0 fd1 : ℕ)
    → ◌≡◌ {A = Option (ℕ × ℕ) × List ℕ} (some (5, 6), 5 ∷ 6 ∷ w) (some (fd0, fd1), w')
    → (fd0 ≢ fd1) × (w' ≡ fd0 ∷ fd1 ∷ w)
plain_pipe w w' fd0 fd1 e = ground arith

plain_no_pipe :
    (w w' : List ℕ) → ◌≡◌ {A = Option (ℕ × ℕ) × List ℕ} (some (5, 6), 5 ∷ 6 ∷ w) (none, w') → w' ≡ w
plain_no_pipe w w' e = cc

plain_IsPiped : IsPiped plain
plain_IsPiped = record {
  opened = λ w. w;
  pipe_law = plain_pipe;
  no_pipe_law = plain_no_pipe;
  close_law = λ fd w. refl;
  calloc_law = λ w. refl;
  fork_law = λ w. refl;
  fdopen_law = λ fd w. refl;
}

popen_m-Accounted_example :
    Accounted plain_IsPiped (0 ∷ 1 ∷ 2 ∷ []) (popen_m plain read_mode none (0 ∷ 1 ∷ 2 ∷ []))
unfolding plain_IsPiped
popen_m-Accounted_example = popen_m-Accounted plain_IsPiped read_mode none (0 ∷ 1 ∷ 2 ∷ [])

unfoldable empty : List ℕ
empty = replicate 4096 0
