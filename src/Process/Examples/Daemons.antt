-- ===== src/Process/Examples/Daemons.antt =====
-- A process with open descriptors, as the child of both forks.
use unix_advanced_programing.Prelude.{
  ℕ, ◌≡◌, ◌∙◌, refl, sym, ap, Bool, true, false, some, if◌then◌else◌, ltb,
}
use unix_advanced_programing.Prelude.Int.{ℤ, pos}
use unix_advanced_programing.Process.Daemon.{Calls}
use unix_advanced_programing.Process.Daemon.Descriptors.{
  File, closed, dev_null, another, Process, put, IsUnix,
}

is_closed : File → Bool
is_closed closed = true
is_closed dev_null = false
is_closed (another id) = false

-- The lowest of the first three that is closed.
lowest : (ℕ → File) → ℕ
unfolding is_closed
lowest files = if is_closed (files 0) then 0 else if is_closed (files 1) then 1 else 2

abbrev give : ℕ → File → Process → Process
give fd f p = record p { files = put fd f p.files }

abbrev unix : Calls
unix = record {
  World = Process;
  umask = λ m p. record p { mask = m };
  getrlimit = λ p. (some (some 6), p);
  fork = λ p. (pos 0, record p { session_leader = false });
  setsid = λ p. record p { session_leader = true };
  ignore_hup = λ p. (true, record p { ignores_hup = true });
  chdir_root = λ p. (true, record p { at_root = true });
  close = λ fd p. give fd closed p;
  open_null = λ p. (pos (lowest p.files), give (lowest p.files) dev_null p);
  dup = λ old p. (pos (lowest p.files), give (lowest p.files) (p.files old) p);
  openlog = λ p. p;
}

given :
    (fd n : ℕ) (f : File) (p p' : Process)
    → ◌≡◌ {A = ℤ × Process} (pos n, give n f p) (pos fd, p')
    → p' ≡ give fd f p
given fd n f p p' e = let is : n ≡ fd = cc in sym (ap (λ r. r.1) e) ∙ ap (λ m. give m f p) is

unix-IsUnix : IsUnix unix
unix-IsUnix = record {
  state = λ p. p;
  umask_law = λ m p. refl;
  getrlimit_law = λ p. refl;
  fork_law = λ p p' e. sym (ap (λ r. r.1) e);
  setsid_law = λ p. refl;
  hup_law = λ p p' e. sym (ap (λ r. r.1) e);
  chdir_law = λ p p' e. sym (ap (λ r. r.1) e);
  close_law = λ fd p. refl;
  open_law = λ fd p p' e. given fd (lowest p.files) dev_null p p' e;
  dup_law = λ old fd p p' e. given fd (lowest p.files) (p.files old) p p' e;
  openlog_law = λ p. refl;
}

-- Started by a shell on a terminal, descriptors 0 to 3 open.
abbrev started : Process
started = record {
  files = λ m. if ltb m 4 then another m else closed;
  mask = 18;
  session_leader = false;
  ignores_hup = false;
  at_root = false;
}
