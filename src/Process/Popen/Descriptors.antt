-- ===== src/Process/Popen/Descriptors.antt =====
-- The descriptors that `popen_m` leaves open in the caller.
use unix_advanced_programing.Prelude.{
  ℕ, zero, suc, ◌≡◌, ◌≢◌, ◌∙◌, refl, ap, subst, inl, inr, Bool, true, false, Bool-cases, ◌||◌,
  Option, none, some, List, ◌∷◌, replicate, leb, ◌==◌, ==_iff, arith,
}
use unix_advanced_programing.Prelude.Int.{ℤ, pos, negsuc}
use unix_advanced_programing.Apue.UnixSocket.Calls.{erase}
use unix_advanced_programing.Process.Popen.{
  Mode, read_mode, write_mode, bad_mode, Calls, max_fd, ChildPid, fork_null, fdopen_null, Opened,
  stream, null, execl, recorded, parent, forked, piped, allocated, popen_m,
}

-- Documented behaviour of the calls in the caller: `pipe` opens two descriptors, `close` closes one, and
-- `calloc`, `fork` and `fdopen` open and close none.
pub record IsPiped (c : Calls) : Type 0 where
  pub opened : c.World → List ℕ
  pub pipe_law :
      (w w' : c.World) (fd0 fd1 : ℕ)
      → c.pipe w ≡ (some (fd0, fd1), w')
      → (fd0 ≢ fd1) × (opened w' ≡ fd0 ∷ fd1 ∷ opened w)
  pub no_pipe_law : (w w' : c.World) → c.pipe w ≡ (none, w') → opened w' ≡ opened w
  pub close_law : (fd : ℕ) (w : c.World) → opened (c.close fd w) ≡ erase fd (opened w)
  pub calloc_law : (w : c.World) → opened (c.calloc w).1 ≡ opened w
  pub fork_law : (w : c.World) → opened (c.fork w).1 ≡ opened w
  pub fdopen_law : (fd : ℕ) (w : c.World) → opened (c.fdopen fd w).1 ≡ opened w

module _ {c : Calls} (k : IsPiped c) where
  open c use {World, calloc, pipe, fork, close, fdopen}
  open k use {opened, pipe_law, no_pipe_law, close_law, calloc_law, fork_law, fdopen_law}

  -- What is open, against what was open before: one descriptor more for a stream, two more where `fork`
  -- fails, one more where `fdopen` fails, and none more for every other failure.
  abbrev pub Accounted : List ℕ → Opened World → Type 0
  Accounted before (stream fd pids w) = opened w ≡ fd ∷ before
  Accounted before (null fork_null pids w) = (fd0 : ℕ) × (fd1 : ℕ) × (opened w ≡ fd0 ∷ fd1 ∷ before)
  Accounted before (null fdopen_null pids w) = (fd : ℕ) × (opened w ≡ fd ∷ before)
  Accounted before (null other pids w) = opened w ≡ before
  Accounted before (execl w) = Unit

  erase_first : (a : ℕ) (l : List ℕ) → erase a (a ∷ l) ≡ l
  erase_first a l = let same : (a == a) ≡ true = (==_iff a a).1 refl in rw same refl

  erase_second : (a b : ℕ) (l : List ℕ) → a ≢ b → erase b (a ∷ b ∷ l) ≡ a ∷ l
  erase_second a b l ne =
      let other : (a == b) ≡ false = ground arith in rw (other, erase_first b l) refl

  recorded-Accounted :
      (fd pid : ℕ) (pids before : List ℕ) (r : Bool × World)
      → opened r.1 ≡ fd ∷ before
      → Accounted before (recorded c fd pid pids r)
  unfolding recorded
  recorded-Accounted fd pid pids before (false, w) e = (fd, e)
  recorded-Accounted fd pid pids before (true, w) e = e

  parent-Accounted :
      (mode : Mode) (fd0 fd1 pid : ℕ) (pids before : List ℕ) (w : World)
      → fd0 ≢ fd1
      → opened w ≡ fd0 ∷ fd1 ∷ before
      → Accounted before (parent c mode (fd0, fd1) pid pids w)
  unfolding parent
  parent-Accounted read_mode fd0 fd1 pid pids before w ne e =
      recorded-Accounted fd0 pid pids before (fdopen fd0 (close fd1 w)) (
        fdopen_law fd0 (close fd1 w)
        ∙ close_law fd1 w
        ∙ ap (erase fd1) e
        ∙ erase_second fd0 fd1 before ne)
  parent-Accounted write_mode fd0 fd1 pid pids before w ne e =
      recorded-Accounted fd1 pid pids before (fdopen fd1 (close fd0 w)) (
        fdopen_law fd1 (close fd0 w)
        ∙ close_law fd0 w
        ∙ ap (erase fd0) e
        ∙ erase_first fd0 (fd1 ∷ before))
  parent-Accounted bad_mode fd0 fd1 pid pids before w ne e =
      recorded-Accounted fd1 pid pids before (fdopen fd1 (close fd0 w)) (
        fdopen_law fd1 (close fd0 w)
        ∙ close_law fd0 w
        ∙ ap (erase fd0) e
        ∙ erase_first fd0 (fd1 ∷ before))

  forked-Accounted :
      (mode : Mode) (fd0 fd1 : ℕ) (pids before : List ℕ) (r : ℤ × World)
      → fd0 ≢ fd1
      → opened r.1 ≡ fd0 ∷ fd1 ∷ before
      → Accounted before (forked c mode (fd0, fd1) pids r)
  unfolding forked
  forked-Accounted mode fd0 fd1 pids before (negsuc n, w) ne e = (fd0, fd1, e)
  forked-Accounted mode fd0 fd1 pids before (pos zero, w) ne e = tt
  forked-Accounted mode fd0 fd1 pids before (pos (suc n), w) ne e =
      parent-Accounted mode fd0 fd1 (suc n) pids before w ne e

  piped-Accounted :
      (mode : Mode) (pids : List ℕ) (w : World) (r : Option (ℕ × ℕ) × World)
      → pipe w ≡ r
      → Accounted (opened w) (piped c mode pids r)
  unfolding piped
  piped-Accounted mode pids w (none, v) e = no_pipe_law w v e
  piped-Accounted mode pids w (some (fd0, fd1), v) e =
      let (ne, is) = pipe_law w v fd0 fd1 e in
      elim (Bool-cases (leb max_fd fd0 || leb max_fd fd1)) [
        | inl far ↦
            rw (far, piped)
              (close_law fd1 (close fd0 v)
                ∙ ap (erase fd1)
                    (close_law fd0 v ∙ ap (erase fd0) is ∙ erase_first fd0 (fd1 ∷ opened w))
                ∙ erase_first fd1 (opened w))
        | inr near ↦
            rw (near, piped)
              (forked-Accounted mode fd0 fd1 pids (opened w) (fork v) ne (fork_law v ∙ is))
      ]

  allocated-Accounted :
      (mode : Mode) (before : List ℕ) (r : Bool × World)
      → opened r.1 ≡ before
      → Accounted before (allocated c mode r)
  unfolding allocated
  allocated-Accounted mode before (false, w) e = e
  allocated-Accounted mode before (true, w) e =
      subst (λ l. Accounted l (piped c mode (replicate max_fd 0) (pipe w))) e
        (piped-Accounted mode (replicate max_fd 0) w (pipe w) refl)

  -- On every way out of `popen_m` in the caller: with a stream there is one open descriptor more, that of
  -- the stream. Without one there is none more, except that both ends of the pipe stay open where `fork`
  -- fails, and one end where `fdopen` fails.
  pub popen_m-Accounted :
      (mode : Mode) (pids : ChildPid) (w : World) → Accounted (opened w) (popen_m c mode pids w)
  unfolding popen_m
  popen_m-Accounted bad_mode pids w = refl
  popen_m-Accounted read_mode none w =
      allocated-Accounted read_mode (opened w) (calloc w) (calloc_law w)
  popen_m-Accounted write_mode none w =
      allocated-Accounted write_mode (opened w) (calloc w) (calloc_law w)
  popen_m-Accounted read_mode (some pids) w = piped-Accounted read_mode pids w (pipe w) refl
  popen_m-Accounted write_mode (some pids) w = piped-Accounted write_mode pids w (pipe w) refl
