-- ===== src/Process/Daemon/Detached.antt =====
-- What a process is like behind `daemonize`.
use unix_advanced_programing.Prelude.{
  ℕ, zero, suc, ◌<◌, ◌≤◌, ◌≡◌, ◌∙◌, refl, sym, ap, subst, inl, inr, Bool, true, false, Bool-cases,
  ◌&&◌, Option, some, ◌==◌, arith,
}
use unix_advanced_programing.Prelude.Int.{ℤ, pos, negsuc}
use unix_advanced_programing.Process.Daemon.{
  Calls, End, detached, given_up, exited, is_fd, limit_of, close_all, checked, second_dup,
  first_dup, moved, second_fork, hup_ignored, first_fork, limited, daemonize,
}
use unix_advanced_programing.Process.Daemon.Descriptors.{
  File, closed, dev_null, Process, put, IsUnix, Apart, close_all-Apart, close_all-closed,
}

module _ {c : Calls} (k : IsUnix c) where
  open c use {
    World, umask, getrlimit, fork, setsid, ignore_hup, chdir_root, close, open_null, dup, openlog,
  }
  open k use {
    state, umask_law, getrlimit_law, fork_law, setsid_law, hup_law, chdir_law, close_law, open_law,
    dup_law, openlog_law,
  }

  -- Behind `daemonize`: descriptors 0, 1 and 2 are /dev/null, and all others below the limit are closed.
  abbrev pub Silent : ℕ → Process → Type 0
  Silent limit p =
      (p.files 0 ≡ dev_null)
      × (p.files 1 ≡ dev_null)
      × (p.files 2 ≡ dev_null)
      × ((m : ℕ) → 2 < m → m < limit → p.files m ≡ closed)

  abbrev pub Outcome : ℕ → End World → Type 0
  Outcome limit (detached w) = Apart k (state w) × Silent limit (state w)
  Outcome limit (given_up w) = Unit
  Outcome limit (exited w) = Unit

  -- Three descriptors on a process that has none below the limit.
  filled :
      (limit : ℕ) (p p1 p2 p3 : Process)
      → Apart k p
      → ((m : ℕ) → 0 ≤ m → m < limit → p.files m ≡ closed)
      → p1 ≡ record p { files = put 0 dev_null p.files }
      → p2 ≡ record p1 { files = put 1 (p1.files 0) p1.files }
      → p3 ≡ record p2 { files = put 2 (p2.files 0) p2.files }
      → Apart k p3 × Silent limit p3
  filled limit p p1 p2 p3 apart clear e1 e2 e3 =
      let at = λ (q : Process) (m : ℕ). q.files m in
      let first : p1.files 0 ≡ dev_null = ap (λ (q : Process). q.files 0) e1 in
      let second : p2.files 0 ≡ dev_null = ap (λ (q : Process). q.files 0) e2 ∙ first in
      let third : p2.files 1 ≡ dev_null = ap (λ (q : Process). q.files 1) e2 ∙ first in
      (
        subst (Apart k) (sym e3) (subst (Apart k) (sym e2) (subst (Apart k) (sym e1) apart)),
        (
          ap (λ (q : Process). q.files 0) e3 ∙ second,
          ap (λ (q : Process). q.files 1) e3 ∙ third,
          ap (λ (q : Process). q.files 2) e3 ∙ second,
          λ m above lt.
              ap (λ (q : Process). q.files m) e3
              ∙ beyond 2 m (p2.files 0) p2.files (omega arith)
              ∙ ap (λ (q : Process). q.files m) e2
              ∙ beyond 1 m (p1.files 0) p1.files (omega arith)
              ∙ ap (λ (q : Process). q.files m) e1
              ∙ beyond 0 m dev_null p.files (omega arith)
              ∙ clear m (omega arith) lt,
        ),
      )
    where
      beyond : (fd m : ℕ) (f : File) (files : ℕ → File) → fd < m → put fd f files m ≡ files m
      beyond fd m f files lt = ground arith

  checked-Outcome :
      (limit : ℕ) (p p1 p2 : Process) (fd0 fd1 : ℤ) (r : ℤ × World)
      → Apart k p
      → ((m : ℕ) → 0 ≤ m → m < limit → p.files m ≡ closed)
      → ((n : ℕ) → fd0 ≡ pos n → p1 ≡ record p { files = put n dev_null p.files })
      → ((n : ℕ) → fd1 ≡ pos n → p2 ≡ record p1 { files = put n (p1.files 0) p1.files })
      → ((n : ℕ) → r.0 ≡ pos n → state r.1 ≡ record p2 { files = put n (p2.files 0) p2.files })
      → Outcome limit (checked c fd0 fd1 r)
  unfolding checked is_fd
  checked-Outcome limit p p1 p2 (pos a) (pos b) (pos d, w) apart clear e1 e2 e3 =
      elim (Bool-cases ((a == 0) && ((b == 1) && (d == 2)))) [
        | inl good ↦
            let logged = openlog_law w in
            rw (good, checked)
              (subst (λ q. Apart k q × Silent limit q) (sym logged)
                (filled limit p p1 p2 (state w) apart clear (e1 0 (ap pos (ground arith)))
                  (e2 1 (ap pos (ground arith))) (e3 2 (ap pos (ground arith)))))
        | inr bad ↦ rw (bad, checked) tt
      ]
  checked-Outcome limit p p1 p2 (negsuc a) fd1 (fd2, w) apart clear e1 e2 e3 = tt
  checked-Outcome limit p p1 p2 (pos a) (negsuc b) (fd2, w) apart clear e1 e2 e3 =
      elim (Bool-cases (a == 0)) [
        | inl good ↦ rw (good, checked) tt
        | inr bad ↦ rw (bad, checked) tt
      ]
  checked-Outcome limit p p1 p2 (pos a) (pos b) (negsuc d, w) apart clear e1 e2 e3 =
      elim (Bool-cases ((a == 0) && ((b == 1) && false))) [
        | inl good ↦ ground arith
        | inr bad ↦ rw (bad, checked) tt
      ]

  first_dup-Outcome :
      (limit : ℕ) (w : World)
      → Apart k (state w)
      → ((m : ℕ) → 0 ≤ m → m < limit → (state w).files m ≡ closed)
      → Outcome limit (first_dup c (open_null w))
  unfolding first_dup second_dup
  first_dup-Outcome limit w apart clear =
      let (fd0, w0) = open_null w in
      let (fd1, w1) = dup 0 (open_null w).1 in
      checked-Outcome limit (state w) (state (open_null w).1) (state (dup 0 (open_null w).1).1)
        (open_null w).0 (dup 0 (open_null w).1).0 (dup 0 (dup 0 (open_null w).1).1) apart clear
        (λ n e. open_law n w (open_null w).1 (ap (λ fd. (fd, (open_null w).1)) e))
        (λ n e. dup_law 0 n (open_null w).1 _ (ap (λ fd. (fd, (dup 0 (open_null w).1).1)) e))
        (λ n e.
          dup_law 0 n (dup 0 (open_null w).1).1 _
            (ap (λ fd. (fd, (dup 0 (dup 0 (open_null w).1).1).1)) e))

  moved-Outcome :
      (limit : ℕ) (w : World) (r : Bool × World)
      → chdir_root w ≡ r
      → (state w).mask ≡ 0
      → (state w).session_leader ≡ false
      → (state w).ignores_hup ≡ true
      → Outcome limit (moved c limit r)
  unfolding moved
  moved-Outcome limit w (false, v) e mask leader hup = tt
  moved-Outcome limit w (true, v) e mask leader hup =
      let apart = subst (Apart k) (sym (chdir_law w v e)) (mask, leader, hup, refl) in
      first_dup-Outcome limit (close_all c limit 0 v) (close_all-Apart k limit 0 v apart)
        (λ m le lt. close_all-closed k limit 0 v m le (omega arith))

  second_fork-Outcome :
      (limit : ℕ) (w : World) (r : ℤ × World)
      → fork w ≡ r
      → (state w).mask ≡ 0
      → (state w).ignores_hup ≡ true
      → Outcome limit (second_fork c limit r)
  unfolding second_fork
  second_fork-Outcome limit w (negsuc n, v) e mask hup = tt
  second_fork-Outcome limit w (pos (suc n), v) e mask hup = tt
  second_fork-Outcome limit w (pos zero, v) e mask hup =
      let law = fork_law w v e in
      moved-Outcome limit v (chdir_root v) refl (ap (λ (p : Process). p.mask) law ∙ mask)
        (ap (λ (p : Process). p.session_leader) law) (ap (λ (p : Process). p.ignores_hup) law ∙ hup)

  hup_ignored-Outcome :
      (limit : ℕ) (w : World) (r : Bool × World)
      → ignore_hup w ≡ r
      → (state w).mask ≡ 0
      → Outcome limit (hup_ignored c limit r)
  unfolding hup_ignored
  hup_ignored-Outcome limit w (false, v) e mask = tt
  hup_ignored-Outcome limit w (true, v) e mask =
      let law = hup_law w v e in
      second_fork-Outcome limit v (fork v) refl (ap (λ (p : Process). p.mask) law ∙ mask)
        (ap (λ (p : Process). p.ignores_hup) law)

  first_fork-Outcome :
      (limit : ℕ) (w : World) (r : ℤ × World)
      → fork w ≡ r
      → (state w).mask ≡ 0
      → Outcome limit (first_fork c limit r)
  unfolding first_fork
  first_fork-Outcome limit w (negsuc n, v) e mask = tt
  first_fork-Outcome limit w (pos (suc n), v) e mask = tt
  first_fork-Outcome limit w (pos zero, v) e mask =
      hup_ignored-Outcome limit (setsid v) (ignore_hup (setsid v)) refl (
        ap (λ (p : Process). p.mask)
          (setsid_law v ∙ ap (λ (p : Process). record p { session_leader = true }) (fork_law w v e))
        ∙ mask)

  -- Where `daemonize` returns to its caller in the child of both forks, and no `fork` has failed: the file
  -- mask is 0, the process leads no session, ignores SIGHUP and is in the root directory; descriptors 0, 1
  -- and 2 are /dev/null; and every other descriptor below the limit is closed.
  pub daemonize-Outcome :
      (w : World) (max : Option ℕ)
      → (getrlimit (umask 0 w)).0 ≡ some max
      → Outcome (limit_of max) (daemonize c w)
  unfolding daemonize limited
  daemonize-Outcome w max e =
      let v = (getrlimit (umask 0 w)).1 in
      subst (λ o. Outcome (limit_of max) (limited c (o, v))) (sym e)
        (first_fork-Outcome (limit_of max) v (fork v) refl
          (ap (λ (p : Process). p.mask) (getrlimit_law (umask 0 w) ∙ umask_law 0 w)))
