-- ===== src/Threads/Timeout/Wait.antt =====
-- How long `timeout` waits.
use unix_advanced_programing.Prelude.{
  ℕ, suc, ◌+◌, ◌-◌, ◌*◌, ◌≤◌, ◌<◌, Bool, true, false, ltb, leb, ◌==◌, ◌≡◌, refl, arith, leb→le,
  lt→ltb,
}
use unix_advanced_programing.Prelude.Int.{ℤ, pos, negsuc}
use unix_advanced_programing.Threads.Timeout.{
  Timespec, sectonsec, sleeps, runs, lost, aborts, is_ahead, to_wait, timeout,
}

abbrev pub nanoseconds : Timespec → ℕ
nanoseconds t = t.tv_sec * sectonsec + t.tv_nsec

abbrev pub IsTime : Timespec → Type 0
IsTime t = t.tv_nsec < sectonsec

-- A sleep that ends at `when`, in a normal form.
abbrev pub EndsAt : (when now : Timespec) → ℤ × ℕ → Type 0
EndsAt when now (pos s, ns) =
    (nanoseconds now + (s * sectonsec + ns) ≡ nanoseconds when) × (ns < sectonsec)
EndsAt when now (negsuc s, ns) = ⊥

wait-EndsAt :
    (when now : Timespec) (b : Bool)
    → leb now.tv_nsec when.tv_nsec ≡ b
    → IsTime when
    → IsTime now
    → now.tv_sec < when.tv_sec
    → EndsAt when now (to_wait when now)
unfolding to_wait
wait-EndsAt when now true e hw hn lt =
    rw e (omega (arith, hw, lt, leb→le now.tv_nsec when.tv_nsec e), omega (arith, hw))
wait-EndsAt when now false e hw hn lt =
    let k : when.tv_sec - now.tv_sec ≡ suc (when.tv_sec - now.tv_sec - 1) = omega (arith, lt) in
    let less : when.tv_nsec < now.tv_nsec = ground arith in
    rw (e, k) (omega (arith, lt, less, hw, hn), omega (arith, lt, less, hw, hn))

-- For normalised times of which `when` lies in a later second, `timeout` with memory and a thread sleeps
-- exactly the nanoseconds from `now` to `when`, in normal form; without memory it ends the process, and
-- without a thread the function is never run.
pub timeout_later :
    (when now : Timespec) (err : ℕ)
    → IsTime when
    → IsTime now
    → now.tv_sec < when.tv_sec
    → ((timeout true 0 when now ≡ sleeps (to_wait when now).0 (to_wait when now).1)
        × EndsAt when now (to_wait when now))
      × (timeout true (suc err) when now ≡ lost)
      × (timeout false err when now ≡ aborts)
unfolding timeout is_ahead
timeout_later when now err hw hn lt =
    let ahead = lt→ltb now.tv_sec when.tv_sec lt in
    let e : (suc err == 0) ≡ false = ground arith in
    (
      (rw ahead refl, wait-EndsAt when now (leb now.tv_nsec when.tv_nsec) refl hw hn lt),
      rw (ahead, e) refl,
      rw ahead refl,
    )

-- In the second of `now` the function runs at once, however far `when` is ahead, if the seconds of the
-- clock are at least 10 ^ 9: the nanoseconds are compared with the seconds.
pub timeout_same_second :
    (when now : Timespec) (allocated : Bool) (err : ℕ)
    → IsTime when
    → when.tv_sec ≡ now.tv_sec
    → sectonsec ≤ now.tv_sec
    → timeout allocated err when now ≡ runs
unfolding timeout is_ahead
timeout_same_second when now allocated err hw same big =
    let before : ltb now.tv_sec when.tv_sec ≡ false = ground arith in
    let less : ltb now.tv_sec when.tv_nsec ≡ false = ground arith in
    let eq : (when.tv_sec == now.tv_sec) ≡ true = ground arith in rw (before, less, eq) refl
