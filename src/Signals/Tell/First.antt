-- ===== src/Signals/Tell/First.antt =====
-- The first wait of each process of Signals/Tell.antt, whatever their programs are.
use unix_advanced_programing.Prelude.{
  ℕ, zero, suc, ◌+◌, ◌<◌, ◌≡◌, ◌≢◌, refl, sym, subst, ◌∙◌, ◌⊎◌, inl, inr, Bool, true, false, ◌||◌,
  not, Bool-cases, some, List, [], ◌∷◌, if◌then◌else◌, ◌==◌, arith,
}
use unix_advanced_programing.Signals.Tell.{
  Action, tell_parent, wait_parent, tell_child, wait_child, Pc, ready, testing, calling, suspended,
  Process, tell_wait, arrived, kill, restored, wait_done, begun, turn_from, turn, signal_to, Step,
  parent_turn, child_turn, Reached, here, next,
}

-- Where a process that has not come back from a wait stands, against whether it has been told.
abbrev pub Waiting : Pc → Process → ℕ → Type 0
Waiting (calling wait) p told = (p.sigflag ≡ false) × (p.pending ≡ not (told == 0))
Waiting (suspended wait) p told = (p.sigflag ≡ false) × (p.pending ≡ false) × (told ≡ 0)
Waiting other p told = (p.sigflag || p.pending) ≡ not (told == 0)

-- `told` are the signals that the other process has sent.
abbrev pub Heard : Process → ℕ → Type 0
Heard p told =
    ((p.waited ≡ 0) × (p.blocked ≡ true) × Waiting p.at p told) ⊎ ((0 < p.waited) × (0 < told))

-- The process `p` as it stands at `q`.
abbrev standing : Pc → Process → Process
standing q p = record p { at = q }

kill_at :
    (q : Pc) (p : Process) (told : ℕ)
    → Heard (standing q p) told
    → Heard (arrived q (standing q p)) (suc told)
unfolding arrived
kill_at ready p told h = ground arith
kill_at (testing wait) p told h = ground arith
kill_at (calling wait) p told h = ground arith
kill_at (suspended wait) p told h = ground arith

kill-Heard : (p : Process) (told : ℕ) → Heard p told → Heard (kill p) (suc told)
unfolding kill
kill-Heard p told h = kill_at p.at p told h

begun-Heard :
    (todo : List Action) (p p' : Process) (sent : Bool) (told : ℕ)
    → begun todo (standing ready p) ≡ some (p', sent)
    → Heard (standing ready p) told
    → Heard p' told
unfolding begun
begun-Heard [] p p' sent told e h = cc
begun-Heard (tell_parent ∷ todo) p p' sent told e h = ground arith
begun-Heard (tell_child ∷ todo) p p' sent told e h = ground arith
begun-Heard (wait_parent ∷ todo) p p' sent told e h = ground arith
begun-Heard (wait_child ∷ todo) p p' sent told e h = ground arith

turn_at-Heard :
    (q : Pc) (p p' : Process) (sent : Bool) (told : ℕ)
    → turn_from q (standing q p) ≡ some (p', sent)
    → Heard (standing q p) told
    → Heard p' told
unfolding turn_from wait_done restored
turn_at-Heard ready p p' sent told e h = begun-Heard p.todo p p' sent told e h
turn_at-Heard (testing wait) p p' sent told e h = elim (Bool-cases p.sigflag) [
  | inl flag ↦ ground arith
  | inr none_yet ↦ ground arith
]
turn_at-Heard (calling wait) p p' sent told e h = ground arith
turn_at-Heard (suspended wait) p p' sent told e h = cc

turn-Heard :
    (p p' : Process) (sent : Bool) (told : ℕ)
    → turn p ≡ some (p', sent)
    → Heard p told
    → Heard p' told
unfolding turn
turn-Heard p p' sent told e h = turn_at-Heard p.at p p' sent told e h

-- A call of `kill` is counted.
abbrev ones : Bool → ℕ
ones sent = if sent then 1 else 0

begun-told :
    (todo : List Action) (p p' : Process) (sent : Bool)
    → begun todo p ≡ some (p', sent)
    → p'.told ≡ p.told + ones sent
unfolding begun
begun-told [] p p' sent e = cc
begun-told (tell_parent ∷ todo) p p' sent e = ground arith
begun-told (tell_child ∷ todo) p p' sent e = ground arith
begun-told (wait_parent ∷ todo) p p' sent e = ground arith
begun-told (wait_child ∷ todo) p p' sent e = ground arith

turn_from-told :
    (q : Pc) (p p' : Process) (sent : Bool)
    → turn_from q p ≡ some (p', sent)
    → p'.told ≡ p.told + ones sent
unfolding turn_from wait_done restored
turn_from-told ready p p' sent e = begun-told p.todo p p' sent e
turn_from-told (testing wait) p p' sent e = ground arith
turn_from-told (calling wait) p p' sent e = ground arith
turn_from-told (suspended wait) p p' sent e = cc

arrived-told : (q : Pc) (p : Process) → (arrived q p).told ≡ p.told
unfolding arrived
arrived-told ready p = ground arith
arrived-told (testing wait) p = ground arith
arrived-told (calling wait) p = ground arith
arrived-told (suspended wait) p = refl

-- The other process, behind a turn in which a signal may be sent.
signal_to-Heard :
    (sent : Bool) (p q q' : Process)
    → q'.told ≡ q.told + ones sent
    → Heard p q.told
    → Heard (signal_to sent p) q'.told
signal_to-Heard true p q q' e h =
    subst (Heard (kill p)) (sym (e ∙ omega arith)) (kill-Heard p q.told h)
signal_to-Heard false p q q' e h = subst (Heard p) (sym (e ∙ omega arith)) h

signal_to-told : (sent : Bool) (p : Process) → (signal_to sent p).told ≡ p.told
unfolding kill
signal_to-told true p = arrived-told p.at p
signal_to-told false p = refl

abbrev pub Hearing : Process × Process → Type 0
Hearing (p, c) = Heard p c.told × Heard c p.told

Step-Hearing : (s t : Process × Process) → Step s t → Hearing s → Hearing t
unfolding turn
Step-Hearing _ _ (parent_turn p c p' sent e) (hp, hc) = (
  subst (Heard p') (sym (signal_to-told sent c)) (turn-Heard p p' sent c.told e hp),
  signal_to-Heard sent c p p' (turn_from-told p.at p p' sent e) hc,
)
Step-Hearing _ _ (child_turn p c c' sent e) (hp, hc) = (
  signal_to-Heard sent p c c' (turn_from-told c.at c c' sent e) hp,
  subst (Heard c') (sym (signal_to-told sent p)) (turn-Heard c c' sent p.told e hc),
)

-- Both processes behind `TELL_WAIT`.
abbrev pub started : Bool → Bool → List Action → List Action → Process × Process
started old_p old_c for_parent for_child = (tell_wait old_p for_parent, tell_wait old_c for_child)

pub Reached-Hearing :
    (old_p old_c : Bool) (xs ys : List Action) (s : Process × Process)
    → Reached (started old_p old_c xs ys) s
    → Hearing s
unfolding tell_wait
Reached-Hearing old_p old_c xs ys _ here = (inl (refl, refl, refl), inl (refl, refl, refl))
Reached-Hearing old_p old_c xs ys _ (next t u r st) =
    Step-Hearing t u st (Reached-Hearing old_p old_c xs ys t r)

-- A process sleeps in `sigsuspend`.
abbrev pub Sleeps : Process → Type 0
Sleeps p = (wait : Action) × (p.at ≡ suspended wait)

awake_once_told :
    (q : Pc) (p : Process) (told : ℕ)
    → Heard (standing q p) told
    → p.waited ≡ 0
    → 0 < told
    → (wait : Action) → q ≢ suspended wait
awake_once_told ready p told h none_yet more wait e = cc
awake_once_told (testing w) p told h none_yet more wait e = cc
awake_once_told (calling w) p told h none_yet more wait e = cc
awake_once_told (suspended w) p told h none_yet more wait e = ground arith

-- Either no wait has come back, and the process does not sleep once it has been told; or one has, and the
-- process has been told.
abbrev pub FirstWait : Process → ℕ → Type 0
FirstWait p told = ((p.waited ≡ 0) × ((told ≡ 0) ⊎ (¬ Sleeps p))) ⊎ ((0 < p.waited) × (0 < told))

first_wait : (p : Process) (told : ℕ) → Heard p told → FirstWait p told
first_wait p zero (inl (none_yet, blocked, at)) = inl (none_yet, inl refl)
first_wait p (suc n) (inl (none_yet, blocked, at)) = inl (
  none_yet,
  inr (λ (wait, e).
      awake_once_told p.at p (suc n) (inl (none_yet, blocked, at)) none_yet (omega arith) wait e),
)
first_wait p told (inr back) = inr back

-- Whatever the programs of the two processes are and however their steps are interleaved: the first wait
-- of each comes back only when the other one has sent its signal; and once the signal is sent, the process
-- does not sleep in its first wait, so that the signal is not lost between the test and `sigsuspend`.
pub tell_wait-first :
    (old_p old_c : Bool) (xs ys : List Action) (p c : Process)
    → Reached (started old_p old_c xs ys) (p, c)
    → FirstWait p c.told × FirstWait c p.told
tell_wait-first old_p old_c xs ys p c r =
    let (hp, hc) = Reached-Hearing old_p old_c xs ys (p, c) r in
    (first_wait p c.told hp, first_wait c p.told hc)
