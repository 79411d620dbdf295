-- ===== src/Signals/Examples/Commands.antt =====
-- The theorems on `system_m1` and `abort1` on a concrete process.
use unix_advanced_programing.Prelude.{
  ℕ, zero, suc, ◌≡◌, ◌≢◌, ◌<◌, refl, sym, ap, ◌∙◌, subst, inl, inr, Bool-cases, Bool, true, false,
  ◌||◌, some, if◌then◌else◌, ◌==◌, ==_iff, arith,
}
use unix_advanced_programing.Prelude.Int.{pos}
use unix_advanced_programing.Signals.Actions.{
  Sig, sigint, sigquit, sigchld, sigabrt, another, Act, sig_dfl, sig_ign, handler, Mask,
  SignalCalls, IsSignals, SameSignals,
}
use unix_advanced_programing.Signals.System.{WaitResult, status, interrupted, system_m1}
use unix_advanced_programing.Signals.System as System
use unix_advanced_programing.Signals.System.Restores.{IsShell, Restored, system_m1-Restored}
use unix_advanced_programing.Signals.Abort.{Raised, terminated, back, abort1}
use unix_advanced_programing.Signals.Abort as Abort
use unix_advanced_programing.Signals.Abort.Terminated.{IsProcess, Aborted, abort1-Aborted}

abbrev number : Sig → ℕ
number sigint = 0
number sigquit = 1
number sigchld = 2
number sigabrt = 3
number (another n) = suc (suc (suc (suc n)))

abbrev numbered : ℕ → Sig
numbered zero = sigint
numbered (suc zero) = sigquit
numbered (suc (suc zero)) = sigchld
numbered (suc (suc (suc zero))) = sigabrt
numbered (suc (suc (suc (suc n)))) = another n

numbered-number : (s : Sig) → numbered (number s) ≡ s
numbered-number sigint = refl
numbered-number sigquit = refl
numbered-number sigchld = refl
numbered-number sigabrt = refl
numbered-number (another n) = refl

abbrev same_sig : Sig → Sig → Bool
same_sig s t = number s == number t

same_sig_refl : (s : Sig) → same_sig s s ≡ true
same_sig_refl s = (==_iff (number s) (number s)).1 refl

same_sig_ne : (t s : Sig) → t ≢ s → same_sig t s ≡ false
same_sig_ne t s ne = elim (Bool-cases (same_sig t s)) [
  | inl same ↦ absurd (
      ne (
        sym (numbered-number t)
        ∙ ap numbered ((==_iff (number t) (number s)).0 same)
        ∙ numbered-number s))
  | inr other ↦ other
]

-- The actions and the mask, the signals that will interrupt a wait, and whether the streams are flushed.
record Machine : Type 0 where
  acts : Sig → Act
  blocked : Mask
  signals_left : ℕ
  clean : Bool

abbrev machine_signals : SignalCalls Machine
machine_signals = record {
  sigaction =
      λ s a w. (some (w.acts s), record w { acts = λ t. if same_sig t s then a else w.acts t });
  current = λ s w. w.acts s;
  block_mask = λ m w. (some w.blocked, record w { blocked = λ t. w.blocked t || m t });
  set_mask = λ m w. record w { blocked = m };
}

machine_IsSignals : IsSignals machine_signals
machine_IsSignals = record {
  action = λ w. w.acts;
  mask = λ w. w.blocked;
  sigaction_law = λ s a w. (
    refl,
    ap (λ b. if b then a else w.acts s) (same_sig_refl s),
    (λ t ne. ap (λ b. if b then a else w.acts t) (same_sig_ne t s ne)),
    refl,
  );
  current_law = λ s w. refl;
  block_law = λ m w. (refl, (λ t. refl), refl);
  set_law = λ m w. ((λ t. refl), refl);
}

abbrev wait_on : ℕ → Machine → WaitResult × Machine
wait_on zero w = (status (pos 3), w)
wait_on (suc n) w = (interrupted, record w { signals_left = n })

abbrev shell : System.Calls
shell = record {
  World = Machine;
  signals = machine_signals;
  fork = λ w. (pos 40, w);
  waitpid = λ pid w. wait_on w.signals_left w;
}

-- What holds behind a wait.
abbrev Behind : Machine → WaitResult × Machine → Type 0
Behind w (r, v) =
    SameSignals machine_IsSignals w v × (r ≡ interrupted → v.signals_left < w.signals_left)

wait_on-Behind : (n : ℕ) (w : Machine) → w.signals_left ≡ n → Behind w (wait_on n w)
unfolding machine_IsSignals
wait_on-Behind zero w is = (((λ t. refl), refl), (λ e. cc))
wait_on-Behind (suc n) w is = (((λ t. refl), refl), (λ e. omega (arith, is)))

shell_IsShell : IsShell shell
unfolding machine_IsSignals
shell_IsShell = record {
  known = machine_IsSignals;
  patience = λ w. w.signals_left;
  fork_law = λ w. (((λ t. refl), refl), omega arith);
  wait_law = λ pid w w' r e. subst (Behind w) e (wait_on-Behind w.signals_left w refl);
  action_patience = λ s a w. omega arith;
  block_patience = λ m w. omega arith;
}

-- SIGINT has a handler and SIGABRT is ignored; two signals will interrupt the wait.
abbrev machine : Machine
machine = record {
  acts =
      λ s. if same_sig s sigint then handler 1 else if same_sig s sigabrt then sig_ign else sig_dfl;
  blocked = λ s. false;
  signals_left = 2;
  clean = false;
}

system_m1_example : Restored shell_IsShell machine (system_m1 shell 3 true machine)
unfolding shell_IsShell
system_m1_example = system_m1-Restored shell_IsShell 3 true machine (omega arith)

-- The handlers of this process return.
abbrev raise_by : Act → Bool → Machine → Raised Machine
raise_by sig_dfl false w = terminated w
raise_by other masked w = back w

abbrev process : Abort.Calls
process = record {
  World = Machine;
  signals = machine_signals;
  raise = λ w. raise_by (w.acts sigabrt) (w.blocked sigabrt) w;
  fflush = λ w. record w { clean = true };
}

raise_by-terminated :
    (a : Act) (b : Bool) (w v : Machine)
    → raise_by a b w ≡ terminated v
    → (a ≡ sig_dfl) × (v.clean ≡ w.clean)
raise_by-terminated sig_dfl false w v e =
    (refl, ap (λ (u : Machine). u.clean) (sym (terminated_inj w v e)))
  where
    terminated_inj : (x y : Machine) → terminated x ≡ terminated y → x ≡ y
    terminated_inj x y h = cc
raise_by-terminated sig_dfl true w v e = cc
raise_by-terminated sig_ign b w v e = cc
raise_by-terminated (handler id) b w v e = cc

process_IsProcess : IsProcess process
unfolding machine_IsSignals
process_IsProcess = record {
  known = machine_IsSignals;
  flushed = λ w. w.clean;
  default_law = λ w a b. (w, rw (a, b) refl);
  ended_law = λ w v e. raise_by-terminated (w.acts sigabrt) (w.blocked sigabrt) w v e;
  flush_law = λ w. (refl, ((λ t. refl), refl));
  action_law = λ s a w. refl;
  mask_law = λ m w. refl;
}

abort1_example : Aborted process_IsProcess (abort1 process machine)
abort1_example = abort1-Aborted process_IsProcess machine
