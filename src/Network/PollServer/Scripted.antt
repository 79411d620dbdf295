-- ===== src/Network/PollServer/Scripted.antt =====
-- Calls whose answers are listed beforehand.
use mathlib.Core.List.{Mem, Perm, erase, perm_cons_erase}
use mathlib.Core.List.Perm
use native.Mathlib.Decide.{ℕ_discrete}
use unix_advanced_programing.Prelude.{ℕ, ◌≡◌, refl, true, false, List, [], ◌∷◌, arith}
use unix_advanced_programing.Prelude.Int.{ℤ, pos, negsuc, is_neg}
use unix_advanced_programing.Posix.{ReadResult, got}
use unix_advanced_programing.Network.PollServer.{Revents, Calls}
use unix_advanced_programing.Network.PollServer.Descriptors.{IsKernel}

ℤ-discrete : Discrete ℤ
ℤ-discrete = hlevel ℕ_discrete

-- The open connections, the connections that wait, and the answers of `poll` and `read`.
pub record Script : Type 0 where
  pub connected : List ℤ
  pub waiting : List ℕ
  pub polls : List (List Revents)
  pub reads : List ReadResult

abbrev pub next_poll : List (List Revents) → Script → (ℤ × List Revents) × Script
next_poll [] w = ((pos 0, []), w)
next_poll (r ∷ rs) w = ((pos 2, r), record w { polls = rs })

abbrev pub next_accept : List ℕ → Script → ℤ × Script
next_accept [] w = (negsuc 0, w)
next_accept (n ∷ ns) w = (pos n, record w { connected = pos n ∷ w.connected; waiting = ns })

abbrev pub next_read : List ReadResult → Script → ReadResult × Script
next_read [] w = (got [], w)
next_read (r ∷ rs) w = (r, record w { reads = rs })

pub close_connection : ℤ → Script → Script
close_connection fd w = record w { connected = erase ℤ-discrete w.connected fd }

abbrev pub scripted : Calls
scripted = record {
  World = Script;
  poll = λ l w. next_poll w.polls w;
  accept = λ fd w. next_accept w.waiting w;
  read = λ fd n w. next_read w.reads w;
  write = λ fd bs w. w;
  close = close_connection;
}

polls_law : (rs : List (List Revents)) (w : Script) → (next_poll rs w).1.connected ≡ w.connected
polls_law [] w = refl
polls_law (r ∷ rs) w = refl

reads_law : (rs : List ReadResult) (w : Script) → (next_read rs w).1.connected ≡ w.connected
reads_law [] w = refl
reads_law (r ∷ rs) w = refl

accepts_law :
    (ns : List ℕ) (n : ℤ) (w w' : Script)
    → next_accept ns w ≡ (n, w')
    → is_neg n ≡ false
    → Perm w'.connected (n ∷ w.connected)
accepts_law [] n w w' e h = absurd (ground arith)
accepts_law (m ∷ ms) n w w' e h =
    let is : w'.connected ≡ n ∷ w.connected = ground arith in rw is Perm.rfl

refuses_law :
    (ns : List ℕ) (n : ℤ) (w w' : Script)
    → next_accept ns w ≡ (n, w')
    → is_neg n ≡ true
    → w'.connected ≡ w.connected
refuses_law [] n w w' e h = ground arith
refuses_law (m ∷ ms) n w w' e h = absurd (ground arith)

pub poll_keeps : (w : Script) → (next_poll w.polls w).1.connected ≡ w.connected
poll_keeps w = polls_law w.polls w

pub read_keeps : (w : Script) → (next_read w.reads w).1.connected ≡ w.connected
read_keeps w = reads_law w.reads w

pub accept_adds :
    (n : ℤ) (w w' : Script)
    → next_accept w.waiting w ≡ (n, w')
    → is_neg n ≡ false
    → Perm w'.connected (n ∷ w.connected)
accept_adds n w w' e h = accepts_law w.waiting n w w' e h

pub accept_refuses :
    (n : ℤ) (w w' : Script)
    → next_accept w.waiting w ≡ (n, w')
    → is_neg n ≡ true
    → w'.connected ≡ w.connected
accept_refuses n w w' e h = refuses_law w.waiting n w w' e h

pub close_removes :
    (fd : ℤ) (w : Script)
    → Mem fd w.connected
    → Perm w.connected (fd ∷ (close_connection fd w).connected)
unfolding close_connection
close_removes fd w m = perm_cons_erase ℤ-discrete m

abbrev pub scripted_IsKernel : IsKernel scripted
scripted_IsKernel = record {
  opened = λ w. w.connected;
  poll_law = λ l w. poll_keeps w;
  accept_law = λ fd n w w' e h. accept_adds n w w' e h;
  refused_law = λ fd n w w' e h. accept_refuses n w w' e h;
  read_law = λ fd n w. read_keeps w;
  write_law = λ fd bs w. refl;
  close_law = close_removes;
}
