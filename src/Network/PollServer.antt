-- ===== src/Network/PollServer.antt =====
-- The server of UnixNetworkProgrammingVol1/ch4_tcp/echo_tcp_server_v2.c that waits by `poll`. The calls
-- are parameters, and the printed messages are left out.
pub mod Entries
pub mod Table
pub mod Descriptors
pub mod Countdown
pub mod Scripted
use unix_advanced_programing.Prelude.{
  ℕ, zero, suc, Bool, true, false, ◌&&◌, ◌||◌, Option, none, some, List, [], ◌∷◌, if◌then◌else◌,
  ltb, ◌==◌, replicate, take,
}
use unix_advanced_programing.Prelude.Int.{ℤ, pos, negsuc, is_neg, is_pos, pred_ℤ}
use unix_advanced_programing.Posix.{Errno, other, ReadResult, got, read_err}

-- The bits of `revents` that the program tests.
pub record Revents : Type 0 where
  pub rdnorm : Bool
  pub err : Bool

-- `struct pollfd`; `events` is POLLRDNORM or nothing.
pub record PollFd : Type 0 where
  pub fd : ℤ
  pub events : Bool
  pub revents : Revents

-- The calls; `poll` returns the number of ready entries and the `revents` of the array.
pub record Calls : Type (0 + 1) where
  pub World : Type 0
  pub poll : List PollFd → World → (ℤ × List Revents) × World
  pub accept : ℤ → World → ℤ × World
  pub read : ℤ → ℕ → World → ReadResult × World
  pub write : ℤ → List ℕ → World → World
  pub close : ℤ → World → World

-- `client[0]`, `client[1]` up to the end, and `maxindex`.
pub record Server : Type 0 where
  pub listener : PollFd
  pub clients : List PollFd
  pub maxindex : ℕ

abbrev pub open_max : ℕ
open_max = 1024

abbrev pub max_line : ℕ
max_line = 512

abbrev pub econnreset : ℕ
econnreset = 104

-- Before the loop; the fields that nothing has set hold `junk`.
unfoldable pub poll_init : ℤ → PollFd → Server
poll_init listenfd junk = record {
  listener = record junk { fd = listenfd; events = true };
  clients = replicate 1023 (record junk { fd = negsuc 0 });
  maxindex = 0;
}

-- What `poll` writes into the entries that it was given.
unfoldable pub set_revents : ℕ → List Revents → List PollFd → List PollFd
set_revents zero rs slots = slots
set_revents (suc n) [] slots = slots
set_revents (suc n) (r ∷ rs) [] = []
set_revents (suc n) (r ∷ rs) (s ∷ ss) = record s { revents = r } ∷ set_revents n rs ss

-- The loop that looks for a free entry from the index `i` on, and the entry filled; `none` is
-- `i == OPEN_MAX`, where the program ends.
unfoldable pub place : ℕ → ℤ → List PollFd → Option (ℕ × List PollFd)
place i connfd [] = none
place i connfd (s ∷ ss) =
    let rest = place (suc i) connfd ss in
    elim (is_neg s.fd) [
      | true ↦ some (i, record s { fd = connfd; events = true } ∷ ss)
      | false ↦ elim rest [ none ↦ none | some (j, ss') ↦ some (j, s ∷ ss') ]
    ]

-- `client[i].revents & (POLLRDNORM | POLLERR)`
unfoldable pub is_ready : PollFd → Bool
is_ready s = s.revents.rdnorm || s.revents.err

-- The most clients that the loop looks at: `i <= maxindex` from 1 on.
module _ (c : Calls) where
  open c use {World, poll, accept, read, write, close}

  -- What the result of `read` leads to.
  unfoldable pub served : PollFd → ReadResult × World → PollFd × World
  served s (got [], w) = (record s { fd = negsuc 0 }, close s.fd w)
  served s (got (b ∷ bs), w) = (s, write s.fd (b ∷ bs) w)
  served s (read_err (other e), w) =
      if e == econnreset then (record s { fd = negsuc 0 }, close s.fd w) else (s, w)
  served s (read_err e, w) = (s, w)

  unfoldable pub serve : PollFd → World → PollFd × World
  unfolding served
  serve s w = served s (read s.fd max_line w)

  -- The loop over the clients, `n` of them, with the ready ones still to come.
  unfoldable pub scan : ℕ → ℤ → List PollFd → World → List PollFd × World
  unfolding serve is_ready
  scan zero nready slots w = (slots, w)
  scan (suc n) nready [] w = ([], w)
  scan (suc n) nready (s ∷ ss) w = elim (is_neg s.fd) [
    | true ↦ let rest = scan n nready ss w in (s ∷ rest.0, rest.1)
    | false ↦ elim (is_ready s) [
      | false ↦ let rest = scan n nready ss w in (s ∷ rest.0, rest.1)
      | true ↦
          let here = serve s w in
          let rest = scan n (pred_ℤ nready) ss here.1 in
          elim (is_pos (pred_ℤ nready)) [
            | false ↦ (here.0 ∷ ss, here.1)
            | true ↦ (here.0 ∷ rest.0, rest.1)
          ]
    ]
  ]

  -- The clients behind a round, with the world; `none` is the end of the program.
  unfoldable pub scan_clients : ℤ → Server → World → Option (Server × World)
  unfolding scan
  scan_clients nready s w =
      let (slots, w') = scan s.maxindex nready s.clients w in
      some (record s { clients = slots }, w')

  unfoldable pub accepted : ℤ → Server → ℤ × World → Option (Server × World)
  unfolding place scan_clients
  accepted nready s (connfd, w) = elim (place 1 connfd s.clients) [
    | none ↦ none
    | some (i, slots) ↦
        let s' = record s {
          clients = slots;
          maxindex = if ltb s.maxindex i then i else s.maxindex;
        } in
        if is_pos (pred_ℤ nready) then scan_clients (pred_ℤ nready) s' w else some (s', w)
  ]

  -- Behind `poll`.
  unfoldable pub polled : Server → (ℤ × List Revents) × World → Option (Server × World)
  unfolding accepted set_revents
  polled s ((nready, []), w) = scan_clients nready s w
  polled s ((nready, r ∷ rs), w) =
      let s' = record s {
        listener = record s.listener { revents = r };
        clients = set_revents s.maxindex rs s.clients;
      } in
      if r.rdnorm then accepted nready s' (accept s.listener.fd w) else scan_clients nready s' w

  -- One round of `for ( ; ; )`.
  unfoldable pub poll_round : Server → World → Option (Server × World)
  unfolding polled
  poll_round s w = polled s (poll (s.listener ∷ take s.maxindex s.clients) w)

  -- `n` rounds.
  unfoldable pub poll_rounds : ℕ → Server → World → Option (Server × World)
  unfolding poll_round
  poll_rounds zero s w = some (s, w)
  poll_rounds (suc n) s w = elim (poll_round s w) [
    | none ↦ none
    | some (s', w') ↦ poll_rounds n s' w'
  ]
