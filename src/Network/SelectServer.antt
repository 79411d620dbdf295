-- ===== src/Network/SelectServer.antt =====
-- The server of UnixNetworkProgrammingVol1/ch4_tcp/echo_tcp_server_v2.c that waits by `select`. The calls
-- are parameters, and the printed messages are left out.
pub mod Entries
pub mod Watched
use unix_advanced_programing.Prelude.{
  ℕ, zero, suc, Bool, true, false, Option, none, some, List, [], ◌∷◌, get_elem?, set, replicate,
  ltb, ◌==◌, if◌then◌else◌,
}
use unix_advanced_programing.Prelude.Int.{ℤ, pos, negsuc, is_pos, pred_ℤ}
use unix_advanced_programing.Posix.{ReadResult, got, read_err}

-- FD_SETSIZE
abbrev pub fd_setsize : ℕ
fd_setsize = 1024

-- `fd_set`, with FD_SET and FD_CLR.
abbrev pub FdSet : Type 0
FdSet = ℕ → Bool

unfoldable pub fd_put : Bool → ℕ → FdSet → FdSet
fd_put b fd s n = if n == fd then b else s n

-- `select` gives the number of the ready descriptors, and the set of them.
pub record Calls : Type (0 + 1) where
  pub World : Type 0
  pub select : ℕ → FdSet → World → (ℤ × FdSet) × World
  pub accept : ℕ → World → ℤ × World
  pub read : ℕ → World → ReadResult × World
  pub close : ℕ → World → World
  pub writen : ℕ → List ℕ → World → World

-- The variables of `main`; `scanned` is `maxi + 1`.
pub record Server : Type 0 where
  pub client : List ℤ
  pub allset : FdSet
  pub maxfd : ℕ
  pub scanned : ℕ

unfoldable pub select_init : ℕ → Server
unfolding fd_put
select_init listenfd = record {
  client = replicate fd_setsize (negsuc 0);
  allset = fd_put true listenfd (λ n. false);
  maxfd = listenfd;
  scanned = 0;
}

-- The first entry that is -1.
unfoldable pub first_free : List ℤ → Option ℕ
first_free [] = none
first_free (negsuc n ∷ client) = some 0
first_free (pos fd ∷ client) = elim (first_free client) [ none ↦ none | some i ↦ some (suc i) ]

unfoldable pub added : ℕ → ℕ → Server → Server
unfolding fd_put
added connfd i s = record {
  client = set s.client i (pos connfd);
  allset = fd_put true connfd s.allset;
  maxfd = if ltb s.maxfd connfd then connfd else s.maxfd;
  scanned = if ltb i s.scanned then s.scanned else suc i;
}

unfoldable pub dropped : ℕ → ℕ → Server → Server
unfolding fd_put
dropped fd i s = record s { client = set s.client i (negsuc 0); allset = fd_put false fd s.allset }

module _ (c : Calls) where
  open c use {World, select, accept, read, close, writen}

  -- What the result of `Read` leads to; `none` where `Writen` is given the count -1.
  unfoldable pub served : ℕ → ℕ → Server → ReadResult × World → Option (Server × World)
  unfolding dropped
  served fd i s (got [], w) = some (dropped fd i s, close fd w)
  served fd i s (got (b ∷ bs), w) = some (s, writen fd (b ∷ bs) w)
  served fd i s (read_err e, w) = none

  -- `--nready`, and the rest of the loop where it is still positive.
  unfoldable pub counted :
      (ℤ → Server → World → Option (Server × World))
      → ℤ
      → Option (Server × World)
      → Option (Server × World)
  counted next nready none = none
  counted next nready (some (s, w)) = elim (is_pos (pred_ℤ nready)) [
    | true ↦ next (pred_ℤ nready) s w
    | false ↦ some (s, w)
  ]

  -- One entry.
  unfoldable pub visited :
      (ℤ → Server → World → Option (Server × World))
      → FdSet
      → ℕ
      → Option ℤ
      → ℤ
      → Server
      → World
      → Option (Server × World)
  unfolding counted served
  visited next rset i (some (pos fd)) nready s w = elim (rset fd) [
    | true ↦ counted next nready (served fd i s (read fd w))
    | false ↦ next nready s w
  ]
  visited next rset i other nready s w = next nready s w

  -- The loop over the entries from `i` on, of which `n` are left.
  unfoldable pub scan : ℕ → FdSet → ℕ → ℤ → Server → World → Option (Server × World)
  unfolding visited
  scan zero rset i nready s w = some (s, w)
  scan (suc n) rset i nready s w =
      visited (scan n rset (suc i)) rset i (get_elem? s.client i) nready s w

  -- The new connection; `none` where the server ends for too many clients, or the number from `Accept`
  -- is negative, which is outside of every `fd_set`.
  unfoldable pub placed : FdSet → ℤ → ℕ → Option ℕ → Server → World → Option (Server × World)
  unfolding added scan
  placed rset nready connfd none s w = none
  placed rset nready connfd (some i) s w =
      let t = added connfd i s in
      elim (is_pos (pred_ℤ nready)) [
        | true ↦ scan t.scanned rset 0 (pred_ℤ nready) t w
        | false ↦ some (t, w)
      ]

  unfoldable pub accepted : FdSet → ℤ → Server → ℤ × World → Option (Server × World)
  unfolding placed
  accepted rset nready s (pos connfd, w) = placed rset nready connfd (first_free s.client) s w
  accepted rset nready s (negsuc n, w) = none

  unfoldable pub selected : ℕ → Server → (ℤ × FdSet) × World → Option (Server × World)
  unfolding accepted scan
  selected listenfd s ((nready, rset), w) = elim (rset listenfd) [
    | true ↦ accepted rset nready s (accept listenfd w)
    | false ↦ scan s.scanned rset 0 nready s w
  ]

  unfoldable pub select_rounds : ℕ → ℕ → Server → World → Option (Server × World)
  unfolding selected
  select_rounds zero listenfd s w = some (s, w)
  select_rounds (suc n) listenfd s w =
      elim (selected listenfd s (select (suc s.maxfd) s.allset w)) [
        | none ↦ none
        | some (t, v) ↦ select_rounds n listenfd t v
      ]
