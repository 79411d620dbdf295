-- ===== src/Network/Echo.antt =====
-- `str_echo` and `bin_sum` of UnixNetworkProgrammingVol1/ch4_tcp/echo_tcp_server_v1.c. The two
-- directions of a connection are a reader and a writer; the messages are left out.
pub mod Session
pub mod Sums
use unix_advanced_programing.Prelude.{
  ℕ, zero, suc, ◌+◌, ◌*◌, ◌%◌, ◌^◌, ◌/◌, Bool, true, false, Option, none, some, List, [], ◌∷◌, ◌++◌,
  length, take, drop,
}
use unix_advanced_programing.Posix.{
  Errno, eintr, ReadResult, got, read_err, Reader, Writer, Ssize, bytes, minus_one, Ret,
}
use unix_advanced_programing.Unp.Readn.{readn}
use unix_advanced_programing.Unp.Writen.{writen}

abbrev pub max_line : ℕ
max_line = 512

-- How `str_echo` ends: the client has closed the connection, or a read has failed.
pub data End : Type 0 where
  closed : End
  read_error : Errno → End

-- A `long` of `struct args`, least byte first.
unfoldable pub long_of : List ℕ → ℕ
long_of [] = 0
long_of (b ∷ bs) = b + 256 * long_of bs

-- `n` bytes of a number, least byte first.
unfoldable pub bytes_of : ℕ → ℕ → List ℕ
bytes_of zero x = []
bytes_of (suc n) x = (x % 256) ∷ bytes_of n (x / 256)

-- The answer to 16 bytes: the sum of two `long`s, which wraps at 2^64.
unfoldable pub sum_reply : List ℕ → List ℕ
sum_reply buf = bytes_of 8 ((long_of (take 8 buf) + long_of (take 8 (drop 8 buf))) % 2 ^ 64)

module _ (r : Reader) (s : Writer) (wfuel fd : ℕ) where
  -- One round behind `read`; what `Writen` returns is not looked at.
  unfoldable pub echo_round :
      (r.World → s.World → Option (End × r.World × s.World))
      → ReadResult × r.World
      → s.World
      → Option (End × r.World × s.World)
  echo_round next (got [], w) u = some (closed, w, u)
  echo_round next (got (b ∷ bs), w) u = elim (writen s fd wfuel (b ∷ bs) u) [
    | none ↦ none
    | some (ret, u') ↦ next w u'
  ]
  echo_round next (read_err eintr, w) u = next w u
  echo_round next (read_err e, w) u = some (read_error e, w, u)

  -- The loop, and the jump back to `again`, with fuel.
  unfoldable pub str_echo : ℕ → r.World → s.World → Option (End × r.World × s.World)
  unfolding echo_round
  str_echo zero w u = none
  str_echo (suc n) w u = echo_round (str_echo n) (r.read fd max_line w) u

  -- A round of `bin_sum` behind `Readn`: only the return value 0 ends the loop, and `old` is what the
  -- bytes of `arg` were before that `Readn` has not overwritten.
  unfoldable pub sum_round :
      (List ℕ → r.World → s.World → Option (r.World × s.World))
      → List ℕ
      → Option (Ret r.World)
      → s.World
      → Option (r.World × s.World)
  unfolding sum_reply
  sum_round next old none u = none
  sum_round next old (some o) u =
      let arg = o.buf ++ drop (length o.buf) old in
      let again : Option (r.World × s.World) = elim (writen s fd wfuel (sum_reply arg) u) [
        | none ↦ none
        | some (ret, u') ↦ next arg o.world u'
      ] in
      elim o.ret [ bytes zero ↦ some (o.world, u) | _ ↦ again ]

  unfoldable pub bin_sum : ℕ → ℕ → List ℕ → r.World → s.World → Option (r.World × s.World)
  unfolding sum_round
  bin_sum zero rfuel arg w u = none
  bin_sum (suc n) rfuel arg w u = sum_round (bin_sum n rfuel) arg (readn r fd 16 rfuel w) u
