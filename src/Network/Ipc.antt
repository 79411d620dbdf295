-- ===== src/Network/Ipc.antt =====
-- UnixAdvancedProgramming/ch13_io/network_ipc.c: the set-up of a server, the repeated attempts of a
-- client, and the texts for the fields of an address. Messages besides these texts are left out.
pub mod Server
pub mod Retry
use Prim.Native.String.{String}
use unix_advanced_programing.Prelude.{
  ℕ, zero, suc, ◌^◌, Bool, true, false, not, ◌||◌, Option, none, some, List, [], ◌∷◌, ◌++◌, leb,
  ltb, ◌==◌, if◌then◌else◌,
}
use unix_advanced_programing.Prelude.Int.{ℤ, pos, negsuc}
use unix_advanced_programing.Prelude.Bits.{bit}
use unix_advanced_programing.Apue.UnixSocket.Calls.{FilePath, Kernel}

-- The values of <sys/socket.h> and <netdb.h> on Linux.
abbrev pub sock_stream : ℕ
sock_stream = 1

abbrev pub sock_seqpacket : ℕ
sock_seqpacket = 5

abbrev pub max_sleep : ℕ
max_sleep = 128

unfoldable pub print_family : ℕ → String
print_family family =
    if family == 2
    then "inet"
    else if family == 10
    then "inet6"
    else if family == 1
    then "unix"
    else if family == 0
    then "unspecified"
    else "unknown"

unfoldable pub print_type : ℕ → String
print_type socktype =
    if socktype == 1
    then "stream"
    else if socktype == 2
    then "datagram"
    else if socktype == 5
    then "seqpacket"
    else if socktype == 3
    then "raw"
    else "unknown %d"

-- The `switch` is on the type of the socket, `aip->ai_socktype`; the protocol is only printed.
unfoldable pub print_protocol : ℕ → ℕ → String × Option ℕ
print_protocol socktype protocol =
    if socktype == 0
    then ("default", none)
    else if socktype == 6
    then ("TCP", none)
    else if socktype == 17
    then ("UDP", none)
    else if socktype == 255
    then ("raw", none)
    else ("unknown %d", some protocol)

-- AI_PASSIVE, AI_CANONNAME, AI_NUMERICHOST, AI_NUMERICSERV, AI_V4MAPPED and AI_ALL are the bits 0, 1, 2,
-- 10, 3 and 4.
unfoldable pub print_flags : ℕ → List String
print_flags flags =
    if flags == 0
    then "0" ∷ []
    else (if bit 0 flags == 1 then " passive " ∷ [] else [])
      ++ (if bit 1 flags == 1 then "canon " ∷ [] else [])
      ++ (if bit 2 flags == 1 then " numhost " ∷ [] else [])
      ++ (if bit 10 flags == 1 then " numserv " ∷ [] else [])
      ++ (if bit 3 flags == 1 then " v4mapped " ∷ [] else [])
      ++ (if bit 4 flags == 1 then " all " ∷ [] else [])

module _ (k : Kernel) where
  open k use {World, socket, bind, listen, connect, close, errno, set_errno}

  -- `errout`
  unfoldable pub give_up : ℕ → World → ℤ × World
  give_up fd w = (negsuc 0, set_errno (errno w) (close fd w))

  unfoldable pub listened : ℕ → ℤ × World → ℤ × World
  unfolding give_up
  listened fd (pos n, w) = (pos fd, w)
  listened fd (negsuc n, w) = give_up fd w

  unfoldable pub bound : ℕ → ℕ → ℕ → ℤ × World → ℤ × World
  unfolding give_up listened
  bound kind qlen fd (pos n, w) =
      if kind == sock_stream || kind == sock_seqpacket
      then listened fd (listen fd qlen w)
      else (pos fd, w)
  bound kind qlen fd (negsuc n, w) = give_up fd w

  unfoldable pub made : ℕ → FilePath → ℕ → ℤ × World → ℤ × World
  unfolding bound
  made kind addr qlen (pos fd, w) = bound kind qlen fd (bind fd addr w)
  made kind addr qlen (negsuc n, w) = (negsuc 0, w)

  unfoldable pub init_server : ℕ → FilePath → ℕ → World → ℤ × World
  unfolding made
  init_server kind addr qlen w = made kind addr qlen (socket w)

  -- `init_server_v2` sets SO_REUSEADDR first.
  module _ (setsockopt : ℕ → World → ℤ × World) where
    unfoldable pub reused : ℕ → FilePath → ℕ → ℕ → ℤ × World → ℤ × World
    unfolding give_up bound
    reused kind addr qlen fd (pos n, w) = bound kind qlen fd (bind fd addr w)
    reused kind addr qlen fd (negsuc n, w) = give_up fd w

    unfoldable pub made_v2 : ℕ → FilePath → ℕ → ℤ × World → ℤ × World
    unfolding reused
    made_v2 kind addr qlen (pos fd, w) = reused kind addr qlen fd (setsockopt fd w)
    made_v2 kind addr qlen (negsuc n, w) = (negsuc 0, w)

    unfoldable pub init_server_v2 : ℕ → FilePath → ℕ → World → ℤ × World
    unfolding made_v2
    init_server_v2 kind addr qlen w = made_v2 kind addr qlen (socket w)

  -- `sleep`, which is skipped behind the longest pause.
  module _ (sleep : ℕ → World → World) where
    unfoldable pub pause : ℕ → World → World
    pause numsec w = if leb numsec 64 then sleep numsec w else w

    -- `for (numsec = 1; numsec <= MAXSLEEP; numsec << 1)`: the third expression changes nothing. With
    -- fuel; `none` means that the fuel ran out.
    unfoldable pub retry_loop : ℕ → ℕ → ℕ → FilePath → World → Option (ℤ × World)
    unfolding pause
    retry_loop zero numsec fd addr w = none
    retry_loop (suc n) numsec fd addr w = elim (leb numsec max_sleep) [
      | false ↦ some (negsuc 0, w)
      | true ↦
          let (r, w') = connect fd addr w in
          elim r [
            | pos m ↦ some (pos 0, w')
            | negsuc m ↦ retry_loop n numsec fd addr (pause numsec w')
          ]
    ]

    unfoldable pub connect_retry : ℕ → ℕ → FilePath → World → Option (ℤ × World)
    unfolding retry_loop
    connect_retry fuel fd addr w = retry_loop fuel 1 fd addr w

    -- Behind `connect`: the socket, or its end and the next attempt.
    unfoldable pub tried : (World → Option (ℤ × World)) → ℕ → ℕ → ℤ × World → Option (ℤ × World)
    unfolding pause
    tried next numsec fd (pos m, w) = some (pos fd, w)
    tried next numsec fd (negsuc m, w) = next (pause numsec (close fd w))

    unfoldable pub opened_socket :
        (World → Option (ℤ × World)) → ℕ → FilePath → ℤ × World → Option (ℤ × World)
    unfolding tried
    opened_socket next numsec addr (pos fd, w) = tried next numsec fd (connect fd addr w)
    opened_socket next numsec addr (negsuc n, w) = some (negsuc 0, w)

    -- The same loop, with a new socket for each attempt.
    unfoldable pub retry_loop_v2 : ℕ → ℕ → FilePath → World → Option (ℤ × World)
    unfolding opened_socket
    retry_loop_v2 zero numsec addr w = none
    retry_loop_v2 (suc n) numsec addr w = elim (leb numsec max_sleep) [
      | false ↦ some (negsuc 0, w)
      | true ↦ opened_socket (retry_loop_v2 n numsec addr) numsec addr (socket w)
    ]

    unfoldable pub connect_retry_v2 : ℕ → FilePath → World → Option (ℤ × World)
    unfolding retry_loop_v2
    connect_retry_v2 fuel addr w = retry_loop_v2 fuel 1 addr w
