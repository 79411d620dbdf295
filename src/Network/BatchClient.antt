-- ===== src/Network/BatchClient.antt =====
-- `str_cli_v4` of UnixNetworkProgrammingVol1/ch4_tcp/echo_tcp_client_v1.c, the client that BATCH_INPUT_TEST
-- turns on. The socket, the standard input and the standard output are readers and writers, `shutdown` is
-- a parameter, and the messages are left out.
pub mod Answers
pub mod Finishes
use unix_advanced_programing.Prelude.{
  ℕ, zero, suc, Bool, true, false, Option, none, some, List, [], ◌∷◌, ◌++◌, ◌==◌, if◌then◌else◌,
  length, take, drop,
}
use unix_advanced_programing.Posix.{ReadResult, got, read_err, Reader, Writer}
use unix_advanced_programing.Unp.Writen.{writen}

-- The variables of the function and the four streams.
pub record Client (r i : Reader) (out sock : Writer) : Type 0 where
  pub stdin_eof : Bool
  pub sendline : List ℕ
  pub answers : r.World
  pub input : i.World
  pub output : out.World
  pub socket : sock.World

-- The loop goes on; the function returns; `err_quit` ends the process; the code reads outside an array; or
-- the fuel of `Writen` is at its end.
pub data Turn (C : Type 0) : Type 0 where
  running returned terminated undefined : (s : C) → Turn C
  out_of_fuel : Turn C

-- `none` where there is no zero byte in the array.
unfoldable pub strlen : List ℕ → Option ℕ
strlen [] = none
strlen (b ∷ bs) =
    let rest = strlen bs in
    if b == 0 then some 0 else elim rest [ none ↦ none | some n ↦ some (suc n) ]

module _ {r i : Reader} {out sock : Writer} (shutdown : sock.World → sock.World)
    (wfuel socketfd : ℕ) where
  -- Behind the `Read` from the socket. Where it fails, -1 bytes are to be written.
  unfoldable pub answered : Client r i out sock → ReadResult × r.World → Turn (Client r i out sock)
  answered s (got [], w) =
      if s.stdin_eof
      then returned (record s { answers = w })
      else terminated (record s { answers = w })
  answered s (got (b ∷ bs), w) = elim (writen out 1 wfuel (b ∷ bs) s.output) [
    | none ↦ out_of_fuel
    | some (n, o) ↦ running (record s { answers = w; output = o })
  ]
  answered s (read_err e, w) = undefined (record s { answers = w })

  unfoldable pub socket_readable : Bool → Client r i out sock → Turn (Client r i out sock)
  unfolding answered
  socket_readable false s = running s
  socket_readable true s = answered s (r.read socketfd 512 s.answers)

  -- `Writen(socketfd, sendline, strlen(sendline))`
  unfoldable pub send_line : Client r i out sock → Turn (Client r i out sock)
  unfolding strlen
  send_line s = elim (strlen s.sendline) [
    | none ↦ undefined s
    | some n ↦ elim (writen sock socketfd wfuel (take n s.sendline) s.socket) [
      | none ↦ out_of_fuel
      | some (m, u) ↦ running (record s { socket = u })
    ]
  ]

  -- Behind the `Read` from the standard input, which stores nothing where it fails.
  unfoldable pub typed : Client r i out sock → ReadResult × i.World → Turn (Client r i out sock)
  unfolding send_line
  typed s (got [], w) =
      running (record s { stdin_eof = true; input = w; socket = shutdown s.socket })
  typed s (got (b ∷ bs), w) =
      send_line (record s { sendline = (b ∷ bs) ++ drop (length (b ∷ bs)) s.sendline; input = w })
  typed s (read_err e, w) = send_line (record s { input = w })

  -- The standard input stands in `rset` until its end.
  unfoldable pub input_readable : Bool → Client r i out sock → Turn (Client r i out sock)
  unfolding typed
  input_readable false s = running s
  input_readable true s = if s.stdin_eof then running s else typed s (i.read 0 512 s.input)

  unfoldable pub then_input : Bool → Turn (Client r i out sock) → Turn (Client r i out sock)
  unfolding input_readable
  then_input ready (running s) = input_readable ready s
  then_input ready (returned s) = returned s
  then_input ready (terminated s) = terminated s
  then_input ready (undefined s) = undefined s
  then_input ready out_of_fuel = out_of_fuel

  -- The loop, for what each `Select` finds readable: the socket, and the standard input.
  unfoldable pub str_cli_v4 : List (Bool × Bool) → Client r i out sock → Turn (Client r i out sock)
  unfolding socket_readable then_input
  str_cli_v4 [] s = running s
  str_cli_v4 ((a, b) ∷ ready) s = elim (then_input b (socket_readable a s)) [
    | running t ↦ str_cli_v4 ready t
    | returned t ↦ returned t
    | terminated t ↦ terminated t
    | undefined t ↦ undefined t
    | out_of_fuel ↦ out_of_fuel
  ]
