-- ===== src/Network/Examples.antt =====
-- The theorems on the servers at concrete inputs.
mod Batch
mod TimedOut
mod Selecting
use unix_advanced_programing.Prelude.{
  ℕ, suc, ◌+◌, ◌%◌, ◌^◌, ◌≤◌, ◌≡◌, refl, sym, ap, true, false, List, [], ◌∷◌, ◌++◌, arith, length,
  take, take_all,
}
use unix_advanced_programing.Prelude.Int.{ℤ, pos, negsuc}
use unix_advanced_programing.Posix.{got, put, Writer}
use unix_advanced_programing.Posix.Script.{Event, chunk, signal, script_reader, script_IsStream}
use unix_advanced_programing.Unp.Writen.Plain.{plain_writer, plain_IsReliable}
use unix_advanced_programing.Network.Echo.{str_echo, sum_reply, bytes_of, long_of}
use unix_advanced_programing.Network.Echo.Session.{Echoes, str_echo-Echoes}
use unix_advanced_programing.Network.Echo.Sums.{sum_reply-bytes_of}
use unix_advanced_programing.Network.PollServer.{
  Revents, PollFd, poll_init, poll_rounds, scan, is_ready,
}
use unix_advanced_programing.Network.PollServer.Table.{Keeps, poll_server-IsCompact}
use unix_advanced_programing.Network.PollServer.Descriptors.{Holds, poll_server-Holds}
use unix_advanced_programing.Network.PollServer.Countdown.{serve_ready, scan-serve_ready}
use unix_advanced_programing.Network.PollServer.Scripted.{Script, scripted, scripted_IsKernel}

abbrev quiet : Revents
quiet = record { rdnorm = false; err = false }

abbrev readable : Revents
readable = record { rdnorm = true; err = false }

abbrev client : ℤ → Revents → PollFd
client fd r = record { fd = fd; events = true; revents = r }

-- A client comes, sends two bytes, and goes.
abbrev visit : Script
visit = record {
  connected = [];
  waiting = 5 ∷ [];
  polls = (readable ∷ []) ∷ (quiet ∷ readable ∷ []) ∷ (quiet ∷ readable ∷ []) ∷ [];
  reads = got (1 ∷ 2 ∷ []) ∷ got [] ∷ [];
}

poll_server-IsCompact_example :
    Keeps scripted (poll_rounds scripted 3 (poll_init (pos 3) (client (negsuc 0) quiet)) visit)
poll_server-IsCompact_example =
    poll_server-IsCompact scripted 3 (pos 3) (client (negsuc 0) quiet) visit

poll_server-Holds_example :
    Holds scripted_IsKernel
      (poll_rounds scripted 3 (poll_init (pos 3) (client (negsuc 0) quiet)) visit)
poll_server-Holds_example =
    poll_server-Holds scripted_IsKernel 3 (pos 3) (client (negsuc 0) quiet) visit refl

abbrev table : List PollFd
table = client (pos 5) readable ∷ client (negsuc 0) readable ∷ client (pos 6) readable ∷ []

scan-serve_ready_example : scan scripted 3 (pos 2) table visit ≡ serve_ready scripted 3 table visit
unfolding is_ready
scan-serve_ready_example = scan-serve_ready scripted 3 2 table visit (omega arith)

str_echo-Echoes_example :
    Echoes
      (script_IsStream 3)
      (plain_IsReliable 3)
      (chunk 7 (8 ∷ []) ∷ signal ∷ chunk 9 [] ∷ [])
      []
      (str_echo script_reader plain_writer 600 3 9 (chunk 7 (8 ∷ []) ∷ signal ∷ chunk 9 [] ∷ []) [])
str_echo-Echoes_example =
    str_echo-Echoes (script_IsStream 3) (plain_IsReliable 3) 600 (omega arith) 9
      (chunk 7 (8 ∷ []) ∷ signal ∷ chunk 9 [] ∷ []) [] (omega arith)
