-- ===== src/Unp/Examples/Streams.antt =====
-- `Readn` across a signal, and `Writen` across two.
use unix_advanced_programing.Prelude.{List, [], ◌∷◌, arith}
use unix_advanced_programing.Posix.Script.{Event, chunk, signal, script_reader, script_IsStream}
use unix_advanced_programing.Posix.Tape.{tape_writer, tape_IsSink}
use unix_advanced_programing.Unp.Readn.{readn}
use unix_advanced_programing.Unp.Readn.Total
use unix_advanced_programing.Unp.Writen.{writen}
use unix_advanced_programing.Unp.Writen.Total as SendAll

abbrev events : List Event
events = signal ∷ chunk 7 (8 ∷ []) ∷ signal ∷ chunk 9 (10 ∷ 11 ∷ []) ∷ []

readn_example : Total.Outcome (script_IsStream 3) 4 [] events (readn script_reader 3 4 9 events)
readn_example = Total.readn_total (script_IsStream 3) 4 9 events (omega arith) (omega arith)

abbrev blocked : List Event
blocked = signal ∷ chunk 0 [] ∷ signal ∷ []

writen_example :
    SendAll.Outcome
      (tape_IsSink 3)
      3
      (7 ∷ 8 ∷ 9 ∷ [])
      ([], blocked)
      (writen tape_writer 3 9 (7 ∷ 8 ∷ 9 ∷ []) ([], blocked))
writen_example =
    SendAll.writen_total (tape_IsSink 3) 9 (7 ∷ 8 ∷ 9 ∷ []) ([], blocked) (omega arith)
      (omega arith)
