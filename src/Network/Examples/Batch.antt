-- ===== src/Network/Examples/Batch.antt =====
-- The client at the standard input's end, on three bytes from the server.
use unix_advanced_programing.Prelude.{◌≡◌, refl, true, false, [], ◌∷◌, arith}
use unix_advanced_programing.Posix.Plain.{plain_reader, plain_IsStream}
use unix_advanced_programing.Unp.Writen.Plain.{plain_writer, plain_IsReliable}
use unix_advanced_programing.Network.BatchClient.{Client, returned, str_cli_v4}
use unix_advanced_programing.Network.BatchClient.Answers.{Answered, str_cli_v4-Answered}
use unix_advanced_programing.Network.BatchClient.Finishes.{str_cli_v4_finishes}

-- A line is typed, and not yet read.
abbrev client : Client plain_reader plain_reader plain_writer plain_writer
client = record {
  stdin_eof = false;
  sendline = 0 ∷ 0 ∷ 0 ∷ [];
  answers = 7 ∷ 8 ∷ 9 ∷ [];
  input = 5 ∷ 10 ∷ [];
  output = [];
  socket = [];
}

abbrev at_end : Client plain_reader plain_reader plain_writer plain_writer
at_end = record client { stdin_eof = true; input = [] }

str_cli_v4-Answered_example :
    Answered
      (plain_IsStream 3)
      (plain_IsStream 0)
      (plain_IsReliable 1)
      (plain_IsReliable 3)
      client
      (str_cli_v4 (λ w. w) 600 3 ((false, true) ∷ (true, true) ∷ (true, false) ∷ []) client)
str_cli_v4-Answered_example =
    str_cli_v4-Answered (plain_IsStream 3) (plain_IsStream 0) (plain_IsReliable 1)
      (plain_IsReliable 3) (λ w. w) 600 (omega arith)
      ((false, true) ∷ (true, true) ∷ (true, false) ∷ []) client (omega arith)

str_cli_v4_finishes_example :
    (s' : Client plain_reader plain_reader plain_writer plain_writer) × (str_cli_v4
        (λ w. w)
        600
        3
        ((true, true) ∷ (true, false) ∷ (true, false) ∷ (true, true) ∷ [])
        at_end
      ≡ returned s')
    × (s'.output ≡ 7 ∷ 8 ∷ 9 ∷ [])
str_cli_v4_finishes_example =
    str_cli_v4_finishes (plain_IsStream 3) (plain_IsStream 0) (plain_IsReliable 1)
      (plain_IsReliable 3) (λ w. w) 600 (omega arith) (λ n w w' e is. cc)
      (true ∷ false ∷ false ∷ true ∷ []) at_end refl (omega arith) (omega arith)
