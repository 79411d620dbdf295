-- ===== src/Unp/Examples/Lines.antt =====
-- Lines of a stream that a signal interrupts.
use unix_advanced_programing.Prelude.{ℕ, zero, suc, ap, List, [], ◌∷◌, ◌≡◌, refl, arith, length}
use unix_advanced_programing.Prelude.Int.{pos}
use unix_advanced_programing.Posix.Script.{Event, chunk, signal, script_reader, script_IsStream}
use unix_advanced_programing.Unp.Readline.{LineBuf, my_read, readline_v1}
use unix_advanced_programing.Unp.Readline.Bytewise
use unix_advanced_programing.Unp.Readline.Buffer
use unix_advanced_programing.Unp.Readline.Buffered

-- "hi\n", and what comes behind it.
abbrev greeting : List Event
greeting = signal ∷ chunk 104 (105 ∷ 10 ∷ 120 ∷ []) ∷ []

readline_v1_example :
    Bytewise.LineOutcome
      (script_IsStream 0)
      16
      (104 ∷ 105 ∷ 10 ∷ 120 ∷ [])
      (readline_v1 script_reader 0 16 20 greeting)
readline_v1_example =
    Bytewise.readline_v1_total (script_IsStream 0) 16 20 greeting (omega arith) (omega arith)

abbrev zeros : ℕ → List ℕ
zeros zero = []
zeros (suc n) = 0 ∷ zeros n

abbrev fresh : LineBuf
fresh = record { read_cnt = pos 0; read_ptr = 0; read_buf = zeros 512 }

length-zeros : (n : ℕ) → length (zeros n) ≡ n
length-zeros zero = refl
length-zeros (suc n) = ap suc (length-zeros n)

fresh-IsValid : Buffer.IsValid fresh
fresh-IsValid = record { size = length-zeros 512; fits = omega arith }

my_read_example :
    Buffer.NextByte (script_IsStream 0) fresh greeting (my_read script_reader 0 5 fresh greeting)
my_read_example =
    Buffer.my_read-NextByte (script_IsStream 0) 5 fresh greeting fresh-IsValid (omega arith)

abbrev line_of_three : List ℕ
line_of_three = 104 ∷ 105 ∷ 10 ∷ 120 ∷ []
