-- ===== src/OpenServer/Examples.antt =====
-- The theorems on the open server at concrete inputs.
use unix_advanced_programing.Prelude.{List, [], ◌∷◌, ◌++◌}
use unix_advanced_programing.Prelude.Int.{pos}
use unix_advanced_programing.OpenServer.{Calls, Message}

-- The messages sent so far.
abbrev recorder : Calls
recorder = record {
  World = List Message;
  send_err = λ fd m w. w ++ (m ∷ []);
  open_file = λ path flag w. (pos 5, w);
  send_fd = λ fd n w. w;
  close = λ n w. w;
}
