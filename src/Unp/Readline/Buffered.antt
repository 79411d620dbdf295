-- ===== src/Unp/Readline/Buffered.antt =====
-- `readline_v3` of util/unp.c: a line by way of `my_read`.
use unix_advanced_programing.Prelude.{ℕ, ◌≡◌, List, [], ◌∷◌, ◌++◌}
use unix_advanced_programing.Posix.{bytes, Reader}
use unix_advanced_programing.Posix.Stream.{IsStream}
use unix_advanced_programing.Unp.Readline.{LineBuf, V3, returned}
use unix_advanced_programing.Unp.Readline.Spec.{Ends}
use unix_advanced_programing.Unp.Readline.Buffer.{IsValid, ahead}

module _ {r : Reader} {fd : ℕ} (s : IsStream r fd) (maxlen fuel : ℕ) where
  open r use {World, read}
  open s use {pending, patience}

  -- The line `done` read so far grows to a whole one; nothing but a zero byte is left at `vptr`.
  abbrev pub CountsLine : List ℕ → List ℕ → V3 r fd → Type 0
  CountsLine done todo res =
      (line : List ℕ) × (count : ℕ) × (st : LineBuf) × (w : World) × (res
        ≡ returned (bytes count) (0 ∷ []) st w)
      × IsValid st
      × (done ++ todo ≡ line ++ ahead s st w)
      × Ends maxlen line (ahead s st w) count
