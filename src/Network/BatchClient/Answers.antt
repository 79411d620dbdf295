-- ===== src/Network/BatchClient/Answers.antt =====
-- What `str_cli_v4` writes to the standard output, against what the server sends.
use mathlib.Core.List.{append-nil, append_assoc}
use unix_advanced_programing.Prelude.{
  ℕ, ◌<◌, ◌≤◌, ◌≡◌, ◌∙◌, refl, sym, ap, Bool, true, false, Option, none, some, List, [], ◌∷◌, ◌++◌,
  arith, if◌then◌else◌, length, take, drop, length-append, length-drop, length-take,
}
use unix_advanced_programing.Posix.{ReadResult, got, read_err, Reader, Writer}
use unix_advanced_programing.Posix.Stream.{IsStream}
use unix_advanced_programing.Unp.Writen.Reliable.{IsReliable, writen_sends}
use unix_advanced_programing.Network.BatchClient.{
  Client, Turn, running, returned, terminated, undefined, out_of_fuel, strlen, answered,
  socket_readable, send_line, typed, input_readable, then_input, str_cli_v4,
}

module _ {r i : Reader} {out sock : Writer} {socketfd : ℕ} (k : IsStream r socketfd)
    (m : IsStream i 0) (t : IsReliable out 1) (v : IsReliable sock socketfd) where
  open k use {pending, got_law, err_law}
  open t use {sent}

  -- What is printed and what is still pending are together what was.
  abbrev Conserves : Client r i out sock → Client r i out sock → Type 0
  Conserves s s' = sent s'.output ++ pending s'.answers ≡ sent s.output ++ pending s.answers

  -- At the server's end.
  abbrev Printed : Client r i out sock → Client r i out sock → Bool → Type 0
  Printed s s' eof = (sent s'.output ≡ sent s.output ++ pending s.answers) × (s'.stdin_eof ≡ eof)

  abbrev pub Answered : Client r i out sock → Turn (Client r i out sock) → Type 0
  Answered s (running s') = Conserves s s' × (length s'.sendline ≤ 512)
  Answered s (returned s') = Printed s s' true
  Answered s (terminated s') = Printed s s' false
  Answered s (undefined s') = Conserves s s'
  Answered s out_of_fuel = ⊥

  later :
      (s s1 : Client r i out sock) (o : Turn (Client r i out sock))
      → Conserves s s1
      → Answered s1 o
      → Answered s o
  later s s1 (running s') c (h, len) = (h ∙ c, len)
  later s s1 (returned s') c (h, eof) = (h ∙ c, eof)
  later s s1 (terminated s') c (h, eof) = (h ∙ c, eof)
  later s s1 (undefined s') c h = h ∙ c
  later s s1 out_of_fuel c h = h

  module _ (shutdown : sock.World → sock.World) (wfuel : ℕ) (enough : 512 < wfuel) where
    answered-Answered :
        (s : Client r i out sock) (res : ReadResult × r.World)
        → r.read socketfd 512 s.answers ≡ res
        → length s.sendline ≤ 512
        → Answered s (answered shutdown wfuel socketfd s res)
    unfolding answered
    answered-Answered s (got [], w) e len =
        let law = got_law 512 s.answers w [] e in
        let gone : pending s.answers ≡ [] = law.3 refl (omega arith) in
        let all : sent s.output ≡ sent s.output ++ pending s.answers =
          sym (append-nil (sent s.output)) ∙ ap (λ l. sent s.output ++ l) (sym gone) in
        at_end s.stdin_eof refl all
      where
        at_end :
            (b : Bool)
            → s.stdin_eof ≡ b
            → sent s.output ≡ sent s.output ++ pending s.answers
            → Answered s (answered shutdown wfuel socketfd s (got [], w))
        at_end true eof all = rw (eof, answered) (all, refl)
        at_end false more all = rw (more, answered) (all, refl)
    answered-Answered s (got (b ∷ bs), w) e len =
        let law = got_law 512 s.answers w (b ∷ bs) e in
        let (o, is, at) =
          writen_sends t wfuel (b ∷ bs) s.output (omega (arith, law.1)) (omega (arith, law.1)) in
        rw (is, answered)
          (
            ap (λ l. l ++ pending w) at
                ∙ append_assoc (sent s.output) (b ∷ bs) (pending w)
                ∙ ap (λ l. sent s.output ++ l) (sym law.0),
            len,
          )
    answered-Answered s (read_err e, w) is len =
        ap (λ l. sent s.output ++ l) (err_law 512 s.answers w e is).0

    send_line-Answered :
        (s : Client r i out sock)
        → length s.sendline ≤ 512
        → Answered s (send_line shutdown wfuel socketfd s)
    unfolding send_line
    send_line-Answered s len = go (strlen s.sendline) refl
      where
        go :
            (o : Option ℕ)
            → strlen s.sendline ≡ o
            → Answered s (send_line shutdown wfuel socketfd s)
        go none e = rw (e, send_line) refl
        go (some n) e =
            let (u, is, at) =
              writen_sends v wfuel (take n s.sendline) s.socket
                (omega (arith, length-take n s.sendline))
                (omega (arith, length-take n s.sendline)) in
            rw (e, send_line, is) (refl, len)

    overwritten :
        (bs line : List ℕ)
        → length bs ≤ 512
        → length line ≤ 512
        → length (bs ++ drop (length bs) line) ≤ 512
    overwritten bs line le len =
        omega (arith, length-append bs (drop (length bs) line), length-drop (length bs) line)

    typed-Answered :
        (s : Client r i out sock) (res : ReadResult × i.World)
        → i.read 0 512 s.input ≡ res
        → length s.sendline ≤ 512
        → Answered s (typed shutdown wfuel socketfd s res)
    unfolding typed
    typed-Answered s (got [], w) e len = (refl, len)
    typed-Answered s (got (b ∷ bs), w) e len =
        let law = m.got_law 512 s.input w (b ∷ bs) e in
        let line = (b ∷ bs) ++ drop (length (b ∷ bs)) s.sendline in
        let s1 = record s { sendline = line; input = w } in
        later s s1 (send_line shutdown wfuel socketfd s1) refl
          (send_line-Answered s1 (overwritten (b ∷ bs) s.sendline law.1 len))
    typed-Answered s (read_err n, w) e len =
        let s1 = record s { input = w } in
        later s s1 (send_line shutdown wfuel socketfd s1) refl (send_line-Answered s1 len)

    input_readable-Answered :
        (ready : Bool) (s : Client r i out sock)
        → length s.sendline ≤ 512
        → Answered s (input_readable shutdown wfuel socketfd ready s)
    unfolding input_readable
    input_readable-Answered false s len = (refl, len)
    input_readable-Answered true s len = go s.stdin_eof
      where
        go :
            (b : Bool)
            → Answered s
                (if b then running s else typed shutdown wfuel socketfd s (i.read 0 512 s.input))
        go true = (refl, len)
        go false = typed-Answered s (i.read 0 512 s.input) refl len

    then_input-Answered :
        (ready : Bool) (s : Client r i out sock) (o : Turn (Client r i out sock))
        → Answered s o
        → Answered s (then_input shutdown wfuel socketfd ready o)
    unfolding then_input
    then_input-Answered ready s (running s1) (c, len) =
        later s s1 (input_readable shutdown wfuel socketfd ready s1) c
          (input_readable-Answered ready s1 len)
    then_input-Answered ready s (returned s1) h = h
    then_input-Answered ready s (terminated s1) h = h
    then_input-Answered ready s (undefined s1) h = h
    then_input-Answered ready s out_of_fuel h = h

    socket_readable-Answered :
        (ready : Bool) (s : Client r i out sock)
        → length s.sendline ≤ 512
        → Answered s (socket_readable shutdown wfuel socketfd ready s)
    unfolding socket_readable
    socket_readable-Answered false s len = (refl, len)
    socket_readable-Answered true s len =
        answered-Answered s (r.read socketfd 512 s.answers) refl len

    -- Whatever `select` finds readable, in whatever order, where writes do not fail, with fuel for a line
    -- and `sendline` of at most 512 bytes: what is printed, with what is still pending from the server,
    -- is what was, in order; and where the function returns everything that the server has sent is printed
    -- and the standard input is at its end, while `err_quit` comes only before that end.
    pub str_cli_v4-Answered :
        (ready : List (Bool × Bool)) (s : Client r i out sock)
        → length s.sendline ≤ 512
        → Answered s (str_cli_v4 shutdown wfuel socketfd ready s)
    unfolding str_cli_v4
    str_cli_v4-Answered [] s len = (refl, len)
    str_cli_v4-Answered ((a, b) ∷ ready) s len =
        go (then_input shutdown wfuel socketfd b (socket_readable shutdown wfuel socketfd a s))
          (then_input-Answered b s (socket_readable shutdown wfuel socketfd a s)
            (socket_readable-Answered a s len))
          (λ t fits. str_cli_v4-Answered ready t fits)
      where
        go :
            (o : Turn (Client r i out sock))
            → Answered s o
            → ((t : Client r i out sock)
                → length t.sendline ≤ 512
                → Answered t (str_cli_v4 shutdown wfuel socketfd ready t))
            → Answered s (elim o [
              | running t ↦ str_cli_v4 shutdown wfuel socketfd ready t
              | returned t ↦ returned t
              | terminated t ↦ terminated t
              | undefined t ↦ undefined t
              | out_of_fuel ↦ out_of_fuel
            ])
        go (running s1) (c, len1) ih = later s s1 _ c (ih s1 len1)
        go (returned s1) h ih = h
        go (terminated s1) h ih = h
        go (undefined s1) h ih = h
        go out_of_fuel h ih = h
