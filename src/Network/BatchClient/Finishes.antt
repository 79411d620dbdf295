-- ===== src/Network/BatchClient/Finishes.antt =====
-- `str_cli_v4` behind the end of the standard input.
use unix_advanced_programing.Prelude.{
  ℕ, ◌<◌, ◌≤◌, ◌≡◌, ◌≢◌, refl, ap, subst, Bool, true, false, some, List, [], ◌∷◌, ◌++◌, arith,
  length, length-append, if◌then◌else◌,
}
use unix_advanced_programing.Posix.{ReadResult, got, read_err, Reader, Writer, Errno, Ssize}
use unix_advanced_programing.Posix.Stream.{IsStream}
use unix_advanced_programing.Unp.Writen.Reliable.{IsReliable, writen_sends}
use unix_advanced_programing.Unp.Writen.{writen}
use unix_advanced_programing.Network.BatchClient.{
  Client, Turn, running, returned, answered, socket_readable, input_readable, then_input,
  str_cli_v4,
}
use unix_advanced_programing.Network.BatchClient.Answers.{Answered, str_cli_v4-Answered}

module _ {r i : Reader} {out sock : Writer} {socketfd : ℕ} (k : IsStream r socketfd)
    (m : IsStream i 0) (t : IsReliable out 1) (v : IsReliable sock socketfd)
    (shutdown : sock.World → sock.World) (wfuel : ℕ) (enough : 512 < wfuel)
    (never : (n : ℕ) (w w' : r.World) (e : Errno) → r.read socketfd n w ≢ (read_err e, w')) where
  open k use {pending, got_law}
  open t use {sent}

  -- Rounds where the socket is readable, and the standard input or not.
  abbrev pub rounds : List Bool → List (Bool × Bool)
  rounds [] = []
  rounds (b ∷ bs) = (true, b) ∷ rounds bs

  abbrev Returns : Turn (Client r i out sock) → Type 0
  Returns o = (s' : Client r i out sock) × (o ≡ returned s')

  still_running :
      (b : Bool) (s : Client r i out sock)
      → s.stdin_eof ≡ true
      → input_readable {r = r} {out = out} {sock = sock} shutdown wfuel socketfd b s ≡ running s
  unfolding input_readable
  still_running false s eof = refl
  still_running true s eof = go s.stdin_eof _ eof
    where
      go :
          (c : Bool) (o : Turn (Client r i out sock))
          → c ≡ true
          → (if c then running s else o) ≡ running s
      go true o e = refl
      go false o e = cc

  -- A round that gets bytes from the server.
  takes :
      (b : Bool) (s : Client r i out sock) (x : ℕ) (xs : List ℕ) (w : r.World) (o : out.World)
      (n : Ssize)
      → r.read socketfd 512 s.answers ≡ (got (x ∷ xs), w)
      → writen out 1 wfuel (x ∷ xs) s.output ≡ some (n, o)
      → s.stdin_eof ≡ true
      → then_input shutdown wfuel socketfd b (socket_readable shutdown wfuel socketfd true s)
        ≡ running (record s { answers = w; output = o })
  unfolding then_input socket_readable answered
  takes b s x xs w o n e is eof =
      rw (e, socket_readable, answered, is, then_input)
        (still_running b (record s { answers = w; output = o }) eof)

  round-Returns :
      (b : Bool) (bs : List Bool) (s : Client r i out sock) (res : ReadResult × r.World)
      → r.read socketfd 512 s.answers ≡ res
      → s.stdin_eof ≡ true
      → length (pending s.answers) ≤ length bs
      → ((t : Client r i out sock)
          → t.stdin_eof ≡ true
          → length (pending t.answers) < length bs
          → Returns (str_cli_v4 shutdown wfuel socketfd (rounds bs) t))
      → Returns (str_cli_v4 shutdown wfuel socketfd ((true, b) ∷ rounds bs) s)
  unfolding str_cli_v4 socket_readable answered then_input input_readable
  round-Returns b bs s (got [], w) e eof le ih = (
    record s { answers = w },
    rw (e, str_cli_v4, socket_readable, answered, eof, then_input) refl,
  )
  round-Returns b bs s (got (x ∷ xs), w) e eof le ih =
      let law = got_law 512 s.answers w (x ∷ xs) e in
      let (o, is, _) =
        writen_sends t wfuel (x ∷ xs) s.output (omega (arith, law.1)) (omega (arith, law.1)) in
      let shorter : length (pending w) < length bs =
        omega
          (arith, le, ap (λ (l : List ℕ). length l) law.0, length-append (x ∷ xs) (pending w)) in
      let (s', h) = ih (record s { answers = w; output = o }) eof shorter in
      (s', rw (takes b s x xs w o _ e is eof, str_cli_v4) h)
  round-Returns b bs s (read_err n, w) e eof le ih = absurd (never 512 s.answers w n e)

  returns :
      (bs : List Bool) (s : Client r i out sock)
      → s.stdin_eof ≡ true
      → length (pending s.answers) < length bs
      → Returns (str_cli_v4 shutdown wfuel socketfd (rounds bs) s)
  returns [] s eof lt = absurd (omega arith)
  returns (b ∷ bs) s eof lt =
      round-Returns b bs s (r.read socketfd 512 s.answers) refl eof (omega arith)
        (λ u eof_u less. returns bs u eof_u less)

  -- Behind the end of the standard input, where neither reads from the socket nor writes fail, with fuel
  -- for a line and `sendline` of at most 512 bytes: when `select` has found the socket readable once for
  -- every byte that the server still sends, and once more for its end, the function has returned, and all
  -- that the server has sent is printed, in order.
  pub str_cli_v4_finishes :
      (bs : List Bool) (s : Client r i out sock)
      → s.stdin_eof ≡ true
      → length s.sendline ≤ 512
      → length (pending s.answers) < length bs
      → (s' : Client r i out sock) × (str_cli_v4 shutdown wfuel socketfd (rounds bs) s
          ≡ returned s')
        × (sent s'.output ≡ sent s.output ++ pending s.answers)
  str_cli_v4_finishes bs s eof len lt =
      let (s', is) = returns bs s eof lt in
      let (all, _) =
        subst (Answered k m t v s) is
          (str_cli_v4-Answered k m t v shutdown wfuel enough (rounds bs) s len) in
      (s', is, all)
