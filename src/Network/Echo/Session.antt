-- ===== src/Network/Echo/Session.antt =====
-- What `str_echo` of echo_tcp_server_v1.c sends back.
use mathlib.Core.List.{append_assoc}
use unix_advanced_programing.Prelude.{
  ℕ, zero, suc, ◌+◌, ◌<◌, ◌≡◌, ◌≢◌, refl, sym, ap, ◌∙◌, ◌⊎◌, inl, inr, Option, some, List, [], ◌∷◌,
  ◌++◌, arith, length, length-append,
}
use unix_advanced_programing.Posix.{
  Errno, eintr, enametoolong, einval, other, ReadResult, got, read_err, Reader, Writer,
}
use unix_advanced_programing.Posix.Stream.{IsStream}
use unix_advanced_programing.Unp.Writen.Reliable.{IsReliable, writen_sends}
use unix_advanced_programing.Network.Echo.{End, closed, read_error, echo_round, str_echo}

module _ {r : Reader} {s : Writer} {fd : ℕ} (k : IsStream r fd) (t : IsReliable s fd) where
  open k use {pending, patience, got_law, err_law}
  open t use {sent}

  -- What has been sent and what is still pending are together what was pending, and at a close nothing
  -- is pending.
  abbrev pub Echoes : r.World → s.World → Option (End × r.World × s.World) → Type 0
  Echoes w u res =
      (e : End) × (w' : r.World) × (u' : s.World) × (res ≡ some (e, w', u'))
      × (sent u' ++ pending w' ≡ sent u ++ pending w)
      × (((e ≡ closed) × (pending w' ≡ [])) ⊎ ((n : Errno) × (n ≢ eintr) × (e ≡ read_error n)))

  module _ (wfuel : ℕ) (enough : 512 < wfuel) where
    round-Echoes :
        (n : ℕ) (w : r.World) (u : s.World) (res : ReadResult × r.World)
        → r.read fd 512 w ≡ res
        → length (pending w) + patience w < suc n
        → ((w' : r.World) (u' : s.World)
            → length (pending w') + patience w' < n
            → Echoes w' u' (str_echo r s wfuel fd n w' u'))
        → Echoes w u (echo_round r s wfuel fd (str_echo r s wfuel fd n) res u)
    unfolding echo_round
    round-Echoes n w u (got [], w') e h ih =
        let law = got_law 512 w w' [] e in
        let gone : pending w ≡ [] = law.3 refl (omega arith) in
        let none_left : pending w' ≡ [] = sym law.0 ∙ gone in
        (closed, w', u, refl, ap (λ l. sent u ++ l) (sym law.0), inl (refl, none_left))
    round-Echoes n w u (got (b ∷ bs), w') e h ih =
        let law = got_law 512 w w' (b ∷ bs) e in
        let (u', is, out) =
          writen_sends t wfuel (b ∷ bs) u (omega (arith, law.1)) (omega (arith, law.1)) in
        let (end, w2, u2, eq, all, how) = ih w' u' (
          omega (
            arith,
            ap (λ (l : List ℕ). length l) law.0,
            length-append (b ∷ bs) (pending w'),
            law.2,
          )) in
        (
          end,
          w2,
          u2,
          rw (is, echo_round) eq,
          all
              ∙ ap (λ l. l ++ pending w') out
              ∙ append_assoc (sent u) (b ∷ bs) (pending w')
              ∙ ap (λ l. sent u ++ l) (sym law.0),
          how,
        )
    round-Echoes n w u (read_err eintr, w') e h ih =
        let law = err_law 512 w w' eintr e in
        let (end, w2, u2, eq, all, how) =
          ih w' u (omega (arith, ap (λ (l : List ℕ). length l) law.0, law.2 refl)) in
        (end, w2, u2, eq, all ∙ ap (λ l. sent u ++ l) law.0, how)
    round-Echoes n w u (read_err enametoolong, w') e h ih =
        (_, w', u, refl, ap (λ l. sent u ++ l) (err_law 512 w w' _ e).0, inr (_, (λ x. cc), refl))
    round-Echoes n w u (read_err einval, w') e h ih =
        (_, w', u, refl, ap (λ l. sent u ++ l) (err_law 512 w w' _ e).0, inr (_, (λ x. cc), refl))
    round-Echoes n w u (read_err (other m), w') e h ih =
        (_, w', u, refl, ap (λ l. sent u ++ l) (err_law 512 w w' _ e).0, inr (_, (λ x. cc), refl))

    -- With fuel for every byte and every interrupt `str_echo` ends, where writes do not fail. What it has
    -- sent, with what is still pending, is what was pending, in order: at the end of the connection every
    -- byte has been sent back, and behind a failed read every byte that was read.
    pub str_echo-Echoes :
        (fuel : ℕ) (w : r.World) (u : s.World)
        → length (pending w) + patience w < fuel
        → Echoes w u (str_echo r s wfuel fd fuel w u)
    unfolding str_echo
    str_echo-Echoes zero w u h = absurd (omega arith)
    str_echo-Echoes (suc n) w u h =
        round-Echoes n w u (r.read fd 512 w) refl h (λ w' u' less. str_echo-Echoes n w' u' less)
