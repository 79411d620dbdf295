-- ===== src/Unp/Readline/Bytewise.antt =====
-- `readline_v1` of util/unp.c on a byte stream.
use mathlib.Core.List.{append_assoc}
use unix_advanced_programing.Prelude.{
  ℕ, zero, suc, ◌+◌, ◌-◌, ◌≤◌, ◌<◌, ◌≡◌, refl, sym, ◌∙◌, ap, ◌≢◌, ◌⊎◌, inl, inr, Bool-cases, Option,
  some, List, [], ◌∷◌, ◌++◌, ◌==◌, ==_iff, ltb, ltb→lt, arith, length, length-append,
}
use unix_advanced_programing.Posix.{
  Errno, eintr, bytes, minus_one, ReadResult, got, read_err, Reader, Ret,
}
use unix_advanced_programing.Posix.Stream.{IsStream}
use unix_advanced_programing.Unp.Readline.{v1_round, v1_loop, readline_v1}
use unix_advanced_programing.Unp.Readline.Spec.{
  IsOpen, IsOpen-snoc, Ends, at_newline, at_eof, at_limit,
}

module _ {r : Reader} {fd : ℕ} (s : IsStream r fd) (maxlen : ℕ) where
  open r use {World, read}
  open s use {pending, patience, got_law, err_law}

  -- A line is stored with a zero byte behind it and leaves the rest of the stream.
  abbrev pub GetsLine : List ℕ → Ret World → Type 0
  GetsLine all o =
      (line : List ℕ) × (count : ℕ) × (o.ret ≡ bytes count)
      × (o.buf ≡ line ++ 0 ∷ [])
      × (length line < maxlen)
      × (all ≡ line ++ pending o.world)
      × Ends maxlen line (pending o.world) count

  abbrev pub Fails : List ℕ → Ret World → Type 0
  Fails all o =
      (e : Errno) × (e ≢ eintr) × (o.ret ≡ minus_one (some e)) × (all ≡ o.buf ++ pending o.world)

  abbrev pub LineOutcome : List ℕ → Option (Ret World) → Type 0
  LineOutcome all res = (o : Ret World) × (res ≡ some o) × (GetsLine all o ⊎ Fails all o)

  round-LineOutcome :
      (n : ℕ) (buf : List ℕ) (w : World) (next : ℕ → List ℕ → World → Option (Ret World))
      (res : ReadResult × World)
      → read fd 1 w ≡ res
      → n ≡ suc (length buf)
      → IsOpen buf
      → n < maxlen
      → ((m : ℕ) (bf : List ℕ) (w' : World)
          → m ≡ suc (length bf)
          → IsOpen bf
          → m ≤ maxlen
          → (maxlen - m) + patience w' < (maxlen - n) + patience w
          → LineOutcome (bf ++ pending w') (next m bf w'))
      → LineOutcome (buf ++ pending w) (v1_round r fd next n buf res)
  unfolding v1_round
  round-LineOutcome n buf w next (got [], w') e len open' lim ih =
      let law = got_law 1 w w' [] e in
      (
        _,
        refl,
        inl (
          buf,
          n - 1,
          refl,
          refl,
          omega arith,
          ap (λ p. buf ++ p) law.0,
          at_eof open' (sym law.0 ∙ law.3 refl (omega arith)) (omega arith),
        ),
      )
  round-LineOutcome n buf w next (got (c ∷ []), w') e len open' lim ih =
      let law = got_law 1 w w' (c ∷ []) e in
      elim (Bool-cases (c == 10)) [
        | inl nl ↦ rw nl (
          _,
          refl,
          inl (
            buf ++ c ∷ [],
            n,
            refl,
            sym (append_assoc buf (c ∷ []) (0 ∷ [])),
            omega (arith, length-append buf (c ∷ [])),
            rw (law.0, ← append_assoc),
            at_newline buf open' (rw ((==_iff c 10).0 nl))
                (omega (arith, length-append buf (c ∷ []))),
          ),
        )
        | inr other ↦
            rw (other, law.0, ← append_assoc)
              (ih (n + 1) (buf ++ c ∷ []) w' (omega (arith, length-append buf (c ∷ [])))
                (IsOpen-snoc buf c open' (ground arith)) (omega arith) (omega (arith, law.2)))
      ]
  round-LineOutcome n buf w next (got (c ∷ d ∷ ds), w') e len open' lim ih =
      absurd (omega (arith, (got_law 1 w w' _ e).1))
  round-LineOutcome n buf w next (read_err eintr, w') e len open' lim ih =
      rw (← (err_law 1 w w' eintr e).0)
        (ih n buf w' len open' (omega arith) (omega (arith, (err_law 1 w w' eintr e).2 refl)))
  round-LineOutcome n buf w next (read_err er, w') e len open' lim ih =
      (_, refl, inr (_, (λ x. cc), refl, rw ((err_law 1 w w' _ e).0)))

  loop-LineOutcome :
      (k n : ℕ) (buf : List ℕ) (w : World)
      → n ≡ suc (length buf)
      → IsOpen buf
      → n ≤ maxlen
      → (maxlen - n) + patience w < k
      → LineOutcome (buf ++ pending w) (v1_loop r fd maxlen k n buf w)
  unfolding v1_loop
  loop-LineOutcome zero n buf w len open' lim fuel = absurd (omega arith)
  loop-LineOutcome (suc k) n buf w len open' lim fuel = elim (Bool-cases (ltb n maxlen)) [
    | inl more ↦
        rw (more, v1_loop)
          (round-LineOutcome n buf w (v1_loop r fd maxlen k) (read fd 1 w) refl len open'
            (ltb→lt n maxlen more)
            (λ m bf w' l o b d. loop-LineOutcome k m bf w' l o b (omega arith)))
    | inr done ↦
        rw (done, v1_loop)
          (_, refl, inl (buf, n, refl, refl, omega arith, refl, at_limit open' (ground arith) len))
  ]

  -- `readline_v1` into a buffer of `maxlen` bytes, one or more: with fuel for every byte and every
  -- interrupt it returns. Either the buffer holds a line and a zero byte behind it, and the stream
  -- goes on behind the line. The line ends with its first newline, or at end of file with no newline
  -- in it, and its length, less than `maxlen`, is returned; or it has `maxlen - 1` bytes and no newline, and `maxlen` is
  -- returned. Or a read has failed for another reason than a signal: then -1 is returned, and the
  -- bytes stored with those left in the stream are the pending ones.
  pub readline_v1_total :
      (fuel : ℕ) (w : World)
      → 1 ≤ maxlen
      → maxlen + patience w ≤ fuel
      → LineOutcome (pending w) (readline_v1 r fd maxlen fuel w)
  unfolding readline_v1
  readline_v1_total fuel w one enough = loop-LineOutcome fuel 1 [] w refl tt one (omega arith)
