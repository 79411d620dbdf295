-- ===== src/Apue/Readn/Total.antt =====
-- `readn` of common/apue.c on a byte stream.
use mathlib.Core.List.{append_assoc}
use unix_advanced_programing.Prelude.{
  ℕ, zero, suc, ◌+◌, ◌-◌, ◌^◌, ◌≤◌, ◌<◌, ◌≡◌, refl, sym, ◌∙◌, ap, ◌⊎◌, inl, inr, Bool-cases, Option,
  some, List, [], ◌∷◌, ◌++◌, ◌==◌, ==_iff, arith, length, length-append,
}
use unix_advanced_programing.Posix.{
  Errno, bytes, minus_one, ReadResult, got, read_err, Reader, Ret, size_sub-eq-sub,
}
use unix_advanced_programing.Posix.Stream.{IsStream}
use unix_advanced_programing.Apue.Readn.{readn_round, readn_loop, readn}

module _ {r : Reader} {fd : ℕ} (s : IsStream r fd) (n : ℕ) where
  open r use {World, read}
  open s use {pending, got_law, err_law}

  -- Why the loop stopped: it has all, the stream is at its end, or a read failed.
  abbrev pub Stops : Ret World → Type 0
  Stops o =
      (length o.buf ≡ n)
      ⊎ (pending o.world ≡ [])
      ⊎ ((v : World) × (m : ℕ) × (e : Errno) × (read fd m v ≡ (read_err e, o.world)))

  -- What was stored with what is left are the pending bytes; the result is the count of what was
  -- stored, but -1 where nothing was stored and a read failed.
  abbrev pub Reads : List ℕ → Ret World → Type 0
  Reads all o =
      (all ≡ o.buf ++ pending o.world)
      × (length o.buf ≤ n)
      × ((o.ret ≡ bytes (length o.buf))
          ⊎ ((e : Errno) × (o.ret ≡ minus_one (some e)) × (o.buf ≡ [])))
      × Stops o

  abbrev pub Outcome : List ℕ → Option (Ret World) → Type 0
  Outcome all res = (o : Ret World) × (res ≡ some o) × Reads all o

  nothing : (buf : List ℕ) → length buf ≡ 0 → buf ≡ []
  nothing [] h = refl
  nothing (b ∷ bs) h = absurd (omega arith)

  round-Outcome :
      (nleft : ℕ) (buf : List ℕ) (w : World) (next : ℕ → List ℕ → World → Option (Ret World))
      (res : ReadResult × World)
      → read fd nleft w ≡ res
      → 0 < nleft
      → length buf + nleft ≡ n
      → n < 2 ^ 64
      → ((nl : ℕ) (bf : List ℕ) (w' : World)
          → length bf + nl ≡ n
          → nl < nleft
          → Outcome (bf ++ pending w') (next nl bf w'))
      → Outcome (buf ++ pending w) (readn_round r fd n next nleft buf res)
  unfolding readn_round
  round-Outcome nleft buf w next (got [], w') e pos len small ih =
      let law = got_law nleft w w' [] e in
      (
        _,
        refl,
        (
          ap (λ p. buf ++ p) law.0,
          omega arith,
          inl (ap bytes (omega (arith, size_sub-eq-sub n nleft))),
          inr (inl (sym law.0 ∙ law.3 refl pos)),
        ),
      )
  round-Outcome nleft buf w next (got (b ∷ bs), w') e pos len small ih =
      let law = got_law nleft w w' (b ∷ bs) e in
      rw
        (
          size_sub-eq-sub nleft (length (b ∷ bs)) law.1 (omega arith),
          law.0,
          ← append_assoc buf (b ∷ bs) (pending w'),
        )
        (ih (nleft - length (b ∷ bs)) (buf ++ (b ∷ bs)) w'
          (omega (arith, length-append buf (b ∷ bs), law.1)) (omega arith))
  round-Outcome nleft buf w next (read_err er, w') e pos len small ih =
      let law = err_law nleft w w' er e in
      elim (Bool-cases (nleft == n)) [
        | inl all ↦ rw all (
          _,
          refl,
          (
            ap (λ p. buf ++ p) (sym law.0),
            omega arith,
            inr (er, refl, nothing buf (omega (arith, (==_iff nleft n).0 all))),
            inr (inr (w, nleft, er, e)),
          ),
        )
        | inr part ↦ rw part (
          _,
          refl,
          (
            ap (λ p. buf ++ p) (sym law.0),
            omega arith,
            inl (ap bytes (omega (arith, size_sub-eq-sub n nleft))),
            inr (inr (w, nleft, er, e)),
          ),
        )
      ]

  loop-Outcome :
      (k nleft : ℕ) (buf : List ℕ) (w : World)
      → length buf + nleft ≡ n
      → n < 2 ^ 64
      → nleft < k
      → Outcome (buf ++ pending w) (readn_loop r fd n k nleft buf w)
  unfolding readn_loop
  loop-Outcome zero nleft buf w len small fuel = absurd (omega arith)
  loop-Outcome (suc k) nleft buf w len small fuel = elim (Bool-cases (nleft == 0)) [
    | inl done ↦
        let z = (==_iff nleft 0).0 done in
        rw (done, readn_loop)
          (
            _,
            refl,
            (
              refl,
              omega arith,
              inl (ap bytes (omega (arith, size_sub-eq-sub n nleft, z))),
              inl (omega (arith, z)),
            ),
          )
    | inr more ↦
        rw (more, readn_loop)
          (round-Outcome nleft buf w (readn_loop r fd n k) (read fd nleft w) refl (ground arith) len
            small (λ nl bf w' l m. loop-Outcome k nl bf w' l small (omega arith)))
  ]

  -- `readn`: `n + 1` rounds are enough. No byte is lost: those stored and those left are the pending
  -- ones, and at most `n` are stored. Their number is returned, but for -1 where a read failed before
  -- any was stored. The loop stops where it has `n` bytes, at end of file, or at a failed read.
  pub readn_stops :
      (fuel : ℕ) (w : World) → n < 2 ^ 64 → n < fuel → Outcome (pending w) (readn r fd n fuel w)
  unfolding readn
  readn_stops fuel w small enough = loop-Outcome fuel n [] w (omega arith) small enough
