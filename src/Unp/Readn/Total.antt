-- ===== src/Unp/Readn/Total.antt =====
-- `Readn` of util/unp.c on a byte stream.
use mathlib.Core.List.{append-nil, append_assoc}
use unix_advanced_programing.Prelude.{
  ℕ, zero, suc, ◌+◌, ◌^◌, ◌-◌, ◌≤◌, ◌<◌, ◌≡◌, refl, ap, ◌≢◌, ◌⊎◌, inl, inr, Bool-cases, Option,
  some, List, [], ◌∷◌, ◌++◌, ◌==◌, ==_iff, arith, length, take, drop, length-append, take-nil,
  drop-nil, take-append, drop-append,
}
use unix_advanced_programing.Posix.{
  Errno, eintr, bytes, minus_one, ReadResult, got, read_err, Reader, Ret, ret_of, size_sub,
  size_sub-eq-sub,
}
use unix_advanced_programing.Posix.Stream.{IsStream}
use unix_advanced_programing.Unp.Readn.{readn_round, readn_loop, readn}

module _ {r : Reader} {fd : ℕ} (s : IsStream r fd) where
  open r use {World, read}
  open s use {pending, patience, got_law, err_law}

  -- The outcome of reading `nleft` more bytes behind `buf`.
  abbrev pub Reads : ℕ → List ℕ → World → Ret World → Type 0
  Reads nleft buf w o =
      ((o.ret ≡ bytes (length o.buf))
        × (o.buf ≡ buf ++ take nleft (pending w))
        × (pending o.world ≡ drop nleft (pending w)))
      ⊎ ((e : Errno) × (e ≢ eintr)
          × (o.ret ≡ minus_one (some e))
          × (buf ++ pending w ≡ o.buf ++ pending o.world))

  abbrev pub Outcome : ℕ → List ℕ → World → Option (Ret World) → Type 0
  Outcome nleft buf w res = (o : Ret World) × (res ≡ some o) × Reads nleft buf w o

  round_got :
      (n nleft : ℕ) (buf : List ℕ) (w : World) (next : ℕ → List ℕ → World → Option (Ret World))
      (b : ℕ) (bs : List ℕ) (w' : World)
      → (pending w ≡ (b ∷ bs) ++ pending w')
        × (length (b ∷ bs) ≤ nleft)
        × (patience w' ≤ patience w)
        × ((b ∷ bs) ≡ [] → 0 < nleft → pending w ≡ [])
      → length buf + nleft ≡ n
      → n < 2 ^ 64
      → ((nl : ℕ) (bf : List ℕ) (w' : World)
          → length bf + nl ≡ n
          → nl + patience w' < nleft + patience w
          → Outcome nl bf w' (next nl bf w'))
      → Outcome nleft buf w (next (size_sub nleft (length (b ∷ bs))) (buf ++ (b ∷ bs)) w')
  round_got n nleft buf w next b bs w' (e, fits, calm, _) len small ih =
      rw (size_sub-eq-sub nleft (length (b ∷ bs)) fits (omega arith)) (
        conv (
          ih (nleft - length (b ∷ bs)) (buf ++ (b ∷ bs)) w'
            (omega (arith, length-append buf (b ∷ bs))) (omega arith)))
    where
      conv :
          {res : Option (Ret World)}
          → Outcome (nleft - length (b ∷ bs)) (buf ++ (b ∷ bs)) w' res
          → Outcome nleft buf w res
      conv (o, is, inl (a, c, d)) = (
        o,
        is,
        inl (
          a,
          rw (e, take-append nleft (b ∷ bs) (pending w') fits, ← append_assoc) c,
          rw (e, drop-append nleft (b ∷ bs) (pending w') fits) d,
        ),
      )
      conv (o, is, inr (er, ne, a, c)) = (o, is, inr (er, ne, a, rw (e, ← append_assoc) c))

  round-Outcome :
      (n nleft : ℕ) (buf : List ℕ) (w : World) (next : ℕ → List ℕ → World → Option (Ret World))
      (res : ReadResult × World)
      → read fd nleft w ≡ res
      → 0 < nleft
      → length buf + nleft ≡ n
      → n < 2 ^ 64
      → ((nl : ℕ) (bf : List ℕ) (w' : World)
          → length bf + nl ≡ n
          → nl + patience w' < nleft + patience w
          → Outcome nl bf w' (next nl bf w'))
      → Outcome nleft buf w (readn_round r fd n next nleft buf res)
  unfolding readn_round
  round-Outcome n nleft buf w next (got [], w') e pos len small ih =
      let gone : pending w ≡ [] = (got_law nleft w w' [] e).3 refl pos in
      (
        ret_of (bytes (size_sub n nleft)) buf w',
        refl,
        inl (
          ap bytes (omega (arith, size_sub-eq-sub n nleft)),
          simp (gone, take-nil, append-nil),
          ground (arith, got_law nleft w w' [] e, drop-nil {A = ℕ} nleft),
        ),
      )
  round-Outcome n nleft buf w next (got (b ∷ bs), w') e pos len small ih =
      round_got n nleft buf w next b bs w' (got_law nleft w w' (b ∷ bs) e) len small ih
  round-Outcome n nleft buf w next (read_err eintr, w') e pos len small ih =
      rw (← (err_law nleft w w' eintr e).0)
        (ih nleft buf w' len (omega (arith, (err_law nleft w w' eintr e).2 refl)))
  round-Outcome n nleft buf w next (read_err er, w') e pos len small ih =
      (_, refl, inr (_, (λ x. cc), refl, rw ((err_law nleft w w' _ e).0)))

  loop-Outcome :
      (n k nleft : ℕ) (buf : List ℕ) (w : World)
      → length buf + nleft ≡ n
      → n < 2 ^ 64
      → nleft + patience w < k
      → Outcome nleft buf w (readn_loop r fd n k nleft buf w)
  unfolding readn_loop
  loop-Outcome n zero nleft buf w len small fuel = absurd (omega arith)
  loop-Outcome n (suc k) nleft buf w len small fuel = elim (Bool-cases (nleft == 0)) [
    | inl done ↦ rw (done, readn_loop) (stop ((==_iff nleft 0).0 done))
    | inr more ↦
        rw (more, readn_loop)
          (round-Outcome n nleft buf w (readn_loop r fd n k) (read fd nleft w) refl (ground arith)
            len small (λ nl bf w' l m. loop-Outcome n k nl bf w' l small (omega arith)))
  ]
    where
      stop : nleft ≡ 0 → Outcome nleft buf w (some (ret_of (bytes (size_sub n nleft)) buf w))
      stop z = (
        _,
        refl,
        inl (ap bytes (omega (arith, size_sub-eq-sub n nleft)), rw (z, append-nil), rw z),
      )

  -- `Readn`: with fuel for every byte and every interrupt the loop returns. Either it returns the
  -- number of bytes stored, which are the first `n` pending bytes, or all of them if there are fewer,
  -- and leaves exactly the others; or a read has failed for another reason than a signal, it returns
  -- -1, and what it stored with what is left are the pending bytes.
  pub readn_total :
      (n fuel : ℕ) (w : World)
      → n < 2 ^ 64
      → n + patience w < fuel
      → Outcome n [] w (readn r fd n fuel w)
  unfolding readn
  readn_total n fuel w small enough = loop-Outcome n fuel n [] w (omega arith) small enough
