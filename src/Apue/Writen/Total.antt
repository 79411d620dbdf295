-- ===== src/Apue/Writen/Total.antt =====
-- `writen` of common/apue.c on a byte stream.
use mathlib.Core.List.{append-nil, append_assoc}
use unix_advanced_programing.Prelude.{
  ℕ, zero, suc, ◌+◌, ◌-◌, ◌^◌, ◌≤◌, ◌<◌, ◌≡◌, refl, sym, ap, ◌∙◌, ◌⊎◌, inl, inr, Bool-cases, Option,
  some, List, ◌++◌, ◌==◌, ==_iff, arith, length, take, drop, length-drop, take-take-drop,
}
use unix_advanced_programing.Posix.{
  Errno, Ssize, bytes, minus_one, WriteResult, put, write_err, Writer, size_sub-eq-sub,
}
use unix_advanced_programing.Posix.Sink.{IsSink}
use unix_advanced_programing.Apue.Writen.{writen_round, writen_loop, writen}

module _ {s : Writer} {fd : ℕ} (k : IsSink s fd) (n : ℕ) where
  open s use {World, write}
  open k use {sent, put_law, err_law}

  -- The first `m` of the bytes that are left were sent, and the result says how many of all `n`; or
  -- none of the `n` was, and it is -1.
  abbrev pub Sends : List ℕ → World → Ssize × World → Type 0
  Sends bs w (ret, w') =
      (m : ℕ) × (m ≤ length bs)
      × (sent w' ≡ sent w ++ take m bs)
      × ((ret ≡ bytes ((n - length bs) + m))
          ⊎ ((e : Errno) × (ret ≡ minus_one (some e)) × (m ≡ 0) × (length bs ≡ n)))

  abbrev pub Outcome : List ℕ → World → Option (Ssize × World) → Type 0
  Outcome bs w res = (o : Ssize × World) × (res ≡ some o) × Sends bs w o

  further :
      (j : ℕ) (bs : List ℕ) (w w' : World) (res : Option (Ssize × World))
      → suc j ≤ length bs
      → length bs ≤ n
      → sent w' ≡ sent w ++ take (suc j) bs
      → Outcome (drop (suc j) bs) w' res
      → Outcome bs w res
  further j bs w w' res h lim e ((ret, v), is, (m, less, b, how)) = (
    (ret, v),
    is,
    (
      suc j + m,
      omega (arith, length-drop (suc j) bs),
      b
          ∙ ap (λ l. l ++ take m (drop (suc j) bs)) e
          ∙ append_assoc (sent w) (take (suc j) bs) (take m (drop (suc j) bs))
          ∙ ap (λ l. sent w ++ l) (take-take-drop (suc j) m bs),
      count how,
    ),
  )
    where
      count :
          (ret ≡ bytes ((n - length (drop (suc j) bs)) + m))
            ⊎ ((er : Errno) × (ret ≡ minus_one (some er))
                × (m ≡ 0)
                × (length (drop (suc j) bs) ≡ n))
          → (ret ≡ bytes ((n - length bs) + (suc j + m)))
            ⊎ ((er : Errno) × (ret ≡ minus_one (some er)) × (suc j + m ≡ 0) × (length bs ≡ n))
      count (inl a) = inl (a ∙ ap bytes (omega (arith, length-drop (suc j) bs)))
      count (inr (er, a, b, c)) = absurd (omega (arith, length-drop (suc j) bs))

  round-Outcome :
      (nleft : ℕ) (bs : List ℕ) (w : World) (next : ℕ → List ℕ → World → Option (Ssize × World))
      (res : WriteResult × World)
      → write fd bs w ≡ res
      → length bs ≡ nleft
      → nleft ≤ n
      → n < 2 ^ 64
      → ((nl : ℕ) (cs : List ℕ) (w' : World)
          → length cs ≡ nl
          → nl < nleft
          → Outcome cs w' (next nl cs w'))
      → Outcome bs w (writen_round s fd n next nleft bs res)
  unfolding writen_round
  round-Outcome nleft bs w next (put zero, w') e len lim small ih = (
    _,
    refl,
    (
      0,
      omega arith,
      (put_law bs w w' 0 e).0,
      inl (ap bytes (omega (arith, size_sub-eq-sub n nleft))),
    ),
  )
  round-Outcome nleft bs w next (put (suc j), w') e len lim small ih =
      let law = put_law bs w w' (suc j) e in
      rw (size_sub-eq-sub nleft (suc j) (omega (arith, law.1)) (omega arith)) (
        further j bs w w' _ law.1 (omega arith) law.0 (
          ih (nleft - suc j) (drop (suc j) bs) w' (omega (arith, length-drop (suc j) bs))
            (omega (arith, law.1))))
  round-Outcome nleft bs w next (write_err er, w') e len lim small ih =
      let same = (err_law bs w w' er e).0 ∙ sym (append-nil (sent w)) in
      elim (Bool-cases (nleft == n)) [
        | inl all ↦ rw all (
          _,
          refl,
          (0, omega arith, same, inr (er, refl, refl, omega (arith, (==_iff nleft n).0 all))),
        )
        | inr part ↦ rw part (
          _,
          refl,
          (0, omega arith, same, inl (ap bytes (omega (arith, size_sub-eq-sub n nleft)))),
        )
      ]

  loop-Outcome :
      (j nleft : ℕ) (bs : List ℕ) (w : World)
      → length bs ≡ nleft
      → nleft ≤ n
      → n < 2 ^ 64
      → nleft < j
      → Outcome bs w (writen_loop s fd n j nleft bs w)
  unfolding writen_loop
  loop-Outcome zero nleft bs w len lim small fuel = absurd (omega arith)
  loop-Outcome (suc j) nleft bs w len lim small fuel = elim (Bool-cases (nleft == 0)) [
    | inl done ↦
        let z = (==_iff nleft 0).0 done in
        rw (done, writen_loop)
          (
            _,
            refl,
            (
              0,
              omega arith,
              sym (append-nil (sent w)),
              inl (ap bytes (omega (arith, size_sub-eq-sub n nleft, z))),
            ),
          )
    | inr more ↦
        rw (more, writen_loop)
          (round-Outcome nleft bs w (writen_loop s fd n j) (write fd bs w) refl len lim small
            (λ nl cs w' l m. loop-Outcome j nl cs w' l (omega arith) small (omega arith)))
  ]

-- `writen` of `n` bytes: `n + 1` rounds are enough. A prefix of the bytes was sent, in order, and its
-- length is returned; or nothing was sent, and -1 is returned.
pub writen_counts :
    {s : Writer} {fd : ℕ} (k : IsSink s fd) (fuel : ℕ) (bs : List ℕ) (w : s.World)
    → length bs < 2 ^ 64
    → length bs < fuel
    → Outcome k (length bs) bs w (writen s fd fuel bs w)
unfolding writen
writen_counts k fuel bs w small enough =
    loop-Outcome k (length bs) fuel (length bs) bs w refl (omega arith) small enough
