-- ===== src/Unp/Writen/Total.antt =====
-- `Writen` of util/unp.c on a byte stream.
use mathlib.Core.List.{append-nil, append_assoc}
use unix_advanced_programing.Prelude.{
  ℕ, zero, suc, ◌+◌, ◌-◌, ◌^◌, ◌≤◌, ◌<◌, ◌≡◌, refl, sym, ap, ◌∙◌, ◌≢◌, ◌⊎◌, inl, inr, Bool-cases,
  Option, some, List, [], ◌∷◌, ◌++◌, ◌==◌, ==_iff, arith, length, take, drop, length-drop,
  take-append-drop, take-take-drop,
}
use unix_advanced_programing.Posix.{
  Errno, eintr, Ssize, bytes, minus_one, WriteResult, put, write_err, Writer, size_sub,
  size_sub-eq-sub,
}
use unix_advanced_programing.Posix.Sink.{IsSink}
use unix_advanced_programing.Unp.Writen.{writen_round, writen_loop, writen}

module _ {s : Writer} {fd : ℕ} (k : IsSink s fd) where
  open s use {World, write}
  open k use {sent, patience, put_law, err_law}

  -- All of `bs` was sent, or -1 is returned and only a part of it was sent.
  abbrev pub Sends : ℕ → List ℕ → World → Ssize × World → Type 0
  Sends n bs w (ret, w') =
      ((ret ≡ bytes n) × (sent w' ≡ sent w ++ bs))
      ⊎ ((e : Option Errno) × (m : ℕ) × (ret ≡ minus_one e)
          × (e ≢ some eintr)
          × (m < length bs)
          × (sent w' ≡ sent w ++ take m bs))

  abbrev pub Outcome : ℕ → List ℕ → World → Option (Ssize × World) → Type 0
  Outcome n bs w res = (o : Ssize × World) × (res ≡ some o) × Sends n bs w o

  further :
      (n j : ℕ) (bs : List ℕ) (w w' : World) (res : Option (Ssize × World))
      → j ≤ length bs
      → sent w' ≡ sent w ++ take j bs
      → Outcome n (drop j bs) w' res
      → Outcome n bs w res
  further n j bs w w' res h e ((ret, v), is, inl (a, b)) = (
    (ret, v),
    is,
    inl (
      a,
      b
          ∙ ap (λ l. l ++ drop j bs) e
          ∙ append_assoc (sent w) (take j bs) (drop j bs)
          ∙ ap (λ l. sent w ++ l) (take-append-drop j bs),
    ),
  )
  further n j bs w w' res h e ((ret, v), is, inr (er, m, a, ne, less, b)) = (
    (ret, v),
    is,
    inr (
      er,
      j + m,
      a,
      ne,
      omega (arith, length-drop j bs),
      b
          ∙ ap (λ l. l ++ take m (drop j bs)) e
          ∙ append_assoc (sent w) (take j bs) (take m (drop j bs))
          ∙ ap (λ l. sent w ++ l) (take-take-drop j m bs),
    ),
  )

  round-Outcome :
      (n nleft : ℕ) (bs : List ℕ) (w : World) (next : ℕ → List ℕ → World → Option (Ssize × World))
      (res : WriteResult × World)
      → write fd bs w ≡ res
      → 0 < nleft
      → length bs ≡ nleft
      → nleft < 2 ^ 64
      → ((nl : ℕ) (cs : List ℕ) (w' : World)
          → length cs ≡ nl
          → nl ≤ nleft
          → nl + patience w' < nleft + patience w
          → Outcome n cs w' (next nl cs w'))
      → Outcome n bs w (writen_round s fd n next nleft bs res)
  unfolding writen_round
  round-Outcome n nleft bs w next (put zero, w') e pos len small ih =
      (_, refl, inr (_, 0, refl, (λ x. cc), omega arith, (put_law bs w w' 0 e).0))
  round-Outcome n nleft bs w next (put (suc j), w') e pos len small ih =
      let law = put_law bs w w' (suc j) e in
      rw (size_sub-eq-sub nleft (suc j) (omega (arith, law.1)) small) (
        further n (suc j) bs w w' _ law.1 law.0 (
          ih (nleft - suc j) (drop (suc j) bs) w' (omega (arith, length-drop (suc j) bs))
            (omega arith) (omega (arith, law.1, law.2))))
  round-Outcome n nleft bs w next (write_err eintr, w') e pos len small ih =
      let law = err_law bs w w' eintr e in
      further n 0 bs w w' _ (omega arith) (law.0 ∙ sym (append-nil (sent w)))
        (ih nleft bs w' len (omega arith) (omega (arith, law.2 refl)))
  round-Outcome n nleft bs w next (write_err er, w') e pos len small ih = (
    _,
    refl,
    inr (_, 0, refl, (λ x. cc), omega arith, (err_law bs w w' _ e).0 ∙ sym (append-nil (sent w))),
  )

  loop-Outcome :
      (n j nleft : ℕ) (bs : List ℕ) (w : World)
      → length bs ≡ nleft
      → nleft ≤ n
      → n < 2 ^ 64
      → nleft + patience w < j
      → Outcome n bs w (writen_loop s fd n j nleft bs w)
  unfolding writen_loop
  loop-Outcome n zero nleft bs w len lim small fuel = absurd (omega arith)
  loop-Outcome n (suc j) nleft bs w len lim small fuel = elim (Bool-cases (nleft == 0)) [
    | inl done ↦ rw (done, writen_loop) (stop bs len ((==_iff nleft 0).0 done))
    | inr more ↦
        rw (more, writen_loop)
          (round-Outcome n nleft bs w (writen_loop s fd n j) (write fd bs w) refl (ground arith) len
            (omega arith)
            (λ nl cs w' l le m. loop-Outcome n j nl cs w' l (omega arith) small (omega arith)))
  ]
    where
      stop :
          (cs : List ℕ)
          → length cs ≡ nleft
          → nleft ≡ 0
          → Outcome n cs w (some (bytes (size_sub n nleft), w))
      stop [] l z = (
        _,
        refl,
        inl (ap bytes (omega (arith, size_sub-eq-sub n nleft)), sym (append-nil (sent w))),
      )
      stop (c ∷ cs) l z = absurd (omega arith)

  -- `Writen`: with fuel for every byte and every interrupt the loop returns. Either it returns the
  -- number of the bytes and all of them were sent, in order; or a write has taken nothing or failed for
  -- another reason than a signal, it returns -1, and what was sent is a proper prefix of the bytes.
  pub writen_total :
      (fuel : ℕ) (bs : List ℕ) (w : World)
      → length bs < 2 ^ 64
      → length bs + patience w < fuel
      → Outcome (length bs) bs w (writen s fd fuel bs w)
  unfolding writen
  writen_total fuel bs w small enough =
      loop-Outcome (length bs) fuel (length bs) bs w refl (omega arith) small enough
