-- ===== src/Files/AioCopy/Pass.antt =====
-- A round of aio_test1.c over all the workers.
use unix_advanced_programing.Prelude.{
  ℕ, zero, suc, ◌+◌, ◌≤◌, ◌<◌, ◌≡◌, ◌≢◌, refl, sym, subst, ◌∙◌, ◌⊎◌, inl, inr, Bool-cases, Option,
  some, List, arith, length, get_elem?, ◌==◌, ==_iff, get_elem?-drop,
}
use unix_advanced_programing.Files.AioCopy.{
  Op, unused, read_pending, write_pending, Worker, Status, in_progress, done, unknown, failed,
  Calls, State, read_asked, write_asked, dispatch, turn, pass,
}
use unix_advanced_programing.Files.AioCopy.Kernel.{IsAio}
use unix_advanced_programing.Files.AioCopy.Turn.{
  Fits, Inv, measure, Inv-frame, Turned, start_read-Turned,
}
use unix_advanced_programing.Files.AioCopy.Answers.{Moved, read_ended-Moved, write_ended-Moved}

module _ {c : Calls} {input : List ℕ} (k : IsAio c input) (change : ℕ → ℕ) where
  open c use {World, aio_error}
  open k use {asked, output, patience, error_law}

  Moved-lift :
      (i : ℕ) (s : State) (w w1 : World) (res : Option (State × World))
      → patience w1 ≤ patience w
      → Moved k change i s w1 res
      → Moved k change i s w res
  Moved-lift i s w w1 res le (s', w', is, v, len, less) = (s', w', is, v, len, omega arith)

  module _ (i : ℕ) (b : Worker) (s : State) (w : World) (at : get_elem? s.workers i ≡ some b)
      (v : Inv k change s w) where
    read_asked-Moved :
        (st : Status) (w1 : World)
        → aio_error i w ≡ (st, w1)
        → b.op ≡ read_pending
        → Fits k change read_pending i b w
        → Moved k change i s w (read_asked c change (length input) i b s (st, w1))
    unfolding read_asked
    read_asked-Moved st w1 e reads (asks, lt, size) = go st (error_law i w w1 st _ e asks)
      where
        v1 :
            ((j : ℕ) → asked w1 j ≡ asked w j)
            → ((p : ℕ) → output w1 p ≡ output w p)
            → Inv k change s w1
        v1 same out = Inv-frame k change s w w1 same out v

        go :
            (t : Status)
            → (t ≢ failed)
              × ((j : ℕ) → asked w1 j ≡ asked w j)
              × ((p : ℕ) → output w1 p ≡ output w p)
              × (patience w1 ≤ patience w)
              × (t ≡ in_progress → patience w1 < patience w)
            → Moved k change i s w (read_asked c change (length input) i b s (t, w1))
        go in_progress law = (s, w1, refl, v1 law.1 law.2, refl, omega (arith, law.4 refl))
        go failed law = absurd (law.0 refl)
        go done law = Moved-lift i s w w1 _ law.3 (
            read_ended-Moved k change i b s w1 at (v1 law.1 law.2) reads (law.1 i ∙ asks, lt, size))
        go unknown law = Moved-lift i s w w1 _ law.3 (
            read_ended-Moved k change i b s w1 at (v1 law.1 law.2) reads (law.1 i ∙ asks, lt, size))

    write_asked-Moved :
        (st : Status) (w1 : World)
        → aio_error i w ≡ (st, w1)
        → b.op ≡ write_pending
        → Fits k change write_pending i b w
        → Moved k change i s w (write_asked c change (length input) i b s (st, w1))
    unfolding write_asked
    write_asked-Moved st w1 e writes (asks, lt, size) = go st (error_law i w w1 st _ e asks)
      where
        v1 :
            ((j : ℕ) → asked w1 j ≡ asked w j)
            → ((p : ℕ) → output w1 p ≡ output w p)
            → Inv k change s w1
        v1 same out = Inv-frame k change s w w1 same out v

        go :
            (t : Status)
            → (t ≢ failed)
              × ((j : ℕ) → asked w1 j ≡ asked w j)
              × ((p : ℕ) → output w1 p ≡ output w p)
              × (patience w1 ≤ patience w)
              × (t ≡ in_progress → patience w1 < patience w)
            → Moved k change i s w (write_asked c change (length input) i b s (t, w1))
        go in_progress law = (s, w1, refl, v1 law.1 law.2, refl, omega (arith, law.4 refl))
        go failed law = absurd (law.0 refl)
        go done law = Moved-lift i s w w1 _ law.3 (
            write_ended-Moved k change i b s w1 at (v1 law.1 law.2) writes
              (law.1 i ∙ asks, lt, size))
        go unknown law = Moved-lift i s w w1 _ law.3 (
            write_ended-Moved k change i b s w1 at (v1 law.1 law.2) writes
              (law.1 i ∙ asks, lt, size))

    moved : (res : Option (State × World)) → Moved k change i s w res → Turned k change i s w res
    moved res (s', w', is, v', len, less) = (s', w', is, v', len, inl less)

    dispatch-Turned :
        (op : Op) → b.op ≡ op → Turned k change i s w (dispatch c change (length input) op i b s w)
    unfolding dispatch
    dispatch-Turned unused e = start_read-Turned k change i b s w at v e
    dispatch-Turned read_pending e =
        moved _
          (read_asked-Moved _ _ refl e (subst (λ op. Fits k change op i b w) e (v.fits i b at)))
    dispatch-Turned write_pending e =
        moved _
          (write_asked-Moved _ _ refl e (subst (λ op. Fits k change op i b w) e (v.fits i b at)))

  turn_eq :
      (i : ℕ) (b : Worker) (s : State) (w : World)
      → get_elem? s.workers i ≡ some b
      → dispatch c change (length input) b.op i b s w ≡ turn c change (length input) i s w
  unfolding turn
  turn_eq i b s w at = rw (at, turn)

  turn-Turned :
      (i : ℕ) (s : State) (w : World)
      → Inv k change s w
      → i < length s.workers
      → Turned k change i s w (turn c change (length input) i s w)
  turn-Turned i s w v lt =
      let (b, at, _) = get_elem?-drop s.workers i lt in
      subst (Turned k change i s w) (turn_eq i b s w at) (dispatch-Turned i b s w at v b.op refl)

  -- The round over `n` workers from `i` on either makes progress, or finds all of them unused and
  -- nothing left to read, and changes nothing.
  abbrev pub Passed : ℕ → ℕ → State → World → Option (State × World) → Type 0
  Passed n i s w res =
      (s' : State) × (w' : World) × (res ≡ some (s', w'))
      × Inv k change s' w'
      × (length s'.workers ≡ length s.workers)
      × ((measure k change s' w' < measure k change s w)
          ⊎ ((s' ≡ s)
              × (w' ≡ w)
              × ((j : ℕ) (b : Worker)
                  → i ≤ j
                  → j < i + n
                  → get_elem? s.workers j ≡ some b
                  → b.op ≡ unused)
              × (0 < n → length input ≤ s.off)))

  pub pass-Passed :
      (n i : ℕ) (s : State) (w : World)
      → Inv k change s w
      → i + n ≤ length s.workers
      → Passed n i s w (pass c change (length input) n i s w)
  unfolding pass
  pass-Passed zero i s w v lt = (
    s,
    w,
    refl,
    v,
    refl,
    inr (refl, refl, (λ j b le less g. absurd (omega arith)), (λ h. absurd (omega arith))),
  )
  pass-Passed (suc n) i s w v lt =
      let (s1, w1, e, v1, len1, how) = turn-Turned i s w v (omega arith) in
      let (s2, w2, e2, v2, len2, how2) = pass-Passed n (suc i) s1 w1 v1 (omega arith) in
      (s2, w2, rw (e, pass, e2), v2, len2 ∙ len1, both s1 w1 s2 w2 how how2)
    where
      both :
          (s1 : State) (w1 : World) (s2 : State) (w2 : World)
          → (measure k change s1 w1 < measure k change s w)
            ⊎ ((s1 ≡ s)
                × (w1 ≡ w)
                × ((b : Worker) → get_elem? s.workers i ≡ some b → b.op ≡ unused)
                × (length input ≤ s.off))
          → (measure k change s2 w2 < measure k change s1 w1)
            ⊎ ((s2 ≡ s1)
                × (w2 ≡ w1)
                × ((j : ℕ) (b : Worker)
                    → suc i ≤ j
                    → j < suc i + n
                    → get_elem? s1.workers j ≡ some b
                    → b.op ≡ unused)
                × (0 < n → length input ≤ s1.off))
          → (measure k change s2 w2 < measure k change s w)
            ⊎ ((s2 ≡ s)
                × (w2 ≡ w)
                × ((j : ℕ) (b : Worker)
                    → i ≤ j
                    → j < i + suc n
                    → get_elem? s.workers j ≡ some b
                    → b.op ≡ unused)
                × (0 < suc n → length input ≤ s.off))
      both s1 w1 s2 w2 (inl a) (inl b) = inl (omega arith)
      both s1 w1 s2 w2 (inl a) (inr (es, ew, _, _)) = inl (rw (es, ew) a)
      both s1 w1 s2 w2 (inr (es, ew, _, _)) (inl b) = inl (rw (es, ew) at b)
      both s1 w1 s2 w2 (inr (es, ew, here, end)) (inr (fs, fw, rest, _)) = inr (
        fs ∙ es,
        fw ∙ ew,
        (λ j b le less g. elim (Bool-cases (i == j)) [
          | inl same ↦
              here b (subst (λ n. get_elem? s.workers n ≡ some b) (sym ((==_iff i j).0 same)) g)
          | inr other ↦
              rest j b (ground arith) (omega arith)
                (subst (λ t. get_elem? t.workers j ≡ some b) (sym es) g)
        ]),
        (λ h. end),
      )
