-- ===== src/Files/AioCopy/Turn.antt =====
-- One turn of one worker of aio_test1.c, and the invariant of the turns.
use unix_advanced_programing.Prelude.{
  ℕ, ◌+◌, ◌-◌, ◌*◌, ◌≤◌, ◌<◌, ◌≡◌, ◌≢◌, refl, sym, ap, ◌∙◌, ◌⊎◌, inl, inr, Bool, true, false, ◌||◌,
  Bool-cases, Option, none, some, List, map, arith, length, take, drop, get_elem?, set, subst, ◌==◌,
  ==_iff, get_elem?-set_self, get_elem?-set_ne, length-set, ltb→lt, ltb, leb,
}
use unix_advanced_programing.Files.AioCopy.{
  Op, unused, read_pending, write_pending, Worker, Calls, State, put_worker, start_read,
}
use unix_advanced_programing.Files.AioCopy.Kernel.{reading, writing, IsAio}
use unix_advanced_programing.Files.AioCopy.Workers.{
  is_busy, busy_one, weight, sum_by, sum_by-set, get_elem?-lt, Held, Held-new, Held-split,
}

module _ {c : Calls} {input : List ℕ} (k : IsAio c input) (change : ℕ → ℕ) where
  open c use {World, aio_read, aio_write, aio_error, read_return, write_return}
  open k use {
    asked, output, patience, read_law, write_law, error_law, read_return_law, write_return_law,
  }

  abbrev pub block : ℕ → List ℕ
  block o = map change (take 256 (drop o input))

  -- What the worker `i` has asked for fits its state.
  abbrev pub Fits : Op → ℕ → Worker → World → Type 0
  Fits unused i b w = Unit {0}
  Fits read_pending i b w =
      (asked w i ≡ some (reading b.aio_offset 256))
      × (b.aio_offset < length input)
      × ((b.last ≡ true) ⊎ (b.aio_offset + 256 ≤ length input))
  Fits write_pending i b w =
      (asked w i ≡ some (writing b.aio_offset (block b.aio_offset)))
      × (b.aio_offset < length input)
      × (b.aio_nbytes ≡ length (block b.aio_offset))

  -- Each position behind which reading has gone has its byte in the output, or a worker is at it.
  pub record Inv (s : State) (w : World) : Type 0 where
    pub fits : (i : ℕ) (b : Worker) → get_elem? s.workers i ≡ some b → Fits b.op i b w
    pub covered :
        (p : ℕ)
        → p < s.off
        → p < length input
        → (output w p ≡ get_elem? (map change input) p) ⊎ Held p s.workers
    pub beyond : (p : ℕ) → length input ≤ p → output w p ≡ none
    pub counted : s.aio_op_num ≡ sum_by busy_one s.workers

  -- It falls with every step.
  abbrev pub measure : State → World → ℕ
  measure s w = 3 * (length input - s.off) + sum_by weight s.workers + patience w

  -- The calls that the worker `i` makes leave the requests of the others.
  abbrev pub Others : ℕ → World → World → Type 0
  Others i w w' = (j : ℕ) → i ≢ j → asked w' j ≡ asked w j

  Fits-frame :
      (op : Op) (j : ℕ) (b : Worker) (w w' : World)
      → asked w' j ≡ asked w j
      → Fits op j b w
      → Fits op j b w'
  Fits-frame unused j b w w' e f = tt
  Fits-frame read_pending j b w w' e (a, q, r) = (e ∙ a, q, r)
  Fits-frame write_pending j b w w' e (a, q, r) = (e ∙ a, q, r)

  pub Fits-set :
      (i : ℕ) (b b' : Worker) (bs : List Worker) (w w' : World)
      → get_elem? bs i ≡ some b
      → ((j : ℕ) (x : Worker) → get_elem? bs j ≡ some x → Fits x.op j x w)
      → Others i w w'
      → Fits b'.op i b' w'
      → (j : ℕ) (x : Worker) → get_elem? (set bs i b') j ≡ some x
      → Fits x.op j x w'
  Fits-set i b b' bs w w' e all others new j x g = elim (Bool-cases (i == j)) [
    | inl same ↦
        let at : i ≡ j = (==_iff i j).0 same in
        let is : b' ≡ x = cc (get_elem?-set_self bs i b' (get_elem?-lt i b bs e)) in
        subst (λ y. Fits y.op j y w') is (subst (λ n. Fits b'.op n b' w') at new)
    | inr other ↦
        let ne : i ≢ j = (λ at. ground arith) in
        Fits-frame x.op j x w w' (others j ne) (all j x (sym (get_elem?-set_ne bs b' ne) ∙ g))
  ]

  -- A call that changes neither the requests nor the output.
  pub Inv-frame :
      (s : State) (w w' : World)
      → ((j : ℕ) → asked w' j ≡ asked w j)
      → ((p : ℕ) → output w' p ≡ output w p)
      → Inv s w
      → Inv s w'
  Inv-frame s w w' a o v = record {
    fits = λ i b g. Fits-frame b.op i b w w' (a i) (v.fits i b g);
    covered = λ p lt in_file. rw (o p) (v.covered p lt in_file);
    beyond = λ p far. o p ∙ v.beyond p far;
    counted = v.counted;
  }

  -- The turn goes on with what holds, and either makes progress, or finds its worker unused and nothing
  -- left to read, and changes nothing.
  abbrev pub Turned : ℕ → State → World → Option (State × World) → Type 0
  Turned i s w res =
      (s' : State) × (w' : World) × (res ≡ some (s', w'))
      × Inv s' w'
      × (length s'.workers ≡ length s.workers)
      × ((measure s' w' < measure s w)
          ⊎ ((s' ≡ s)
              × (w' ≡ w)
              × ((b : Worker) → get_elem? s.workers i ≡ some b → b.op ≡ unused)
              × (length input ≤ s.off)))

  module _ (i : ℕ) (b : Worker) (s : State) (w : World) (at : get_elem? s.workers i ≡ some b)
      (v : Inv s w) where
    idle_busy : b.op ≡ unused → is_busy b.op ≡ true → ⊥
    idle_busy idle busy = cc (ap is_busy idle)

    busy_idle : b.op ≡ unused → busy_one b ≡ 0
    busy_idle idle = rw idle refl

    same_op : (x : Worker) → get_elem? s.workers i ≡ some x → b.op ≡ unused → x.op ≡ unused
    same_op x g idle = let is : b ≡ x = cc in subst (λ y. y.op ≡ unused) is idle

    -- A turn replaces the worker: the sums over the table, and the positions that others are at.
    pub weights :
        (b' : Worker)
        → sum_by weight (set s.workers i b') + weight b ≡ sum_by weight s.workers + weight b'
    weights b' = sum_by-set weight i b b' s.workers at

    pub busies :
        (b' : Worker)
        → sum_by busy_one (set s.workers i b') + busy_one b
          ≡ sum_by busy_one s.workers + busy_one b'
    busies b' = sum_by-set busy_one i b b' s.workers at

    abbrev begun : Worker
    begun = record b {
      op = read_pending;
      aio_offset = s.off;
      aio_nbytes = 256;
      last = b.last || leb (length input) (s.off + 256);
    }

    last_or_whole : (x : Bool) (n m : ℕ) → ((x || leb n m) ≡ true) ⊎ (m ≤ n)
    last_or_whole true n m = inl refl
    last_or_whole false n m = elim (Bool-cases (leb n m)) [
      | inl le ↦ inl le
      | inr gt ↦ inr (ground arith)
    ]

    begun-Inv :
        b.op ≡ unused
        → s.off < length input
        → Inv
            (record s {
              off = s.off + 256;
              aio_op_num = s.aio_op_num + 1;
              workers = set s.workers i begun;
            })
            (aio_read i s.off 256 w)
    begun-Inv idle more =
        let law = read_law i s.off 256 w in
        record {
          fits =
              Fits-set i b begun s.workers w _ at v.fits law.1
                (law.0, more, last_or_whole b.last (length input) (s.off + 256));
          covered = λ p lt in_file. elim (Bool-cases (ltb p s.off)) [
            | inl before ↦ elim (v.covered p (ground arith) in_file) [
              | inl written ↦ inl (law.2 p ∙ written)
              | inr held ↦ elim (Held-split p i b begun s.workers at held) [
                | inl (busy, _, _) ↦ absurd (idle_busy idle busy)
                | inr still ↦ inr still
              ]
            ]
            | inr behind ↦ inr (Held-new p i b begun s.workers at refl (ground arith) (omega arith))
          ];
          beyond = λ p far. law.2 p ∙ v.beyond p far;
          counted = omega (arith, v.counted, busies begun, busy_idle idle);
        }

    -- The worker asks for the next block, or nothing is left.
    pub start_read-Turned :
        b.op ≡ unused → Turned i s w (start_read c change (length input) i b s w)
    unfolding start_read put_worker
    start_read-Turned idle = elim (Bool-cases (ltb s.off (length input))) [
      | inr at_end ↦
          rw (at_end, start_read)
            (s, w, refl, v, refl, inr (refl, refl, (λ x g. same_op x g idle), ground arith))
      | inl more ↦
          rw (more, start_read)
            (
              _,
              aio_read i s.off 256 w,
              refl,
              begun-Inv idle (ground arith),
              length-set s.workers i _,
              inl (omega (arith, weights begun, (read_law i s.off 256 w).3, ltb→lt _ _ more)),
            )
    ]
