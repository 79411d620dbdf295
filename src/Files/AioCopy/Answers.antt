-- ===== src/Files/AioCopy/Answers.antt =====
-- A turn of a worker of aio_test1.c whose read or write is under way, by the answer of `aio_error`.
use unix_advanced_programing.Prelude.{
  ℕ, ◌+◌, ◌-◌, ◌≤◌, ◌<◌, ◌≡◌, refl, sym, ◌∙◌, ◌⊎◌, inl, inr, Bool, true, false, ◌&&◌, ◌||◌,
  Bool-cases, Option, some, List, map, arith, length, take, drop, get_elem?, set, ◌==◌, length-set,
  length-map, ltb, leb, if◌then◌else◌,
}
use unix_advanced_programing.Files.AioCopy.{
  unused, read_pending, write_pending, Worker, Calls, State, put_worker, read_ended, write_ended,
}
use unix_advanced_programing.Files.AioCopy.Kernel.{writing, IsAio}
use unix_advanced_programing.Files.AioCopy.Workers.{
  busy_one, weight, sum_by-ge, Held-new, Held-split, block_elem, length-block,
}
use unix_advanced_programing.Files.AioCopy.Turn.{
  block, Fits, Inv, measure, Others, Fits-set, weights, busies,
}

module _ {c : Calls} {input : List ℕ} (k : IsAio c input) (change : ℕ → ℕ) where
  open c use {World, aio_read, aio_write, aio_error, read_return, write_return}
  open k use {
    asked, output, patience, read_law, write_law, error_law, read_return_law, write_return_law,
  }

  -- The turn goes on with what holds, and has made progress.
  abbrev pub Moved : ℕ → State → World → Option (State × World) → Type 0
  Moved i s w res =
      (s' : State) × (w' : World) × (res ≡ some (s', w'))
      × Inv k change s' w'
      × (length s'.workers ≡ length s.workers)
      × (measure k change s' w' < measure k change s w)

  module _ (i : ℕ) (b : Worker) (s : State) (w : World) (at : get_elem? s.workers i ≡ some b)
      (v : Inv k change s w) where
    -- The block that the worker has read, changed.
    abbrev filled : Worker
    filled = record b {
      op = write_pending;
      aio_nbytes = length (take 256 (drop b.aio_offset input));
      bytes = block k change b.aio_offset;
    }

    filled-Inv :
        (w' : World)
        → b.op ≡ read_pending
        → b.aio_offset < length input
        → Others k change i w w'
        → asked w' i ≡ some (writing b.aio_offset (block k change b.aio_offset))
        → ((p : ℕ) → output w' p ≡ output w p)
        → Inv k change (record s { workers = set s.workers i filled }) w'
    filled-Inv w' reads lt others asks same = record {
      fits =
          Fits-set k change i b filled s.workers w w' at v.fits others
            (asks, lt, sym (length-map (take 256 (drop b.aio_offset input)) change));
      covered = λ p before in_file. elim (v.covered p before in_file) [
        | inl written ↦ inl (same p ∙ written)
        | inr held ↦ elim (Held-split p i b filled s.workers at held) [
          | inl (_, lo, hi) ↦ inr (Held-new p i b filled s.workers at refl lo hi)
          | inr still ↦ inr still
        ]
      ];
      beyond = λ p far. same p ∙ v.beyond p far;
      counted = omega (arith, v.counted, busies k change i b s w at v filled, one reads);
    }
      where
        one : b.op ≡ read_pending → busy_one b ≡ 1
        one e = rw e refl

    -- A read of a whole block, or of the last one.
    whole :
        (last : Bool) (o : ℕ)
        → (last ≡ true) ⊎ (o + 256 ≤ length input)
        → ((length (take 256 (drop o input)) == 256) || last) ≡ true
    whole true o (inl e) = ground arith
    whole false o (inl e) = cc
    whole last o (inr fits) =
        ground (arith, length-block change 256 o input, length-map (take 256 (drop o input)) change)

    pub read_ended-Moved :
        b.op ≡ read_pending
        → Fits k change read_pending i b w
        → Moved i s w (read_ended c change (length input) i b s (read_return i w))
    unfolding read_ended put_worker
    read_ended-Moved reads (asks, lt, size) =
        let ret = read_return_law i b.aio_offset 256 w asks in
        let w1 = (read_return i w).1 in
        let wr = write_law i b.aio_offset (block k change b.aio_offset) w1 in
        rw (ret.0, read_ended, whole b.last b.aio_offset size)
          (
            _,
            _,
            refl,
            filled-Inv _ reads lt (λ j ne. wr.1 j ne ∙ ret.1 j) wr.0 (λ p. wr.2 p ∙ ret.2 p),
            length-set s.workers i _,
            omega (arith, weights k change i b s w at v filled, two reads, wr.3, ret.3),
          )
      where
        two : b.op ≡ read_pending → weight b ≡ 2
        two e = rw e refl

    -- The worker that has written its block.
    abbrev freed : Worker
    freed = record b { op = unused }

    -- Where a block has been written, and elsewhere.
    written_elem :
        (p : ℕ)
        → ((leb b.aio_offset p && ltb p (b.aio_offset + length (block k change b.aio_offset)))
            ≡ true)
        → get_elem? (block k change b.aio_offset) (p - b.aio_offset)
          ≡ get_elem? (map change input) p
    written_elem p h = block_elem change 256 b.aio_offset p input (ground arith) (ground arith)

    freed-Inv :
        (w' : World)
        → b.op ≡ write_pending
        → b.aio_offset < length input
        → ((j : ℕ) → asked w' j ≡ asked w j)
        → ((p : ℕ)
            → output w' p ≡ (
                if leb b.aio_offset p && ltb p (b.aio_offset + length (block k change b.aio_offset))
                then get_elem? (block k change b.aio_offset) (p - b.aio_offset)
                else output w p))
        → Inv k change
            (record s { aio_op_num = s.aio_op_num - 1; workers = set s.workers i freed })
            w'
    freed-Inv w' writes lt same puts = record {
      fits = Fits-set k change i b freed s.workers w w' at v.fits (λ j ne. same j) tt;
      covered = λ p before in_file.
          elim (Bool-cases
            (leb b.aio_offset p && ltb p (b.aio_offset + length (block k change b.aio_offset)))) [
              | inl inside ↦ inl (rw (puts p, inside) (written_elem p inside))
              | inr outside ↦ elim (v.covered p before in_file) [
                | inl written ↦ inl (rw (puts p, outside) written)
                | inr held ↦ elim (Held-split p i b freed s.workers at held) [
                  | inl (_, lo, hi) ↦
                      absurd (ground (arith, length-block change 256 b.aio_offset input))
                  | inr still ↦ inr still
                ]
              ]
            ];
      beyond = λ p far.
          let outside : (leb b.aio_offset p
                && ltb p (b.aio_offset + length (block k change b.aio_offset)))
              ≡ false =
            ground (arith, length-block change 256 b.aio_offset input) in
          rw (puts p, outside) (v.beyond p far);
      counted = omega (
        arith,
        v.counted,
        busies k change i b s w at v freed,
        one writes,
        sum_by-ge busy_one i b s.workers at,
      );
    }
      where
        one : b.op ≡ write_pending → busy_one b ≡ 1
        one e = rw e refl

    pub write_ended-Moved :
        b.op ≡ write_pending
        → Fits k change write_pending i b w
        → Moved i s w (write_ended c change (length input) i b s (write_return i w))
    unfolding write_ended put_worker
    write_ended-Moved writes (asks, lt, size) =
        let ret = write_return_law i b.aio_offset (block k change b.aio_offset) w asks in
        let all : (length (block k change b.aio_offset) == b.aio_nbytes) ≡ true = ground arith in
        rw (ret.0, write_ended, all)
          (
            _,
            _,
            refl,
            freed-Inv _ writes lt ret.1 ret.2,
            length-set s.workers i _,
            omega (arith, weights k change i b s w at v freed, one writes, ret.3),
          )
      where
        one : b.op ≡ write_pending → weight b ≡ 1
        one e = rw e refl
