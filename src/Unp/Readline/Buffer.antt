-- ===== src/Unp/Readline/Buffer.antt =====
-- `my_read` of util/unp.c: the bytes that are stocked in `read_buf` stand before those of the stream.
use native.Mathlib.Numerals.{add-one}
use unix_advanced_programing.Prelude.{
  ℕ, zero, suc, ◌+◌, ◌≤◌, ◌<◌, ◌≡◌, refl, sym, ◌∙◌, ap, ◌≢◌, ◌⊎◌, inl, inr, List, [], ◌∷◌, ◌++◌,
  arith, length, take, drop, length-append, length-drop, take-append_self, get_elem?-drop,
}
use unix_advanced_programing.Prelude.Int.{ℤ, pos, negsuc}
use unix_advanced_programing.Posix.{Errno, eintr, ReadResult, got, read_err, Reader}
use unix_advanced_programing.Posix.Stream.{IsStream}
use unix_advanced_programing.Unp.Readline.{
  max_line, LineBuf, MyRead, byte, eof, take_byte, overwrite, refill_round, refill, my_read,
}

abbrev pub line_buf : ℤ → ℕ → List ℕ → LineBuf
line_buf c p b = record { read_cnt = c; read_ptr = p; read_buf = b }

-- The bytes between `read_ptr` and the end of what the last read stored.
abbrev pub stock : ℤ → ℕ → List ℕ → List ℕ
stock (pos c) p b = take c (drop p b)
stock (negsuc c) p b = []

abbrev pub stocked : LineBuf → List ℕ
stocked st = stock st.read_cnt st.read_ptr st.read_buf

abbrev pub Fits : ℤ → ℕ → Type 0
Fits (pos c) p = p + c ≤ max_line
Fits (negsuc c) p = p ≤ max_line

-- `read_buf` has its size, and what is stocked lies inside it.
pub record IsValid (st : LineBuf) : Type 0 where
  pub size : length st.read_buf ≡ max_line
  pub fits : Fits st.read_cnt st.read_ptr

take_byte_pos :
    {W : Type 0} (c p : ℕ) (b : List ℕ) (w : W)
    → p + suc c ≤ length b
    → (x : ℕ) × (take_byte (line_buf (pos (suc c)) p b) w ≡ byte x (line_buf (pos c) (p + 1) b) w)
      × (stock (pos (suc c)) p b ≡ x ∷ stock (pos c) (p + 1) b)
unfolding take_byte
take_byte_pos c p b w h =
    let (x, found, rest) = get_elem?-drop b p (omega arith) in (x, rw found, rw (rest, add-one))

take_byte_neg :
    {W : Type 0} (b : List ℕ) (w : W)
    → 0 < length b
    → (x : ℕ) × (take_byte (line_buf (negsuc 0) 0 b) w ≡ byte x (line_buf (negsuc 1) 1 b) w)
unfolding take_byte
take_byte_neg [] w h = elim h [ ]
take_byte_neg (x ∷ b) w h = (x, refl)

length-overwrite : (d b : List ℕ) → length d ≤ length b → length (overwrite d b) ≡ length b
length-overwrite d b h =
    omega (arith, length-append d (drop (length d) b), length-drop (length d) b)

module _ {r : Reader} {fd : ℕ} (s : IsStream r fd) where
  open r use {World, read}
  open s use {pending, patience, got_law, err_law}

  -- The bytes that a reader of the buffered stream has before it.
  abbrev pub ahead : LineBuf → World → List ℕ
  ahead st w = stocked st ++ pending w

  -- The next byte was delivered.
  abbrev pub Delivers : LineBuf → World → MyRead World → Type 0
  Delivers st w res =
      (c : ℕ) × (st' : LineBuf) × (w' : World) × (res ≡ byte c st' w')
      × IsValid st'
      × (ahead st w ≡ c ∷ ahead st' w')
      × (patience w' ≤ patience w)

  -- The end of file was reported, where it is.
  abbrev pub AtEof : LineBuf → World → MyRead World → Type 0
  AtEof st w res =
      (st' : LineBuf) × (w' : World) × (res ≡ eof st' w')
      × IsValid st'
      × (ahead st w ≡ [])
      × (ahead st' w' ≡ [])

  -- A read failed for another reason than a signal, and a byte that is not of the stream was
  -- delivered as if it were.
  abbrev pub Invents : LineBuf → World → MyRead World → Type 0
  Invents st w res =
      (v : World) × (e : Errno) × (w' : World) × (c : ℕ) × (st' : LineBuf) × (read fd max_line v
        ≡ (read_err e, w'))
      × (e ≢ eintr)
      × (res ≡ byte c st' w')
      × IsValid st'
      × (ahead st w ≡ ahead st' w')

  abbrev pub NextByte : LineBuf → World → MyRead World → Type 0
  NextByte st w res = Delivers st w res ⊎ AtEof st w res ⊎ Invents st w res

  ptr-le : (c : ℤ) {p : ℕ} → Fits c p → p ≤ max_line
  ptr-le (pos c) h = omega arith
  ptr-le (negsuc c) h = h

  -- An interrupted read changes nothing that the outcome speaks of.
  later :
      (st : LineBuf) (w w' : World) (res : MyRead World)
      → pending w' ≡ pending w
      → patience w' ≤ patience w
      → NextByte st w' res
      → NextByte st w res
  later st w w' res same calm (inl (c, st', v, is, valid, next, less)) =
      inl (c, st', v, is, valid, rw (← same) next, omega arith)
  later st w w' res same calm (inr (inl (st', v, is, valid, gone, end))) =
      inr (inl (st', v, is, valid, rw (← same) gone, end))
  later st w w' res same calm (inr (inr (v, e, u, c, st', failed, ne, is, valid, all))) =
      inr (inr (v, e, u, c, st', failed, ne, is, valid, rw (← same) all))

  round-NextByte :
      (st : LineBuf) (w : World) (again : World → MyRead World) (res : ReadResult × World)
      → read fd max_line w ≡ res
      → IsValid st
      → stocked st ≡ []
      → ((w' : World) → patience w' < patience w → NextByte st w' (again w'))
      → NextByte st w (refill_round r fd again st res)
  unfolding refill_round
  round-NextByte st w again (got [], w') e valid empty ih =
      let law = got_law max_line w w' [] e in
      let gone : pending w ≡ [] = law.3 refl (omega arith) in
      inr (
        inl (
          _,
          _,
          refl,
          record { size = valid.size; fits = omega (arith, ptr-le st.read_cnt valid.fits) },
          rw (empty, gone),
          sym law.0 ∙ gone,
        ))
  round-NextByte st w again (got (b ∷ bs), w') e valid empty ih =
      let law = got_law max_line w w' (b ∷ bs) e in
      let size : length (overwrite (b ∷ bs) st.read_buf) ≡ max_line =
        length-overwrite (b ∷ bs) st.read_buf (omega (arith, law.1, valid.size)) ∙ valid.size in
      let (x, is, first) =
        take_byte_pos (length bs) 0 (overwrite (b ∷ bs) st.read_buf) w'
          (omega (arith, law.1, size)) in
      inl (
        x,
        _,
        w',
        is,
        record { size = size; fits = omega (arith, law.1) },
        rw (empty, law.0)
            (ap (λ l. l ++ pending w')
              (sym (take-append_self (b ∷ bs) (drop (length (b ∷ bs)) st.read_buf)) ∙ first)),
        law.2,
      )
  round-NextByte st w again (read_err eintr, w') e valid empty ih =
      let law = err_law max_line w w' eintr e in
      later st w w' (again w') law.0 law.1 (ih w' (law.2 refl))
  round-NextByte st w again (read_err er, w') e valid empty ih =
      let (x, is) = take_byte_neg st.read_buf w' (omega (arith, valid.size)) in
      inr (
        inr (
          w,
          _,
          w',
          x,
          _,
          e,
          (λ i. cc),
          is,
          record { size = valid.size; fits = omega arith },
          rw (empty, (err_law max_line w w' _ e).0),
        ))

  refill-NextByte :
      (k : ℕ) (st : LineBuf) (w : World)
      → IsValid st
      → stocked st ≡ []
      → patience w < k
      → NextByte st w (refill r fd k st w)
  unfolding refill
  refill-NextByte zero st w valid empty enough = absurd (omega arith)
  refill-NextByte (suc k) st w valid empty enough =
      round-NextByte st w (refill r fd k st) (read fd max_line w) refl valid empty
        (λ w' less. refill-NextByte k st w' valid empty (omega arith))

  stocked-NextByte :
      (cnt : ℤ) (p : ℕ) (b : List ℕ) (fuel : ℕ) (w : World)
      → length b ≡ max_line
      → Fits cnt p
      → patience w < fuel
      → NextByte (line_buf cnt p b) w (my_read r fd fuel (line_buf cnt p b) w)
  unfolding my_read
  stocked-NextByte (pos zero) p b fuel w size fits enough =
      refill-NextByte fuel (line_buf (pos zero) p b) w (record { size = size; fits = fits }) refl
        enough
  stocked-NextByte (pos (suc c)) p b fuel w size fits enough =
      let (x, is, first) = take_byte_pos c p b w (omega arith) in
      inl (
        x,
        _,
        w,
        is,
        record { size = size; fits = omega arith },
        ap (λ l. l ++ pending w) first,
        omega arith,
      )
  stocked-NextByte (negsuc c) p b fuel w size fits enough =
      refill-NextByte fuel (line_buf (negsuc c) p b) w (record { size = size; fits = fits }) refl
        enough

  -- `my_read` with fuel for every interrupt, over a buffer that is well formed: it stays inside the
  -- buffer, keeps it well formed, and delivers the next byte of what lies ahead, which is the stock and
  -- then the stream; or it reports end of file, where nothing lies ahead; or a read has failed for
  -- another reason than a signal, and it delivers a byte all the same, while all lies ahead as before.
  pub my_read-NextByte :
      (fuel : ℕ) (st : LineBuf) (w : World)
      → IsValid st
      → patience w < fuel
      → NextByte st w (my_read r fd fuel st w)
  my_read-NextByte fuel st w valid enough =
      stocked-NextByte st.read_cnt st.read_ptr st.read_buf fuel w valid.size valid.fits enough
