-- ===== src/Unp/Readline.antt =====
-- `readline_v1`, `my_read`, `readline_v3` and `readlinebuf_v3` of util/unp.c.
pub mod Spec
pub mod Bytewise
pub mod Buffer
pub mod Buffered
use unix_advanced_programing.Prelude.{
  ℕ, zero, suc, ◌+◌, ◌-◌, Bool, true, false, Option, none, some, List, [], ◌∷◌, ◌++◌, ◌==◌, ltb,
  if◌then◌else◌, length, drop, get_elem?,
}
use unix_advanced_programing.Prelude.Int.{ℤ, pos, negsuc, is_pos, is_zero, pred_ℤ}
use unix_advanced_programing.Posix.{
  eintr, Ssize, bytes, minus_one, ReadResult, got, read_err, Reader, Ret, ret_of,
}

-- `MAXLINE` of util.h and '\n'.
abbrev pub max_line : ℕ
max_line = 512

abbrev pub newline : ℕ
newline = 10

module _ (r : Reader) (fd : ℕ) where
  open r use {World, read}

  -- One round of `readline_v1` behind the read of a byte. (A kernel that stores two bytes when asked
  -- for one breaks its contract.)
  v1_round :
      (ℕ → List ℕ → World → Option (Ret World))
      → ℕ
      → List ℕ
      → ReadResult × World
      → Option (Ret World)
  v1_round next n buf (got [], w) = some (ret_of (bytes (n - 1)) (buf ++ (0 ∷ [])) w)
  v1_round next n buf (got (c ∷ []), w) =
      let more = next (n + 1) (buf ++ (c ∷ [])) w in
      if c == newline then some (ret_of (bytes n) (buf ++ (c ∷ 0 ∷ [])) w) else more
  v1_round next n buf (got (c ∷ d ∷ ds), w) = some (ret_of (minus_one none) buf w)
  v1_round next n buf (read_err eintr, w) = next n buf w
  v1_round next n buf (read_err e, w) = some (ret_of (minus_one (some e)) buf w)

  -- `for (n = 1; n < maxlen; ++n)`
  v1_loop : ℕ → ℕ → ℕ → List ℕ → World → Option (Ret World)
  v1_loop maxlen zero n buf w = none
  v1_loop maxlen (suc k) n buf w = elim (ltb n maxlen) [
    | true ↦ v1_round (v1_loop maxlen k) n buf (read fd 1 w)
    | false ↦ some (ret_of (bytes n) (buf ++ (0 ∷ [])) w)
  ]

  pub readline_v1 : ℕ → ℕ → World → Option (Ret World)
  unfolding v1_loop v1_round
  readline_v1 maxlen fuel w = v1_loop maxlen fuel 1 [] w

-- The static variables `read_cnt`, `read_ptr` (an index into `read_buf`) and `read_buf`.
pub record LineBuf : Type 0 where
  pub read_cnt : ℤ
  pub read_ptr : ℕ
  pub read_buf : List ℕ

-- What `my_read` does: 1 with a byte, 0 at end of file, a read outside `read_buf`, or no fuel left.
pub data MyRead (W : Type 0) : Type 0 where
  byte : ℕ → LineBuf → W → MyRead W
  eof : LineBuf → W → MyRead W
  fault : MyRead W
  out_of_fuel : MyRead W

-- `read_cnt--; *ptr = *read_ptr++; return 1;`
take_byte : {W : Type 0} → LineBuf → W → MyRead W
take_byte st w = elim (get_elem? st.read_buf st.read_ptr) [
  | none ↦ fault
  | some c ↦ byte c (record st { read_cnt = pred_ℤ st.read_cnt; read_ptr = st.read_ptr + 1 }) w
]

-- The kernel stores `d` over the front of the buffer.
abbrev pub overwrite : List ℕ → List ℕ → List ℕ
overwrite d buf = d ++ drop (length d) buf

module _ (r : Reader) (fd : ℕ) where
  open r use {World, read}

  refill_round : (World → MyRead World) → LineBuf → ReadResult × World → MyRead World
  refill_round again st (got [], w) = eof (record st { read_cnt = pos 0 }) w
  refill_round again st (got (b ∷ bs), w) =
      take_byte
        (record {
          read_cnt = pos (length (b ∷ bs));
          read_ptr = 0;
          read_buf = overwrite (b ∷ bs) st.read_buf;
        })
        w
  refill_round again st (read_err eintr, w) = again w
  refill_round again st (read_err e, w) =
      take_byte (record st { read_cnt = negsuc 0; read_ptr = 0 }) w

  -- `again:`, where `read_cnt` is set anew by each read
  refill : ℕ → LineBuf → World → MyRead World
  refill zero st w = out_of_fuel
  refill (suc k) st w = refill_round (refill k st) st (read fd max_line w)

  pub my_read : ℕ → LineBuf → World → MyRead World
  unfolding take_byte refill_round refill
  my_read fuel st w = if is_pos st.read_cnt then take_byte st w else refill fuel st w

  -- What `readline_v3` leaves; `buf` is what stands at `vptr`.
  pub data V3 : Type 0 where
    returned : Ssize → List ℕ → LineBuf → World → V3
    faulted : V3
    starved : V3

  v3_round : (ℕ → List ℕ → LineBuf → World → V3) → ℕ → List ℕ → MyRead World → V3
  v3_round next n buf (byte c st w) =
      let more = next (n + 1) (c ∷ []) st w in
      if c == newline then returned (bytes n) (0 ∷ []) st w else more
  v3_round next n buf (eof st w) = returned (bytes (n - 1)) (0 ∷ []) st w
  v3_round next n buf fault = faulted
  v3_round next n buf out_of_fuel = starved

  -- `rounds` is `maxlen - n`; `ptr` does not move, so that `buf` is the one byte stored last.
  v3_loop : ℕ → ℕ → ℕ → List ℕ → LineBuf → World → V3
  v3_loop fuel zero n buf st w = returned (bytes n) (0 ∷ []) st w
  v3_loop fuel (suc k) n buf st w = v3_round (v3_loop fuel k) n buf (my_read fuel st w)

  pub readline_v3 : ℕ → ℕ → LineBuf → World → V3
  unfolding v3_loop v3_round my_read
  readline_v3 fuel maxlen st w = v3_loop fuel (maxlen - 1) 1 [] st w

-- `if (read_cnt) *vptrptr = read_ptr; return read_cnt;`
unfoldable pub readlinebuf_v3 : LineBuf → ℤ × Option ℕ
readlinebuf_v3 st = (st.read_cnt, if is_zero st.read_cnt then none else some st.read_ptr)
