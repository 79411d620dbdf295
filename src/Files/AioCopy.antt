-- ===== src/Files/AioCopy.antt =====
-- UnixAdvancedProgramming/ch13_io/aio_test1.c: a file is copied in blocks by eight workers whose
-- reads and writes go on in the background. The calls are parameters, and messages are left out.
pub mod Kernel
pub mod Rot13
pub mod Workers
pub mod Turn
pub mod Answers
pub mod Pass
pub mod Copy
pub mod Background
use unix_advanced_programing.Prelude.{
  ℕ, zero, suc, ◌+◌, ◌-◌, ◌%◌, Bool, true, false, ◌||◌, Option, none, some, List, [], ◌∷◌, map,
  length, get_elem?, set, replicate, if◌then◌else◌, ltb, leb, ◌==◌, ◌>>=◌,
}
use unix_advanced_programing.Posix.{ReadResult, got, read_err, WriteResult, put, write_err}

-- `enum rwop`
pub data Op : Type 0 where
  unused read_pending write_pending : Op

-- `aio_buf_t`, with what the program sets of its control block.
pub record Worker : Type 0 where
  pub op : Op
  pub last : Bool
  pub aio_offset : ℕ
  pub aio_nbytes : ℕ
  pub bytes : List ℕ

-- What `aio_error` answers: EINPROGRESS, 0, -1, or the error of the operation.
pub data Status : Type 0 where
  in_progress done unknown failed : Status

-- The calls, each for the worker with the given number. `aio_return` of a read gives the bytes that
-- the read has put into the buffer.
pub record Calls : Type (0 + 1) where
  pub World : Type 0
  pub aio_read : ℕ → ℕ → ℕ → World → World
  pub aio_write : ℕ → ℕ → List ℕ → World → World
  pub aio_error : ℕ → World → Status × World
  pub read_return : ℕ → World → ReadResult × World
  pub write_return : ℕ → World → WriteResult × World
  pub aio_suspend : World → World

abbrev pub aio_buff_size : ℕ
aio_buff_size = 256

abbrev pub aio_buff_num : ℕ
aio_buff_num = 8

-- The variables of `aio_test1`: `off`, `aio_op_num` and `aio_buf`.
pub record State : Type 0 where
  pub off : ℕ
  pub aio_op_num : ℕ
  pub workers : List Worker

-- `c -= 13` and `c += 13` on a byte.
unfoldable pub translate : (ℕ → Bool) → ℕ → ℕ
translate isalpha c =
    if isalpha c
    then if leb b'n' c
      then c - 13
      else if leb b'a' c
      then (c + 13) % 256
      else if leb b'N' c
      then (c + 256 - 13) % 256
      else (c + 13) % 256
    else c

-- The worker `i` is replaced.
unfoldable pub put_worker : ℕ → Worker → State → State
put_worker i b s = record s { workers = set s.workers i b }

-- How the copying ends: with the whole file, with an exit, or, in the model, without fuel.
pub data End (W : Type 0) : Type 0 where
  finished : W → End W
  exited out_of_fuel : End W

module _ (c : Calls) (change : ℕ → ℕ) (st_size : ℕ) where
  open c use {World, aio_read, aio_write, aio_error, read_return, write_return, aio_suspend}

  -- `case UNUSED`
  unfoldable pub start_read : ℕ → Worker → State → World → Option (State × World)
  unfolding put_worker
  start_read i b s w =
      if ltb s.off st_size
      then some (
        put_worker i
            (record b {
              op = read_pending;
              aio_offset = s.off;
              aio_nbytes = aio_buff_size;
              last = b.last || leb st_size (s.off + aio_buff_size);
            })
            (record s { off = s.off + aio_buff_size; aio_op_num = s.aio_op_num + 1 }),
        aio_read i s.off aio_buff_size w,
      )
      else some (s, w)

  -- A read that has ended: `none` where the program ends, or goes on with -1 bytes.
  unfoldable pub read_ended : ℕ → Worker → State → ReadResult × World → Option (State × World)
  unfolding put_worker
  read_ended i b s (read_err e, w) = none
  read_ended i b s (got bs, w) =
      if length bs == aio_buff_size || b.last
      then some (
        put_worker i
            (record b { op = write_pending; aio_nbytes = length bs; bytes = map change bs }) s,
        aio_write i b.aio_offset (map change bs) w,
      )
      else none

  -- A write that has ended: `none` where the program ends.
  unfoldable pub write_ended : ℕ → Worker → State → WriteResult × World → Option (State × World)
  unfolding put_worker
  write_ended i b s (write_err e, w) = none
  write_ended i b s (put n, w) =
      if n == b.aio_nbytes
      then some
          (put_worker i (record b { op = unused }) (record s { aio_op_num = s.aio_op_num - 1 }), w)
      else none

  -- Behind `aio_error`; `err_sys` goes on behind -1.
  unfoldable pub read_asked : ℕ → Worker → State → Status × World → Option (State × World)
  unfolding read_ended
  read_asked i b s (in_progress, w) = some (s, w)
  read_asked i b s (failed, w) = none
  read_asked i b s (_, w) = read_ended i b s (read_return i w)

  unfoldable pub write_asked : ℕ → Worker → State → Status × World → Option (State × World)
  unfolding write_ended
  write_asked i b s (in_progress, w) = some (s, w)
  write_asked i b s (failed, w) = none
  write_asked i b s (_, w) = write_ended i b s (write_return i w)

  -- The `switch`.
  unfoldable pub dispatch : Op → ℕ → Worker → State → World → Option (State × World)
  unfolding start_read read_asked write_asked
  dispatch unused i b s w = start_read i b s w
  dispatch read_pending i b s w = read_asked i b s (aio_error i w)
  dispatch write_pending i b s w = write_asked i b s (aio_error i w)

  unfoldable pub turn : ℕ → State → World → Option (State × World)
  unfolding dispatch
  turn i s w = elim (get_elem? s.workers i) [ none ↦ some (s, w) | some b ↦ dispatch b.op i b s w ]

  -- The loop over the workers from `i` on, `n` of them.
  unfoldable pub pass : ℕ → ℕ → State → World → Option (State × World)
  unfolding turn
  pass zero i s w = some (s, w)
  pass (suc n) i s w = elim (turn i s w) [ none ↦ none | some (s', w') ↦ pass n (suc i) s' w' ]

  -- `for (;;)`, with fuel.
  unfoldable pub copy : ℕ → State → World → End World
  unfolding pass
  copy zero s w = out_of_fuel
  copy (suc k) s w = elim (pass aio_buff_num 0 s w) [
    | none ↦ exited
    | some (s', w') ↦ elim (s'.aio_op_num == 0) [
      | false ↦ copy k s' (aio_suspend w')
      | true ↦ elim (leb st_size s'.off) [ true ↦ finished w' | false ↦ copy k s' w' ]
    ]
  ]

  -- Behind the opening of the files.
  unfoldable pub aio_test1 : ℕ → World → End World
  unfolding copy
  aio_test1 fuel w =
      let idle : Worker = record {
        op = unused;
        last = false;
        aio_offset = 0;
        aio_nbytes = 0;
        bytes = [];
      } in
      copy fuel (record { off = 0; aio_op_num = 0; workers = replicate 8 idle }) w
