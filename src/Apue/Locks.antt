-- ===== src/Apue/Locks.antt =====
-- The record locks of common/apue.c: `lock_reg`, `lock_test` and `lock_file`. `fcntl` on a lock is an
-- argument: it returns its result and what it leaves in the `struct flock`.
use unix_advanced_programing.Prelude.{ℕ, Bool, ◌==◌, if◌then◌else◌, ◌≡◌, refl}
use unix_advanced_programing.Prelude.Int.{ℤ, pos, is_neg}

abbrev pub f_wrlck : ℕ
f_wrlck = 1

abbrev pub f_unlck : ℕ
f_unlck = 2

abbrev pub f_getlk : ℕ
f_getlk = 5

abbrev pub f_setlk : ℕ
f_setlk = 6

abbrev pub seek_set : ℕ
seek_set = 0

-- `struct flock`; offsets and lengths are `off_t`.
pub record Flock : Type 0 where
  pub l_type : ℕ
  pub l_start : ℤ
  pub l_whence : ℕ
  pub l_len : ℤ
  pub l_pid : ℤ

-- `fcntl(fd, cmd, &lock)`
abbrev pub LockCall : Type 0 → Type 0
LockCall W = ℕ → ℕ → Flock → W → ℤ × Flock × W

-- `garbage` is the `l_pid` that the local variable happens to hold.
unfoldable pub lock_reg :
    {W : Type 0}
    → LockCall W
    → (garbage : ℤ) → (fd cmd type : ℕ) → (offset : ℤ) → (whence : ℕ) → (len : ℤ) → W
    → ℤ × W
lock_reg fcntl garbage fd cmd type offset whence len w =
    let lock : Flock = record {
      l_type = type;
      l_start = offset;
      l_whence = whence;
      l_len = len;
      l_pid = garbage;
    } in
    let (n, lock', w') = fcntl fd cmd lock w in (n, w')

-- The result, and whether `err_sys` printed its message; the function goes on behind it.
unfoldable pub lock_test :
    {W : Type 0}
    → LockCall W
    → (garbage : ℤ) → (fd type : ℕ) → (offset : ℤ) → (whence : ℕ) → (len : ℤ) → W
    → ℤ × Bool × W
lock_test fcntl garbage fd type offset whence len w =
    let lock : Flock = record {
      l_type = type;
      l_start = offset;
      l_whence = whence;
      l_len = len;
      l_pid = garbage;
    } in
    let (n, lock', w') = fcntl fd f_getlk lock w in
    ((if lock'.l_type == f_unlck then pos 0 else lock'.l_pid), is_neg n, w')

unfoldable pub lock_file : {W : Type 0} → LockCall W → (garbage : ℤ) → ℕ → W → ℤ × W
lock_file fcntl garbage fd w =
    let fl : Flock = record {
      l_type = f_wrlck;
      l_start = pos 0;
      l_whence = seek_set;
      l_len = pos 0;
      l_pid = garbage;
    } in
    let (n, fl', w') = fcntl fd f_setlk fl w in (n, w')

-- `lock_file` is `lock_reg` for a write lock on the whole file.
pub lock_file-lock_reg :
    {W : Type 0} (fcntl : LockCall W) (garbage : ℤ) (fd : ℕ) (w : W)
    → lock_file fcntl garbage fd w
      ≡ lock_reg fcntl garbage fd f_setlk f_wrlck (pos 0) seek_set (pos 0) w
unfolding lock_file lock_reg
lock_file-lock_reg fcntl garbage fd w = refl
