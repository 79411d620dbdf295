-- ===== src/Threads/Refcount.antt =====
-- The counted object of UnixAdvancedProgramming/ch7_12_process/lock_test1.c. Each function changes `f_count`
-- in one critical section of `f_lock`, so that it is one step.
pub mod Counted
use unix_advanced_programing.Prelude.{
  ℕ, suc, Bool, true, false, Option, none, some, ◌==◌, if◌then◌else◌,
}
use unix_advanced_programing.Prelude.Int.{ℤ, pos, suc_ℤ, pred_ℤ, is_zero}

pub record Foo : Type 0 where
  pub f_count : ℤ
  pub f_id : ℕ
  pub freed : Bool

-- `malloc` gives memory or not, and `pthread_mutex_init` gives an error number.
unfoldable pub foo_alloc : (allocated : Bool) (init : ℕ) → ℕ → Option Foo
foo_alloc false init id = none
foo_alloc true init id =
    if init == 0 then some (record { f_count = pos 1; f_id = id; freed = false }) else none

unfoldable pub foo_hold : Foo → Foo
foo_hold fp = record fp { f_count = suc_ℤ fp.f_count }

-- The last release frees the object.
unfoldable pub foo_release : Foo → Foo
foo_release fp =
    let count = pred_ℤ fp.f_count in
    if is_zero count
    then record fp { f_count = count; freed = true }
    else record fp { f_count = count }
