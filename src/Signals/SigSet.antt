-- ===== src/Signals/SigSet.antt =====
-- The signal set of process_relation.c (`sigset_t_m`, an `int` with one bit for each signal), and the
-- printing of its digits. The `int` is its bit pattern, below 2 ^ 32.
pub mod Laws
use Prim.Native.Nat.{bit_and, bit_or}
use unix_advanced_programing.Prelude.{
  ℕ, zero, suc, ◌+◌, ◌-◌, ◌^◌, Bool, true, false, List, [], ◌∷◌, ◌==◌, leb, if◌then◌else◌, ◌||◌,
}
use unix_advanced_programing.Prelude.Int.{ℤ, pos, negsuc}
use unix_advanced_programing.Prelude.Bits.{bit, bit_not}
use unix_advanced_programing.Posix.{Errno, einval}

-- `sigemptyset_m` and `sigfillset_m`
abbrev pub sigemptyset : ℕ
sigemptyset = 0

abbrev pub sigfillset : ℕ
sigfillset = bit_not 32 0

-- `NSIG_M` and `SIGBAD_M(signo)`: signo <= 0 || signo >= NSIG_M
abbrev pub nsig : ℕ
nsig = 32

pub sigbad : ℤ → Bool
sigbad (pos n) = n == 0 || leb nsig n
sigbad (negsuc n) = true

-- `1 << (signo - 1)`, for a signal that passed the test.
pub mask : ℤ → ℕ
mask (pos n) = 2 ^ (n - 1)
mask (negsuc n) = 0

-- 0 with the new set, or -1 with `errno` and the set as it was.
pub data SigResult : Type 0 where
  done : ℕ → SigResult
  refused : Errno → ℕ → SigResult

pub sigaddset : ℕ → ℤ → SigResult
unfolding sigbad mask
sigaddset set signo = if sigbad signo then refused einval set else done (bit_or set (mask signo))

pub sigdelset : ℕ → ℤ → SigResult
unfolding sigbad mask
sigdelset set signo =
    if sigbad signo then refused einval set else done (bit_and set (bit_not 32 (mask signo)))

-- The value returned, 0 or 1, stands where the new set does above; the set is not written.
pub sigismember : ℕ → ℤ → SigResult
unfolding sigbad mask
sigismember set signo =
    if sigbad signo
    then refused einval set
    else done (if bit_and set (mask signo) == 0 then 0 else 1)

-- `itoa_m`: the characters stored for the digits `ix`, ..., 0.
itoa_loop : ℕ → ℕ → List ℕ
itoa_loop num zero = []
itoa_loop num (suc ix) = (if bit ix num == 1 then b'1' else b'0') ∷ itoa_loop num ix

pub itoa : ℕ → List ℕ
unfolding itoa_loop
itoa num = itoa_loop num 32
