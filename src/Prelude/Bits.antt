-- ===== src/Prelude/Bits.antt =====
-- The binary digits of a number, and those of `|`, `&`, `~` and `1 << k`.
mod Step
use Step.{bit_or_step, bit_and_step}
use Prim.Native.Nat.{
  ℕ, zero, suc, ◌+◌, ◌-◌, ◌*◌, ◌/◌, ◌%◌, ◌^◌, ◌≤◌, ◌<◌, min, max, bit_and, bit_or, bit_and-bitwise,
}
use mathlib.Core.Path.{◌≡◌, refl, ap}
use native.Mathlib.Nat.{pow-suc, one-le-pow}
use native.Mathlib.Omega.{arith}
use unix_advanced_programing.Prelude.Tests.{◌==◌, if◌then◌else◌}

-- Digit `k` of `x`.
pub bit : ℕ → ℕ → ℕ
bit zero x = x % 2
bit (suc k) x = bit k (x / 2)

-- `~x` at a width of `n` bits.
abbrev pub bit_not : ℕ → ℕ → ℕ
bit_not n x = 2 ^ n - 1 - x

pub bit_le_one : (k x : ℕ) → bit k x ≤ 1
unfolding bit
bit_le_one zero x = omega arith
bit_le_one (suc k) x = bit_le_one k (x / 2)

pub bit-bit_or : (k a b : ℕ) → bit k (bit_or a b) ≡ max (bit k a) (bit k b)
unfolding bit
bit-bit_or zero a b = omega (arith, bit_or_step a b)
bit-bit_or (suc k) a b =
    let half : bit_or a b / 2 ≡ bit_or (a / 2) (b / 2) = omega (arith, bit_or_step a b) in
    rw half (bit-bit_or k (a / 2) (b / 2))

pub bit-bit_and : (k a b : ℕ) → bit k (bit_and a b) ≡ min (bit k a) (bit k b)
unfolding bit
bit-bit_and zero a b = omega (arith, bit_and_step a b)
bit-bit_and (suc k) a b =
    let half : bit_and a b / 2 ≡ bit_and (a / 2) (b / 2) = omega (arith, bit_and_step a b) in
    rw half (bit-bit_and k (a / 2) (b / 2))

half_pow : (k : ℕ) → 2 ^ suc k / 2 ≡ 2 ^ k
half_pow k = omega (arith, pow-suc 2 k)

bit-zero : (k : ℕ) → bit k 0 ≡ 0
unfolding bit
bit-zero zero = refl
bit-zero (suc k) = bit-zero k

pub bit-pow : (j k : ℕ) → bit j (2 ^ k) ≡ (if j == k then 1 else 0)
unfolding bit
bit-pow zero zero = refl
bit-pow zero (suc k) = ground (arith, pow-suc 2 k)
bit-pow (suc j) zero = ground (arith, bit-zero j)
bit-pow (suc j) (suc k) = rw (half_pow k) (ground (arith, bit-pow j k))

pub bit-bit_not : (n k x : ℕ) → k < n → x < 2 ^ n → bit k (bit_not n x) ≡ 1 - bit k x
unfolding bit
bit-bit_not zero k x h lt = elim h [ ]
bit-bit_not (suc n) zero x h lt = omega (arith, pow-suc 2 n, one-le-pow n 2)
bit-bit_not (suc n) (suc k) x h lt =
    let half : bit_not (suc n) x / 2 ≡ bit_not n (x / 2) = omega (arith, pow-suc 2 n) in
    rw half (bit-bit_not n k (x / 2) (omega arith) (omega (arith, pow-suc 2 n)))

bit_and-zero : (n a : ℕ) → a ≤ n → bit_and a 0 ≡ 0
bit_and-zero n zero h = refl
bit_and-zero zero (suc a) h = absurd (omega arith)
bit_and-zero (suc n) (suc a) h =
    omega (arith, bit_and_step (suc a) 0, bit_and-zero n (suc a / 2) (omega arith))

-- A mask of one bit leaves that bit.
pub bit_and-pow : (k x : ℕ) → bit_and x (2 ^ k) ≡ bit k x * 2 ^ k
unfolding bit
bit_and-pow zero x = omega (arith, bit_and_step x 1, bit_and-zero (x / 2) (x / 2) (omega arith))
bit_and-pow (suc k) x = omega (
  arith,
  bit_and_step x (2 ^ suc k),
  ap (λ (t : ℕ). bit_and (x / 2) t) (half_pow k),
  half_pow k,
  bit_and-pow k (x / 2),
  pow-suc 2 k,
  ap (λ (t : ℕ). bit k (x / 2) * t) (pow-suc 2 k),
)

-- Numbers are equal when all their digits are; those of `n` bits when the first `n` are.
pub eq_of_bits : (n x y : ℕ) → x < 2 ^ n → y < 2 ^ n → ((k : ℕ) → k < n → bit k x ≡ bit k y) → x ≡ y
unfolding bit
eq_of_bits zero x y hx hy same = omega arith
eq_of_bits (suc n) x y hx hy same = omega (
  arith,
  same 0 (omega arith),
  eq_of_bits n (x / 2) (y / 2) (omega (arith, pow-suc 2 n)) (omega (arith, pow-suc 2 n))
      (λ k h. same (suc k) (omega arith)),
)

-- The operations stay within the width.
pub bit_or-lt : (n a b : ℕ) → a < 2 ^ n → b < 2 ^ n → bit_or a b < 2 ^ n
bit_or-lt zero zero zero ha hb = omega arith
bit_or-lt zero zero (suc b) ha hb = absurd (omega arith)
bit_or-lt zero (suc a) b ha hb = absurd (omega arith)
bit_or-lt (suc n) a b ha hb = omega (
  arith,
  bit_or_step a b,
  pow-suc 2 n,
  bit_or-lt n (a / 2) (b / 2) (omega (arith, pow-suc 2 n)) (omega (arith, pow-suc 2 n)),
)

pub bit_and-le : (n a b : ℕ) → a < 2 ^ n → bit_and a b ≤ a
bit_and-le zero zero b ha = omega (arith, bit_and-bitwise 0 b)
bit_and-le zero (suc a) b ha = absurd (omega arith)
bit_and-le (suc n) a b ha = omega (
  arith,
  bit_and_step a b,
  pow-suc 2 n,
  bit_and-le n (a / 2) (b / 2) (omega (arith, pow-suc 2 n)),
)

pub pow-lt : (j k : ℕ) → j < k → 2 ^ j < 2 ^ k
pow-lt j zero h = elim h [ ]
pow-lt zero (suc k) h = omega (arith, pow-suc 2 k, one-le-pow k 2)
pow-lt (suc j) (suc k) h = omega (arith, pow-suc 2 k, pow-suc 2 j, pow-lt j k (omega arith))

-- The number that the first `n` digits make.
unfoldable pub value : ℕ → ℕ → ℕ
value zero x = 0
value (suc n) x = bit n x * 2 ^ n + value n x

value-half : (n x : ℕ) → value (suc n) x ≡ value n (x / 2) * 2 + x % 2
unfolding value bit
value-half zero x = omega arith
value-half (suc n) x =
    omega (arith, value-half n x, pow-suc 2 n, ap (λ (t : ℕ). bit n (x / 2) * t) (pow-suc 2 n))

pub value-eq : (n x : ℕ) → x < 2 ^ n → value n x ≡ x
unfolding value
value-eq zero x h = omega arith
value-eq (suc n) x h =
    omega (arith, value-half n x, value-eq n (x / 2) (omega (arith, pow-suc 2 n)))
