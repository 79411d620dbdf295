-- ===== src/Signals/SigSet/Laws.antt =====
-- The operations on the signal set, as operations on a set of signals.
use Prim.Native.Nat.{bit_and, bit_or}
use native.Mathlib.Nat.{pow-suc, one-le-pow}
use unix_advanced_programing.Prelude.{
  ℕ, zero, suc, ◌+◌, ◌-◌, ◌*◌, ◌^◌, ◌≤◌, ◌<◌, ◌≡◌, refl, true, false, List, [], ◌∷◌, ◌==◌, arith,
  if◌then◌else◌, length, ap, inl, inr, ◌⊎◌, Bool-cases, ==_iff,
}
use unix_advanced_programing.Prelude.Int.{ℤ, pos, negsuc}
use unix_advanced_programing.Prelude.Bits.{
  bit, bit_not, bit_le_one, bit-bit_or, bit-bit_and, bit-pow, bit-bit_not, bit_and-pow, bit_or-lt,
  bit_and-le, pow-lt, value, value-eq,
}
use unix_advanced_programing.Posix.{einval}
use unix_advanced_programing.Signals.SigSet.{
  sigbad, done, refused, sigaddset, sigdelset, sigismember, itoa_loop, itoa,
}

-- A signal number that the sets take.
abbrev pub IsSignal : ℕ → Type 0
IsSignal n = (0 < n) × (n < 32)

-- A number that the sets refuse.
abbrev pub NoSignal : ℤ → Type 0
NoSignal (pos n) = (n ≡ 0) ⊎ (32 ≤ n)
NoSignal (negsuc n) = Unit {0}

is_bad : (signo : ℤ) → NoSignal signo → sigbad signo ≡ true
unfolding sigbad
is_bad (pos n) h = ground arith
is_bad (negsuc n) h = refl

is_good : (n : ℕ) → IsSignal n → sigbad (pos n) ≡ false
unfolding sigbad
is_good n h = ground arith

bit_test : (b p : ℕ) → b ≤ 1 → 1 ≤ p → (if b * p == 0 then 0 else 1) ≡ b
bit_test zero p h one = ground arith
bit_test (suc zero) p h one = ground arith
bit_test (suc (suc b)) p h one = absurd (omega arith)

-- `sigismember_m` reads one bit.
sigismember-bit : (set n : ℕ) → IsSignal n → sigismember set (pos n) ≡ done (bit (n - 1) set)
unfolding sigismember
sigismember-bit set n h =
    rw (is_good n h, bit_and-pow (n - 1) set)
      (ap done (
        bit_test (bit (n - 1) set) (2 ^ (n - 1)) (bit_le_one (n - 1) set)
          (one-le-pow (n - 1) 2 (omega arith))))

bit_apart : (n m : ℕ) → IsSignal n → IsSignal m → ((m - 1) == (n - 1)) ≡ (n == m)
bit_apart n m hn hm = ground arith

-- `sigaddset_m` of a signal succeeds, and afterwards the set holds that signal and, besides, the
-- signals that it held.
pub sigaddset_lem :
    (set n m : ℕ)
    → set < 2 ^ 32
    → IsSignal n
    → IsSignal m
    → (set' : ℕ) × (sigaddset set (pos n) ≡ done set')
      × (set' < 2 ^ 32)
      × (sigismember set' (pos m) ≡ (if n == m then done 1 else sigismember set (pos m)))
unfolding sigaddset
sigaddset_lem set n m small hn hm = (
  bit_or set (2 ^ (n - 1)),
  rw (is_good n hn),
  bit_or-lt 32 set (2 ^ (n - 1)) small (pow-lt (n - 1) 32 (omega arith)),
  rw (sigismember-bit _ m hm, sigismember-bit set m hm, bit-bit_or, bit-pow, bit_apart n m hn hm)
      (ground (arith, bit_le_one (m - 1) set)),
)

-- `sigdelset_m` of a signal succeeds, and afterwards the set holds the signals that it held but for
-- that one.
pub sigdelset_lem :
    (set n m : ℕ)
    → set < 2 ^ 32
    → IsSignal n
    → IsSignal m
    → (set' : ℕ) × (sigdelset set (pos n) ≡ done set')
      × (set' < 2 ^ 32)
      × (sigismember set' (pos m) ≡ (if n == m then done 0 else sigismember set (pos m)))
unfolding sigdelset
sigdelset_lem set n m small hn hm = (
  bit_and set (bit_not 32 (2 ^ (n - 1))),
  rw (is_good n hn),
  omega (arith, bit_and-le 32 set (bit_not 32 (2 ^ (n - 1))) small),
  rw
      (
        sigismember-bit _ m hm,
        sigismember-bit set m hm,
        bit-bit_and,
        bit-bit_not 32 (m - 1) (2 ^ (n - 1)) (omega arith) (pow-lt (n - 1) 32 (omega arith)),
        bit-pow,
        bit_apart n m hn hm,
      )
      (ground (arith, bit_le_one (m - 1) set)),
)

-- A number that is no signal, zero or negative or 32 or more, is refused by all three with EINVAL, and
-- the set stays as it was.
pub sig_refused :
    (set : ℕ) (signo : ℤ)
    → NoSignal signo
    → (sigaddset set signo ≡ refused einval set)
      × (sigdelset set signo ≡ refused einval set)
      × (sigismember set signo ≡ refused einval set)
unfolding sigaddset sigdelset sigismember
sig_refused set signo none' = let bad = is_bad signo none' in (rw bad, rw bad, rw bad)

-- To read binary digits back.
pub parse : ℕ → List ℕ → ℕ
parse acc [] = acc
parse acc (c ∷ cs) = parse (acc * 2 + (c - b'0')) cs

parse-itoa_loop : (num k acc : ℕ) → parse acc (itoa_loop num k) ≡ acc * 2 ^ k + value k num
unfolding parse itoa_loop value
parse-itoa_loop num zero acc = omega arith
parse-itoa_loop num (suc k) acc = elim (Bool-cases (bit k num == 1)) [
  | inl one ↦ rw one (
      omega (
        arith,
        parse-itoa_loop num k (acc * 2 + 1),
        (==_iff _ _).0 one,
        pow-suc 2 k,
        ap (λ (t : ℕ). acc * t) (pow-suc 2 k),
        ap (λ (t : ℕ). t * 2 ^ k) ((==_iff _ _).0 one),
      ))
  | inr none' ↦
      let z : bit k num ≡ 0 = ground (arith, bit_le_one k num) in
      rw none' (
        omega (
          arith,
          parse-itoa_loop num k (acc * 2 + 0),
          pow-suc 2 k,
          ap (λ (t : ℕ). acc * t) (pow-suc 2 k),
          ap (λ (t : ℕ). t * 2 ^ k) z,
        ))
]

length-itoa_loop : (num k : ℕ) → length (itoa_loop num k) ≡ k
unfolding itoa_loop
length-itoa_loop num zero = refl
length-itoa_loop num (suc k) = ap suc (length-itoa_loop num k)

-- `itoa_m` stores 32 characters, which read as a binary number give the `int`'s bit pattern back.
pub parse-itoa : (num : ℕ) → num < 2 ^ 32 → (parse 0 (itoa num) ≡ num) × (length (itoa num) ≡ 32)
unfolding itoa
parse-itoa num small =
    (omega (arith, parse-itoa_loop num 32 0, value-eq 32 num small), length-itoa_loop num 32)
