-- ===== src/Network/Echo/Sums.antt =====
-- The answers of `bin_sum` of echo_tcp_server_v1.c.
use native.Mathlib.Nat.{pow-suc}
use unix_advanced_programing.Prelude.{
  ℕ, zero, suc, ◌+◌, ◌-◌, ◌*◌, ◌/◌, ◌%◌, ◌^◌, ◌<◌, ◌≡◌, refl, ap, subst, ◌∙◌, List, ◌++◌, arith,
  length, take, drop, take-append_self, drop-append, take_all,
}
use unix_advanced_programing.Network.Echo.{long_of, bytes_of, sum_reply}

length-bytes_of : (n x : ℕ) → length (bytes_of n x) ≡ n
unfolding bytes_of
length-bytes_of zero x = refl
length-bytes_of (suc n) x = ap suc (length-bytes_of n (x / 256))

long_of-bytes_of : (n x : ℕ) → x < 256 ^ n → long_of (bytes_of n x) ≡ x
unfolding long_of bytes_of
long_of-bytes_of zero x h = omega (arith, h)
long_of-bytes_of (suc n) x h =
    let small : x < 256 ^ n * 256 = subst (λ m. x < m) (pow-suc 256 n) h in
    omega (arith, long_of-bytes_of n (x / 256) (omega arith))

take_word : (xs ys : List ℕ) → length xs ≡ 8 → take 8 (xs ++ ys) ≡ xs
take_word xs ys e = subst (λ n. take n (xs ++ ys) ≡ xs) e (take-append_self xs ys)

drop_word : (xs ys : List ℕ) → length xs ≡ 8 → drop 8 (xs ++ ys) ≡ ys
drop_word xs ys e =
    let none_left : 8 - length xs ≡ 0 = omega (arith, e) in
    drop-append 8 xs ys (omega (arith, e)) ∙ ap (λ n. drop n ys) none_left

reply :
    (a b : ℕ)
    → a < 2 ^ 64
    → b < 2 ^ 64
    → sum_reply (bytes_of 8 a ++ bytes_of 8 b) ≡ bytes_of 8 ((a + b) % 2 ^ 64)
unfolding sum_reply
reply a b ha hb =
    let first = take_word (bytes_of 8 a) (bytes_of 8 b) (length-bytes_of 8 a) in
    let behind = drop_word (bytes_of 8 a) (bytes_of 8 b) (length-bytes_of 8 a) in
    let second =
      ap (λ (l : List ℕ). take 8 l) behind
      ∙ take_all 8 (bytes_of 8 b) (omega (arith, length-bytes_of 8 b)) in
    ap (λ (x : ℕ). bytes_of 8 (x % 2 ^ 64))
      (omega (
        arith,
        ap long_of first,
        ap long_of second,
        long_of-bytes_of 8 a (omega arith),
        long_of-bytes_of 8 b (omega arith),
      ))

-- The answer to the bytes of two numbers are the bytes of their sum modulo 2^64, eight of them, and
-- they stand for it.
pub sum_reply-bytes_of :
    (a b : ℕ)
    → a < 2 ^ 64
    → b < 2 ^ 64
    → (sum_reply (bytes_of 8 a ++ bytes_of 8 b) ≡ bytes_of 8 ((a + b) % 2 ^ 64))
      × (long_of (sum_reply (bytes_of 8 a ++ bytes_of 8 b)) ≡ (a + b) % 2 ^ 64)
      × (length (sum_reply (bytes_of 8 a ++ bytes_of 8 b)) ≡ 8)
sum_reply-bytes_of a b ha hb =
    let e = reply a b ha hb in
    (
      e,
      ap long_of e ∙ long_of-bytes_of 8 ((a + b) % 2 ^ 64) (omega arith),
      ap (λ (l : List ℕ). length l) e ∙ length-bytes_of 8 ((a + b) % 2 ^ 64),
    )
