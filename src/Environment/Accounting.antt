-- ===== src/Environment/Accounting.antt =====
-- `compt2ulong` of process_control.c.
use native.Mathlib.Nat.{pow-suc, mul_assoc}
use unix_advanced_programing.Prelude.{ℕ, zero, suc, ◌*◌, ◌/◌, ◌%◌, ◌^◌, ◌<◌, ◌≡◌, ap, ◌∙◌, arith}
use unix_advanced_programing.Environment.{scale, compt2ulong}

eight : (e : ℕ) → 8 * 8 ^ e ≡ 8 ^ suc e
eight e = omega (arith, pow-suc 8 e)

scale_lem : (e v : ℕ) → scale e v ≡ v * 8 ^ e
unfolding scale
scale_lem zero v = omega arith
scale_lem (suc e) v = scale_lem e (v * 8) ∙ mul_assoc v 8 (8 ^ e) ∙ ap (λ (m : ℕ). v * m) (eight e)

bounded : (e v : ℕ) → e < 8 → v < 2 ^ 13 → v * 8 ^ e < 2 ^ 34
bounded zero v he hv = omega arith
bounded (suc zero) v he hv = omega arith
bounded (suc (suc zero)) v he hv = omega arith
bounded (suc (suc (suc zero))) v he hv = omega arith
bounded (suc (suc (suc (suc zero)))) v he hv = omega arith
bounded (suc (suc (suc (suc (suc zero))))) v he hv = omega arith
bounded (suc (suc (suc (suc (suc (suc zero)))))) v he hv = omega arith
bounded (suc (suc (suc (suc (suc (suc (suc zero))))))) v he hv = omega arith
bounded (suc (suc (suc (suc (suc (suc (suc (suc e)))))))) v he hv = absurd (omega arith)

-- A `comp_t` stands for its low 13 bits times 8 to the power of its high three; the value fits 34 bits,
-- so that nothing wraps in an `unsigned long`.
pub compt2ulong-value :
    (x : ℕ)
    → x < 2 ^ 16
    → (compt2ulong x ≡ x % 2 ^ 13 * 8 ^ (x / 2 ^ 13)) × (compt2ulong x < 2 ^ 34)
unfolding compt2ulong
compt2ulong-value x h =
    let small : x / 2 ^ 13 < 8 = omega arith in
    let e : compt2ulong x ≡ x % 2 ^ 13 * 8 ^ (x / 2 ^ 13) =
      scale_lem (x / 2 ^ 13 % 8) (x % 2 ^ 13) ∙ ap (λ (k : ℕ). x % 2 ^ 13 * 8 ^ k) (omega arith) in
    (e, rw e (bounded (x / 2 ^ 13) (x % 2 ^ 13) small (omega arith)))
