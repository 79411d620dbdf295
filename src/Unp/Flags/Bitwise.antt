-- ===== src/Unp/Flags/Bitwise.antt =====
-- The functions of Unp/Flags.antt bit by bit.
use Prim.Native.Nat.{bit_and, bit_or, max}
use native.Mathlib.Nat.{one-le-pow}
use unix_advanced_programing.Prelude.{
  ℕ, ◌-◌, ◌^◌, ◌<◌, min, Bool, true, false, Option, none, some, if◌then◌else◌, ◌≡◌, refl, subst,
  ◌==◌, ◌⊎◌, inl, inr, arith, ap, ◌∙◌,
}
use unix_advanced_programing.Prelude.Bits.{
  bit, bit_not, bit-bit_or, bit-bit_and, bit-bit_not, bit-pow, bit_and-pow, bit_le_one,
}
use unix_advanced_programing.Unp.Flags.{
  Fcntl, Ending, returned, quit, put_fl, write_fl, test_fl, get_fl, set_fl, clear_fl,
}

-- Documented behaviour of `fcntl`: `status` is the descriptor's flag word, and F_SETFL leaves the bits
-- that are not `settable` (the access mode and the creation flags) as they are.
pub record IsFcntl {W : Type 0} (k : Fcntl W) (status : W → ℕ) (settable : ℕ → Bool) : Type 0 where
  pub reads : (w : W) (v : ℕ) → (k.getfl w).0 ≡ some v → v ≡ status w
  pub kept : (w : W) → status (k.getfl w).1 ≡ status w
  pub writes :
      (v : ℕ) (w : W)
      → (k.setfl v w).0 ≡ true
      → (i : ℕ)
      → bit i (status (k.setfl v w).1) ≡ (if settable i then bit i v else bit i (status w))
  pub refuses : (v : ℕ) (w : W) → (k.setfl v w).0 ≡ false → status (k.setfl v w).1 ≡ status w

-- What a flag writer leaves: the old word `s`, unless it wrote; then bit `i` is `f i`, where it is settable.
abbrev pub Leaves : {W : Type 0} → (W → ℕ) → (ℕ → Bool) → ℕ → (ℕ → ℕ) → Ending Bool × W → Type 0
Leaves status settable s f (quit, w) = status w ≡ s
Leaves status settable s f (returned false, w) = status w ≡ s
Leaves status settable s f (returned true, w) =
    (i : ℕ) → i < 32 → bit i (status w) ≡ (if settable i then f i else bit i s)

module _ {W : Type 0} {k : Fcntl W} {status : W → ℕ} {settable : ℕ → Bool}
    (law : IsFcntl k status settable) where
  ended-Leaves :
      (s : ℕ) (f : ℕ → ℕ) (r : Bool × W)
      → (r.0 ≡ true → (i : ℕ) → i < 32 → bit i (status r.1) ≡ (if settable i then f i else bit i s))
      → (r.0 ≡ false → status r.1 ≡ s)
      → Leaves status settable s f (returned r.0, r.1)
  ended-Leaves s f (true, w) done lost = done refl
  ended-Leaves s f (false, w) done lost = lost refl

  write-Leaves :
      (change : ℕ → ℕ) (f : ℕ → ℕ)
      → (s : ℕ) → ((i : ℕ) → i < 32 → bit i (change s) ≡ f i)
      → (p : Option ℕ × W) → status p.1 ≡ s
      → ((v : ℕ) → p.0 ≡ some v → v ≡ s)
      → Leaves status settable s f (write_fl k change p)
  unfolding write_fl put_fl
  write-Leaves change f s bits (none, w) same read = same
  write-Leaves change f s bits (some v, w) same read =
      ended-Leaves s f (k.setfl (change v) w)
        (λ e i lt.
          law.writes (change v) w e i
          ∙ ap (λ x. if settable i then x else bit i (status w))
              (ap (λ x. bit i (change x)) (read v refl) ∙ bits i lt)
          ∙ ap (λ x. if settable i then f i else bit i x) same)
        (λ e. law.refuses (change v) w e ∙ same)

  -- `set_fl` sets the bits of `flags` and no others, as far as they can be set. Where `fcntl` fails it
  -- changes nothing.
  pub set_fl-Leaves :
      (flags : ℕ) (w : W)
      → Leaves status settable
          (status w)
          (λ i. max (bit i (status w)) (bit i flags))
          (set_fl k flags w)
  unfolding set_fl
  set_fl-Leaves flags w =
      write-Leaves (λ val. bit_or val flags) (λ i. max (bit i (status w)) (bit i flags)) (status w)
        (λ i lt. bit-bit_or i (status w) flags) (k.getfl w) (law.kept w) (law.reads w)

  -- `clear_fl` clears the bits of `flags` and no others, as far as they can be cleared. Where `fcntl` fails
  -- it changes nothing.
  pub clear_fl-Leaves :
      (flags : ℕ) (w : W)
      → flags < 2 ^ 32
      → Leaves status settable
          (status w)
          (λ i. min (bit i (status w)) (1 - bit i flags))
          (clear_fl k flags w)
  unfolding clear_fl
  clear_fl-Leaves flags w small =
      write-Leaves (λ val. bit_and val (bit_not 32 flags))
        (λ i. min (bit i (status w)) (1 - bit i flags)) (status w)
        (λ i lt.
          bit-bit_and i (status w) (bit_not 32 flags)
          ∙ ap (min (bit i (status w))) (bit-bit_not 32 i flags lt small))
        (k.getfl w) (law.kept w) (law.reads w)

  bit-pow_self : (i : ℕ) → bit i (2 ^ i) ≡ 1
  bit-pow_self i = ground (arith, bit-pow i i)

  test-shown : (i v : ℕ) (w : W) → bit i v ≡ 1 → (test_fl k (2 ^ i) (some v, w)).0 ≡ returned true
  unfolding test_fl
  test-shown i v w one =
      let e : (bit_and v (2 ^ i) == 0) ≡ false =
        ground (arith, bit_and-pow i v, one, one-le-pow i 2) in
      rw e refl

  shown :
      (i s : ℕ) (p : Option ℕ × W)
      → bit i s ≡ 1
      → ((v : ℕ) → p.0 ≡ some v → v ≡ s)
      → ((test_fl k (2 ^ i) p).0 ≡ returned true) ⊎ ((test_fl k (2 ^ i) p).0 ≡ quit)
  unfolding test_fl
  shown i s (none, w) one read = inr refl
  shown i s (some v, w) one read = inl (test-shown i v w (ap (bit i) (read v refl) ∙ one))

  -- Behind a `set_fl` of one settable flag that wrote, `get_fl` of the flag is true, unless F_GETFL fails.
  pub get_fl-set_fl :
      (i : ℕ) (w w' : W)
      → i < 32
      → settable i ≡ true
      → set_fl k (2 ^ i) w ≡ (returned true, w')
      → ((get_fl k (2 ^ i) w').0 ≡ returned true) ⊎ ((get_fl k (2 ^ i) w').0 ≡ quit)
  unfolding get_fl
  get_fl-set_fl i w w' lt can wrote =
      let f : ℕ → ℕ = λ j. max (bit j (status w)) (bit j (2 ^ i)) in
      let left : Leaves status settable (status w) f (returned true, w') =
        subst (Leaves status settable (status w) f) wrote (set_fl-Leaves (2 ^ i) w) in
      let one : bit i (status w') ≡ 1 =
        left i lt
        ∙ ap (λ b. if b then f i else bit i (status w)) can
        ∙ omega (arith, bit_le_one i (status w), bit-pow_self i) in
      shown i (status w') (k.getfl w') one (law.reads w')
