-- ===== src/Unp/Wrappers/Transparent.antt =====
-- What the wrappers of util/unp.c add to the calls they wrap.
use Prim.Native.String.{String}
use unix_advanced_programing.Prelude.{
  ℕ, Bool, true, false, [], ◌∷◌, ◌++◌, if◌then◌else◌, ◌⊎◌, inl, inr, ◌≡◌, refl, ap, ◌∙◌, sym, subst,
  arith, ◌≤◌, ◌<◌, ◌^◌,
}
use unix_advanced_programing.Prelude.Int.{
  ℤ, pos, negsuc, is_neg, to_int, FitsInt, to_int_fits, to_int-is_neg,
}
use unix_advanced_programing.Posix.Printf.{line}
use unix_advanced_programing.Unp.Wrappers.Effects.{
  Console, Call, printf, err_sys, perform, checked_by, checked, narrowed,
}
use unix_advanced_programing.Unp.Wrappers.{read}

-- Documented result of a transfer of at most `count` bytes: -1, or the number of bytes.
abbrev pub IsTransfer : ℕ → ℤ → Type 0
IsTransfer count n = (n ≡ negsuc 0) ⊎ ((k : ℕ) × (n ≡ pos k) × (k ≤ count))

IsTransfer-FitsInt : (count : ℕ) (n : ℤ) → count < 2 ^ 31 → IsTransfer count n → FitsInt n
IsTransfer-FitsInt count n small (inl e) = subst FitsInt (sym e) (omega arith)
IsTransfer-FitsInt count n small (inr (k, e, le)) = subst FitsInt (sym e) (omega (arith, small, le))

err_sys_if :
    {W : Type 0} (msg : String) (b : Bool) (s : Console W)
    → ((if b then err_sys msg s else s).world ≡ s.world)
      × ((if b then err_sys msg s else s).printed
          ≡ (if b then s.printed ++ line msg [] ∷ [] else s.printed))
unfolding err_sys printf
err_sys_if msg true s = (refl, refl)
err_sys_if msg false s = (refl, refl)

module _ {W A : Type 0} (call : ℕ → A → ℕ → Call W) (fd : ℕ) (buf : A) (count : ℕ)
    (s : Console W) where
  behind :
      ((read call fd buf count s).1.world ≡ (call fd buf count s.world).1)
      × ((read call fd buf count s).1.printed ≡ (
          if is_neg (to_int (call fd buf count s.world).0)
          then s.printed ++ line "read err" [] ∷ []
          else s.printed))
  unfolding read narrowed checked checked_by perform
  behind =
      err_sys_if "read err" (is_neg (to_int (call fd buf count s.world).0))
        (record s { world = (call fd buf count s.world).1 })

  -- A `Read` of fewer than 2 ^ 31 bytes returns what `read` returned and leaves its world, and it prints
  -- one message where the result is negative and nothing elsewhere, whenever `read` returns -1 or a
  -- number of bytes up to `count`.
  pub read-exact :
      count < 2 ^ 31
      → IsTransfer count (call fd buf count s.world).0
      → ((read call fd buf count s).0 ≡ (call fd buf count s.world).0)
        × ((read call fd buf count s).1.world ≡ (call fd buf count s.world).1)
        × ((read call fd buf count s).1.printed ≡ (
            if is_neg (call fd buf count s.world).0
            then s.printed ++ line "read err" [] ∷ []
            else s.printed))
  unfolding read narrowed checked checked_by perform
  read-exact small t =
      let fits =
        to_int_fits (call fd buf count s.world).0
          (IsTransfer-FitsInt count (call fd buf count s.world).0 small t) in
      let (same, out) = behind in
      (
        fits,
        same,
        out ∙ ap (λ n. if is_neg n then s.printed ++ line "read err" [] ∷ [] else s.printed) fits,
      )

  -- Where `read` returns from 2 ^ 31 up to 2 ^ 32 - 1 bytes, `Read` returns a negative number and reports an
  -- error.
  pub read_narrowed :
      (n : ℕ)
      → 2 ^ 31 ≤ n
      → n < 2 ^ 32
      → (call fd buf count s.world).0 ≡ pos n
      → (is_neg (read call fd buf count s).0 ≡ true)
        × ((read call fd buf count s).1.printed ≡ s.printed ++ line "read err" [] ∷ [])
  unfolding read narrowed checked checked_by perform
  read_narrowed n big small e =
      let neg = ap is_neg (ap to_int e) ∙ to_int-is_neg n big small in
      (neg, behind.1 ∙ ap (λ b. if b then s.printed ++ line "read err" [] ∷ [] else s.printed) neg)
