-- ===== src/Unp/SockOpt/Config.antt =====
-- The descriptors that `print_socket_config` leaves open.
use unix_advanced_programing.Prelude.{
  ℕ, suc, Bool, true, false, Option, none, some, List, [], ◌∷◌, ◌++◌, ◌≡◌, refl, ap, ◌∙◌, subst,
  if◌then◌else◌,
}
use unix_advanced_programing.Prelude.Int.{ℤ, is_neg}
use unix_advanced_programing.Posix.Printf.{text, line}
use unix_advanced_programing.Unp.Wrappers.Effects.{
  Console, Call, printf, err_sys, perform, checked, checked_by,
}
use unix_advanced_programing.Unp.SockOpt.{
  Val, SockOpts, SockCalls, config_close, config_value, config_socket, config_step, config_loop,
}

-- Calls that count their open descriptors, where `socket` and `close` succeed.
pub record IsSockets {W : Type 0} (k : SockCalls W) (opened : W → ℕ) : Type 0 where
  pub made : (level : _) (w : W) → opened (k.socket level w).1 ≡ suc (opened w)
  pub kept : (fd : ℤ) (opts : SockOpts) (w : W) → opened (k.getsockopt fd opts w).1 ≡ opened w
  pub closed : (fd : ℤ) (w : W) (n : ℕ) → opened w ≡ suc n → opened (k.close fd w).1 ≡ n

-- What is open behind the loop, over `n`: nothing, or one descriptor where it stopped early.
abbrev pub Held : {W : Type 0} → (W → ℕ) → ℕ → Bool × Console W → Type 0
Held opened n (true, s) = opened s.world ≡ n
Held opened n (false, s) = opened s.world ≡ suc n

err_sys-world :
    {W : Type 0} (msg : _) (b : Bool) (s : Console W)
    → (if b then err_sys msg s else s).world ≡ s.world
unfolding err_sys printf
err_sys-world msg true s = refl
err_sys-world msg false s = refl

checked-world :
    {W : Type 0} (msg : _) (call : Call W) (s : Console W)
    → (checked msg call s).1.world ≡ (call s.world).1
unfolding checked checked_by perform
checked-world msg call s =
    err_sys-world msg (is_neg (call s.world).0) (record s { world = (call s.world).1 })

module _ {W : Type 0} {k : SockCalls W} {opened : W → ℕ} (law : IsSockets k opened) where
  config_value-Held :
      (opts : SockOpts) (n : ℕ) (fd : ℤ) (r : Option (Val × ℕ) × Console W)
      → opened r.1.world ≡ suc n
      → Held opened n (config_value k opts fd r)
  unfolding config_value config_close printf
  config_value-Held opts n fd (none, s) e = e
  config_value-Held opts n fd (some (v, len), s) e =
      let s' = record s {
        printed = s.printed ++ line "default = " [] ∷ opts.print_opt_val_str v len ∷ [];
      } in
      ap opened (checked-world "close err" (k.close fd) s') ∙ law.closed fd s.world n e

  config_step-Held :
      (opts : SockOpts) (s : Console W) → Held opened (opened s.world) (config_step k opts s)
  unfolding config_step config_socket perform printf
  config_step-Held opts s =
      let s0 = printf "%s  " (text opts.opt_str ∷ []) s in
      let r = checked "socket err" (k.socket opts.opt_level) s0 in
      config_value-Held opts (opened s.world) r.0 (perform (k.getsockopt r.0 opts) r.1) (
        law.kept r.0 opts r.1.world
        ∙ ap opened (checked-world "socket err" (k.socket opts.opt_level) s0)
        ∙ law.made opts.opt_level s.world)

  rest-Held :
      (rest : List SockOpts) (n : ℕ) (p : Bool × Console W)
      → Held opened n p
      → ((s : Console W) → Held opened (opened s.world) (config_loop k rest s))
      → Held opened n (if p.0 then config_loop k rest p.1 else (false, p.1))
  rest-Held rest n (true, s) h next = subst (λ m. Held opened m (config_loop k rest s)) h (next s)
  rest-Held rest n (false, s) h next = h

  -- Where the calls succeed but for `getsockopt`, a loop over any table that comes to its end leaves no more
  -- descriptors open than before, and a loop that an error of `getsockopt` ends leaves one more.
  pub config_loop-Held :
      (table : List SockOpts) (s : Console W) → Held opened (opened s.world) (config_loop k table s)
  unfolding config_loop
  config_loop-Held [] s = refl
  config_loop-Held (opts ∷ rest) s =
      rest-Held rest (opened s.world) (config_step k opts s) (config_step-Held opts s)
        (λ s'. config_loop-Held rest s')
