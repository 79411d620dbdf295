-- ===== src/Network/ConnectTimeout/Restores.antt =====
-- The alarm, the handler and the socket behind `connect_timeo`.
use unix_advanced_programing.Prelude.{
  ℕ, zero, suc, ◌≡◌, ◌≢◌, ◌∙◌, refl, sym, ap, subst, Bool, true, false, some, ◌==◌, if◌then◌else◌,
  ==_iff,
}
use unix_advanced_programing.Prelude.Int.{ℤ, pos, negsuc}
use unix_advanced_programing.Posix.{Errno, eintr, enametoolong, einval, other}
use unix_advanced_programing.Unp.Wrappers.{sigalrm, signal, signal_flags}
use unix_advanced_programing.Unp.Wrappers.Effects.{Console, printf, perform}
use unix_advanced_programing.Network.ConnectTimeout.{
  etimedout, Calls, on_alarm, returned_by, translated, connected, warned, disarmed, connect_timeo,
}

-- Documented behaviour of the calls. `action` has the handlers, `pending` is the time to the alarm, with 0
-- for no alarm, and `opened` are the open descriptors. An alarm may go off during `connect`.
pub record IsKernel (c : Calls) : Type 0 where
  pub action : c.World → ℕ → c.Handler
  pub pending : c.World → ℕ
  pub opened : c.World → ℕ → Bool
  pub sigaction_law :
      (h : c.Handler) (flags : ℕ) (w : c.World)
      → ((c.sigaction sigalrm h flags w).0 ≡ some (action w sigalrm))
        × ((t : ℕ)
            → action (c.sigaction sigalrm h flags w).1 t ≡ (if t == sigalrm then h else action w t))
        × (pending (c.sigaction sigalrm h flags w).1 ≡ pending w)
        × ((m : ℕ) → opened (c.sigaction sigalrm h flags w).1 m ≡ opened w m)
        × (c.errno (c.sigaction sigalrm h flags w).1 ≡ c.errno w)
  pub alarm_law :
      (n : ℕ) (w : c.World)
      → ((c.alarm n w).0 ≡ pending w)
        × ((t : ℕ) → action (c.alarm n w).1 t ≡ action w t)
        × (pending (c.alarm n w).1 ≡ n)
        × ((m : ℕ) → opened (c.alarm n w).1 m ≡ opened w m)
        × (c.errno (c.alarm n w).1 ≡ c.errno w)
  pub connect_law :
      (fd : ℕ) (w : c.World)
      → ((t : ℕ) → action (c.connect fd w).1 t ≡ action w t)
        × ((m : ℕ) → opened (c.connect fd w).1 m ≡ opened w m)
  pub close_law :
      (fd : ℕ) (w : c.World)
      → ((t : ℕ) → action (c.close fd w) t ≡ action w t)
        × ((m : ℕ) → opened (c.close fd w) m ≡ (if m == fd then false else opened w m))
  pub errno_law :
      (e : Errno) (w : c.World)
      → ((t : ℕ) → action (c.set_errno e w) t ≡ action w t)
        × ((m : ℕ) → opened (c.set_errno e w) m ≡ opened w m)
        × (c.errno (c.set_errno e w) ≡ e)

module _ {c : Calls} (k : IsKernel c) where
  open c use {
    World, Handler, connect_alarm_handler, sigaction, alarm, connect, close, errno, set_errno,
  }
  open k use {action, pending, opened, sigaction_law, alarm_law, connect_law, close_law, errno_law}

  -- The socket and `errno` for the result of `connect`: it stays open, or is closed.
  abbrev pub Ended : ℕ → ℤ → World → World → Type 0
  Ended fd (pos n) w v = (m : ℕ) → opened v m ≡ opened w m
  Ended fd (negsuc n) w v =
      ((m : ℕ) → opened v m ≡ (if m == fd then false else opened w m)) × (errno v ≢ eintr)

  translated-Ended :
      (fd n : ℕ) (e : Errno) (w v : World)
      → errno v ≡ e
      → ((t : ℕ) → action v t ≡ action w t)
      → ((m : ℕ) → opened v m ≡ (if m == fd then false else opened w m))
      → Ended fd (negsuc n) w (translated c e v)
        × ((t : ℕ) → action (translated c e v) t ≡ action w t)
  unfolding translated
  translated-Ended fd n eintr w v e acts shut =
      let (act, open_as, is) = errno_law etimedout v in
      (
        ((λ m. open_as m ∙ shut m), (λ bad. let no : etimedout ≡ eintr = sym is ∙ bad in cc)),
        λ t. act t ∙ acts t,
      )
  translated-Ended fd n enametoolong w v e acts shut = ((shut, (λ bad. cc)), acts)
  translated-Ended fd n einval w v e acts shut = ((shut, (λ bad. cc)), acts)
  translated-Ended fd n (other m) w v e acts shut = ((shut, (λ bad. cc)), acts)

  connected-Ended :
      (fd : ℕ) (n : ℤ) (w : World)
      → Ended fd n w (connected c fd n w) × ((t : ℕ) → action (connected c fd n w) t ≡ action w t)
  unfolding connected
  connected-Ended fd (pos n) w = ((λ m. refl), (λ t. refl))
  connected-Ended fd (negsuc n) w =
      let (act, shut) = close_law fd w in
      translated-Ended fd n (errno (close fd w)) w (close fd w) refl act shut

  -- The handler, the alarm and the descriptors behind `Signal`.
  on_alarm-set :
      (h : Handler) (w : World)
      → ((on_alarm c h w).0 ≡ some (action w sigalrm))
        × ((t : ℕ) → action (on_alarm c h w).1 t ≡ (if t == sigalrm then h else action w t))
        × (pending (on_alarm c h w).1 ≡ pending w)
        × ((m : ℕ) → opened (on_alarm c h w).1 m ≡ opened w m)
        × (errno (on_alarm c h w).1 ≡ errno w)
  unfolding on_alarm signal
  on_alarm-set h w = sigaction_law h (signal_flags c.sa_interrupt c.sa_restart sigalrm) w

  disarmed-set :
      (h : Handler) (w : World)
      → ((t : ℕ) → action (disarmed c h w) t ≡ (if t == sigalrm then h else action w t))
        × (pending (disarmed c h w) ≡ 0)
        × ((m : ℕ) → opened (disarmed c h w) m ≡ opened w m)
        × (errno (disarmed c h w) ≡ errno w)
  unfolding disarmed
  disarmed-set h w =
      let (_, acts, quiet, opens, is) = alarm_law 0 w in
      let (_, acts', quiet', opens', is') = on_alarm-set h (alarm 0 w).1 in
      (
        (λ t. acts' t ∙ ap (λ x. if t == sigalrm then h else x) (acts t)),
        quiet' ∙ quiet,
        (λ m. opens' m ∙ opens m),
        is' ∙ is,
      )

  warned-world : (n : ℕ) (s : Console World) → (warned c n s).world ≡ s.world
  unfolding warned printf
  warned-world zero s = refl
  warned-world (suc n) s = refl

  later-Ended :
      (fd : ℕ) (n : ℤ) (w v v' u : World)
      → ((m : ℕ) → opened v m ≡ opened w m)
      → ((m : ℕ) → opened u m ≡ opened v' m)
      → errno u ≡ errno v'
      → Ended fd n v v'
      → Ended fd n w u
  later-Ended fd (pos n) w v v' u before after is same = λ m. after m ∙ same m ∙ before m
  later-Ended fd (negsuc n) w v v' u before after is (shut, not_eintr) = (
    (λ m. after m ∙ shut m ∙ ap (λ x. if m == fd then false else x) (before m)),
    λ bad. not_eintr (sym is ∙ bad),
  )

  -- The handlers and descriptors of before, no alarm, and `connect` called under the alarm.
  abbrev pub Restored : ℕ → ℕ → Console World → ℤ × Console World → Type 0
  Restored fd nsec s (n, s') =
      ((t : ℕ) → action s'.world t ≡ action s.world t)
      × (pending s'.world ≡ 0)
      × Ended fd n s.world s'.world
      × ((u : World) × (action u sigalrm ≡ connect_alarm_handler)
          × (pending u ≡ nsec)
          × (n ≡ (connect fd u).0))

  old_one :
      (b : Bool) (h g x a : Handler)
      → x ≡ (if b then g else a)
      → (b ≡ true → h ≡ a)
      → (if b then h else x) ≡ a
  old_one true h g x a e is = is refl
  old_one false h g x a e is = e

  -- From the call of `connect` in a world `u` on.
  finished :
      (fd nsec : ℕ) (h : Handler) (u : World) (s s3 : Console World)
      → h ≡ action s.world sigalrm
      → ((t : ℕ) → action u t ≡ (if t == sigalrm then connect_alarm_handler else action s.world t))
      → pending u ≡ nsec
      → ((m : ℕ) → opened u m ≡ opened s.world m)
      → s3.world ≡ disarmed c h (connected c fd (connect fd u).0 (connect fd u).1)
      → Restored fd nsec s ((connect fd u).0, s3)
  finished fd nsec h u s s3 is_old acts set_to opens is_last =
      let n = (connect fd u).0 in
      let w = (connect fd u).1 in
      let (act_c, open_c) = connect_law fd u in
      let (ended, act_e) = connected-Ended fd n w in
      let (act_d, quiet, open_d, err_d) = disarmed-set h (connected c fd n w) in
      let before : (t : ℕ)
          → action (connected c fd n w) t
            ≡ (if t == sigalrm then connect_alarm_handler else action s.world t) =
        (λ t. act_e t ∙ act_c t ∙ acts t) in
      subst (λ v. Restored fd nsec s (n, record s3 { world = v })) (sym is_last)
        (
          (λ t.
              act_d t
              ∙ old_one (t == sigalrm) h connect_alarm_handler _ _ (before t)
                  (λ same. is_old ∙ ap (action s.world) (sym ((==_iff t sigalrm).0 same)))),
          quiet,
          later-Ended fd n s.world w (connected c fd n w) _ (λ m. open_c m ∙ opens m) open_d err_d
              ended,
          (u, acts sigalrm, set_to, refl),
        )

  -- Behind `connect_timeo` every signal has the handler of before, SIGALRM too, and no alarm is set;
  -- `connect` has been called with the alarm set to the time given and its handler installed, and its
  -- result is returned; where it has failed, the socket is closed, and `errno` is not EINTR; else every
  -- descriptor is open as before.
  pub connect_timeo_restores :
      (fd nsec : ℕ) (s : Console World) → Restored fd nsec s (connect_timeo c fd nsec s)
  unfolding connect_timeo perform returned_by
  connect_timeo_restores fd nsec s =
      let w1 = (on_alarm c connect_alarm_handler s.world).1 in
      let w2 = (alarm nsec w1).1 in
      let (old, acts1, _, opens1, _) = on_alarm-set connect_alarm_handler s.world in
      let (_, acts2, set_to, opens2, _) = alarm_law nsec w1 in
      let ww = warned-world (alarm nsec w1).0 (record { world = w2; printed = s.printed }) in
      finished fd nsec _ _ s (connect_timeo c fd nsec s).1 (ap (returned_by c) old)
        (λ t. ap (λ w. action w t) ww ∙ acts2 t ∙ acts1 t) (ap pending ww ∙ set_to)
        (λ m. ap (λ w. opened w m) ww ∙ opens2 m ∙ opens1 m) refl
