-- ===== src/Network/Examples/Selecting.antt =====
-- The theorem on the server with `select` at a concrete input.
use unix_advanced_programing.Prelude.{
  ℕ, suc, ◌≡◌, ◌∙◌, refl, sym, ap, subst, Bool, true, false, ◌==◌, if◌then◌else◌, [], ◌∷◌,
}
use unix_advanced_programing.Prelude.Int.{ℤ, pos, negsuc}
use unix_advanced_programing.Posix.{got}
use unix_advanced_programing.Network.SelectServer.{FdSet, fd_put, Calls}
use unix_advanced_programing.Network.SelectServer.Watched.{IsKernel}

-- The open descriptors, and the number that the next connection gets if it is not in use.
record Net : Type 0 where
  used : FdSet
  fresh : ℕ

abbrev connect_as : ℕ → Bool → Net → ℤ × Net
connect_as n true w = (negsuc 0, w)
connect_as n false w = (pos n, record { used = fd_put true n w.used; fresh = suc n })

-- Every descriptor is always ready, and every connection has one line.
abbrev busy : Calls
busy = record {
  World = Net;
  select = λ n l w. ((pos 9, l), w);
  accept = λ fd w. connect_as w.fresh (w.used w.fresh) w;
  read = λ fd w. (if fd == 4 then got [] else got (b'x' ∷ []), w);
  close = λ fd w. record w { used = fd_put false fd w.used };
  writen = λ fd bs w. w;
}

connect_as-pos :
    (f n : ℕ) (b : Bool) (w w' : Net)
    → w.used f ≡ b
    → connect_as f b w ≡ (pos n, w')
    → (w.used n ≡ false) × ((m : ℕ) → w'.used m ≡ fd_put true n w.used m)
connect_as-pos f n true w w' u e = cc
connect_as-pos f n false w w' u e =
    let same : f ≡ n = cc in
    let is : record { used = fd_put true f w.used; fresh = suc f } ≡ w' = cc in
    (
      subst (λ x. w.used x ≡ false) same u,
      λ m. sym (ap (λ (v : Net). v.used m) is) ∙ ap (λ x. fd_put true x w.used m) same,
    )

busy_IsKernel : IsKernel busy
busy_IsKernel = record {
  opened = λ w. w.used;
  select_law = λ n l w m. refl;
  accept_law = λ fd n w w' e. connect_as-pos w.fresh n (w.used w.fresh) w w' refl e;
  read_law = λ fd w m. refl;
  close_law = λ fd w m. refl;
  writen_law = λ fd bs w m. refl;
}

-- Descriptor 3 listens.
abbrev listening : Net
listening = record { used = λ m. m == 3; fresh = 4 }
