-- ===== src/Network/Ipc/Server.antt =====
-- The descriptors that the set-up of a server leaves open.
use unix_advanced_programing.Prelude.{
  ℕ, ◌≡◌, refl, ap, ◌∙◌, inl, inr, ◌||◌, Bool-cases, List, ◌∷◌, ◌==◌, arith,
}
use unix_advanced_programing.Prelude.Int.{ℤ, pos, negsuc}
use unix_advanced_programing.Apue.UnixSocket.Calls.{FilePath, Kernel, erase, IsTracked}
use unix_advanced_programing.Network.Ipc.{
  give_up, listened, bound, made, init_server, reused, made_v2, init_server_v2,
}

erase_self : (a : ℕ) (xs : List ℕ) → erase a (a ∷ xs) ≡ xs
erase_self a xs = ground arith

module _ {k : Kernel} (t : IsTracked k) where
  open k use {World, socket, bind, listen, close, errno, set_errno}
  open t use {opened, socket_ok, socket_err, close_law, bind_law, listen_law, set_errno_law}

  -- One descriptor more, the one returned, or with -1 the same as before.
  abbrev pub Kept : List ℕ → ℤ × World → Type 0
  Kept fds (pos fd, w) = opened w ≡ fd ∷ fds
  Kept fds (negsuc n, w) = opened w ≡ fds

  give_up-Kept :
      (fds : List ℕ) (fd : ℕ) (w : World) → opened w ≡ fd ∷ fds → Kept fds (give_up k fd w)
  unfolding give_up
  give_up-Kept fds fd w o =
      (set_errno_law (errno w) (close fd w)).1
      ∙ (close_law fd w).0
      ∙ ap (erase fd) o
      ∙ erase_self fd fds

  listened-Kept :
      (fds : List ℕ) (fd : ℕ) (r : ℤ × World) → opened r.1 ≡ fd ∷ fds → Kept fds (listened k fd r)
  unfolding listened
  listened-Kept fds fd (pos n, w) o = o
  listened-Kept fds fd (negsuc n, w) o = give_up-Kept fds fd w o

  bound-Kept :
      (fds : List ℕ) (kind qlen fd : ℕ) (r : ℤ × World)
      → opened r.1 ≡ fd ∷ fds
      → Kept fds (bound k kind qlen fd r)
  unfolding bound
  bound-Kept fds kind qlen fd (pos n, w) o = elim (Bool-cases (kind == 1 || kind == 5)) [
    | inl stream ↦
        rw (stream, bound) (listened-Kept fds fd (listen fd qlen w) ((listen_law fd qlen w).0 ∙ o))
    | inr datagram ↦ rw (datagram, bound) o
  ]
  bound-Kept fds kind qlen fd (negsuc n, w) o = give_up-Kept fds fd w o

  made-Kept :
      (kind : ℕ) (addr : FilePath) (qlen : ℕ) (w : World) (r : ℤ × World)
      → socket w ≡ r
      → Kept (opened w) (made k kind addr qlen r)
  unfolding made
  made-Kept kind addr qlen w (pos fd, v) e =
      bound-Kept (opened w) kind qlen fd (bind fd addr v)
        ((bind_law fd addr v).0 ∙ (socket_ok w v fd e).0)
  made-Kept kind addr qlen w (negsuc n, v) e = (socket_err w v n e).0

  module _ (setsockopt : ℕ → World → ℤ × World)
      (quiet : (fd : ℕ) (w : World) → opened (setsockopt fd w).1 ≡ opened w) where
    reused-Kept :
        (fds : List ℕ) (kind : ℕ) (addr : FilePath) (qlen fd : ℕ) (r : ℤ × World)
        → opened r.1 ≡ fd ∷ fds
        → Kept fds (reused k setsockopt kind addr qlen fd r)
    unfolding reused
    reused-Kept fds kind addr qlen fd (pos n, w) o =
        bound-Kept fds kind qlen fd (bind fd addr w) ((bind_law fd addr w).0 ∙ o)
    reused-Kept fds kind addr qlen fd (negsuc n, w) o = give_up-Kept fds fd w o

    made_v2-Kept :
        (kind : ℕ) (addr : FilePath) (qlen : ℕ) (w : World) (r : ℤ × World)
        → socket w ≡ r
        → Kept (opened w) (made_v2 k setsockopt kind addr qlen r)
    unfolding made_v2
    made_v2-Kept kind addr qlen w (pos fd, v) e =
        reused-Kept (opened w) kind addr qlen fd (setsockopt fd v)
          (quiet fd v ∙ (socket_ok w v fd e).0)
    made_v2-Kept kind addr qlen w (negsuc n, v) e = (socket_err w v n e).0

    -- Both versions of `init_server` leave open one descriptor more, the one that they return, or where
    -- they return -1 the same ones as before; `setsockopt` opens and closes none.
    pub init_server-Kept :
        (kind : ℕ) (addr : FilePath) (qlen : ℕ) (w : World)
        → Kept (opened w) (init_server k kind addr qlen w)
          × Kept (opened w) (init_server_v2 k setsockopt kind addr qlen w)
    unfolding init_server init_server_v2
    init_server-Kept kind addr qlen w =
        (made-Kept kind addr qlen w (socket w) refl, made_v2-Kept kind addr qlen w (socket w) refl)
