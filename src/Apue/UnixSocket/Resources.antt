-- ===== src/Apue/UnixSocket/Resources.antt =====
-- The connection calls of common/apue.c leak nothing: what fails leaves no descriptor and no block.
use unix_advanced_programing.Prelude.{
  ℕ, suc, ◌≡◌, refl, ap, ◌∙◌, inl, inr, Bool, true, false, Bool-cases, Option, none, some, List,
  ◌∷◌, leb, arith, length,
}
use unix_advanced_programing.Prelude.Int.{ℤ, pos, negsuc}
use unix_advanced_programing.Posix.{enametoolong}
use unix_advanced_programing.Apue.UnixSocket.Calls.{FilePath, Kernel, erase, IsTracked}
use unix_advanced_programing.Apue.UnixSocket.{
  Conn, conn, failed, errout, listen_on, bind_then, socket_then, serv_listen, accept_stat,
  accept_then, accept_alloc, serv_accept, connect_then, cli_bind_then, cli_socket_then, cli_conn,
}

erase_self : (a : ℕ) (xs : List ℕ) → erase a (a ∷ xs) ≡ xs
erase_self a xs = ground arith

module _ {k : Kernel} (t : IsTracked k) where
  open k use {
    World, errno, close, free, set_errno, unlink, bind, listen, connect, stat, socket, accept,
    malloc,
  }
  open t use {
    opened, blocks, socket_ok, socket_err, accept_ok, accept_err, malloc_ok, malloc_err, free_law,
    close_law, bind_law, listen_law, connect_law, unlink_law, stat_law, set_errno_law,
  }

  -- One descriptor more, the one returned, or the same as before; and as many blocks as before.
  abbrev pub Balanced : List ℕ → ℕ → Conn → World → Type 0
  Balanced fds n (conn fd) w = (opened w ≡ fd ∷ fds) × (blocks w ≡ n)
  Balanced fds n (failed rval) w = (opened w ≡ fds) × (blocks w ≡ n)

  -- An error exit behind a descriptor gives it back.
  errout-Balanced :
      (fds : List ℕ) (m fd rval : ℕ) (w : World)
      → (opened w ≡ fd ∷ fds) × (blocks w ≡ m)
      → Balanced fds m (errout k fd rval w).0 (errout k fd rval w).1
  unfolding errout
  errout-Balanced fds m fd rval w (o, b) =
      let (_, keep, kept) = set_errno_law (errno w) (close fd w) in
      let (gone, same) = close_law fd w in
      (keep ∙ gone ∙ ap (erase fd) o ∙ erase_self fd fds, kept ∙ same ∙ b)

  listen-Balanced :
      (fds : List ℕ) (m fd : ℕ) (r : ℤ × World)
      → (opened r.1 ≡ fd ∷ fds) × (blocks r.1 ≡ m)
      → Balanced fds m (listen_on k fd r).0 (listen_on k fd r).1
  unfolding listen_on
  listen-Balanced fds m fd (pos n, w) h = h
  listen-Balanced fds m fd (negsuc n, w) h = errout-Balanced fds m fd 4 w h

  bind-Balanced :
      (fds : List ℕ) (m fd : ℕ) (r : ℤ × World)
      → (opened r.1 ≡ fd ∷ fds) × (blocks r.1 ≡ m)
      → Balanced fds m (bind_then k fd r).0 (bind_then k fd r).1
  unfolding bind_then
  bind-Balanced fds m fd (pos n, w) h =
      let (o, b) = listen_law fd 10 w in
      listen-Balanced fds m fd (listen fd 10 w) (o ∙ h.0, b ∙ h.1)
  bind-Balanced fds m fd (negsuc n, w) h = errout-Balanced fds m fd 3 w h

  -- The name removed and bound, with the descriptor open.
  bound :
      (fds : List ℕ) (m fd : ℕ) (name : FilePath) (w : World)
      → (opened w ≡ fd ∷ fds) × (blocks w ≡ m)
      → (opened (bind fd name (unlink name w)).1 ≡ fd ∷ fds)
        × (blocks (bind fd name (unlink name w)).1 ≡ m)
  bound fds m fd name w h =
      let (o, b) = bind_law fd name (unlink name w) in
      let (o', b') = unlink_law name w in (o ∙ o' ∙ h.0, b ∙ b' ∙ h.1)

  socket-Balanced :
      (name : FilePath) (w : World) (r : ℤ × World)
      → socket w ≡ r
      → Balanced (opened w) (blocks w) (socket_then k name r).0 (socket_then k name r).1
  unfolding socket_then
  socket-Balanced name w (pos fd, v) e =
      bind-Balanced (opened w) (blocks w) fd (bind fd name (unlink name v))
        (bound (opened w) (blocks w) fd name v (socket_ok w v fd e))
  socket-Balanced name w (negsuc n, v) e = socket_err w v n e

  -- `serv_listen` leaves one descriptor more, the one that it returns, or on failure none more.
  pub serv_listen-Balanced :
      (name : FilePath) (w : World)
      → Balanced (opened w) (blocks w) (serv_listen k name w).0 (serv_listen k name w).1
  unfolding serv_listen
  serv_listen-Balanced name w = elim (Bool-cases (leb 108 (length name))) [
    | inl long ↦ rw long ((set_errno_law enametoolong w).1, (set_errno_law enametoolong w).2)
    | inr fits ↦ rw fits (socket-Balanced name w (socket w) refl)
  ]

  stat-Balanced :
      (fds : List ℕ) (m fd : ℕ) (path : FilePath) (r : Option ℕ × World)
      → (opened r.1 ≡ fd ∷ fds) × (blocks r.1 ≡ suc m)
      → Balanced fds m (accept_stat k fd path r).0 (accept_stat k fd path r).2
  unfolding accept_stat
  stat-Balanced fds m fd path (some uid, w) (o, b) =
      let (o', b') = unlink_law path w in
      let (o'', b'') = free_law (unlink path w) m (b' ∙ b) in (o'' ∙ o' ∙ o, b'')
  stat-Balanced fds m fd path (none, w) (o, b) =
      let (gone, same) = close_law fd w in
      let (o', b') = free_law (close fd w) m (same ∙ b) in
      let (_, o'', b'') = set_errno_law (errno w) (free (close fd w)) in
      (o'' ∙ o' ∙ gone ∙ ap (erase fd) o ∙ erase_self fd fds, b'' ∙ b')

  accept-Balanced :
      (fds : List ℕ) (m l : ℕ) (w : World) (r : Option (ℕ × FilePath) × World)
      → accept l w ≡ r
      → (opened w ≡ fds) × (blocks w ≡ suc m)
      → Balanced fds m (accept_then k r).0 (accept_then k r).2
  unfolding accept_then
  accept-Balanced fds m l w (some (fd, path), v) e (o, b) =
      let (o', b') = accept_ok l w v fd path e in
      let (o'', b'') = stat_law path v in
      stat-Balanced fds m fd path (stat path v) (o'' ∙ o' ∙ ap (λ xs. fd ∷ xs) o, b'' ∙ b' ∙ b)
  accept-Balanced fds m l w (none, v) e (o, b) =
      let (o', b') = accept_err l w v e in
      let (o'', b'') = free_law v m (b' ∙ b) in (o'' ∙ o' ∙ o, b'')

  alloc-Balanced :
      (l : ℕ) (w : World) (r : Bool × World)
      → malloc w ≡ r
      → Balanced (opened w) (blocks w) (accept_alloc k l r).0 (accept_alloc k l r).2
  unfolding accept_alloc
  alloc-Balanced l w (true, v) e =
      accept-Balanced (opened w) (blocks w) l v (accept l v) refl (malloc_ok w v e)
  alloc-Balanced l w (false, v) e = malloc_err w v e

  -- `serv_accept` leaves one descriptor more, the one that it returns, or on failure none more; the
  -- memory for the client's path is freed on every way out.
  pub serv_accept-Balanced :
      (l : ℕ) (w : World)
      → Balanced (opened w) (blocks w) (serv_accept k l w).0 (serv_accept k l w).2
  unfolding serv_accept
  serv_accept-Balanced l w = alloc-Balanced l w (malloc w) refl

  connect-Balanced :
      (fds : List ℕ) (m fd : ℕ) (own : FilePath) (r : ℤ × World)
      → (opened r.1 ≡ fd ∷ fds) × (blocks r.1 ≡ m)
      → Balanced fds m (connect_then k fd own r).0 (connect_then k fd own r).1
  unfolding connect_then
  connect-Balanced fds m fd own (pos n, w) h = h
  connect-Balanced fds m fd own (negsuc n, w) (o, b) =
      let (gone, same) = close_law fd w in
      let (o', b') = unlink_law own (close fd w) in
      let (_, o'', b'') = set_errno_law (errno w) (unlink own (close fd w)) in
      (o'' ∙ o' ∙ gone ∙ ap (erase fd) o ∙ erase_self fd fds, b'' ∙ b' ∙ same ∙ b)

  cli_bind-Balanced :
      (fds : List ℕ) (m fd : ℕ) (own server : FilePath) (r : ℤ × World)
      → (opened r.1 ≡ fd ∷ fds) × (blocks r.1 ≡ m)
      → Balanced fds m (cli_bind_then k fd own server r).0 (cli_bind_then k fd own server r).1
  unfolding cli_bind_then
  cli_bind-Balanced fds m fd own server (pos n, w) h =
      let (o, b) = connect_law fd server w in
      connect-Balanced fds m fd own (connect fd server w) (o ∙ h.0, b ∙ h.1)
  cli_bind-Balanced fds m fd own server (negsuc n, w) h = errout-Balanced fds m fd 2 w h

  cli_socket-Balanced :
      (own server : FilePath) (w : World) (r : ℤ × World)
      → socket w ≡ r
      → Balanced
          (opened w)
          (blocks w)
          (cli_socket_then k own server r).0
          (cli_socket_then k own server r).1
  unfolding cli_socket_then
  cli_socket-Balanced own server w (pos fd, v) e =
      cli_bind-Balanced (opened w) (blocks w) fd own server (bind fd own (unlink own v))
        (bound (opened w) (blocks w) fd own v (socket_ok w v fd e))
  cli_socket-Balanced own server w (negsuc n, v) e = socket_err w v n e

  -- `cli_conn` leaves one descriptor more, the one that it returns, or on failure none more.
  pub cli_conn-Balanced :
      (pid server : FilePath) (w : World)
      → Balanced (opened w) (blocks w) (cli_conn k pid server w).0 (cli_conn k pid server w).1
  unfolding cli_conn
  cli_conn-Balanced pid server w = elim (Bool-cases (leb 108 (length server))) [
    | inl long ↦ rw long ((set_errno_law enametoolong w).1, (set_errno_law enametoolong w).2)
    | inr fits ↦ rw fits (cli_socket-Balanced _ server w (socket w) refl)
  ]
