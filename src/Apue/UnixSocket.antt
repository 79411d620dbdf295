-- ===== src/Apue/UnixSocket.antt =====
-- `serv_listen`, `serv_accept` and `cli_conn` of common/apue.c: the ends of a UNIX domain connection.
pub mod Calls
pub mod Resources
use unix_advanced_programing.Prelude.{
  ℕ, zero, suc, ◌+◌, Bool, true, false, Option, none, some, List, [], ◌∷◌, ◌++◌, leb, if◌then◌else◌,
  length,
}
use unix_advanced_programing.Prelude.Int.{ℤ, pos, negsuc}
use unix_advanced_programing.Posix.{Errno, enametoolong}
use unix_advanced_programing.Apue.UnixSocket.Calls.{FilePath, Kernel}

-- `sizeof(un.sun_path)` on Linux, and `CLIENT_CONN_MAX_NUM`.
abbrev pub sun_path_size : ℕ
sun_path_size = 108

abbrev pub client_conn_max_num : ℕ
client_conn_max_num = 10

-- `CLI_PATH`, "./client_sock_", and the ".test" behind the process id.
abbrev pub cli_path : FilePath
cli_path =
    b'.' ∷ b'/' ∷ b'c' ∷ b'l' ∷ b'i' ∷ b'e' ∷ b'n' ∷ b't' ∷ b'_' ∷ b's' ∷ b'o' ∷ b'c' ∷ b'k' ∷ b'_'
    ∷ []

abbrev pub test_suffix : FilePath
test_suffix = b'.' ∷ b't' ∷ b'e' ∷ b's' ∷ b't' ∷ []

-- The descriptor, or minus the number, which says where it failed.
pub data Conn : Type 0 where
  conn : ℕ → Conn
  failed : ℕ → Conn

module _ (k : Kernel) where
  open k use {
    World, socket, bind, listen, accept, connect, close, unlink, stat, malloc, free, errno,
    set_errno,
  }

  -- `errout: err = errno; close(fd); errno = err; return rval;`
  errout : ℕ → ℕ → World → Conn × World
  errout fd rval w = (failed rval, set_errno (errno w) (close fd w))

  listen_on : ℕ → ℤ × World → Conn × World
  listen_on fd (pos n, w) = (conn fd, w)
  listen_on fd (negsuc n, w) = errout fd 4 w

  bind_then : ℕ → ℤ × World → Conn × World
  bind_then fd (pos n, w) = listen_on fd (listen fd client_conn_max_num w)
  bind_then fd (negsuc n, w) = errout fd 3 w

  socket_then : FilePath → ℤ × World → Conn × World
  socket_then name (pos fd, w) = bind_then fd (bind fd name (unlink name w))
  socket_then name (negsuc n, w) = (failed 2, w)

  pub serv_listen : FilePath → World → Conn × World
  unfolding socket_then bind_then listen_on errout
  serv_listen name w =
      if leb sun_path_size (length name)
      then (failed 1, set_errno enametoolong w)
      else socket_then name (socket w)

  -- Behind `stat` of the client's path: its user id, or the error exit, which also frees the path.
  accept_stat : ℕ → FilePath → Option ℕ × World → Conn × Option ℕ × World
  accept_stat clifd path (some uid, w) = (conn clifd, some uid, free (unlink path w))
  accept_stat clifd path (none, w) = (failed 3, none, set_errno (errno w) (free (close clifd w)))

  -- `accept` gives the descriptor and the path that the client has bound.
  accept_then : Option (ℕ × FilePath) × World → Conn × Option ℕ × World
  accept_then (some (clifd, path), w) = accept_stat clifd path (stat path w)
  accept_then (none, w) = (failed 2, none, free w)

  accept_alloc : ℕ → Bool × World → Conn × Option ℕ × World
  accept_alloc listenfd (true, w) = accept_then (accept listenfd w)
  accept_alloc listenfd (false, w) = (failed 1, none, w)

  -- The middle component is what is stored at `uidptr`.
  pub serv_accept : ℕ → World → Conn × Option ℕ × World
  unfolding accept_alloc accept_then accept_stat
  serv_accept listenfd w = accept_alloc listenfd (malloc w)

  -- `do_unlink` is set: the bound name is removed too.
  connect_then : ℕ → FilePath → ℤ × World → Conn × World
  connect_then fd own (pos n, w) = (conn fd, w)
  connect_then fd own (negsuc n, w) = (failed 4, set_errno (errno w) (unlink own (close fd w)))

  cli_bind_then : ℕ → FilePath → FilePath → ℤ × World → Conn × World
  cli_bind_then fd own server (pos n, w) = connect_then fd own (connect fd server w)
  cli_bind_then fd own server (negsuc n, w) = errout fd 2 w

  cli_socket_then : FilePath → FilePath → ℤ × World → Conn × World
  cli_socket_then own server (pos fd, w) = cli_bind_then fd own server (bind fd own (unlink own w))
  cli_socket_then own server (negsuc n, w) = (failed 1, w)

  -- `pid` is the process id as `sprintf("%05ld")` prints it.
  pub cli_conn : FilePath → FilePath → World → Conn × World
  unfolding cli_socket_then cli_bind_then connect_then errout
  cli_conn pid server w =
      if leb sun_path_size (length server)
      then (failed 1, set_errno enametoolong w)
      else cli_socket_then (cli_path ++ pid ++ test_suffix) server (socket w)
