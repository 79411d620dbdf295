-- ===== src/Unp/Wrappers.antt =====
-- The wrappers of util/unp.c around one call each. `err_sys` of util.h only prints, so that a wrapper
-- goes on behind it. The calls themselves are arguments.
pub mod Effects
pub mod Transparent
use unix_advanced_programing.Prelude.{
  ℕ, zero, suc, Bool, true, false, not, Option, none, some, List, ◌==◌, if◌then◌else◌,
}
use unix_advanced_programing.Prelude.Int.{ℤ, pos, negsuc, is_neg, is_zero, to_int}
use unix_advanced_programing.Unp.Wrappers.Effects.{
  Console, Call, err_sys, perform, checked, checked_by, narrowed, non_null,
}

abbrev pub ai_canonname : ℕ
ai_canonname = 2

-- `struct addrinfo`, as hints.
pub record Hints : Type 0 where
  pub ai_flags : ℕ
  pub ai_family : ℕ
  pub ai_socktype : ℕ

module _ {W : Type 0} where
  unfoldable pub socket : (ℕ → ℕ → ℕ → Call W) → ℕ → ℕ → ℕ → Console W → ℤ × Console W
  socket call a b c = checked "socket err" (call a b c)

  unfoldable pub bind : {A : Type 0} → (ℕ → A → ℕ → Call W) → ℕ → A → ℕ → Console W → ℤ × Console W
  bind call a b c = checked "bind err" (call a b c)

  unfoldable pub accept :
      {A : Type 0} → (ℕ → A → ℕ → Call W) → ℕ → A → ℕ → Console W → ℤ × Console W
  accept call a b c = checked "accept err" (call a b c)

  unfoldable pub shutdown : (ℕ → ℕ → Call W) → ℕ → ℕ → Console W → ℤ × Console W
  shutdown call a b = checked "accept err" (call a b)

  unfoldable pub getsockname :
      {A : Type 0} → (ℕ → A → ℕ → Call W) → ℕ → A → ℕ → Console W → ℤ × Console W
  getsockname call a b c = checked "getsockname failed" (call a b c)

  unfoldable pub getpeername :
      {A : Type 0} → (ℕ → A → ℕ → Call W) → ℕ → A → ℕ → Console W → ℤ × Console W
  getpeername call a b c = checked "getpeername failed" (call a b c)

  unfoldable pub select :
      {A B : Type 0} → (ℕ → A → A → A → B → Call W) → ℕ → A → A → A → B → Console W → ℤ × Console W
  select call a b c d e = checked "select err" (call a b c d e)

  unfoldable pub poll : {A : Type 0} → (A → ℕ → ℤ → Call W) → A → ℕ → ℤ → Console W → ℤ × Console W
  poll call a b c = checked "poll err" (call a b c)

  unfoldable pub pselect :
      {A B C : Type 0}
      → (ℕ → A → A → A → B → C → Call W)
      → ℕ
      → A
      → A
      → A
      → B
      → C
      → Console W
      → ℤ × Console W
  pselect call a b c d e f = checked "select err" (call a b c d e f)

  unfoldable pub write : {A : Type 0} → (ℕ → A → ℕ → Call W) → ℕ → A → ℕ → Console W → ℤ × Console W
  write call a b c = narrowed "write err" (call a b c)

  unfoldable pub read : {A : Type 0} → (ℕ → A → ℕ → Call W) → ℕ → A → ℕ → Console W → ℤ × Console W
  read call a b c = narrowed "read err" (call a b c)

  unfoldable pub close : (ℕ → Call W) → ℕ → Console W → ℤ × Console W
  close call a = checked "close err" (call a)

  unfoldable pub recv :
      {A : Type 0} → (ℕ → A → ℕ → ℕ → Call W) → ℕ → A → ℕ → ℕ → Console W → ℤ × Console W
  recv call a b c d = narrowed "recv error" (call a b c d)

  unfoldable pub recvfrom :
      {A B C : Type 0}
      → (ℕ → A → ℕ → ℕ → B → C → Call W)
      → ℕ
      → A
      → ℕ
      → ℕ
      → B
      → C
      → Console W
      → ℤ × Console W
  recvfrom call a b c d e f = narrowed "recvfrom error" (call a b c d e f)

  unfoldable pub recvmsg :
      {A : Type 0} → (ℕ → A → ℕ → Call W) → ℕ → A → ℕ → Console W → ℤ × Console W
  recvmsg call a b c = narrowed "recvmsg error" (call a b c)

  unfoldable pub send :
      {A : Type 0} → (ℕ → A → ℕ → ℕ → Call W) → ℕ → A → ℕ → ℕ → Console W → ℤ × Console W
  send call a b c d = narrowed "send error" (call a b c d)

  unfoldable pub sendto :
      {A B : Type 0}
      → (ℕ → A → ℕ → ℕ → B → ℕ → Call W)
      → ℕ
      → A
      → ℕ
      → ℕ
      → B
      → ℕ
      → Console W
      → ℤ × Console W
  sendto call a b c d e f = narrowed "recvmsg error" (call a b c d e f)

  unfoldable pub sendmsg :
      {A : Type 0} → (ℕ → A → ℕ → Call W) → ℕ → A → ℕ → Console W → ℤ × Console W
  sendmsg call a b c = narrowed "sendmsg error" (call a b c)

  unfoldable pub getsockopt :
      {A B : Type 0} → (ℕ → ℕ → ℕ → A → B → Call W) → ℕ → ℕ → ℕ → A → B → Console W → ℤ × Console W
  getsockopt call a b c d e = checked "getsockopt error" (call a b c d e)

  unfoldable pub setsockopt :
      {A : Type 0} → (ℕ → ℕ → ℕ → A → ℕ → Call W) → ℕ → ℕ → ℕ → A → ℕ → Console W → ℤ × Console W
  setsockopt call a b c d e = checked "setsockopt error" (call a b c d e)

  unfoldable pub sctp_recvmsg :
      {A B C D E : Type 0}
      → (ℕ → A → ℕ → B → C → D → E → Call W)
      → ℕ
      → A
      → ℕ
      → B
      → C
      → D
      → E
      → Console W
      → ℤ × Console W
  sctp_recvmsg call a b c d e f g = checked "sctp_recvmsg error" (call a b c d e f g)

  unfoldable pub sctp_sendmsg :
      {A B : Type 0}
      → (ℕ → A → ℕ → B → ℕ → ℕ → ℕ → ℕ → ℕ → ℕ → Call W)
      → ℕ
      → A
      → ℕ
      → B
      → ℕ
      → ℕ
      → ℕ
      → ℕ
      → ℕ
      → ℕ
      → Console W
      → ℤ × Console W
  sctp_sendmsg call a b c d e f g h i j = checked "sctp_sendmsg error" (call a b c d e f g h i j)

  unfoldable pub fork : (Call W) → Console W → ℤ × Console W
  fork call = checked "fork err" call

  unfoldable pub getaddrinfo :
      {A B C D : Type 0} → (A → B → C → D → Call W) → A → B → C → D → Console W → ℤ × Console W
  getaddrinfo call a b c d = checked "getaddrinfo error" (call a b c d)

  unfoldable pub getnameinfo :
      {A B C : Type 0}
      → (A → ℕ → B → ℕ → C → ℕ → ℕ → Call W)
      → A
      → ℕ
      → B
      → ℕ
      → C
      → ℕ
      → ℕ
      → Console W
      → ℤ × Console W
  getnameinfo call a b c d e f g = checked "getnameinfo error" (call a b c d e f g)

  -- `LISTENQ` of the environment, if it is set, takes the place of `backlog`; `atoi` reads it.
  unfoldable pub listen :
      {S : Type 0} → (S → ℤ) → Option S → (ℕ → ℤ → Call W) → ℕ → ℤ → Console W → ℤ × Console W
  listen atoi none call fd backlog = checked "listen err" (call fd backlog)
  listen atoi (some s) call fd backlog = checked "listen err" (call fd (atoi s))

  -- A pointer result, `none` for NULL.
  unfoldable pub inet_ntop :
      {A B C : Type 0}
      → (ℕ → A → B → ℕ → W → Option C × W)
      → ℕ
      → A
      → B
      → ℕ
      → Console W
      → Option C × Console W
  inet_ntop call af src dst size = non_null "inet_ntop err" (call af src dst size)

  -- The `int` result is tested as a pointer: an error is reported for 0, and not for -1.
  unfoldable pub inet_pton :
      {A B : Type 0} → (ℕ → A → B → Call W) → ℕ → A → B → Console W → ℤ × Console W
  inet_pton call af src dst = checked_by is_zero "inet_pton err" (call af src dst)

  unfoldable pub gethostbyname :
      {A H : Type 0} → (A → W → Option H × W) → A → Console W → Option H × Console W
  gethostbyname call name = non_null "gethostbyname error" (call name)

  -- The function has no `return`: its value is undefined, and only the effect is left.
  unfoldable pub getservbyname :
      {A B H : Type 0} → (A → B → W → Option H × W) → A → B → Console W → Console W
  getservbyname call name proto s = (non_null "getservbyname error" (call name proto) s).1

  -- `pthread_mutex_lock` returns an error number, which becomes `errno`.
  unfoldable pub pthread_mutex_lock : (ℕ → W → W) → (W → ℕ × W) → Console W → Console W
  pthread_mutex_lock set_errno call s =
      let (n, w) = call s.world in
      let s' = record s { world = w } in
      if n == 0
      then s'
      else err_sys "pthread_mutex_lock error" (record s' { world = set_errno n w })

  unfoldable pub socketpair :
      {A : Type 0} → (ℕ → ℕ → ℕ → A → Call W) → ℕ → ℕ → ℕ → A → Console W → ℤ × Console W
  socketpair call family type protocol fds =
      checked_by (λ n. not (is_zero n)) "socketpair error" (call family type protocol fds)

  -- `if ((n = daemon(nochdir, noclose)) != 0); err_sys(...)`: the `if` guards an empty statement.
  unfoldable pub ddaemon : (ℕ → ℕ → Call W) → ℕ → ℕ → Console W → ℤ × Console W
  ddaemon call nochdir noclose s =
      let (n, s') = perform (call nochdir noclose) s in (n, err_sys "daemon error" s')

  -- -1, or the address family that `getsockname` stored.
  unfoldable pub sockfd_to_family : (W → ℕ) → Call W → Console W → ℤ × Console W
  sockfd_to_family ss_family call s =
      let (n, s') = checked "getsockname failed" call s in
      if is_neg n then (negsuc 0, s') else (pos (ss_family s'.world), s')

  -- NULL, or the list that `Getaddrinfo` stored, for the hints (the other members are zero).
  unfoldable pub host_serv :
      {H S R : Type 0}
      → (W → R)
      → (H → S → Hints → Call W)
      → H
      → S
      → (family socktype : ℕ) → Console W
      → Option R × Console W
  host_serv res call host serv family socktype s =
      let hints : Hints = record {
        ai_flags = ai_canonname;
        ai_family = family;
        ai_socktype = socktype;
      } in
      let (n, s') = checked "getaddrinfo error" (call host serv hints) s in
      if is_zero n then (some (res s'.world), s') else (none, s')

-- The text for `errno`, whatever error is asked for.
unfoldable pub gai_strerror : {T : Type 0} → (ℤ → T) → ℤ → ℤ → T
gai_strerror text errno error = text errno

-- `SIGALRM`, and the flags that `Signal` installs a handler with: an interrupted call is restarted but
-- for this signal.
abbrev pub sigalrm : ℕ
sigalrm = 14

unfoldable pub signal_flags : (sa_interrupt sa_restart : ℕ) → ℕ → ℕ
signal_flags sa_interrupt sa_restart signo = if signo == sigalrm then sa_interrupt else sa_restart

-- `SIG_ERR`, or the old handler.
unfoldable pub signal :
    {W H : Type 0}
    → (sa_interrupt sa_restart : ℕ) → (ℕ → H → ℕ → W → Option H × W)
    → ℕ
    → H
    → W
    → Option H × W
unfolding signal_flags
signal sa_interrupt sa_restart sigaction signo func =
    sigaction signo func (signal_flags sa_interrupt sa_restart signo)
