-- ===== src/Unp/SockOpt.antt =====
-- The socket options of util/unp.c: `union val`, `s_sock_ops` with its printers, and
-- `print_socket_config`. Sizes are those of LP64; every text fits the 128 bytes of `strres`. `SO_REUSEPORT`
-- and `IPPROTO_SCTP` are defined.
pub mod Config
use Prim.Native.String.{String}
use unix_advanced_programing.Prelude.{
  ℕ, ◌+◌, ◌*◌, Bool, true, false, Option, none, some, List, [], ◌∷◌, ◌++◌, ◌==◌, if◌then◌else◌,
}
use unix_advanced_programing.Prelude.Int.{ℤ, pos, negsuc, is_zero}
use unix_advanced_programing.Posix.Printf.{Arg, int, text, Line, line}
use unix_advanced_programing.Unp.Wrappers.Effects.{Console, Call, printf, perform, checked}

-- `union val`: what each of its members reads. A timeout is not negative, and its microseconds fit `long`.
pub record Val : Type 0 where
  pub i_val : ℤ
  pub l_val : ℤ
  pub l_onoff : ℤ
  pub l_linger : ℤ
  pub tv_sec : ℕ
  pub tv_usec : ℕ

abbrev pub sizeof_int : ℕ
sizeof_int = 4

abbrev pub sizeof_long : ℕ
sizeof_long = 8

abbrev pub sizeof_linger : ℕ
sizeof_linger = 8

abbrev pub sizeof_timeval : ℕ
sizeof_timeval = 16

-- The printers leave a text in `strres`: the format with its values.
unfoldable pub on_off : ℤ → String
on_off n = if is_zero n then "OFF" else "ON"

unfoldable pub sock_str_flag : Val → ℕ → Line
unfolding on_off
sock_str_flag v len =
    if len == sizeof_int
    then line "%s" (text (on_off v.i_val) ∷ [])
    else line "size %d not sizeof(int)" (int (pos len) ∷ [])

unfoldable pub sock_str_int : Val → ℕ → Line
sock_str_int v len =
    if len == sizeof_int
    then line "%d" (int v.i_val ∷ [])
    else line "size %d not sizeof(int)" (int (pos len) ∷ [])

unfoldable pub sock_str_long : Val → ℕ → Line
sock_str_long v len =
    if len == sizeof_long
    then line "%ld" (int v.l_val ∷ [])
    else line "size %d not sizeof(long)" (int (pos len) ∷ [])

-- The two members of `struct linger` are swapped in the text.
unfoldable pub sock_str_linger : Val → ℕ → Line
unfolding on_off
sock_str_linger v len =
    if len == sizeof_linger
    then line "linger:%s time:%d" (text (on_off v.l_linger) ∷ int v.l_onoff ∷ [])
    else line "size %d not sizeof(linger)" (int (pos len) ∷ [])

unfoldable pub sock_str_timeval : Val → ℕ → Line
sock_str_timeval v len =
    if len == sizeof_timeval
    then line "%ld us" (int (pos (v.tv_sec * 1000000 + v.tv_usec)) ∷ [])
    else line "size %d not sizeof(linger)" (int (pos len) ∷ [])

-- `opt_level` of the table.
pub data Level : Type 0 where
  sol_socket ipproto_ip ipproto_ipv6 ipproto_tcp ipproto_sctp : Level

-- An entry; the last one, with NULL for the printer, is the end of the list.
pub record SockOpts : Type 0 where
  pub opt_str : String
  pub opt_level : Level
  pub opt_name : String
  pub print_opt_val_str : Val → ℕ → Line

unfoldable pub entry : String → Level → String → (Val → ℕ → Line) → SockOpts
entry str level name print = record {
  opt_str = str;
  opt_level = level;
  opt_name = name;
  print_opt_val_str = print;
}

-- `opt_name` is the option's macro.
unfoldable pub s_sock_ops : List SockOpts
unfolding entry
s_sock_ops =
    entry "SO_BROADCAST" sol_socket "SO_BROADCAST" sock_str_flag
    ∷ entry "SO_DEBUG" sol_socket "SO_DEBUG" sock_str_flag
    ∷ entry "SO_DONTROUTE" sol_socket "SO_DONTROUTE" sock_str_flag
    ∷ entry "SO_ERROR" sol_socket "SO_ERROR" sock_str_int
    ∷ entry "SO_KEEPALIVE" sol_socket "SO_KEEPALIVE" sock_str_flag
    ∷ entry "SO_LINGER" sol_socket "SO_LINGER" sock_str_linger
    ∷ entry "SO_OOBINLINE" sol_socket "SO_OOBINLINE" sock_str_flag
    ∷ entry "SO_RCVBUF" sol_socket "SO_RCVBUF" sock_str_int
    ∷ entry "SO_SNDBUF" sol_socket "SO_SNDBUF" sock_str_int
    ∷ entry "SO_RCVLOWAT" sol_socket "SO_RCVLOWAT" sock_str_int
    ∷ entry "SO_SNDLOWAT" sol_socket "SO_SNDLOWAT" sock_str_int
    ∷ entry "SO_RCVTIMEO" sol_socket "SO_RCVTIMEO" sock_str_timeval
    ∷ entry "SO_SNDTIMEO" sol_socket "SO_SNDTIMEO" sock_str_timeval
    ∷ entry "SO_REUSEADDR" sol_socket "SO_REUSEADDR" sock_str_flag
    ∷ entry "SO_REUSEPORT" sol_socket "SO_REUSEPORT" sock_str_flag
    ∷ entry "SO_TYPE" sol_socket "SO_TYPE" sock_str_int
    ∷ entry "IP_TOS" ipproto_ip "IP_TOS" sock_str_int
    ∷ entry "IP_TTL" ipproto_ip "IP_TTL" sock_str_int
    ∷ entry "IPV6_DONTFRAG" ipproto_ipv6 "IPV6_DONTFRAG" sock_str_flag
    ∷ entry "IPV6_UNICAST_HOPS" ipproto_ipv6 "IPV6_UNICAST_HOPS" sock_str_int
    ∷ entry "IPV6_V6ONLY" ipproto_ipv6 "IPV6_V6ONLY" sock_str_flag
    ∷ entry "TCP_MAXSEG" ipproto_tcp "TCP_MAXSEG" sock_str_int
    ∷ entry "TCP_NODELAY" ipproto_tcp "TCP_NODELAY" sock_str_flag
    ∷ entry "SO_TYPE" ipproto_sctp "SCTP_AUTOCLOSE" sock_str_int
    ∷ entry "SCTP_MAX_BURST" ipproto_sctp "SCTP_MAX_BURST" sock_str_int
    ∷ entry "SCTP_MAXSEG" ipproto_sctp "SCTP_MAXSEG" sock_str_int
    ∷ entry "SCTP_NODELAY" ipproto_sctp "SCTP_NODELAY" sock_str_flag
    ∷ []

-- The calls: `socket` for the domain, type and protocol of the level, `getsockopt` (`none` for -1, else the
-- value and its length) and `close`.
pub record SockCalls (W : Type 0) : Type 0 where
  pub socket : Level → Call W
  pub getsockopt : ℤ → SockOpts → W → Option (Val × ℕ) × W
  pub close : ℤ → Call W

-- One turn of the loop: whether it goes on. `err_ret` prints and returns from the whole function, before
-- `Close`. The text for `default = %s` is the printer's line.
module _ {W : Type 0} (k : SockCalls W) where
  unfoldable pub config_close : ℤ → Console W → Bool × Console W
  config_close fd s = let (n, s') = checked "close err" (k.close fd) s in (true, s')

  unfoldable pub config_value : SockOpts → ℤ → Option (Val × ℕ) × Console W → Bool × Console W
  config_value opts fd (none, s) = (false, printf "getsockopt failed" [] s)
  config_value opts fd (some (v, len), s) =
      config_close fd (record s {
        printed = s.printed ++ line "default = " [] ∷ opts.print_opt_val_str v len ∷ [];
      })

  unfoldable pub config_socket : SockOpts → ℤ × Console W → Bool × Console W
  config_socket opts (fd, s) = config_value opts fd (perform (k.getsockopt fd opts) s)

  unfoldable pub config_step : SockOpts → Console W → Bool × Console W
  config_step opts s =
      config_socket opts
        (checked "socket err" (k.socket opts.opt_level) (printf "%s  " (text opts.opt_str ∷ []) s))

  unfoldable pub config_loop : List SockOpts → Console W → Bool × Console W
  config_loop [] s = (true, s)
  config_loop (opts ∷ rest) s =
      let (on, s') = config_step opts s in
      let done = config_loop rest s' in if on then done else (false, s')

  unfoldable pub print_socket_config : Console W → Bool × Console W
  unfolding config_loop
  print_socket_config = config_loop s_sock_ops
