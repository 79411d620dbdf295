-- ===== src/Unp/NetDb.antt =====
-- `print_host_info`, `print_service_info`, `print_network_info`, `print_protocol_info` and `sock_ntop` of
-- util/unp.c. A list that NULL ends is a `List`. `hstrerror(h_errno)`, `ntohs` and `inet_ntop` are arguments.
pub mod Aliases
use Prim.Native.String.{String}
use unix_advanced_programing.Prelude.{
  ℕ, Bool, true, false, Option, none, some, List, [], ◌∷◌, ◌++◌, map, ◌==◌, if◌then◌else◌,
}
use unix_advanced_programing.Prelude.Int.{ℤ, pos}
use unix_advanced_programing.Posix.Printf.{Arg, int, text, null, Line, line}

-- The members that the functions read.
pub record Hostent (A : Type 0) : Type 0 where
  pub h_name : String
  pub h_aliases : List String
  pub h_addrtype : ℕ
  pub h_addr_list : List A

pub record Servent : Type 0 where
  pub s_name : String
  pub s_aliases : List String
  pub s_port : ℕ
  pub s_proto : String

pub record Netent : Type 0 where
  pub n_name : String
  pub n_aliases : List String
  pub n_net : ℕ

pub record Protoent : Type 0 where
  pub p_name : String
  pub p_aliases : List String
  pub p_proto : ℤ

abbrev pub af_inet : ℕ
af_inet = 2

abbrev pub af_inet6 : ℕ
af_inet6 = 10

unfoldable pub address_arg : Option String → Arg
address_arg none = null
address_arg (some s) = text s

-- An address of another family than AF_INET takes the `default`: `err_ret` prints and returns.
unfoldable pub print_host_info : {A : Type 0} → (ℕ → A → Option String) → Hostent A → List Line
unfolding address_arg
print_host_info inet_ntop h =
    line "host name:%s" (text h.h_name ∷ [])
      ∷ map (λ alias. line "\talias:%s" (text alias ∷ [])) h.h_aliases
    ++ (if h.h_addrtype == af_inet
        then map (λ a. line "\taddress:%s" (address_arg (inet_ntop h.h_addrtype a) ∷ []))
            h.h_addr_list
          ++ line "" [] ∷ []
        else line "unknown adress type" [] ∷ [])

-- The loops over an alias list, from index `i` on.
unfoldable pub service_aliases : String → List String → List Line
service_aliases s_name [] = []
service_aliases s_name (palias ∷ rest) =
    line "alias name:%s" (text s_name ∷ []) ∷ service_aliases s_name rest

unfoldable pub aliases : List String → List Line
aliases [] = []
aliases (palias ∷ rest) = line "alias name:%s" (text palias ∷ []) ∷ aliases rest

-- In each of the three `none` is NULL; `error` is `hstrerror(h_errno)`.
unfoldable pub print_service_info : (ℕ → ℕ) → String → Option Servent → List Line
unfolding service_aliases
print_service_info ntohs error none = line "failed %s\n" (text error ∷ []) ∷ []
print_service_info ntohs error (some s) =
    line "service name:%s" (text s.s_name ∷ []) ∷ service_aliases s.s_name s.s_aliases
    ++ line "port:%d" (int (pos (ntohs s.s_port)) ∷ [])
      ∷ line "protocol:%s\n" (text s.s_proto ∷ [])
      ∷ []

unfoldable pub print_network_info : String → Option Netent → List Line
unfolding aliases
print_network_info error none = line "failed %s\n" (text error ∷ []) ∷ []
print_network_info error (some n) =
    line "network name:%s" (text n.n_name ∷ []) ∷ aliases n.n_aliases
    ++ line "num:%d\n" (int (pos n.n_net) ∷ []) ∷ []

unfoldable pub print_protocol_info : String → Option Protoent → List Line
unfolding aliases
print_protocol_info error none = line "failed %s\n" (text error ∷ []) ∷ []
print_protocol_info error (some p) =
    line "protocol name:%s" (text p.p_name ∷ []) ∷ aliases p.p_aliases
    ++ line "num:%d\n" (int p.p_proto ∷ []) ∷ []

-- `struct sockaddr`, by its family; the ports are in network order.
pub data Sockaddr (A B : Type 0) : Type 0 where
  sockaddr_in : (sin_addr : A) (sin_port : ℕ) → Sockaddr A B
  sockaddr_in6 : (sin6_addr : B) (sin6_port : ℕ) → Sockaddr A B
  other_family : Sockaddr A B

-- `addr_str`, then ":%d" of the port. NULL where the port is 0, too: the `break` leads to `return (NULL)`.
unfoldable pub with_port : {S : Type 0} → (S → ℕ → S) → Option S → ℕ → Option S
with_port append none port = none
with_port append (some addr_str) port = if port == 0 then none else some (append addr_str port)

unfoldable pub sock_ntop :
    {A B S : Type 0}
    → (A → Option S)
    → (B → Option S)
    → (S → ℕ → S)
    → (ℕ → ℕ)
    → Sockaddr A B
    → Option S
unfolding with_port
sock_ntop ntop ntop6 append ntohs (sockaddr_in addr port) =
    with_port append (ntop addr) (ntohs port)
sock_ntop ntop ntop6 append ntohs (sockaddr_in6 addr port) =
    with_port append (ntop6 addr) (ntohs port)
sock_ntop ntop ntop6 append ntohs other_family = none
