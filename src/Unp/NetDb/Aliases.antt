-- ===== src/Unp/NetDb/Aliases.antt =====
-- Which names the printed lines of Unp/NetDb.antt show, and when an address has a text.
use Prim.Native.String.{String}
use mathlib.Core.List.{append-nil}
use unix_advanced_programing.Prelude.{ℕ, some, List, [], ◌∷◌, ◌++◌, ◌≡◌, refl, ap, ◌∙◌}
use unix_advanced_programing.Prelude.Int.{pos}
use unix_advanced_programing.Posix.Printf.{Arg, int, text, Line, line}
use unix_advanced_programing.Unp.NetDb.{
  Servent, Netent, Protoent, service_aliases, aliases, print_service_info, print_network_info,
  print_protocol_info,
}

-- The texts on a list of lines, in order.
abbrev pub arg_texts : List Arg → List String
arg_texts [] = []
arg_texts (text s ∷ rest) = s ∷ arg_texts rest
arg_texts (a ∷ rest) = arg_texts rest

abbrev pub texts : List Line → List String
texts [] = []
texts (line f args ∷ ls) = arg_texts args ++ texts ls

aliases-texts : (as_ : List String) (ls : List Line) → texts (aliases as_ ++ ls) ≡ as_ ++ texts ls
unfolding aliases
aliases-texts [] ls = refl
aliases-texts (a ∷ rest) ls = ap (◌∷◌ a) (aliases-texts rest ls)

abbrev pub same_names : {A : Type 0} → String → List A → List String
same_names s [] = []
same_names s (a ∷ rest) = s ∷ same_names s rest

service_aliases-texts :
    (s : String) (as_ : List String) (ls : List Line)
    → texts (service_aliases s as_ ++ ls) ≡ same_names s as_ ++ texts ls
unfolding service_aliases
service_aliases-texts s [] ls = refl
service_aliases-texts s (a ∷ rest) ls = ap (◌∷◌ s) (service_aliases-texts s rest ls)

-- `print_network_info` and `print_protocol_info` print the name and then every alias, in order.
pub print_network-texts :
    (error : String) (n : Netent) (p : Protoent)
    → (texts (print_network_info error (some n)) ≡ n.n_name ∷ n.n_aliases)
      × (texts (print_protocol_info error (some p)) ≡ p.p_name ∷ p.p_aliases)
unfolding print_network_info print_protocol_info
print_network-texts error n p = (
  ap (◌∷◌ n.n_name) (
      aliases-texts n.n_aliases (line "num:%d\n" (int (pos n.n_net) ∷ []) ∷ [])
      ∙ append-nil n.n_aliases),
  ap (◌∷◌ p.p_name) (
      aliases-texts p.p_aliases (line "num:%d\n" (int p.p_proto ∷ []) ∷ [])
      ∙ append-nil p.p_aliases),
)

-- `print_service_info` prints no alias: it prints the service's name once more for each of them.
pub print_service_info-texts :
    (ntohs : ℕ → ℕ) (error : String) (s : Servent)
    → texts (print_service_info ntohs error (some s))
      ≡ s.s_name ∷ same_names s.s_name s.s_aliases ++ s.s_proto ∷ []
unfolding print_service_info
print_service_info-texts ntohs error s = ap (◌∷◌ s.s_name) (
    service_aliases-texts s.s_name s.s_aliases (
      line "port:%d" (int (pos (ntohs s.s_port)) ∷ [])
      ∷ line "protocol:%s\n" (text s.s_proto ∷ [])
      ∷ []))
