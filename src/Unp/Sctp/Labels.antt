-- ===== src/Unp/Sctp/Labels.antt =====
-- What a printed notification tells of the notification.
use Prim.Native.String.{String}
use unix_advanced_programing.Prelude.{ℕ, Option, none, some, List, [], ◌∷◌, ◌≡◌, refl}
use unix_advanced_programing.Posix.Printf.{Arg, int, hex, text, null, Line, line}
use unix_advanced_programing.Unp.Sctp.{
  Notification, assoc_change, peer_addr_change, remote_error, send_failed, adaptation_indication,
  partial_delivery_event, shutdown_event, authentication_indication, sender_dry_event, other_type,
  string_arg, sctp_print_notification,
}

abbrev pub args_of : Line → List Arg
args_of (line f args) = args

-- The association id on a line: the last or the first argument that is printed with `%x`.
abbrev pub id_of : List Arg → Option ℕ
id_of [] = none
id_of (hex n ∷ rest) = some n
id_of (int n ∷ rest) = id_of rest
id_of (text s ∷ rest) = id_of rest
id_of (null ∷ rest) = id_of rest

-- The association that a notification is about
abbrev pub assoc : {A : Type 0} → Notification A → Option ℕ
assoc (assoc_change state id) = some id
assoc (peer_addr_change state addr id) = some id
assoc (remote_error id error) = some id
assoc (send_failed id error) = some id
assoc (adaptation_indication id ind) = some id
assoc (partial_delivery_event id) = some id
assoc (shutdown_event id) = some id
assoc (authentication_indication id type) = some id
assoc (sender_dry_event id type) = some id
assoc (other_type type) = none

string_arg-id_of : (s : Option String) (rest : List Arg) → id_of (string_arg s ∷ rest) ≡ id_of rest
unfolding string_arg
string_arg-id_of none rest = refl
string_arg-id_of (some s) rest = refl

-- The printed line names the association of every notification that has one.
pub sctp_print_notification-assoc :
    {A : Type 0} (sock_ntop : A → Option String) (n : Notification A)
    → id_of (args_of (sctp_print_notification sock_ntop n)) ≡ assoc n
unfolding sctp_print_notification
sctp_print_notification-assoc f (assoc_change state id) = refl
sctp_print_notification-assoc f (peer_addr_change state addr id) =
    string_arg-id_of (f addr) (hex id ∷ [])
sctp_print_notification-assoc f (remote_error id error) = refl
sctp_print_notification-assoc f (send_failed id error) = refl
sctp_print_notification-assoc f (adaptation_indication id ind) = refl
sctp_print_notification-assoc f (partial_delivery_event id) = refl
sctp_print_notification-assoc f (shutdown_event id) = refl
sctp_print_notification-assoc f (authentication_indication id type) = refl
sctp_print_notification-assoc f (sender_dry_event id type) = refl
sctp_print_notification-assoc f (other_type type) = refl
