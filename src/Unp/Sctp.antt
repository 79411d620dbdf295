-- ===== src/Unp/Sctp.antt =====
-- `sctp_print_notification` and `sctp_print_sctp_info` of util/unp.c. A notification is the member of its
-- union that `sn_type` selects, with the fields the function reads. `sock_ntop` is an argument, from the
-- address to its text or NULL, and an association id is a 32-bit word.
pub mod Labels
use Prim.Native.String.{String}
use unix_advanced_programing.Prelude.{ℕ, Option, none, some, List, [], ◌∷◌}
use unix_advanced_programing.Prelude.Int.{ℤ}
use unix_advanced_programing.Posix.Printf.{Arg, int, hex, text, null, Line, line}

-- `sac_state` and `spc_state`; the last constructor is a value without a case.
pub data AssocState : Type 0 where
  comm_up comm_lost restart shutdown_comp cant_str_assoc other_assoc : AssocState

pub data AddrState : Type 0 where
  addr_available addr_unreachable addr_removed addr_added addr_made_prim other_addr : AddrState

pub data Notification (A : Type 0) : Type 0 where
  assoc_change : (sac_state : AssocState) (sac_assoc_id : ℕ) → Notification A
  peer_addr_change : (spc_state : AddrState) (spc_aaddr : A) (spc_assoc_id : ℕ) → Notification A
  remote_error : (sre_assoc_id : ℕ) (sre_error : ℤ) → Notification A
  send_failed : (ssf_assoc_id : ℕ) (ssf_error : ℤ) → Notification A
  adaptation_indication : (sai_assoc_id : ℕ) (sai_adaptation_ind : ℤ) → Notification A
  partial_delivery_event : (pdapi_assoc_id : ℕ) → Notification A
  shutdown_event : (sse_assoc_id : ℕ) → Notification A
  authentication_indication : (auth_assoc_id : ℕ) (auth_type : ℤ) → Notification A
  sender_dry_event : (sender_dry_assoc_id : ℕ) (sender_dry_type : ℤ) → Notification A
  other_type : (sn_type : ℤ) → Notification A

-- `str`, in the first two cases
unfoldable pub assoc_str : AssocState → String
assoc_str comm_up = "COMMUNICATION UP"
assoc_str comm_lost = "COMMUNICATION LOST"
assoc_str restart = "REMOTE RESTART"
assoc_str shutdown_comp = "SHUTDOWN COMPLETE"
assoc_str cant_str_assoc = "CAN'T START ASSOC"
assoc_str other_assoc = "UNKNOWN"

unfoldable pub addr_str : AddrState → String
addr_str addr_available = "ADDRESS AVAILABLE"
addr_str addr_unreachable = "ADDRESS UNREACHABLE"
addr_str addr_removed = "ADDRESS REMOVED"
addr_str addr_added = "ADDRESS ADDED"
addr_str addr_made_prim = "ADDRESS MADE PRIMARY"
addr_str other_addr = "UNKNOWN"

-- A `char *` for `%s`
unfoldable pub string_arg : Option String → Arg
string_arg none = null
string_arg (some s) = text s

unfoldable pub sctp_print_notification : {A : Type 0} → (A → Option String) → Notification A → Line
unfolding assoc_str addr_str string_arg
sctp_print_notification sock_ntop (assoc_change state id) =
    line "[I] SCTP_ASSOC_CHANGE: %s, assoc=0x%x" (text (assoc_str state) ∷ hex id ∷ [])
sctp_print_notification sock_ntop (peer_addr_change state addr id) =
    line "[I] SCTP_PEER_ADDR_CHANGE: %s, addr=%s, assoc=0x%x"
      (text (addr_str state) ∷ string_arg (sock_ntop addr) ∷ hex id ∷ [])
sctp_print_notification sock_ntop (remote_error id error) =
    line "[I] SCTP_REMOTE_ERROR: assoc=0x%x errno=%d" (hex id ∷ int error ∷ [])
sctp_print_notification sock_ntop (send_failed id error) =
    line "[I] SCTP_SEND_FAILED: assoc=0x%x error=%d" (hex id ∷ int error ∷ [])
sctp_print_notification sock_ntop (adaptation_indication id ind) =
    line "[I] SCTP_ADAPTATION_INDICATION: assoc=0x%x, adapt:%d" (hex id ∷ int ind ∷ [])
sctp_print_notification sock_ntop (partial_delivery_event id) =
    line "[I] SCTP_PARTIAL_DELIVERY_EVENT: assoc=0x%x" (hex id ∷ [])
sctp_print_notification sock_ntop (shutdown_event id) =
    line "[I] SCTP_SHUTDOWN_EVENT: assoc=0x%x" (hex id ∷ [])
sctp_print_notification sock_ntop (authentication_indication id type) =
    line "[I] SCTP_AUTHENTICATION_INDICATION assoc=0x%x auth_type:%d" (hex id ∷ int type ∷ [])
sctp_print_notification sock_ntop (sender_dry_event id type) =
    line "[I] SCTP_SENDER_DRY_EVENT assoc=0x%x type:%d" (hex id ∷ int type ∷ [])
sctp_print_notification sock_ntop (other_type type) =
    line "[I] Unknown notification event type:%d" (int type ∷ [])

-- `struct sctp_sndrcvinfo`
pub record Sndrcvinfo : Type 0 where
  pub sinfo_stream : ℤ
  pub sinfo_ssn : ℤ
  pub sinfo_flags : ℤ
  pub sinfo_ppid : ℤ
  pub sinfo_context : ℤ
  pub sinfo_timetolive : ℤ
  pub sinfo_tsn : ℤ
  pub sinfo_cumtsn : ℤ
  pub sinfo_assoc_id : ℤ

unfoldable pub sctp_print_sctp_info : Option Sndrcvinfo → List Line
sctp_print_sctp_info none = []
sctp_print_sctp_info (some p) =
    line "[I] sinfo_stream:%d" (int p.sinfo_stream ∷ [])
    ∷ line "[I] sinfo_ssn:%d" (int p.sinfo_ssn ∷ [])
    ∷ line "[I] sinfo_flags:%d" (int p.sinfo_flags ∷ [])
    ∷ line "[I] sinfo_ppid:%d" (int p.sinfo_ppid ∷ [])
    ∷ line "[I] sinfo_context:%d" (int p.sinfo_context ∷ [])
    ∷ line "[I] sinfo_timetolive:%d" (int p.sinfo_timetolive ∷ [])
    ∷ line "[I] sinfo_tsn:%d" (int p.sinfo_tsn ∷ [])
    ∷ line "[I] sinfo_cumtsn:%d" (int p.sinfo_cumtsn ∷ [])
    ∷ line "[I] sinfo_assoc_id:%d" (int p.sinfo_assoc_id ∷ [])
    ∷ line "" []
    ∷ []
