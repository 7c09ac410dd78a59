-- ===== src/Server/Event.antt =====
-- What the process does to the outside: packets, log lines and calls. The list of events, newest
-- first, is the history that the environment answers by.
use gexcloud.Base.{Bool, List, Option, ℕ}
use gexcloud.Server.Pam.{PamCode, PamItem}
use gexcloud.Text.{Bytes}

-- The table `authmethods` of auth2.c has pointers to these.
pub data MethodId : Type 0 where
  method_none method_pubkey method_gsskeyex method_gssapi method_jpake : MethodId
  method_passwd method_kbdint method_hostbased : MethodId

pub data Packet : Type 0 where
  smsg_failure smsg_success : Packet
  smsg_auth_tis_challenge : Bytes → Packet
  userauth_banner service_accept userauth_failure : Bytes → Packet
  userauth_success : Packet

pub data AuditEvent : Type 0 where
  login_root_denied login_exceed_maxtries invalid_user : AuditEvent

-- An `int` that a method returns: a number, or -1 for "postponed".
pub data Authenticated : Type 0 where
  result : ℕ → Authenticated
  postponed : Authenticated

pub data Event : Type 0 where
  sent : Packet → Event
  -- packet layer
  got_packet : ℕ → Event
  expected_packet get_string get_cstring get_int get_bignum checked_eom : Event
  -- authentication back ends
  called_auth_password : Bytes → Event
  called_auth_rsa : ℕ → Event
  called_auth_rhosts_rsa : Bytes → ℕ → ℕ → Event
  called_get_challenge abandoned_challenge stopped_challenge stopped_jpake cleared_gssapi : Event
  called_verify_response : Bytes → Event
  called_getpwnamallow called_auth_root_allowed : Bytes → Event
  called_userauth : MethodId → Event
  logged_auth : Authenticated → Bytes → Bytes → Event
  audited : AuditEvent → Event
  called_bn_new : Event
  -- monitor
  called_mm_do_pam_account called_mm_start_pam called_mm_read_banner : Event
  informed_authserv : Bytes → Option Bytes → Option Bytes → Event
  -- files
  opened_banner stated_banner closed_banner : Event
  read_banner : ℕ → Event
  -- libpam
  called_pam_start : Bytes → Event
  called_pam_end : PamCode → Event
  called_pam_set_item : PamItem → Event
  called_pam_get_user : Event
  called_pam_authenticate : (disallow_null : Bool) → Event
  called_pam_acct_mgmt called_pam_chauthtok called_pam_open_session called_pam_close_session : Event
  called_pam_setcred : (init : Bool) → Event
  deleted_cred : Event
  called_pam_putenv : Bytes → Event
  called_setreuid : (real_uid : ℕ) → Event
  freed_string : Bytes → Event
  freed_list : List Bytes → Event
  called_pam_getenvlist : Event
  -- memory, terminal
  called_calloc called_strdup called_isatty called_fgets : Event
  called_read_passphrase printed : Bytes → Event
  -- processes, signals, sockets
  called_socketpair called_fork : Event
  closed : Option ℕ → Event
  called_waitpid : ℕ → (nohang : Bool) → Event
  killed : ℕ → Event
  msg_sent : Option ℕ → PamCode → Bytes → Event
  msg_received : Option ℕ → Event
  disabled_forwarding : Event

abbrev pub History : Type 0
History = List Event
