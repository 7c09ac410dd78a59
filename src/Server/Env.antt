-- ===== src/Server/Env.antt =====
-- The code and the machine around the three files. Each call is answered by a function of the
-- history, so a program proved for every `Env` is proved whatever the outside answers, and an
-- answer may change from call to call. Where an answer is an `Option`, `none` is the failure that
-- the source tests for, or, for the packet layer, the end of the process inside the call.
use gexcloud.Base.{Bool, List, Option, ℕ}
use gexcloud.Server.Event.{History, MethodId}
use gexcloud.Server.Pam.{Dialog, PamCode, PamItem}
use gexcloud.Server.State.{Answered, Forwarding, Passwd, Server, WaitStatus}
use gexcloud.Text.{Bytes}

-- The part of `ServerOptions` that is read, as getpwnamallow leaves it: it applies the Match blocks
-- of the user, and no option is read before it is called.
pub record ServerOptions : Type 0 where
  pub use_pam : Bool
  pub permit_empty_passwd : Bool
  pub password_authentication : Bool
  pub rsa_authentication : Bool
  pub rhosts_rsa_authentication : Bool
  pub challenge_response_authentication : Bool
  pub kerberos_authentication : Bool
  pub kerberos_or_local_passwd : Bool
  pub permit_root_login_yes : Bool
  pub max_authtries : ℕ
  pub banner : Option Bytes

-- The preprocessor symbols that stay open: KRB5, SSH_AUDIT_EVENTS, GSSAPI, JPAKE, PAM_TTY_KLUDGE,
-- HAVE_PAM_PUTENV, HAVE_PAM_GETENVLIST and SSHPAM_CHAUTHTOK_NEEDS_RUID.
pub record Build : Type 0 where
  pub krb5 : Bool
  pub audit_events : Bool
  pub gssapi : Bool
  pub jpake : Bool
  pub tty_kludge : Bool
  pub have_putenv : Bool
  pub have_getenvlist : Bool
  pub needs_ruid : Bool

-- What a method of SSH2 leaves behind: its result and the two flags it may set.
pub record Userauth : Type 0 where
  pub authenticated : ℕ
  pub postponed : Bool
  pub server_caused_failure : Bool

pub data Fork : Type 0 where
  fork_failed in_child : Fork
  in_parent : ℕ → Fork

pub record Env : Type 0 where
  pub options : ServerOptions
  pub build : Build
  pub use_privsep : Bool
  pub is_monitor : Bool
  pub compat20 : Bool
  pub bug_banner : Bool
  pub getuid : ℕ
  pub fakepw : Passwd
  -- packet layer
  pub packet_get_string : History → Option Bytes
  pub packet_get_cstring : History → Option Bytes
  pub packet_get_int : History → Option ℕ
  pub packet_get_bignum : History → Option ℕ
  pub packet_check_eom : History → Bool
  pub packet_read_expect : History → Bool
  -- authentication back ends
  pub auth_password : Bytes → Server → Answered ℕ
  pub auth_rsa : ℕ → Server → Answered ℕ
  pub auth_rhosts_rsa : Bytes → Server → Answered ℕ
  pub get_challenge : Server → Answered (Option Bytes)
  pub verify_response : Bytes → Server → Answered ℕ
  pub getpwnamallow : Bytes → History → Option Passwd
  pub auth_root_allowed : Bytes → History → Bool
  -- disable_forwarding (auth-options.c) sets the three flags
  pub disable_forwarding : Forwarding → Forwarding
  pub bn_new : History → Bool
  pub method_name : MethodId → Bytes
  pub method_enabled : MethodId → History → Option Bool
  pub userauth : MethodId → Server → Answered (Option Userauth)
  -- monitor
  pub mm_do_pam_account : Server → Answered ℕ
  pub mm_auth2_read_banner : History → Option Bytes
  -- files
  pub open_banner : History → Bool
  pub fstat_size : History → Option ℕ
  pub read_file : ℕ → History → Bytes
  -- libpam
  pub pam_max_num_msg : ℕ
  pub pam_start : Bytes → History → PamCode
  pub pam_set_item : PamItem → History → PamCode
  pub pam_get_user : History → PamCode
  pub pam_user : History → Bytes
  pub pam_authenticate : Bool → History → Dialog
  pub pam_acct_mgmt : History → Dialog
  pub pam_chauthtok : History → Dialog
  pub pam_setcred : Bool → History → Dialog
  pub pam_open_session : History → Dialog
  pub setreuid : ℕ → History → Bool
  pub pam_putenv : Bytes → History → PamCode
  pub pam_getenvlist : History → Option (List Bytes)
  pub pam_strerror : PamCode → Bytes
  -- memory, terminal
  pub calloc : History → Bool
  pub strdup : History → Bool
  pub isatty : History → Bool
  pub fgets : History → Option Bytes
  pub read_passphrase : History → Option Bytes
  -- processes, signals, sockets
  pub socketpair : History → Option (ℕ × ℕ)
  pub fork : History → Fork
  pub waitpid : ℕ → History → Option WaitStatus
  pub tz : Option Bytes
  pub setenv : History → Bool
  pub ssh_msg_send : History → Bool
  pub ssh_msg_recv : History → Option (PamCode × Bytes)
  -- buffer.c: what a put appends, and what a get takes off the front
  pub put_int : ℕ → Bytes
  pub put_cstring : Bytes → Bytes
  pub get_int : Bytes → Option (ℕ × Bytes)
  pub get_string : Bytes → Option (Bytes × Bytes)
