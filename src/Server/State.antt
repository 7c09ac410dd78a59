-- ===== src/Server/State.antt =====
-- The state that the three files keep.
use gexcloud.Base.{Bool, List, Option, ℕ}
use gexcloud.Server.Event.{History}
use gexcloud.Server.Pam.{Conv, PamCode}
use gexcloud.Text.{Bytes}

-- struct passwd, as far as it is read
pub record Passwd : Type 0 where
  pub pw_name : Bytes
  pub pw_uid : ℕ

-- The status of `waitpid`.
pub data WaitStatus : Type 0 where
  exited : ℕ → WaitStatus
  terminated signaled : WaitStatus

-- `no_port_forwarding_flag`, `no_agent_forwarding_flag` and `no_x11_forwarding_flag`
pub record Forwarding : Type 0 where
  pub no_port : ℕ
  pub no_agent : ℕ
  pub no_x11 : ℕ

-- Authctxt (auth.h), as far as the files read or write it. The two counters are `int`s that stay
-- far below 2^31: `failures` never passes MaxAuthTries by more than one, `attempt` counts
-- packets of one connection.
pub record Authctxt : Type 0 where
  pub success : Bool
  pub valid : Bool
  pub postponed : Bool
  pub server_caused_failure : Bool
  pub force_pwchange : ℕ
  pub attempt : ℕ
  pub failures : ℕ
  pub user : Option Bytes
  pub service : Option Bytes
  pub style : Option Bytes
  pub role : Option Bytes
  pub pw : Option Passwd

-- `pam_done`: 0 before the thread has ended, 1 after success, -1 after failure.
pub data PamDone : Type 0 where
  running succeeded failed : PamDone

-- struct pam_ctxt: a descriptor is `none` once it is -1, and `memset` sets it to 0.
pub record PamCtxt : Type 0 where
  pub pam_thread : ℕ
  pub pam_psock : Option ℕ
  pub pam_csock : Option ℕ
  pub pam_done : PamDone

pub data Disposition : Type 0 where
  sig_dfl sigchld_handler sig_other : Disposition

-- The statics of auth-pam_next.c. `contexts` is the part of the heap that holds its pam_ctxt
-- objects: a pointer is an index, and a freed object is `none`. `sshpam_authctxt` points to the
-- connection's Authctxt or is NULL. `account_status` is the 32-bit pattern of the `int`.
pub record Pam : Type 0 where
  pub handle : Option ℕ
  pub err : PamCode
  pub authenticated : Bool
  pub session_open : Bool
  pub cred_established : Bool
  pub account_status : ℕ
  pub child_env : Option (List Bytes)
  pub authctxt_set : Bool
  pub password : Option Bytes
  pub conv : Conv
  pub contexts : List (Option PamCtxt)
  pub cleanup_ctxt : Option ℕ
  pub thread_status : Option WaitStatus
  pub oldsig : Disposition
  pub sigchld : Disposition

-- The handlers that auth2.c puts into the dispatch table.
pub data Handler : Type 0 where
  protocol_error on_service_request on_userauth_request protocol_ignore : Handler

pub record Dispatch : Type 0 where
  pub service_request : Handler
  pub userauth_request : Handler

pub record Server : Type 0 where
  pub auth : Authctxt
  pub pam : Pam
  pub forwarding : Forwarding
  pub dispatch : Dispatch
  pub loginmsg : Bytes
  pub client_user : Option Bytes
  pub environ : List Bytes
  pub history : History

-- What the authentication code of other files may change: it calls PAM, adds to the login
-- message, and sets forwarding flags by the options of a key.
pub record Shared : Type 0 where
  pub pam : Pam
  pub forwarding : Forwarding
  pub loginmsg : Bytes
  pub force_pwchange : ℕ

abbrev pub shared : Server → Shared
shared s = record {
  pam = s.pam;
  forwarding = s.forwarding;
  loginmsg = s.loginmsg;
  force_pwchange = s.auth.force_pwchange;
}

abbrev pub adopt : Shared → Server → Server
adopt l s = record s {
  auth = record s.auth { force_pwchange = l.force_pwchange };
  pam = l.pam;
  forwarding = l.forwarding;
  loginmsg = l.loginmsg;
}

-- An answer of such code, and what it leaves behind.
pub record Answered (A : Type 0) : Type 0 where
  pub value : A
  pub left : Shared
