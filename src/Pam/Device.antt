-- ===== src/Pam/Device.antt =====
-- sshpam_device: the keyboard-interactive device, as the parent of the PAM process sees it.
pub mod Prompts
pub mod Admitted
pub mod Marks
pub mod Judged
pub mod Unmarked
pub mod Interface
pub mod Lifetime
pub mod Vouched
pub mod Frame
pub mod Opening
pub mod Started
use gexcloud.Base.{
  Bool, List, Option, [], false, if◌then◌else◌, length, none, not, some, take, true, ℕ, ◌&&◌, ◌++◌,
  ◌+◌, ◌-◌, ◌==◌, ◌||◌, ◌∷◌,
}
use gexcloud.Pam.Account.{set_account_status}
use gexcloud.Pam.Context.{append_loginmsg, load_ctxt, modify_pam, sshpam_authctxt_pw, store_ctxt}
use gexcloud.Pam.Environment.{buffer_get_string, import_environments}
use gexcloud.Pam.Handle.{sshpam_init}
use gexcloud.Pam.Process.{pthread_create, sshpam_thread_cleanup, zeroed}
use gexcloud.Pam.Thread.{sshpam_thread}
use gexcloud.Server.Env.{Env}
use gexcloud.Server.Event.{called_socketpair, closed, msg_sent}
use gexcloud.Server.Monad.{
  M, ask, emit, fatal, gets, halt_if, match_option, ok, pure, root_authenticated, skip, undefined,
  ◌>>=◌, ◌>>◌,
}
use gexcloud.Server.Pam.{
  PamCode, pam_acct_expired, pam_auth_err, pam_authtok, pam_error_msg, pam_prompt_echo_off,
  pam_prompt_echo_on, pam_success, pam_text_info,
}
use gexcloud.Server.State.{PamCtxt, PamDone, failed, running, succeeded}
use gexcloud.Text.{Bytes, c_string}

-- What sshpam_query leaves in its out parameters. `num` and `echo_on` are `none` where they were
-- not written; `answered` is false where it returns -1.
pub record Query : Type 0 where
  pub answered : Bool
  pub info : Bytes
  pub num : Option ℕ
  pub prompt : Option Bytes
  pub echo_on : Option Bool

-- The query of a login that PAM has let in.
abbrev pub let_in : Query
let_in = record { answered = true; info = []; num = some 0; prompt = none; echo_on = some false }

-- A failure that leaves `*num` and `**echo_on` as `num` and `echo` say.
abbrev pub no_answer : Option Bytes → Option ℕ → Option Bool → Query
no_answer prompt num echo = record {
  answered = false;
  info = [];
  num = num;
  prompt = prompt;
  echo_on = echo;
}

abbrev pub text_of : Option Bytes → Bytes
text_of none = []
text_of (some t) = t

-- `len = plen + mlen + 1; strlcpy(**prompts + plen, msg, len - plen);`: strlcpy keeps one byte
-- of its size for the NUL.
unfoldable pub add_prompt : Option Bytes → Bytes → Bytes
add_prompt prompts msg =
    let plen = length (text_of prompts) in
    let len = plen + length msg + 1 in text_of prompts ++ take (len - plen - 1) msg

-- The same with `+ 2`, and then, `mlen` further on, `strlcat(…, "\n", len - plen)`.
unfoldable pub add_message : Option Bytes → Bytes → Bytes
add_message prompts msg =
    let plen = length (text_of prompts) in
    let len = plen + length msg + 2 in
    text_of prompts
    ++ (take (len - plen - 1) msg ++ take (len - (plen + length msg) - 1) (b'\n' ∷ []))

unfoldable pub set_done : ℕ → PamDone → M (Unit {0})
set_done p d = do ctxt ← load_ctxt p; store_ctxt p (some (record ctxt { pam_done = d }))

-- Accumulated messages go to the login message.
abbrev pub drain : Option Bytes → M (Unit {0})
drain none = skip
drain (some t) = append_loginmsg t

-- What sshpam_respond returns: 0, 1 and -1.
pub data Respond : Type 0 where
  respond_done respond_more respond_error : Respond

abbrev pub fresh_ctxt : ℕ → ℕ → PamCtxt
fresh_ctxt psock csock = record {
  pam_thread = 0;
  pam_psock = some psock;
  pam_csock = some csock;
  pam_done = running;
}

-- xcalloc appends a new object to the heap; its pointer is the length before.
abbrev pub allocate : PamCtxt → M ℕ
allocate ctxt s = (
  ok (length s.pam.contexts),
  record s { pam = record s.pam { contexts = s.pam.contexts ++ some ctxt ∷ [] } },
)

module _ (env : Env) where
  -- From the end of `case PAM_AUTH_ERR:` into `default:`. The message for the log reads
  -- sshpam_authctxt.
  abbrev pub query_refused : ℕ → Option Bytes → M Query
  query_refused p prompts = do
    drain prompts
    known ← gets (λ s. s.pam.authctxt_set)
    halt_if (not known) undefined
    set_done p failed
    pure (no_answer none (some 0) (some false))

  -- With messages at hand the failure is shown first: they become `*info`.
  unfoldable pub query_failed : ℕ → Option Bytes → M Query
  query_failed p (some (c ∷ text)) = do
    set_done p failed
    pure (record {
      answered = true;
      info = c ∷ text;
      num = some 0;
      prompt = none;
      echo_on = some false;
    })
  query_failed p prompts = query_refused p prompts

  unfoldable pub query_succeeded : ℕ → Option Bytes → Bytes → M Query
  query_succeeded p prompts payload = do
    drain prompts
    pw ← sshpam_authctxt_pw
    halt_if (pw.pw_uid == 0 && not env.options.permit_root_login_yes) (fatal root_authenticated)
    import_environments env payload
    set_done p succeeded
    pure let_in

  abbrev pub query_prompted : Option Bytes → Bytes → Bool → Query
  query_prompted prompts msg echo = record {
    answered = true;
    info = [];
    num = some 1;
    prompt = some (add_prompt prompts msg);
    echo_on = some echo;
  }

  -- The loop over the messages that arrive on `pam_psock`. At the end of the list ssh_msg_recv
  -- fails: the peer has closed the socket.
  unfoldable pub query_loop : ℕ → Option Bytes → List (PamCode × Bytes) → M Query
  query_loop p prompts [] = pure (no_answer prompts none none)
  query_loop p prompts ((type, payload) ∷ inbox) = do
    taken ← buffer_get_string env payload
    let msg = c_string taken.0
    elim type [
      | pam_prompt_echo_on ↦ pure (query_prompted prompts msg true)
      | pam_prompt_echo_off ↦ pure (query_prompted prompts msg false)
      | pam_error_msg ↦ query_loop p (some (add_message prompts msg)) inbox
      | pam_text_info ↦ query_loop p (some (add_message prompts msg)) inbox
      | pam_acct_expired ↦ do set_account_status 0; query_failed p prompts
      | pam_auth_err ↦ query_failed p prompts
      | pam_success ↦ query_succeeded p prompts taken.1
      | _ ↦ do set_done p failed; pure (no_answer prompts (some 0) (some false))
    ]

  -- `ssh_msg_recv(ctxt->pam_psock, …)` reads the object, which nothing frees while the loop runs.
  unfoldable pub sshpam_query : ℕ → List (PamCode × Bytes) → M Query
  sshpam_query p inbox = do load_ctxt p; query_loop p none inbox

  abbrev pub send_response : Option ℕ → Bytes → M Respond
  send_response psock resp = do
    delivered ← ask (msg_sent psock pam_authtok (env.put_cstring resp)) env.ssh_msg_send
    pure (if delivered then respond_more else respond_error)

  -- `num` is the number of responses, and `resp` the first of them.
  unfoldable pub sshpam_respond : ℕ → ℕ → Bytes → M Respond
  sshpam_respond p num resp = do
    ctxt ← load_ctxt p
    elim ctxt.pam_done [
      | succeeded ↦ do modify_pam (λ q. record q { authenticated = true }); pure respond_done
      | running ↦ if not (num == 1) then pure respond_error else send_response ctxt.pam_psock resp
      | failed ↦ pure respond_error
    ]

  unfoldable pub sshpam_free_ctx : ℕ → M (Unit {0})
  sshpam_free_ctx p = do sshpam_thread_cleanup env; store_ctxt p none

  unfoldable pub start_thread : ℕ → ℕ × ℕ → M (Option ℕ)
  start_thread p (psock, csock) = do
    started ← pthread_create env (sshpam_thread env) p
    if started
        then (do modify_pam (λ q. record q { cleanup_ctxt = some p }); pure (some p))
        else do emit (closed (some psock)); emit (closed (some csock)); store_ctxt p none; pure none

  -- From `ctxt = xcalloc(1, sizeof *ctxt);` on.
  abbrev pub set_up : M (Option ℕ)
  set_up = do
    p ← allocate zeroed
    socks ← ask called_socketpair env.socketpair
    match_option socks (do store_ctxt p none; pure none)
        λ (psock, csock). do
          store_ctxt p (some (fresh_ctxt psock csock))
          start_thread p (psock, csock)

  unfoldable pub sshpam_init_ctx : M (Option ℕ)
  sshpam_init_ctx = do
    status ← gets (λ s. s.pam.account_status)
    if not env.options.use_pam || status == 0
        then pure none
        else do ready ← sshpam_init env; if not ready then pure none else set_up
