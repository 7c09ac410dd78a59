-- ===== src/Pam/Thread.antt =====
-- sshpam_thread: the body of the process that runs the PAM modules.
pub mod Report
pub mod Truth
use gexcloud.Base.{
  Bool, List, Option, [], false, if◌then◌else◌, none, not, some, true, ℕ, ◌++◌, ◌==◌, ◌∷◌,
}
use gexcloud.Pam.Account.{do_pam_account, pam_chauthtok, sshpam_password_change_required}
use gexcloud.Pam.Context.{load_ctxt, set_err}
use gexcloud.Pam.Conversation.{pam_call, pam_set_item}
use gexcloud.Pam.Environment.{export_environments, pam_getenvlist}
use gexcloud.Pam.Process.{pthread_exit}
use gexcloud.Server.Env.{Env}
use gexcloud.Server.Event.{called_pam_authenticate, called_pam_get_user, msg_sent}
use gexcloud.Server.Monad.{
  M, ask, fatal, gets, halt_if, modify, pam_authctxt_missing, undefined, ◌>>=◌, ◌>>◌,
}
use gexcloud.Server.Pam.{
  PamCode, conv_item, is_success, pam_acct_expired, pam_auth_err, thread_conv,
}
use gexcloud.Server.State.{PamCtxt}
use gexcloud.Text.{Bytes, codes}

module _ (env : Env) where
  -- `ssh_msg_send(ctxt->pam_csock, type, &buffer); … pthread_exit(NULL);`
  abbrev pub send_and_exit : PamCtxt → PamCode → Bytes → M (Unit {0})
  send_and_exit ctxt type payload = do
    ask (msg_sent ctxt.pam_csock type payload) env.ssh_msg_send
    pthread_exit env

  abbrev pub failure_type : PamCode → PamCode
  failure_type pam_acct_expired = pam_acct_expired
  failure_type _ = pam_auth_err

  -- `auth_fail:`
  unfoldable pub auth_fail : PamCtxt → PamCode → M (Unit {0})
  auth_fail ctxt code = do
    set_err code
    send_and_exit ctxt (failure_type code) (env.put_cstring (env.pam_strerror code))

  -- `environ[0] = NULL;` and TZ put back
  abbrev tz_entry : Bytes → Bool → List Bytes
  tz_entry tz true = (codes "TZ=" ++ tz) ∷ []
  tz_entry tz false = []

  unfoldable pub reset_environ : Option Bytes → M (Unit {0})
  reset_environ none = modify (λ s. record s { environ = [] })
  reset_environ (some tz) = do
    modify (λ s. record s { environ = [] })
    done ← gets (λ s. env.setenv s.history)
    modify (λ s. record s { environ = tz_entry tz done })

  -- `buffer_put_cstring(&buffer, "OK");` and what is exported behind it
  abbrev pub success_payload : ℕ → ℕ → List Bytes → Option (List Bytes) → Bytes
  success_payload status force own from_pam =
      env.put_cstring (codes "OK") ++ export_environments env status force own from_pam

  unfoldable pub thread_success : PamCtxt → M (Unit {0})
  thread_success ctxt = do
    s ← gets (λ s. s)
    from_pam ← pam_getenvlist env
    send_and_exit ctxt s.pam.err
        (success_payload s.pam.account_status s.auth.force_pwchange s.environ from_pam)

  -- The expired password is changed before the login goes on.
  unfoldable pub thread_change_password : PamCtxt → M (Unit {0})
  thread_change_password ctxt = do
    code ← pam_chauthtok env
    set_err code
    if is_success code
        then (do sshpam_password_change_required 0; thread_success ctxt)
        else auth_fail ctxt code

  -- The part under `if (compat20)`.
  unfoldable pub thread_account : PamCtxt → M (Unit {0})
  thread_account ctxt = if not env.compat20 then thread_success ctxt else do
    allowed ← do_pam_account env
    if allowed == 0 then auth_fail ctxt pam_acct_expired else do
      force ← gets (λ s. s.auth.force_pwchange)
      if force == 0 then thread_success ctxt else thread_change_password ctxt

  unfoldable pub thread_authenticate : PamCtxt → M (Unit {0})
  thread_authenticate ctxt = do
    code ←
        pam_call env (called_pam_authenticate (not env.options.permit_empty_passwd))
          (env.pam_authenticate (not env.options.permit_empty_passwd))
    set_err code
    if is_success code then thread_account ctxt else auth_fail ctxt code

  -- The first `goto auth_fail` stands above `buffer_init(&buffer)`: the code behind the label
  -- then puts a string into a Buffer that was never initialised.
  unfoldable pub sshpam_thread : ℕ → M (Unit {0})
  sshpam_thread p = do
    ctxt ← load_ctxt p
    found ← ask called_pam_get_user env.pam_get_user
    set_err found
    halt_if (not (is_success found)) undefined
    reset_environ env.tz
    known ← gets (λ s. s.pam.authctxt_set)
    halt_if (not known) (fatal pam_authctxt_missing)
    code ← pam_set_item env (conv_item (thread_conv p))
    set_err code
    if is_success code then thread_authenticate ctxt else auth_fail ctxt code
