-- ===== src/Pam/Session.antt =====
-- What the session code calls after authentication: credentials, the terminal, the session and
-- the change of an expired password.
pub mod Opened
pub mod Returned
use gexcloud.Base.{Bool, Option, false, if◌then◌else◌, none, not, some, true}
use gexcloud.Pam.Account.{pam_chauthtok}
use gexcloud.Pam.Context.{modify_pam, set_err}
use gexcloud.Pam.Conversation.{pam_call, pam_set_item}
use gexcloud.Server.Env.{Env}
use gexcloud.Server.Event.{called_pam_open_session, called_pam_setcred, disabled_forwarding}
use gexcloud.Server.Monad.{
  M, emit, fatal, gets, halt_if, modify, pam_call_failed, pam_item_failed, privsep_chauthtok, skip,
  ◌>>=◌, ◌>>◌,
}
use gexcloud.Server.Pam.{PamItem, conv_item, is_success, store_conv, tty_conv, tty_item}
use gexcloud.Text.{Bytes}

module _ (env : Env) where
  -- `sshpam_err = pam_set_item(…); if (sshpam_err != PAM_SUCCESS) fatal(…);`
  unfoldable pub set_item_or_die : PamItem → M (Unit {0})
  set_item_or_die item = do
    code ← pam_set_item env item
    set_err code
    halt_if (not (is_success code)) (fatal pam_item_failed)

  unfoldable pub do_pam_set_tty : Option Bytes → M (Unit {0})
  do_pam_set_tty none = skip
  do_pam_set_tty (some tty) = set_item_or_die (tty_item tty)

  -- `init` chooses between PAM_ESTABLISH_CRED and PAM_REINITIALIZE_CRED.
  unfoldable pub do_pam_setcred : Bool → M (Unit {0})
  do_pam_setcred init = do
    set_item_or_die (conv_item store_conv)
    code ← pam_call env (called_pam_setcred init) (env.pam_setcred init)
    set_err code
    if is_success code then modify_pam (λ p. record p { cred_established = true }) else do
      authenticated ← gets (λ s. s.pam.authenticated)
      halt_if authenticated (fatal pam_call_failed)

  unfoldable pub do_pam_chauthtok : M (Unit {0})
  do_pam_chauthtok = do
    halt_if env.use_privsep (fatal privsep_chauthtok)
    set_item_or_die (conv_item tty_conv)
    code ← pam_chauthtok env
    set_err code
    halt_if (not (is_success code)) (fatal pam_call_failed)

  abbrev pub session_refused : M (Unit {0})
  session_refused = do
    modify_pam (λ p. record p { session_open = false })
    emit disabled_forwarding
    modify (λ s. record s { forwarding = env.disable_forwarding s.forwarding })

  unfoldable pub do_pam_session : M (Unit {0})
  do_pam_session = do
    set_item_or_die (conv_item store_conv)
    code ← pam_call env called_pam_open_session env.pam_open_session
    set_err code
    if is_success code then modify_pam (λ p. record p { session_open = true }) else session_refused

  unfoldable pub is_pam_session_open : M Bool
  is_pam_session_open = gets (λ s. s.pam.session_open)
