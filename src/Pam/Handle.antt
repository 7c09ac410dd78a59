-- ===== src/Pam/Handle.antt =====
-- The life of the PAM handle: sshpam_init, start_pam, sshpam_cleanup and finish_pam.
pub mod Closed
pub mod Opened
use gexcloud.Base.{Bool, false, if◌then◌else◌, length, none, not, some, true, ℕ, ◌&&◌}
use gexcloud.Pam.Context.{modify_pam, set_err}
use gexcloud.Pam.Conversation.{pam_set_item}
use gexcloud.Server.Env.{Env}
use gexcloud.Server.Event.{
  called_pam_close_session, called_pam_end, called_pam_get_user, called_pam_start, deleted_cred,
}
use gexcloud.Server.Monad.{
  M, ask, emit, fatal, gets, halt_if, match_option, or_halt, pam_disabled, pam_init_failed, pure,
  skip, undefined, when, ◌>>=◌, ◌>>◌,
}
use gexcloud.Server.Pam.{
  PamItem, conv_item, is_success, null_conv, rhost_item, store_conv, tty_item,
}
use gexcloud.Server.State.{Pam}
use gexcloud.Text.{Bytes, codes, str_eq}

abbrev pub drop_handle : M (Unit {0})
drop_handle = modify_pam (λ p. record p { handle = none })

-- `pam_end(sshpam_handle, sshpam_err); sshpam_handle = NULL;`
unfoldable pub end_handle : M (Unit {0})
end_handle = do code ← gets (λ s. s.pam.err); emit (called_pam_end code); drop_handle

module _ (env : Env) where
  -- A failed step ends the handle, and sshpam_init returns -1 (here `false`).
  unfoldable pub set_item_or_end : PamItem → M Bool → M Bool
  set_item_or_end item rest = do
    code ← pam_set_item env item
    set_err code
    if is_success code then rest else do end_handle; pure false

  -- PAM_TTY is set only where PAM_TTY_KLUDGE is defined.
  abbrev pub set_first_items : M Bool
  set_first_items = set_item_or_end rhost_item (
      if env.build.tty_kludge
      then set_item_or_end (tty_item (codes "ssh")) (pure true)
      else pure true)

  -- pam_start registers store_conv, whatever it returns, in the handle that it makes. A handle is
  -- named by the number of events before it.
  abbrev opened : ℕ → Pam → Pam
  opened n p = record p { handle = some n; conv = store_conv; authctxt_set = true }

  unfoldable pub open_handle : Bytes → M Bool
  open_handle user = do
    code ← ask (called_pam_start user) (env.pam_start user)
    name ← gets (λ s. length s.history)
    modify_pam (opened name)
    set_err code
    if is_success code then set_first_items else do end_handle; pure false

  -- The handle is kept if it is for the same user.
  unfoldable pub same_user : Bytes → M Bool
  same_user user = do
    code ← ask called_pam_get_user env.pam_get_user
    set_err code
    gets (λ s. is_success code && str_eq user (env.pam_user s.history))

  unfoldable pub sshpam_init : M Bool
  sshpam_init = do
    known ← gets (λ s. s.auth.user)
    user ← or_halt known undefined
    old ← gets (λ s. s.pam.handle)
    match_option old (open_handle user)
        λ h. do same ← same_user user; if same then pure true else do end_handle; open_handle user

  unfoldable pub start_pam : M (Unit {0})
  start_pam = do
    halt_if (not env.options.use_pam) (fatal pam_disabled)
    done ← sshpam_init
    halt_if (not done) (fatal pam_init_failed)

  abbrev close_session : M (Unit {0})
  close_session = do
    is_open ← gets (λ s. s.pam.session_open)
    when is_open
        (do emit called_pam_close_session; modify_pam (λ p. record p { session_open = false }))

  abbrev delete_cred : M (Unit {0})
  delete_cred = do
    established ← gets (λ s. s.pam.cred_established)
    when established (do emit deleted_cred; modify_pam (λ p. record p { cred_established = false }))

  abbrev cleanup_handle : M (Unit {0})
  cleanup_handle = do
    pam_set_item env (conv_item null_conv)
    close_session
    delete_cred
    modify_pam (λ p. record p { authenticated = false })
    end_handle

  unfoldable pub sshpam_cleanup : M (Unit {0})
  sshpam_cleanup = do
    handle ← gets (λ s. s.pam.handle)
    match_option handle (skip)
        λ h. if env.use_privsep && not env.is_monitor then skip else cleanup_handle

  unfoldable pub finish_pam : M (Unit {0})
  finish_pam = sshpam_cleanup
