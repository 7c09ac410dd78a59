-- ===== src/Pam/Password.antt =====
-- sshpam_auth_passwd: password authentication through PAM.
pub mod Secret
use gexcloud.Base.{Bool, Option, false, if◌then◌else◌, none, not, some, true, ℕ, ◌||◌}
use gexcloud.Pam.Context.{modify_pam, set_err}
use gexcloud.Pam.Conversation.{pam_call, pam_set_item}
use gexcloud.Server.Env.{Env}
use gexcloud.Server.Event.{called_pam_authenticate}
use gexcloud.Server.Monad.{
  M, fatal, gets, halt, halt_if, pam_disabled, pam_item_failed, pure, ◌>>=◌, ◌>>◌,
}
use gexcloud.Server.Pam.{PamCode, conv_item, is_success, passwd_conv}
use gexcloud.Text.{Bytes}

abbrev pub is_none : Option ℕ → Bool
is_none none = true
is_none (some h) = false

-- The password is forgotten as soon as pam_authenticate returns.
unfoldable pub end_password : PamCode → M ℕ
end_password code = do
  set_err code
  modify_pam (λ p. record p { password = none })
  pure (if is_success code then 1 else 0)

module _ (env : Env) where
  abbrev pub ask_password : M PamCode
  ask_password =
      pam_call env (called_pam_authenticate (not env.options.permit_empty_passwd))
        (env.pam_authenticate (not env.options.permit_empty_passwd))

  unfoldable pub try_password : M ℕ
  try_password = do code ← ask_password; end_password code

  unfoldable pub with_password : Bytes → M ℕ
  with_password password = do
    modify_pam (λ p. record p { password = some password; authctxt_set = true })
    code ← pam_set_item env (conv_item passwd_conv)
    set_err code
    halt_if (not (is_success code)) (fatal pam_item_failed)
    try_password

  unfoldable pub sshpam_auth_passwd : Bytes → M ℕ
  sshpam_auth_passwd password = do
    handle ← gets (λ s. s.pam.handle)
    if not env.options.use_pam || is_none handle
        then halt (fatal pam_disabled)
        else with_password password
