-- ===== src/Pam/Account.antt =====
-- sshpam_password_change_required and do_pam_account.
pub mod Bits
pub mod Decision
pub mod Ruid
use gexcloud.Base.{if◌then◌else◌, not, ℕ, ◌%◌, ◌+◌, ◌-◌, ◌/◌, ◌==◌}
use gexcloud.Pam.Context.{modify_auth, modify_pam, set_err, sshpam_authctxt_pw}
use gexcloud.Pam.Conversation.{pam_call}
use gexcloud.Server.Env.{Env}
use gexcloud.Server.Event.{called_pam_acct_mgmt, called_pam_chauthtok, called_setreuid}
use gexcloud.Server.Monad.{
  M, ask, fatal, gets, halt_if, modify, pam_authctxt_missing, pure, setreuid_failed, ◌>>=◌, ◌>>◌,
}
use gexcloud.Server.Pam.{PamCode, pam_new_authtok_reqd, pam_success}
use gexcloud.Server.State.{Forwarding}

-- `f |= 2` and `f &= ~2` on an `int` that is not negative.
abbrev pub set_bit : ℕ → ℕ
set_bit f = if (f / 2) % 2 == 1 then f else f + 2

abbrev pub clear_bit : ℕ → ℕ
clear_bit f = if (f / 2) % 2 == 1 then f - 2 else f

abbrev pub forbid : Forwarding → Forwarding
forbid f = record {
  no_port = set_bit f.no_port;
  no_agent = set_bit f.no_agent;
  no_x11 = set_bit f.no_x11;
}

abbrev pub permit : Forwarding → Forwarding
permit f = record {
  no_port = clear_bit f.no_port;
  no_agent = clear_bit f.no_agent;
  no_x11 = clear_bit f.no_x11;
}

unfoldable pub sshpam_password_change_required : ℕ → M (Unit {0})
sshpam_password_change_required reqd = do
  known ← gets (λ s. s.pam.authctxt_set)
  halt_if (not known) (fatal pam_authctxt_missing)
  modify_auth (λ a. record a { force_pwchange = reqd })
  modify (λ s. record s {
    forwarding = if reqd == 0 then permit s.forwarding else forbid s.forwarding;
  })

-- `sshpam_account_status` before the first answer: the pattern of -1.
abbrev pub undecided : ℕ
undecided = 4294967295

abbrev pub set_account_status : ℕ → M (Unit {0})
set_account_status n = modify_pam (λ p. record p { account_status = n })

-- What do_pam_account makes of the code that pam_acct_mgmt returned.
unfoldable pub account_outcome : PamCode → M ℕ
account_outcome pam_success = do set_account_status 1; pure 1
account_outcome pam_new_authtok_reqd = do
  sshpam_password_change_required 1
  set_account_status 1
  pure 1
account_outcome _ = do set_account_status 0; pure 0

module _ (env : Env) where
  unfoldable pub do_pam_account : M ℕ
  do_pam_account = do
    status ← gets (λ s. s.pam.account_status)
    if not (status == undecided) then pure status else do
      code ← pam_call env called_pam_acct_mgmt env.pam_acct_mgmt
      set_err code
      account_outcome code

  -- sshpam_chauthtok_ruid: the real uid is the user's while libpam changes the password.
  unfoldable pub sshpam_chauthtok_ruid : M PamCode
  sshpam_chauthtok_ruid = do
    known ← gets (λ s. s.pam.authctxt_set)
    halt_if (not known) (fatal pam_authctxt_missing)
    pw ← sshpam_authctxt_pw
    lowered ← ask (called_setreuid pw.pw_uid) (env.setreuid pw.pw_uid)
    halt_if (not lowered) (fatal setreuid_failed)
    code ← pam_call env called_pam_chauthtok env.pam_chauthtok
    raised ← ask (called_setreuid 0) (env.setreuid 0)
    halt_if (not raised) (fatal setreuid_failed)
    pure code

  -- `# define pam_chauthtok(a,b) (sshpam_chauthtok_ruid((a), (b)))`
  unfoldable pub pam_chauthtok : M PamCode
  pam_chauthtok =
      if env.build.needs_ruid
      then sshpam_chauthtok_ruid
      else pam_call env called_pam_chauthtok env.pam_chauthtok
