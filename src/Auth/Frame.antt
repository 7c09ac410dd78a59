-- ===== src/Auth/Frame.antt =====
-- The calls that both protocols make leave alone what the login is decided by.
use gexcloud.Auth.Privsep.{account_check, privsep_start_pam, root_refused}
use gexcloud.Pam.Frame.{do_pam_account-SameLogin, start_pam-SameLogin}
use gexcloud.Server.Env.{Env}
use gexcloud.Server.Frame.{SameLogin, Within, login_rules}
use gexcloud.Text.{Bytes}

module _ (env : Env) where
  pub account_check-SameLogin : Within SameLogin (account_check env)
  unfolding account_check
  account_check-SameLogin = search (login_rules, do_pam_account-SameLogin)

  pub privsep_start_pam-SameLogin : Within SameLogin (privsep_start_pam env)
  unfolding privsep_start_pam
  privsep_start_pam-SameLogin = search (login_rules, start_pam-SameLogin)

  pub root_refused-SameLogin : (method : Bytes) → Within SameLogin (root_refused env method)
  unfolding root_refused
  root_refused-SameLogin method = search login_rules depth 8
