-- ===== src/Ssh1/Round/Waits.antt =====
-- No step of a round of protocol 1 waits for a packet but the first.
use gexcloud.Auth.Checks.{check_root, check_valid}
use gexcloud.Auth.Privsep.{account_check, audit, root_refused}
use gexcloud.Base.{ℕ}
use gexcloud.Pam.Waits.{do_pam_account-NoQuit}
use gexcloud.Server.Env.{Env}
use gexcloud.Server.Event.{AuditEvent, Authenticated, postponed, result}
use gexcloud.Server.Stops.{NoQuit, NoQuit-pure, stop_rules}
use gexcloud.Ssh1.Methods.{
  AuthMethod1, Method, auth1_process_password, auth1_process_rhosts_rsa, auth1_process_rsa,
  auth1_process_tis_challenge, auth1_process_tis_response, process_password, process_rhosts_rsa,
  process_rsa, process_tis_challenge, process_tis_response, run_method,
}
use gexcloud.Ssh1.Round.{
  abandon_stale, auth_round, check_account, judge_method, limit_or_try, reply_round,
  require_account, show_denial, try_method, try_type, waiting,
}
use gexcloud.Text.{Bytes}

module _ (env : Env) where
  audit-NoQuit : (e : AuditEvent) → NoQuit (audit env e)
  audit-NoQuit e = search stop_rules

  pub account-NoQuit : NoQuit (account_check env)
  unfolding account_check
  account-NoQuit = search (stop_rules, do_pam_account-NoQuit)

  root_refused-NoQuit : (name : Bytes) → NoQuit (root_refused env name)
  unfolding root_refused
  root_refused-NoQuit name = search stop_rules depth 8

  check_valid-NoQuit : (n : ℕ) → NoQuit (check_valid env n)
  unfolding check_valid
  check_valid-NoQuit n = search stop_rules

  check_root-NoQuit : (name : Bytes) (n : ℕ) → NoQuit (check_root env name n)
  unfolding check_root
  check_root-NoQuit name n = search (stop_rules, root_refused-NoQuit, audit-NoQuit) depth 8

  check_account-NoQuit : (n : ℕ) → NoQuit (check_account env n)
  unfolding check_account require_account show_denial
  check_account-NoQuit n = search (stop_rules, account-NoQuit) depth 10

  reply-NoQuit : (type n : ℕ) (info : Bytes) → NoQuit (reply_round env type n info)
  unfolding reply_round
  reply-NoQuit type n info = search (stop_rules, audit-NoQuit) depth 12

  run_method-NoQuit : (m : Method) → NoQuit (run_method env m)
  unfolding run_method auth1_process_password auth1_process_rsa auth1_process_rhosts_rsa
      auth1_process_tis_challenge auth1_process_tis_response
  run_method-NoQuit process_password = search stop_rules depth 10
  run_method-NoQuit process_rsa = search stop_rules depth 12
  run_method-NoQuit process_rhosts_rsa = search stop_rules depth 20
  run_method-NoQuit process_tis_challenge = search stop_rules depth 10
  run_method-NoQuit process_tis_response = search stop_rules depth 10

  judge-NoQuit :
      (type : ℕ) (name : Bytes) (o : Authenticated × Bytes) → NoQuit (judge_method env type name o)
  unfolding judge_method
  judge-NoQuit type name (postponed, info) = NoQuit-pure waiting
  judge-NoQuit type name (result n, info) =
      search (stop_rules, check_valid-NoQuit, check_root-NoQuit, check_account-NoQuit, reply-NoQuit)
        depth 8

  try_method-NoQuit : (type : ℕ) (meth : AuthMethod1) → NoQuit (try_method env type meth)
  unfolding try_method
  try_method-NoQuit type meth =
      search (stop_rules, run_method-NoQuit, judge-NoQuit, reply-NoQuit) depth 8

  pub auth_round-NoQuit : (prev type : ℕ) → NoQuit (auth_round env prev type)
  unfolding auth_round abandon_stale limit_or_try try_type
  auth_round-NoQuit prev type = search (stop_rules, try_method-NoQuit, reply-NoQuit) depth 10
