-- ===== src/Ssh1/Round.antt =====
-- One round of the loop of do_authloop: from packet_read to the reply.
pub mod Tries
pub mod Same
pub mod Waits
pub mod Denial
pub mod Settles
use gexcloud.Auth.Checks.{check_root, check_valid, is_zero}
use gexcloud.Auth.Privsep.{account_check, audit}
use gexcloud.Base.{
  [], false, get_elem?, if◌then◌else◌, leb, length, none, not, set, some, suc, true, zero, ℕ, ◌&&◌,
  ◌++◌, ◌+◌, ◌==◌, ◌∷◌,
}
use gexcloud.Pam.Context.{modify_auth}
use gexcloud.Server.Env.{Env}
use gexcloud.Server.Event.{
  Authenticated, abandoned_challenge, got_packet, logged_auth, login_exceed_maxtries, postponed,
  result, sent, smsg_failure,
}
use gexcloud.Server.Monad.{
  M, disconnect, emit, gets, halt, halt_if, match_option, modify, pam_message, pure, skip,
  too_many_failures, when, ◌>>=◌, ◌>>◌,
}
use gexcloud.Ssh1.Methods.{
  AuthMethod1, get_authname, lookup_authmethod1, run_method, ssh_cmsg_auth_tis,
  ssh_cmsg_auth_tis_response,
}
use gexcloud.Text.{Bytes, c_string, codes}

-- How a round ends: `continue` with no reply, `return`, or the failure reply.
pub data Verdict : Type 0 where
  waiting accepted rejected : Verdict

-- `while (len > 0 && msg[--len] == '\n') msg[len] = '\0';`
unfoldable pub strip_newlines : ℕ → Bytes → Bytes
strip_newlines zero msg = msg
strip_newlines (suc len) msg = elim (get_elem? msg len) [
  | none ↦ msg
  | some c ↦ elim (c == b'\n') [ true ↦ strip_newlines len (set msg len 0) | false ↦ msg ]
]

-- What packet_disconnect shows of the login message that PAM left.
unfoldable pub denial_text : Bytes → Bytes
denial_text [] = codes "Access denied."
denial_text (c ∷ text) = c_string (strip_newlines (length (c ∷ text)) (c ∷ text ++ 0 ∷ []))

module _ (env : Env) where
  -- `if (prev == SSH_CMSG_AUTH_TIS && type != SSH_CMSG_AUTH_TIS_RESPONSE) …`
  unfoldable pub abandon_stale : ℕ → ℕ → M (Unit {0})
  abandon_stale prev type =
      when (prev == ssh_cmsg_auth_tis && not (type == ssh_cmsg_auth_tis_response))
        (emit abandoned_challenge)

  -- The PAM account check: a refusal ends the connection with PAM's text.
  unfoldable pub show_denial : ℕ → M (Unit {0})
  show_denial allowed = do
    text ← gets (λ s. s.loginmsg)
    halt_if (is_zero allowed) (disconnect (pam_message (denial_text text)))

  unfoldable pub require_account : M (Unit {0})
  require_account = account_check env >>= show_denial

  unfoldable pub check_account : ℕ → M (Unit {0})
  check_account authenticated =
      if env.options.use_pam && not (is_zero authenticated) then require_account else skip

  -- From `skip:` to the end of the body.
  unfoldable pub reply_round : ℕ → ℕ → Bytes → M Verdict
  reply_round type authenticated info = do
    emit (logged_auth (result authenticated) (get_authname type) info)
    modify (λ s. record s { client_user = none })
    if not (is_zero authenticated) then pure accepted else do
      modify_auth (λ a. record a { failures = a.failures + 1 })
      failures ← gets (λ s. s.auth.failures)
      if leb env.options.max_authtries failures
          then (do audit env login_exceed_maxtries; halt (disconnect too_many_failures))
          else do emit (sent smsg_failure); pure rejected

  -- What follows a method that was run.
  unfoldable pub judge_method : ℕ → Bytes → Authenticated × Bytes → M Verdict
  judge_method type name (postponed, info) = pure waiting
  judge_method type name (result authenticated, info) = do
    check_valid env authenticated
    granted ← check_root env name authenticated
    check_account granted
    reply_round type granted info

  -- A method of the table, if it is enabled.
  unfoldable pub try_method : ℕ → AuthMethod1 → M Verdict
  try_method type meth =
      if meth.enabled env.options
      then (do outcome ← run_method env meth.method; judge_method type meth.name outcome)
      else reply_round type 0 []

  unfoldable pub try_type : ℕ → M Verdict
  try_type type = match_option (lookup_authmethod1 type) (reply_round type 0 []) (try_method type)

  unfoldable pub limit_or_try : ℕ → M Verdict
  limit_or_try type = do
    failures ← gets (λ s. s.auth.failures)
    if leb env.options.max_authtries failures then reply_round type 0 [] else try_type type

  unfoldable pub auth_round : ℕ → ℕ → M Verdict
  auth_round prev type = do emit (got_packet type); abandon_stale prev type; limit_or_try type
