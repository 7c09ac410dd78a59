-- ===== src/Ssh2/Finish.antt =====
-- userauth_finish: what becomes of the result of a method.
use gexcloud.Auth.Checks.{check_root, check_valid, is_zero}
use gexcloud.Auth.Privsep.{account_check, audit}
use gexcloud.Base.{Bool, [], if◌then◌else◌, leb, ltb, not, true, ℕ, ◌&&◌, ◌+◌, ◌==◌, ◌||◌, ◌∷◌}
use gexcloud.Pam.Context.{modify_auth}
use gexcloud.Server.Env.{Env}
use gexcloud.Server.Event.{
  logged_auth, login_exceed_maxtries, result, sent, userauth_failure, userauth_success,
}
use gexcloud.Server.Monad.{
  M, account_denied, disconnect, emit, fatal, gets, halt, modify, skip, too_many_failures, ◌>>=◌,
  ◌>>◌,
}
use gexcloud.Server.State.{Authctxt, protocol_ignore}
use gexcloud.Ssh2.Banner.{userauth_send_banner}
use gexcloud.Ssh2.Methods.{authmethods_get}
use gexcloud.Text.{Bytes, c_string, codes, str_eq}

module _ (env : Env) where
  -- PAM's message goes out as a banner before the process ends.
  unfoldable pub show_login_message : Bytes → M (Unit {0})
  show_login_message [] = skip
  show_login_message (c ∷ text) = userauth_send_banner env (c_string (c ∷ text))

  abbrev pub deny : M (Unit {0})
  deny = do text ← gets (λ s. s.loginmsg); show_login_message text; halt (fatal account_denied)

  unfoldable pub require_account : M (Unit {0})
  require_account = do allowed ← account_check env; if is_zero allowed then deny else skip

  unfoldable pub check_account : ℕ → M (Unit {0})
  check_account authenticated =
      if env.options.use_pam && not (is_zero authenticated) then require_account else skip

  unfoldable pub succeed : M (Unit {0})
  succeed = do
    modify (λ s. record s { dispatch = record s.dispatch { userauth_request = protocol_ignore } })
    emit (sent userauth_success)
    modify_auth (λ a. record a { success = true })

  -- `!server_caused_failure && (attempt > 1 || strcmp(method, "none") != 0)`
  abbrev pub counts : Bytes → Authctxt → Bool
  counts method a =
      not a.server_caused_failure && (ltb 1 a.attempt || not (str_eq method (codes "none")))

  abbrev pub count_failure : Bytes → Authctxt → Authctxt
  count_failure method a = record a {
    failures = if counts method a then a.failures + 1 else a.failures;
  }

  unfoldable pub refuse : Bytes → M (Unit {0})
  refuse method = do
    modify_auth (count_failure method)
    failures ← gets (λ s. s.auth.failures)
    if leb env.options.max_authtries failures
        then (do audit env login_exceed_maxtries; halt (disconnect too_many_failures))
        else do
          methods ← gets (λ s. authmethods_get env s.history)
          emit (sent (userauth_failure methods))

  unfoldable pub conclude : Bytes → ℕ → M (Unit {0})
  conclude method authenticated = do
    emit (logged_auth (result authenticated) method (codes " ssh2"))
    waits ← gets (λ s. s.auth.postponed)
    if waits then skip else (if authenticated == 1 then succeed else refuse method)

  unfoldable pub userauth_finish : ℕ → Bytes → M (Unit {0})
  userauth_finish authenticated method = do
    check_valid env authenticated
    granted ← check_root env method authenticated
    check_account granted
    conclude method granted
