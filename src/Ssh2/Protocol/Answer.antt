-- ===== src/Ssh2/Protocol/Answer.antt =====
-- A request of protocol 2 up to userauth_finish: the method that was asked for, and its result.
use gexcloud.Auth.Privsep.{packet_get_cstring}
use gexcloud.Auth.UserName.{split_user}
use gexcloud.Base.{if◌then◌else◌, ℕ, ◌+◌, ◌==◌, ◌≡◌}
use gexcloud.Pam.Context.{modify_auth}
use gexcloud.Server.Env.{Env}
use gexcloud.Server.Laws.{do_laws}
use gexcloud.Server.Monad.{M, gets, pure, ◌>>=◌, ◌>>◌}
use gexcloud.Ssh2.Finish.{userauth_finish}
use gexcloud.Ssh2.Request.{
  first_request, input_userauth_request, later_request, reset_state, try_method,
}
use gexcloud.Text.{Bytes}

module _ (env : Env) where
  unfoldable pub request_result : M (ℕ × Bytes)
  request_result = do
    text ← packet_get_cstring env
    service ← packet_get_cstring env
    method ← packet_get_cstring env
    let u = split_user text
    attempt ← gets (λ s. s.auth.attempt)
    modify_auth (λ a. record a { attempt = a.attempt + 1 })
    if attempt == 0 then first_request env u service else later_request env u service
    reset_state env
    authenticated ← try_method env method
    pure (authenticated, method)

  pub request-result :
      input_userauth_request env ≡ (request_result >>= λ r. userauth_finish env r.0 r.1)
  unfolding input_userauth_request request_result
  request-result = simp do_laws
