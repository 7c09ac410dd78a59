-- ===== src/Auth/Checks.antt =====
-- The tests on a user that both protocols make in the same words after a method has answered:
-- the block behind `meth->method(…)` in do_authloop, and the head of userauth_finish.
pub mod Passed
use gexcloud.Auth.Privsep.{audit, root_refused}
use gexcloud.Base.{Bool, if◌then◌else◌, not, ℕ, ◌&&◌, ◌==◌}
use gexcloud.Server.Env.{Env}
use gexcloud.Server.Event.{login_root_denied}
use gexcloud.Server.Monad.{M, fatal, gets, halt_if, invalid_user_authenticated, pure, ◌>>=◌, ◌>>◌}
use gexcloud.Text.{Bytes}

abbrev pub is_zero : ℕ → Bool
is_zero n = n == 0

module _ (env : Env) where
  -- A user that is not valid must not have been authenticated.
  unfoldable pub check_valid : ℕ → M (Unit {0})
  check_valid authenticated = do
    valid ← gets (λ s. s.auth.valid)
    halt_if (not valid && not (is_zero authenticated)) (fatal invalid_user_authenticated)

  -- Special handling for root
  unfoldable pub check_root : Bytes → ℕ → M ℕ
  check_root name authenticated = if is_zero authenticated then pure 0 else do
    refused ← root_refused env name
    if refused then (do audit env login_root_denied; pure 0) else pure authenticated
