-- ===== src/Ssh1/Loop.antt =====
-- do_authloop and do_authentication.
pub mod Begun
pub mod Ends
pub mod Admits
use gexcloud.Auth.Privsep.{account_check, packet_check_eom, packet_get_cstring, privsep_start_pam}
use gexcloud.Auth.UserName.{UserSpec, split_user}
use gexcloud.Base.{
  Bool, List, Option, [], false, if◌then◌else◌, none, not, some, true, ℕ, ◌&&◌, ◌==◌, ◌||◌, ◌∷◌,
}
use gexcloud.Pam.Context.{modify_auth}
use gexcloud.Server.Env.{Env}
use gexcloud.Server.Event.{
  called_auth_password, called_getpwnamallow, expected_packet, logged_auth, result, sent,
  smsg_failure, smsg_success,
}
use gexcloud.Server.Monad.{
  M, ask, bad_packet, consult, disconnect, emit, gets, halt, halt_if, lost, pure, skip, when,
  wrong_uid, ◌>>=◌, ◌>>◌,
}
use gexcloud.Server.State.{Authctxt, Passwd}
use gexcloud.Ssh1.Round.{Verdict, accepted, auth_round, rejected, waiting}
use gexcloud.Text.{codes}

-- An accepted round returns; any other goes round again.
unfoldable pub go_on : Verdict → M (Unit {0}) → M (Unit {0})
go_on accepted rest = skip
go_on waiting rest = rest
go_on rejected rest = rest

module _ (env : Env) where
  -- `for (;;)`, over the types of the packets that the client sends. When there are no more,
  -- packet_read does not return.
  unfoldable pub auth_rounds : ℕ → List ℕ → M (Unit {0})
  auth_rounds prev [] = halt lost
  auth_rounds prev (type ∷ types) = do
    verdict ← auth_round env prev type
    go_on verdict (auth_rounds type types)

  -- The test for a user with no password. With PAM compiled in, it is followed by
  -- `if (options.use_pam && PRIVSEP(do_pam_account()))`.
  abbrev pub kerberos_permits : Bool
  kerberos_permits =
      not env.build.krb5
      || (not env.options.kerberos_authentication || env.options.kerberos_or_local_passwd)

  unfoldable pub empty_password_ok : M Bool
  empty_password_ok =
      if not (
        env.options.permit_empty_passwd
        && (env.options.password_authentication && kerberos_permits))
      then pure false
      else do
        granted ← consult (called_auth_password []) (env.auth_password [])
        pure (not (granted == 0))

  unfoldable pub account_ok : M Bool
  account_ok =
      if not env.options.use_pam
      then pure false
      else do allowed ← account_check env; pure (not (allowed == 0))

  unfoldable pub without_password : M Bool
  without_password = do granted ← empty_password_ok; if not granted then pure false else account_ok

  unfoldable pub do_authloop : List ℕ → M (Unit {0})
  do_authloop types = do
    done ← without_password
    if done
        then emit (logged_auth (result 1) (codes "without authentication") [])
        else do emit (sent smsg_failure); auth_rounds 0 types

  -- `authctxt->valid` becomes 1 whether or not the user is known.
  unfoldable pub set_user : UserSpec → Option Passwd → Authctxt → Authctxt
  set_user u pw a = record a {
    user = some u.user;
    style = u.style;
    role = u.role;
    valid = true;
    pw = elim pw [ some p ↦ some p | none ↦ some env.fakepw ];
  }

  abbrev pub wrong_owner : Option Passwd → Bool
  wrong_owner none = false
  wrong_owner (some pw) =
      not env.use_privsep && (not (env.getuid == 0) && not (pw.pw_uid == env.getuid))

  unfoldable pub begin_authentication : M (Unit {0})
  begin_authentication = do
    expected ← ask expected_packet env.packet_read_expect
    halt_if (not expected) (disconnect bad_packet)
    text ← packet_get_cstring env
    packet_check_eom env
    let u = split_user text
    found ← ask (called_getpwnamallow u.user) (env.getpwnamallow u.user)
    modify_auth (set_user u found)
    when env.options.use_pam (privsep_start_pam env)
    pw ← gets (λ s. s.auth.pw)
    halt_if (wrong_owner pw) (disconnect wrong_uid)

  unfoldable pub do_authentication : List ℕ → M (Unit {0})
  do_authentication types = do begin_authentication; do_authloop types; emit (sent smsg_success)
