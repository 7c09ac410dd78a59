-- ===== src/Ssh2/Request.antt =====
-- The dispatch handlers of auth2.c: do_authentication2, input_service_request and
-- input_userauth_request.
use gexcloud.Auth.Privsep.{audit, packet_check_eom, packet_get_cstring, privsep_start_pam}
use gexcloud.Auth.UserName.{UserSpec, split_user}
use gexcloud.Base.{
  Bool, Option, false, if◌then◌else◌, ltb, none, not, some, true, ℕ, ◌&&◌, ◌+◌, ◌==◌, ◌||◌,
}
use gexcloud.Pam.Context.{modify_auth}
use gexcloud.Server.Env.{Env}
use gexcloud.Server.Event.{
  MethodId, called_getpwnamallow, called_userauth, cleared_gssapi, informed_authserv, invalid_user,
  sent, service_accept, stopped_challenge, stopped_jpake,
}
use gexcloud.Server.Monad.{
  M, ask, bad_packet, bad_service, changed_user, consult, disconnect, emit, gets, halt, halt_if,
  match_option, modify, or_halt, pure, skip, undefined, when, ◌>>=◌, ◌>>◌,
}
use gexcloud.Server.State.{
  Authctxt, Passwd, on_service_request, on_userauth_request, protocol_error,
}
use gexcloud.Ssh2.Banner.{show_banner}
use gexcloud.Ssh2.Finish.{userauth_finish}
use gexcloud.Ssh2.Methods.{authmethod_lookup}
use gexcloud.Text.{Bytes, codes, str_eq}

module _ (env : Env) where
  -- dispatch_init and the first dispatch_set; then dispatch_run calls the registered handlers
  -- (Ssh2/Protocol.antt) until `success` is set.
  unfoldable pub do_authentication2 : M (Unit {0})
  do_authentication2 = modify λ s. record s {
    dispatch = record { service_request = on_service_request; userauth_request = protocol_error };
  }

  -- `acceptit`
  abbrev pub accepts : Bytes → Bool → Bool
  accepts service success = str_eq service (codes "ssh-userauth") && not success

  -- A handler gets `authctxt` as `void *ctxt`; here it is never NULL.
  unfoldable pub input_service_request : M (Unit {0})
  input_service_request = do
    service ← packet_get_cstring env
    packet_check_eom env
    success ← gets (λ s. s.auth.success)
    if accepts service success
        then (do
          modify (λ s. record s {
            dispatch = record s.dispatch { userauth_request = on_userauth_request };
          })
          emit (sent (service_accept service)))
        else halt (disconnect bad_service)

  -- `authctxt->valid = 1` stands in both branches; in the second `pw` is that of fakepw.
  abbrev pub known_for : Option Passwd → Bytes → Option Passwd
  known_for none service = none
  known_for (some pw) service = if str_eq service (codes "ssh-connection") then some pw else none

  unfoldable pub set_user : UserSpec → Bytes → Option Passwd → Authctxt → Authctxt
  set_user u service pw a = record a {
    user = some u.user;
    valid = true;
    pw = elim (known_for pw service) [ some p ↦ some p | none ↦ some env.fakepw ];
  }

  abbrev pub set_service : UserSpec → Bytes → Authctxt → Authctxt
  set_service u service a = record a { service = some service; style = u.style; role = u.role }

  abbrev is_known : Option Passwd → Bool
  is_known none = false
  is_known (some pw) = true

  -- The branch `authctxt->attempt++ == 0`.
  unfoldable pub first_request : UserSpec → Bytes → M (Unit {0})
  first_request u service = do
    found ← ask (called_getpwnamallow u.user) (env.getpwnamallow u.user)
    modify_auth (set_user u service found)
    if is_known (known_for found service) then skip else audit env invalid_user
    when env.options.use_pam (privsep_start_pam env)
    modify_auth (set_service u service)
    when env.use_privsep (emit (informed_authserv service u.style u.role))
    show_banner env

  abbrev same_text : Bytes → Option Bytes → Bool
  same_text text none = false
  same_text text (some t) = str_eq text t

  -- strcmp with a NULL pointer is undefined; `user` and `service` are set by the first request.
  unfoldable pub later_request : UserSpec → Bytes → M (Unit {0})
  later_request u service = do
    user ← gets (λ s. s.auth.user)
    old_user ← or_halt user undefined
    name ← gets (λ s. s.auth.service)
    old_service ← or_halt name undefined
    halt_if (not (str_eq u.user old_user) || not (str_eq service old_service))
        (disconnect changed_user)

  abbrev pub reset_state : M (Unit {0})
  reset_state = do
    emit stopped_challenge
    when env.build.jpake (emit stopped_jpake)
    when env.build.gssapi (emit cleared_gssapi)
    modify_auth (λ a. record a { postponed = false; server_caused_failure = false })

  -- `m->userauth(authctxt)`. A method may also end the process.
  abbrev pub call_method : MethodId → M ℕ
  call_method m = do
    answer ← consult (called_userauth m) (env.userauth m)
    done ← or_halt answer (disconnect bad_packet)
    modify_auth (λ a. record a {
      postponed = done.postponed;
      server_caused_failure = done.server_caused_failure;
    })
    pure done.authenticated

  unfoldable pub try_method : Bytes → M ℕ
  try_method method = do
    s ← gets (λ s. s)
    match_option (authmethod_lookup env s.history method) (pure 0)
        λ m. if ltb s.auth.failures env.options.max_authtries then call_method m else pure 0

  unfoldable pub input_userauth_request : M (Unit {0})
  input_userauth_request = do
    text ← packet_get_cstring env
    service ← packet_get_cstring env
    method ← packet_get_cstring env
    let u = split_user text
    attempt ← gets (λ s. s.auth.attempt)
    modify_auth (λ a. record a { attempt = a.attempt + 1 })
    if attempt == 0 then first_request u service else later_request u service
    reset_state
    authenticated ← try_method method
    userauth_finish env authenticated method
