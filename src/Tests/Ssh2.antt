-- ===== src/Tests/Ssh2.antt =====
-- Protocol 2 on the concrete server.
use gexcloud.Auth.Checks.{check_root, check_valid}
use gexcloud.Auth.Checks.Passed.{Passed}
use gexcloud.Auth.Privsep.{account_check, privsep_start_pam, root_refused}
use gexcloud.Auth.UserName.{split_user, style_in_role, style_of}
use gexcloud.Base.{[], arith, false, length, none, refl, some, true, ℕ, ◌≡◌, ◌≢◌, ◌≤◌}
use gexcloud.Pam.Account.{account_outcome, do_pam_account}
use gexcloud.Pam.Conversation.{pam_call, pam_set_item, registered, run_dialog}
use gexcloud.Pam.Handle.{open_handle, set_item_or_end, sshpam_init, start_pam}
use gexcloud.Server.Event.{
  MethodId, method_gssapi, method_gsskeyex, method_hostbased, method_jpake, method_kbdint,
  method_none, method_passwd, method_pubkey,
}
use gexcloud.Server.Monad.{ok, ◌>>=◌}
use gexcloud.Server.State.{Server, on_service_request, on_userauth_request}
use gexcloud.Ssh2.Banner.{auth2_read_banner, max_banner, show_banner}
use gexcloud.Ssh2.Banner.Bounds.{auth2_read_banner-le}
use gexcloud.Ssh2.Finish.{check_account, conclude, require_account, succeed, userauth_finish}
use gexcloud.Ssh2.Methods.{authmethod_lookup, authmethods, authmethods_get, find_method, is_enabled}
use gexcloud.Ssh2.Methods.Offer.{
  HaveNames, In, authmethod_lookup_iff, authmethods_get-join, join, offered,
}
use gexcloud.Ssh2.Protocol.{
  Between, IsNew, Later, begun, now, on_service, on_userauth, stepped, then_step,
}
use gexcloud.Ssh2.Protocol.Entered.{Admission, Reachable-Admission}
use gexcloud.Ssh2.Protocol.Outcome.{view}
use gexcloud.Ssh2.Protocol.Preserved.{Reachable-Between}
use gexcloud.Ssh2.Protocol.Refined.{Later-Moves}
use gexcloud.Ssh2.Protocol.Stages.{limit}
use gexcloud.Ssh2.Protocol.View.{Moves}
use gexcloud.Ssh2.Request.{
  do_authentication2, first_request, input_service_request, input_userauth_request,
}
use gexcloud.Ssh2.Success.{userauth_finish-success}
use gexcloud.Tests.Servers.{fresh, named}
use gexcloud.Tests.World.{name_of, with_banner, world}
use gexcloud.Text.{Bytes, c_string, codes, cut_at, str_eq}

finish_succeeds : (userauth_finish world 1 (codes "password") named).1.auth.success ≡ true
unfolding userauth_finish check_valid check_root root_refused check_account require_account
    account_check do_pam_account pam_call run_dialog account_outcome conclude succeed ◌>>=◌
finish_succeeds = refl

userauth_finish-success_example :
    ◌≡◌ {A = ℕ} 1 1
    × (named.auth.postponed ≡ false)
    × Passed world (codes "password") named (check_root world (codes "password") 1 named).1
userauth_finish-success_example =
    userauth_finish-success world 1 (codes "password") named refl finish_succeeds

fresh-IsNew : IsNew fresh
fresh-IsNew = record { waits = refl; ready = refl; first = refl; no_failure = refl }

six_tries : limit world ≢ 0
six_tries = omega arith

begun_service : (do_authentication2 world fresh).1.dispatch.service_request ≡ on_service_request
unfolding do_authentication2 ◌>>=◌
begun_service = refl

named_all : HaveNames world
named_all method_none e = cc
named_all method_pubkey e = cc
named_all method_gsskeyex e = cc
named_all method_gssapi e = cc
named_all method_jpake e = cc
named_all method_passwd e = cc
named_all method_kbdint e = cc
named_all method_hostbased e = cc

authmethods_get-join_example :
    authmethods_get world [] ≡ join (offered world [] (authmethods world))
authmethods_get-join_example = authmethods_get-join world [] named_all

authmethod_lookup_iff_example :
    ((name : Bytes) (m : MethodId)
      → authmethod_lookup world [] name ≡ some m
      → In world m (authmethods world) × (is_enabled world [] m ≡ true) × (name_of m ≡ name))
    × ((m : MethodId)
        → In world m (authmethods world)
        → is_enabled world [] m ≡ true
        → authmethod_lookup world [] (name_of m) ≢ none)
authmethod_lookup_iff_example = authmethod_lookup_iff world []

-- A connection: a service request, and a request for the method "password".
abbrev connected : Server
connected = (do_authentication2 world fresh).1

abbrev served : Server
served = (input_service_request world connected).1

abbrev requested : Server
requested = (input_userauth_request world served).1

service_accepted : (input_service_request world connected).0 ≡ ok tt
unfolding do_authentication2 input_service_request str_eq ◌>>=◌
service_accepted = refl

request_registered : served.dispatch.userauth_request ≡ on_userauth_request
unfolding do_authentication2 input_service_request str_eq ◌>>=◌
request_registered = refl

request_handled : (input_userauth_request world served).0 ≡ ok tt
unfolding do_authentication2 input_service_request input_userauth_request first_request
    gexcloud.Ssh2.Request.set_user gexcloud.Ssh2.Request.try_method
    gexcloud.Ssh2.Finish.check_account gexcloud.Ssh2.Finish.require_account privsep_start_pam
    start_pam sshpam_init open_handle set_item_or_end pam_set_item registered split_user style_of
    style_in_role cut_at show_banner authmethod_lookup authmethods find_method is_enabled
    userauth_finish check_valid check_root root_refused account_check do_pam_account pam_call
    run_dialog account_outcome conclude succeed str_eq ◌>>=◌
request_handled = refl

user_in : requested.auth.success ≡ true
unfolding do_authentication2 input_service_request input_userauth_request first_request
    gexcloud.Ssh2.Request.set_user gexcloud.Ssh2.Request.try_method
    gexcloud.Ssh2.Finish.check_account gexcloud.Ssh2.Finish.require_account privsep_start_pam
    start_pam sshpam_init open_handle set_item_or_end pam_set_item registered split_user style_of
    style_in_role cut_at show_banner authmethod_lookup authmethods find_method is_enabled
    userauth_finish check_valid check_root root_refused account_check do_pam_account pam_call
    run_dialog account_outcome conclude succeed str_eq ◌>>=◌
user_in = refl

Reachable-Between_example : Between world requested
Reachable-Between_example = Reachable-Between world fresh requested fresh-IsNew six_tries (
    stepped (stepped begun (on_service connected begun_service service_accepted))
      (on_userauth served request_registered request_handled))

Reachable-Admission_example : Admission world fresh requested
Reachable-Admission_example =
    Reachable-Admission world fresh requested fresh-IsNew six_tries
      (stepped (stepped begun (on_service connected begun_service service_accepted))
        (on_userauth served request_registered request_handled))
      user_in

short_banner : (auth2_read_banner with_banner named).0 ≡ ok (some (codes "hello"))
unfolding auth2_read_banner c_string ◌>>=◌
short_banner = refl

auth2_read_banner-le_example : length (codes "hello") ≤ max_banner
auth2_read_banner-le_example =
    auth2_read_banner-le with_banner named (some (codes "hello")) short_banner

connection : Later world connected requested
connection =
    then_step (then_step now (on_service connected begun_service service_accepted))
      (on_userauth served request_registered request_handled)

Later-Moves_example : Moves 6 (view connected) (view requested)
Later-Moves_example =
    Later-Moves world fresh connected requested fresh-IsNew six_tries begun connection
