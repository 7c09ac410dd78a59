-- ===== src/Tests/Guesses.antt =====
-- Three wrong passwords in protocol 2, on the concrete server.
use gexcloud.Auth.Checks.{check_root, check_valid}
use gexcloud.Auth.Privsep.{privsep_start_pam, root_refused}
use gexcloud.Auth.UserName.{split_user, style_in_role, style_of}
use gexcloud.Base.{arith, refl, some, true, ◌+◌, ◌≡◌, ◌≢◌, ◌≤◌}
use gexcloud.Pam.Conversation.{pam_set_item, registered}
use gexcloud.Pam.Handle.{open_handle, set_item_or_end, sshpam_init, start_pam}
use gexcloud.Server.Env.{Env}
use gexcloud.Server.Monad.{disconnect, modify, ok, stop, too_many_failures, ◌>>=◌}
use gexcloud.Server.State.{Server, on_userauth_request}
use gexcloud.Ssh2.Banner.{show_banner}
use gexcloud.Ssh2.Finish.{conclude, refuse, userauth_finish}
use gexcloud.Ssh2.Methods.{authmethod_lookup, authmethods, find_method, is_enabled}
use gexcloud.Ssh2.Protocol.{
  IsNew, Later, Reachable, Step, begun, now, on_service, on_userauth, stepped, then_step,
}
use gexcloud.Ssh2.Protocol.Guesses.{
  Guesses, Guesses-le, last_request, no_guess, other_packet, refused_request,
}
use gexcloud.Ssh2.Protocol.Refined.{Later-SameName}
use gexcloud.Ssh2.Protocol.Stages.{limit}
use gexcloud.Ssh2.Protocol.Tally.{IsRefused}
use gexcloud.Ssh2.Request.{
  do_authentication2, first_request, input_service_request, input_userauth_request, later_request,
}
use gexcloud.Tests.Servers.{fresh}
use gexcloud.Tests.World.{accepting, options, unchanged, world}
use gexcloud.Text.{cut_at, str_eq}

abbrev refusing : Env
refusing = record world {
  options = record options { max_authtries = 3 };
  userauth = λ m s. unchanged s (some (record accepting { authenticated = 0 }));
}

abbrev served : Server
served = (input_service_request refusing (do_authentication2 refusing fresh).1).1

abbrev guessed : Server
guessed = (input_userauth_request refusing served).1

abbrev guessed_again : Server
guessed_again = (input_userauth_request refusing guessed).1

service_accepted : (input_service_request refusing (do_authentication2 refusing fresh).1).0 ≡ ok tt
unfolding do_authentication2 input_service_request str_eq ◌>>=◌
service_accepted = refl

served-Step : Step refusing (do_authentication2 refusing fresh).1 served
unfolding do_authentication2 modify
served-Step = on_service (do_authentication2 refusing fresh).1 refl service_accepted

first_guess :
    (served.dispatch.userauth_request ≡ on_userauth_request)
    × ((input_userauth_request refusing served).0 ≡ ok tt)
    × IsRefused guessed
unfolding do_authentication2 input_service_request input_userauth_request first_request
    gexcloud.Ssh2.Request.set_user gexcloud.Ssh2.Request.try_method
    gexcloud.Ssh2.Finish.check_account gexcloud.Ssh2.Finish.require_account privsep_start_pam
    start_pam sshpam_init open_handle set_item_or_end pam_set_item registered split_user style_of
    style_in_role cut_at show_banner authmethod_lookup authmethods find_method is_enabled
    userauth_finish check_valid check_root root_refused conclude refuse str_eq ◌>>=◌
first_guess = (refl, refl, record { out = refl; concluded = refl; blamed = refl })

second_guess :
    (guessed.dispatch.userauth_request ≡ on_userauth_request)
    × ((input_userauth_request refusing guessed).0 ≡ ok tt)
    × IsRefused guessed_again
unfolding do_authentication2 input_service_request input_userauth_request first_request
    later_request gexcloud.Ssh2.Request.set_user gexcloud.Ssh2.Request.try_method
    gexcloud.Ssh2.Finish.check_account gexcloud.Ssh2.Finish.require_account privsep_start_pam
    start_pam sshpam_init open_handle set_item_or_end pam_set_item registered split_user style_of
    style_in_role cut_at show_banner authmethod_lookup authmethods find_method is_enabled
    userauth_finish check_valid check_root root_refused conclude refuse str_eq ◌>>=◌
second_guess = (refl, refl, record { out = refl; concluded = refl; blamed = refl })

two-Guesses : Guesses refusing (do_authentication2 refusing fresh).1 2 guessed_again
two-Guesses =
    let (d, h, r) = first_guess in
    let (d', h', r') = second_guess in
    refused_request (refused_request (other_packet no_guess served-Step) d h r) d' h' r'

fresh-IsNew : IsNew fresh
fresh-IsNew = record { waits = refl; ready = refl; first = refl; no_failure = refl }

three_tries : limit refusing ≢ 0
three_tries = omega arith

-- The third wrong password is one failure too many.
third_guess :
    (guessed_again.dispatch.userauth_request ≡ on_userauth_request)
    × ((input_userauth_request refusing guessed_again).0 ≡ stop (disconnect too_many_failures))
unfolding do_authentication2 input_service_request input_userauth_request first_request
    later_request gexcloud.Ssh2.Request.set_user gexcloud.Ssh2.Request.try_method
    gexcloud.Ssh2.Finish.check_account gexcloud.Ssh2.Finish.require_account privsep_start_pam
    start_pam sshpam_init open_handle set_item_or_end pam_set_item registered split_user style_of
    style_in_role cut_at show_banner authmethod_lookup authmethods find_method is_enabled
    userauth_finish check_valid check_root root_refused conclude refuse str_eq ◌>>=◌
third_guess = (refl, refl)

Guesses-le_example :
    (2 ≤ guessed_again.auth.failures + 1)
    × (2 ≤ refusing.options.max_authtries)
    × (2 + 1 ≤ refusing.options.max_authtries + 1)
Guesses-le_example =
    Guesses-le refusing fresh guessed_again 2 1 fresh-IsNew three_tries two-Guesses
      (last_request refl third_guess.0 third_guess.1)

guessed-Reachable : Reachable refusing fresh guessed
guessed-Reachable =
    stepped (stepped begun served-Step) (on_userauth served first_guess.0 first_guess.1)

-- The client tries another password, for the same user.
guessed-Later : Later refusing guessed guessed_again
guessed-Later = then_step now (on_userauth guessed second_guess.0 second_guess.1)

first_seen : guessed.auth.attempt ≢ 0
unfolding do_authentication2 input_service_request input_userauth_request first_request
    gexcloud.Ssh2.Request.set_user gexcloud.Ssh2.Request.try_method
    gexcloud.Ssh2.Finish.check_account gexcloud.Ssh2.Finish.require_account privsep_start_pam
    start_pam sshpam_init open_handle set_item_or_end pam_set_item registered split_user style_of
    style_in_role cut_at show_banner authmethod_lookup authmethods find_method is_enabled
    userauth_finish check_valid check_root root_refused conclude refuse str_eq ◌>>=◌
first_seen = omega arith

Later-SameName_example :
    (guessed_again.auth.user ≡ guessed.auth.user)
    × (guessed_again.auth.service ≡ guessed.auth.service)
    × (guessed.auth.success ≡ true
        → (guessed_again.auth.success ≡ true)
          × (guessed_again.auth.failures ≡ guessed.auth.failures))
Later-SameName_example =
    Later-SameName refusing fresh guessed guessed_again fresh-IsNew three_tries guessed-Reachable
      guessed-Later first_seen
