-- ===== src/Tests/Ssh1.antt =====
-- Protocol 1 on the concrete server: a client that sends one password.
use gexcloud.Auth.Checks.{check_root, check_valid}
use gexcloud.Auth.Privsep.{account_check, privsep_start_pam, root_refused}
use gexcloud.Auth.UserName.{split_user, style_in_role, style_of}
use gexcloud.Base.{List, [], arith, false, refl, ℕ, ◌∷◌, ◌≡◌, ◌≢◌, ◌⊎◌}
use gexcloud.Pam.Account.{account_outcome, do_pam_account}
use gexcloud.Pam.Conversation.{pam_call, pam_set_item, registered, run_dialog}
use gexcloud.Pam.Handle.{open_handle, set_item_or_end, sshpam_init, start_pam}
use gexcloud.Server.Env.{Env}
use gexcloud.Server.Event.{sent, smsg_success}
use gexcloud.Server.Frame.{SameLogin}
use gexcloud.Server.Monad.{lost, ok, stop, ◌>>=◌}
use gexcloud.Server.State.{Server}
use gexcloud.Ssh1.Authorised.{Granted, at_lookup, auth_round-accepted}
use gexcloud.Ssh1.Entry.{EmptyPassword, SomeRound, at_loop, do_authloop-ok}
use gexcloud.Ssh1.Loop.{
  account_ok, auth_rounds, begin_authentication, do_authentication, do_authloop, empty_password_ok,
  go_on, without_password,
}
use gexcloud.Ssh1.Loop.Admits.{do_authentication-ok}
use gexcloud.Ssh1.Loop.Begun.{Begun, begin_authentication-Begun}
use gexcloud.Ssh1.Loop.Ends.{do_authloop-ends}
use gexcloud.Ssh1.Methods.{
  auth1_methods, auth1_process_password, find_type, lookup_authmethod1, run_method,
}
use gexcloud.Ssh1.Round.{
  abandon_stale, accepted, auth_round, denial_text, judge_method, limit_or_try, reply_round,
  show_denial, try_type,
}
use gexcloud.Ssh1.Round.Denial.{denial_text-trim, trim}
use gexcloud.Ssh1.Round.Tries.{Counted, auth_round-Counted}
use gexcloud.Tests.Servers.{fresh, named}
use gexcloud.Tests.World.{options, world}
use gexcloud.Text.{c_string, codes, cut_at}

round_accepts : (auth_round world 0 9 named).0 ≡ ok accepted
unfolding auth_round abandon_stale limit_or_try try_type lookup_authmethod1 find_type auth1_methods
    gexcloud.Ssh1.Round.try_method run_method auth1_process_password judge_method check_valid
    check_root root_refused gexcloud.Ssh1.Round.check_account gexcloud.Ssh1.Round.require_account
    account_check do_pam_account pam_call run_dialog account_outcome show_denial reply_round ◌>>=◌
round_accepts = refl

auth_round-accepted_example :
    SameLogin named (at_lookup world 0 9 named) × Granted world 9 (at_lookup world 0 9 named)
auth_round-accepted_example = auth_round-accepted world 0 9 named round_accepts

auth_round-Counted_example : Counted 6 accepted named (auth_round world 0 9 named).1
auth_round-Counted_example = auth_round-Counted world 0 9 named accepted round_accepts

loop_returns : (do_authloop world (9 ∷ []) named).0 ≡ ok tt
unfolding do_authloop without_password empty_password_ok account_ok auth_rounds go_on auth_round
    abandon_stale limit_or_try try_type lookup_authmethod1 find_type auth1_methods
    gexcloud.Ssh1.Round.try_method run_method auth1_process_password judge_method check_valid
    check_root root_refused gexcloud.Ssh1.Round.check_account gexcloud.Ssh1.Round.require_account
    account_check do_pam_account pam_call run_dialog account_outcome show_denial reply_round ◌>>=◌
loop_returns = refl

do_authloop-ok_example :
    EmptyPassword world named ⊎ SomeRound world named 0 (9 ∷ []) (at_loop world named)
do_authloop-ok_example = do_authloop-ok world (9 ∷ []) named loop_returns

head_returns : (begin_authentication world fresh).0 ≡ ok tt
unfolding begin_authentication gexcloud.Ssh1.Loop.set_user privsep_start_pam start_pam sshpam_init
    open_handle set_item_or_end pam_set_item registered split_user style_of style_in_role cut_at
    ◌>>=◌
head_returns = refl

begin_authentication-Begun_example : Begun world fresh (begin_authentication world fresh).1
begin_authentication-Begun_example = begin_authentication-Begun world fresh head_returns

-- The same server without challenge-response authentication.
abbrev no_challenge : Env
no_challenge = record world {
  options = record options { challenge_response_authentication = false };
}

abbrev six_passwords : List ℕ
six_passwords = 9 ∷ 9 ∷ 9 ∷ 9 ∷ 9 ∷ 9 ∷ []

do_authloop-ends_example : (do_authloop no_challenge six_passwords named).0 ≢ stop lost
do_authloop-ends_example =
    do_authloop-ends no_challenge refl six_passwords named (omega arith) (omega arith)

denial_text-trim_example : denial_text (codes "no\n\n") ≡ c_string (trim (codes "no\n\n"))
denial_text-trim_example = denial_text-trim b'n' (codes "o\n\n")

entry_returns : (do_authentication world (9 ∷ []) fresh).0 ≡ ok tt
unfolding do_authentication begin_authentication gexcloud.Ssh1.Loop.set_user privsep_start_pam
    start_pam sshpam_init open_handle set_item_or_end pam_set_item registered split_user style_of
    style_in_role cut_at do_authloop without_password empty_password_ok account_ok auth_rounds go_on
    auth_round abandon_stale limit_or_try try_type lookup_authmethod1 find_type auth1_methods
    gexcloud.Ssh1.Round.try_method run_method auth1_process_password judge_method check_valid
    check_root root_refused gexcloud.Ssh1.Round.check_account gexcloud.Ssh1.Round.require_account
    account_check do_pam_account pam_call run_dialog account_outcome show_denial reply_round ◌>>=◌
entry_returns = refl

abbrev begun_entry : Server
begun_entry = (begin_authentication world fresh).1

do_authentication-ok_example :
    Begun world fresh begun_entry
    × (EmptyPassword world begun_entry
        ⊎ SomeRound world begun_entry 0 (9 ∷ []) (at_loop world begun_entry))
    × ((do_authentication world (9 ∷ []) fresh).1.history
        ≡ sent smsg_success ∷ (do_authloop world (9 ∷ []) begun_entry).1.history)
do_authentication-ok_example = do_authentication-ok world (9 ∷ []) fresh entry_returns
