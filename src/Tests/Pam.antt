-- ===== src/Tests/Pam.antt =====
-- PAM on the concrete server.
use gexcloud.Base.{
  Bool, List, Option, [], arith, false, none, refl, some, true, ◌++◌, ◌∷◌, ◌≡◌, ◌≢◌,
}
use gexcloud.Pam.Account.{account_outcome, do_pam_account, sshpam_password_change_required}
use gexcloud.Pam.Account.Bits.{AllChanged, change_required-bits}
use gexcloud.Pam.Account.Decision.{do_pam_account-twice}
use gexcloud.Pam.Conversation.{
  cons_reply, converse_each, converse_filled, converse_with, pam_call, pam_set_item, registered,
  replies, run_dialog, sshpam_store_conv, store_reply, to_conversed,
}
use gexcloud.Pam.Conversation.Count.{Complete, converse_with-Complete}
use gexcloud.Pam.Device.{sshpam_query}
use gexcloud.Pam.Device.Prompts.{AllPlain, Note, lines_of, sent_as, sshpam_query-prompt}
use gexcloud.Pam.Environment.{compound, export_environments, import_environments, or_none}
use gexcloud.Pam.Environment.Compound.{compound-eq}
use gexcloud.Pam.Environment.RoundTrip.{Exportable, NoNul, import-export, imported}
use gexcloud.Pam.Frame.{run_dialog-Quiet}
use gexcloud.Pam.Handle.{same_user, sshpam_cleanup, sshpam_init}
use gexcloud.Pam.Handle.Closed.{IsClosed, sshpam_cleanup-twice}
use gexcloud.Pam.Handle.Opened.{Left, sshpam_init-Left}
use gexcloud.Pam.Password.{end_password, sshpam_auth_passwd, try_password, with_password}
use gexcloud.Pam.Password.Secret.{Judged, sshpam_auth_passwd-forgets}
use gexcloud.Pam.Session.{do_pam_chauthtok, do_pam_session, do_pam_setcred, set_item_or_die}
use gexcloud.Pam.Session.Opened.{Opened, do_pam_session-Opened}
use gexcloud.Pam.Session.Returned.{Credited, session_calls-ok}
use gexcloud.Pam.Thread.{sshpam_thread}
use gexcloud.Pam.Thread.Report.{sshpam_thread-Ends}
use gexcloud.Server.Frame.{Quiet, Within}
use gexcloud.Server.Monad.{ok, ◌>>=◌}
use gexcloud.Server.Pam.{
  Conversed, PamMessage, PamResponse, converse, finish, pam_error_msg, pam_prompt_echo_off,
  pam_success, pam_text_info, store_conv,
}
use gexcloud.Server.State.{PamCtxt, succeeded}
use gexcloud.Tests.Servers.{named}
use gexcloud.Tests.World.{world, world-IsCodec}
use gexcloud.Text.{Bytes, codes, snprintf, str_eq}

-- The variables that the PAM process hands over.
abbrev own : List Bytes
own = codes "LANG=C" ∷ []

abbrev from_pam : Option (List Bytes)
from_pam = some (codes "MAIL=m" ∷ codes "K=" ∷ [])

exportable : Exportable world world-IsCodec 1 1 own from_pam
exportable = record {
  status_bits = omega arith;
  force_bits = omega arith;
  own_few = omega arith;
  from_pam_bits = omega arith;
  own_plain = ground arith;
  from_pam_plain = ground arith;
}

import-export_example :
    import_environments world (export_environments world 1 1 own from_pam) named
    ≡ (ok tt, imported world world-IsCodec 1 1 own (or_none world from_pam) named)
import-export_example = import-export world world-IsCodec 1 1 own from_pam named exportable refl

abbrev context_of : PamCtxt
context_of = record { pam_thread = 77; pam_psock = some 3; pam_csock = none; pam_done = succeeded }

abbrev notes : List Note
notes = (true, codes "expired") ∷ (false, codes "hello") ∷ []

notes-AllPlain : AllPlain notes
notes-AllPlain = ground arith

prompt-NoNul : NoNul (codes "Password: ")
prompt-NoNul = ground arith

sshpam_query-prompt_example :
    sshpam_query world 0
      (sent_as world world-IsCodec notes
        ((pam_prompt_echo_off, world.put_cstring (codes "Password: ")) ∷ []))
      named
    ≡ (
      ok (record {
        answered = true;
        info = [];
        num = some 1;
        prompt = some (lines_of notes ++ codes "Password: ");
        echo_on = some false;
      }),
      named,
    )
sshpam_query-prompt_example =
    sshpam_query-prompt world world-IsCodec 0 notes false (codes "Password: ") [] named context_of
      notes-AllPlain prompt-NoNul refl

abbrev messages : List PamMessage
messages =
    record { msg_style = pam_text_info; msg = codes "hello" }
    ∷ record { msg_style = pam_error_msg; msg = codes "bad" }
    ∷ []

abbrev empty_reply : PamResponse
empty_reply = record { resp = none; resp_retcode = pam_success }

abbrev two_replies : Conversed
two_replies = record { code = pam_success; replies = some (empty_reply ∷ empty_reply ∷ []) }

store_replies : (converse_with world store_conv messages named).0 ≡ ok two_replies
unfolding converse_with sshpam_store_conv converse_each converse_filled replies store_reply
    cons_reply to_conversed ◌>>=◌
store_replies = refl

converse_with-Complete_example : Complete world messages two_replies
converse_with-Complete_example =
    converse_with-Complete world store_conv messages named two_replies store_replies

account_allowed : (do_pam_account world named).0 ≡ ok 1
unfolding do_pam_account pam_call run_dialog account_outcome ◌>>=◌
account_allowed = refl

do_pam_account-twice_example :
    do_pam_account world (do_pam_account world named).1 ≡ (ok 1, (do_pam_account world named).1)
do_pam_account-twice_example = do_pam_account-twice world named account_allowed

change_required-bits_example :
    ((sshpam_password_change_required 1 named).0 ≡ ok tt)
    × AllChanged 1 named.forwarding (sshpam_password_change_required 1 named).1.forwarding
    × ((sshpam_password_change_required 1 named).1.auth.force_pwchange ≡ 1)
change_required-bits_example = change_required-bits 1 named refl

sshpam_thread-Ends_example : (sshpam_thread world 0 named).0 ≢ ok tt
sshpam_thread-Ends_example = sshpam_thread-Ends world 0 named

password_right : (sshpam_auth_passwd world (codes "secret") named).0 ≡ ok 1
unfolding sshpam_auth_passwd with_password try_password pam_set_item registered pam_call run_dialog
    end_password ◌>>=◌
password_right = refl

sshpam_auth_passwd-forgets_example :
    (world.options.use_pam ≡ true)
    × (named.pam.handle ≢ none)
    × Judged 1 (sshpam_auth_passwd world (codes "secret") named).1
sshpam_auth_passwd-forgets_example =
    sshpam_auth_passwd-forgets world (codes "secret") named password_right

has_handle : named.pam.handle ≢ none
has_handle e = cc

sshpam_cleanup-twice_example :
    IsClosed (sshpam_cleanup world named).1
    × (sshpam_cleanup world (sshpam_cleanup world named).1
        ≡ (ok tt, (sshpam_cleanup world named).1))
sshpam_cleanup-twice_example = sshpam_cleanup-twice world named has_handle refl

compound-eq_example :
    (compound world (codes "K") (codes "v") ≡ codes "K=v")
    × (snprintf 3 (codes "K=v") ≢ codes "K=v")
compound-eq_example = compound-eq world (codes "K") (codes "v")

run_dialog-Quiet_example : Within Quiet (run_dialog world (converse messages (λ c. finish c.code)))
run_dialog-Quiet_example = run_dialog-Quiet world (converse messages (λ c. finish c.code))

session_opens : (do_pam_session world named).0 ≡ ok tt
unfolding do_pam_session set_item_or_die pam_set_item registered pam_call run_dialog ◌>>=◌
session_opens = refl

do_pam_session-Opened_example : Opened world named.forwarding (do_pam_session world named).1
do_pam_session-Opened_example = do_pam_session-Opened world named session_opens

session_calls-ok_example :
    ((init : Bool)
      → (do_pam_setcred world init named).0 ≡ ok tt
      → Credited world named (do_pam_setcred world init named).1)
    × ((do_pam_chauthtok world named).0 ≡ ok tt
        → (world.use_privsep ≡ false) × ((do_pam_chauthtok world named).1.pam.err ≡ pam_success))
session_calls-ok_example = session_calls-ok world named

handle_kept : (sshpam_init world named).0 ≡ ok true
unfolding sshpam_init same_user str_eq ◌>>=◌
handle_kept = refl

sshpam_init-Left_example : Left world (codes "alice") named true (sshpam_init world named).1
sshpam_init-Left_example = sshpam_init-Left world named (codes "alice") true refl handle_kept
