-- ===== src/Tests/Exchange.antt =====
-- The PAM process and its parent on the concrete server.
use gexcloud.Base.{List, [], arith, false, none, refl, some, true, ◌++◌, ◌∷◌, ◌≡◌, ◌≢◌}
use gexcloud.Pam.Account.{account_outcome, do_pam_account, sshpam_chauthtok_ruid, undecided}
use gexcloud.Pam.Account.Ruid.{AsUser, real_uid, sshpam_chauthtok_ruid-AsUser}
use gexcloud.Pam.Context.{load_ctxt, sshpam_authctxt_pw, store_ctxt}
use gexcloud.Pam.Conversation.{pam_call, pam_set_item, registered, run_dialog, sshpam_thread_conv}
use gexcloud.Pam.Device.{
  let_in, no_answer, sshpam_free_ctx, sshpam_init_ctx, sshpam_query, sshpam_respond, start_thread,
}
use gexcloud.Pam.Device.Admitted.{mark}
use gexcloud.Pam.Device.Interface.{freed, inited, then_used, unused}
use gexcloud.Pam.Device.Lifetime.{Uses-safe}
use gexcloud.Pam.Device.Opening.{ForkPid}
use gexcloud.Pam.Device.Prompts.{AllPlain, Note, lines_of}
use gexcloud.Pam.Environment.{pam_getenvlist}
use gexcloud.Pam.Environment.RoundTrip.{Exportable, IsCodec, NoNul, imported}
use gexcloud.Pam.Handle.{same_user, sshpam_init}
use gexcloud.Pam.Process.{
  pthread_cancel, pthread_create, pthread_exit, pthread_join, sshpam_sigchld_handler,
  sshpam_thread_cleanup,
}
use gexcloud.Pam.Process.Owned.{IsStopped}
use gexcloud.Pam.Relay.{outbox, script, script_replies}
use gexcloud.Pam.Relay.Exchange.{Exchange, relay}
use gexcloud.Pam.Relay.Verdict.{auth_fail-query, decided, refused, thread_success-query}
use gexcloud.Pam.Thread.{
  auth_fail, reset_environ, sshpam_thread, thread_account, thread_authenticate, thread_success,
}
use gexcloud.Pam.Thread.Truth.{Reported, sshpam_thread-Reported, thread_ready}
use gexcloud.Server.Env.{Env}
use gexcloud.Server.Monad.{Result, exit, ok, stop, undefined, ◌>>=◌}
use gexcloud.Server.Pam.{Conversed, pam_acct_expired, pam_authtok, pam_success}
use gexcloud.Server.State.{PamCtxt, Server, running}
use gexcloud.Tests.Servers.{named}
use gexcloud.Tests.World.{alice, world, world-IsCodec}
use gexcloud.Text.{codes, str_eq}

-- The user's answer arrives.
abbrev talking : Env
talking = record world { ssh_msg_recv = λ h. some (pam_authtok, world.put_cstring (codes "pw")) }

talking-IsCodec : IsCodec talking
talking-IsCodec = record {
  get_int-put_int = world-IsCodec.get_int-put_int;
  get_string-put_cstring = world-IsCodec.get_string-put_cstring;
}

abbrev child_ctxt : PamCtxt
child_ctxt = record { pam_thread = 0; pam_psock = none; pam_csock = some 4; pam_done = running }

abbrev parent_ctxt : PamCtxt
parent_ctxt = record { pam_thread = 77; pam_psock = some 3; pam_csock = none; pam_done = running }

abbrev with_ctxt : PamCtxt → Server
with_ctxt c = record named { pam = record named.pam { contexts = some c ∷ [] } }

abbrev notes : List Note
notes = (true, codes "expired") ∷ (false, codes "hello") ∷ []

notes-AllPlain : AllPlain notes
notes-AllPlain = ground arith

prompt-NoNul : NoNul (codes "New: ")
prompt-NoNul = ground arith

answer-NoNul : NoNul (codes "pw")
answer-NoNul = ground arith

abbrev exchange : Exchange talking notes false (codes "New: ") (codes "pw")
exchange = record {
  child = with_ctxt child_ctxt;
  child_ptr = 0;
  child_ctxt = child_ctxt;
  child_live = refl;
  nothing_sent = refl;
  few = refl;
  room = refl;
  parent = with_ctxt parent_ctxt;
  parent_ptr = 0;
  parent_ctxt = parent_ctxt;
  parent_live = refl;
  going_on = refl;
  notes_plain = notes-AllPlain;
  msg_plain = prompt-NoNul;
  resp_plain = answer-NoNul;
  received = refl;
}

abbrev said : Result Conversed × Server
said = sshpam_thread_conv talking 0 (script notes false (codes "New: ")) (with_ctxt child_ctxt)

relay_example :
    (said.0
      ≡ ok (record { code = pam_success; replies = some (script_replies notes (codes "pw")) }))
    × (sshpam_query talking 0 (outbox said.1.history) (with_ctxt parent_ctxt) ≡ (
      ok (record {
        answered = true;
        info = [];
        num = some 1;
        prompt = some (lines_of notes ++ codes "New: ");
        echo_on = some false;
      }),
      with_ctxt parent_ctxt,
    ))
    × (outbox (sshpam_respond talking 0 1 (codes "pw") (with_ctxt parent_ctxt)).1.history
        ≡ (pam_authtok, world.put_cstring (codes "pw")) ∷ [])
relay_example = relay talking (λ h. refl) talking-IsCodec exchange

-- Two attempts, and the end of the first: its object is freed while cleanup_ctxt points to the
-- second.
world-ForkPid : ForkPid world
world-ForkPid = record { positive = λ h pid e z. cc }

abbrev once : Server
once = (sshpam_init_ctx world named).1

abbrev twice : Server
twice = (sshpam_init_ctx world once).1

first_begins : (sshpam_init_ctx world named).0 ≡ ok (some 1)
unfolding sshpam_init_ctx sshpam_init same_user start_thread pthread_create load_ctxt store_ctxt
    str_eq ◌>>=◌
first_begins = refl

second_begins : (sshpam_init_ctx world once).0 ≡ ok (some 2)
unfolding sshpam_init_ctx sshpam_init same_user start_thread pthread_create load_ctxt store_ctxt
    str_eq ◌>>=◌
second_begins = refl

first_ends : (sshpam_free_ctx world 1 twice).0 ≡ ok tt
unfolding sshpam_init_ctx sshpam_init same_user start_thread pthread_create load_ctxt store_ctxt
    str_eq sshpam_free_ctx sshpam_thread_cleanup pthread_cancel pthread_join ◌>>=◌
first_ends = refl

Uses-safe_example :
    ((sshpam_sigchld_handler world (sshpam_free_ctx world 1 twice).1).0 ≢ stop undefined)
    × IsStopped world (sshpam_free_ctx world 1 twice).1
Uses-safe_example = Uses-safe world world-ForkPid named (sshpam_free_ctx world 1 twice).1 refl (
    then_used (then_used (then_used unused (inited first_begins)) (inited second_begins))
      (freed 1 first_ends))

exportable : Exportable world world-IsCodec undecided 0 [] none
exportable = record {
  status_bits = omega arith;
  force_bits = omega arith;
  own_few = omega arith;
  from_pam_bits = omega arith;
  own_plain = ground arith;
  from_pam_plain = ground arith;
}

abbrev child : Server
child = with_ctxt child_ctxt

abbrev parent : Server
parent = with_ctxt parent_ctxt

thread_success-query_example :
    sshpam_query world 0 (outbox (thread_success world child_ctxt child).1.history) parent
    ≡ (ok let_in, mark world 0 parent_ctxt (imported world world-IsCodec undecided 0 [] [] parent))
thread_success-query_example =
    thread_success-query world world-IsCodec child_ctxt child 0 parent_ctxt alice parent refl refl
      exportable refl refl refl refl

auth_fail-query_example :
    sshpam_query world 0
      (outbox (auth_fail world child_ctxt pam_acct_expired child).1.history)
      parent
    ≡ (
      ok (no_answer none (some 0) (some false)),
      refused world 0 parent_ctxt (decided world pam_acct_expired parent),
    )
auth_fail-query_example =
    auth_fail-query world world-IsCodec 0 parent_ctxt child_ctxt pam_acct_expired child parent refl
      refl refl

thread_exits : (sshpam_thread world 0 child).0 ≡ stop (exit 0)
unfolding sshpam_thread load_ctxt reset_environ pam_set_item registered thread_authenticate
    thread_account thread_success pam_getenvlist pthread_exit do_pam_account pam_call run_dialog
    account_outcome ◌>>=◌
thread_exits = refl

sshpam_thread-Reported_example :
    Reported world (thread_ready world 0 child).1 (sshpam_thread world 0 child).1
sshpam_thread-Reported_example = sshpam_thread-Reported world 0 child thread_exits

password_changed : (sshpam_chauthtok_ruid world named).0 ≡ ok pam_success
unfolding sshpam_chauthtok_ruid sshpam_authctxt_pw pam_call run_dialog ◌>>=◌
password_changed = refl

sshpam_chauthtok_ruid-AsUser_example :
    AsUser world named pam_success
    × (real_uid (sshpam_chauthtok_ruid world named).1.history ≡ some 0)
sshpam_chauthtok_ruid-AsUser_example =
    sshpam_chauthtok_ruid-AsUser world named pam_success password_changed
