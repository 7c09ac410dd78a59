-- ===== src/Tests/Signals.antt =====
-- SIGCHLD in the middle of the cleanup, on the concrete server.
use gexcloud.Base.{[], arith, none, refl, some, subst, ◌∷◌, ◌≡◌, ◌≢◌}
use gexcloud.Pam.Context.{load_ctxt, modify_pam, store_ctxt}
use gexcloud.Pam.Process.{judge_status, sshpam_sigchld_handler, sshpam_thread_cleanup, switch_fork}
use gexcloud.Pam.Process.Interrupted.{
  Program, Steps, at_start, cleanup_statements, did_read, executed, finished, interrupted,
  on_pointer, run_alone, statement,
}
use gexcloud.Pam.Process.Interrupted.Safe.{IsSafe, cleanup_statements-IsSafe}
use gexcloud.Pam.Process.Interrupted.Start.{register_statements, start_statements}
use gexcloud.Pam.Process.Interrupted.Starting.{IsStarting, start_statements-IsStarting}
use gexcloud.Pam.Process.Owned.{HoldsThread, IsOwned, unowned}
use gexcloud.Pam.Process.Writes.{Apart, some_injective}
use gexcloud.Server.Env.{in_parent}
use gexcloud.Server.Event.{closed}
use gexcloud.Server.Monad.{modify, ok, skip, ◌>>=◌}
use gexcloud.Server.State.{Pam, PamCtxt, Server, running, sig_dfl, sigchld_handler}
use gexcloud.Tests.Servers.{named}
use gexcloud.Tests.World.{world}

abbrev thread_ctxt : PamCtxt
thread_ctxt = record { pam_thread = 77; pam_psock = some 3; pam_csock = none; pam_done = running }

abbrev waiting_pam : Pam
waiting_pam = record named.pam {
  contexts = some thread_ctxt ∷ [];
  cleanup_ctxt = some 0;
  sigchld = sigchld_handler;
  oldsig = sig_dfl;
}

abbrev watched : Server
watched = record named { pam = waiting_pam }

abbrev after_signal : Server
after_signal = (sshpam_sigchld_handler world watched).1

watched-IsOwned : IsOwned watched
watched-IsOwned = record {
  held = λ p h.
      subst (λ q. HoldsThread q watched) (some_injective h)
        (record { ctxt = thread_ctxt; alive = refl; runs = λ e. ground arith });
}

handler_returns : (sshpam_sigchld_handler world watched).0 ≡ ok tt
unfolding sshpam_sigchld_handler load_ctxt judge_status ◌>>=◌
handler_returns = refl

-- The signal arrives between the first read and the test, and the disposition is put back.
signal-Steps :
    Steps world (cleanup_statements world) watched (on_pointer world (some 0)) after_signal
unfolding cleanup_statements
signal-Steps = interrupted (did_read at_start) refl handler_returns

default_apart : sig_dfl ≢ sigchld_handler
default_apart e = cc

cleanup_statements-IsSafe_example :
    (run_alone (cleanup_statements world) watched ≡ sshpam_thread_cleanup world watched)
    × IsSafe world watched (on_pointer world (some 0)) after_signal
cleanup_statements-IsSafe_example =
    cleanup_statements-IsSafe world watched after_signal (on_pointer world (some 0)) watched-IsOwned
      default_apart signal-Steps

-- A PAM process is started, and fails at once: the signal comes before cleanup_ctxt is set.
abbrev new_ctxt : PamCtxt
new_ctxt = record { pam_thread = 0; pam_psock = some 3; pam_csock = some 4; pam_done = running }

abbrev opened : Server
opened = record named {
  pam = record named.pam { contexts = some new_ctxt ∷ []; cleanup_ctxt = none; sigchld = sig_dfl };
}

opened-Apart : Apart 0 opened
opened-Apart = record { own = unowned opened refl; apart = λ e. cc }

abbrev registered : Server
registered = record opened {
  pam = record opened.pam {
    contexts = some (record new_ctxt { pam_thread = 77; pam_csock = none }) ∷ [];
    sigchld = sigchld_handler;
  };
  history = closed (some 4) ∷ opened.history;
}

abbrev unregistered : Server
unregistered = record registered { pam = record registered.pam { sigchld = sig_dfl } }

abbrev unsaved : Program
unsaved =
    statement (modify_pam (λ q. record q { oldsig = sig_dfl }))
      (statement (modify_pam (λ q. record q { cleanup_ctxt = some 0 })) finished)

start-Steps : Steps world (start_statements 0 new_ctxt 77) opened unsaved unregistered
unfolding start_statements register_statements store_ctxt sshpam_sigchld_handler modify ◌>>=◌
start-Steps =
    interrupted (executed (did_read (executed (executed (executed at_start refl) refl) refl)) refl)
      refl refl

start_statements-IsStarting_example :
    (run_alone (start_statements 0 new_ctxt 77) opened
      ≡ (switch_fork world (λ p. skip) 0 new_ctxt (in_parent 77) >>= λ b.
            modify_pam (λ x. record x { cleanup_ctxt = some 0 }))
          opened)
    × IsStarting world 0 opened unsaved unregistered
start_statements-IsStarting_example =
    start_statements-IsStarting world (λ p. skip) 0 new_ctxt 77 opened unregistered unsaved
      opened-Apart refl (λ e. cc) (λ e. cc) start-Steps
