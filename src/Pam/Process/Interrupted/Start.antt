-- ===== src/Pam/Process/Interrupted/Start.antt =====
-- SIGCHLD while a PAM process is started: the parent's part of pthread_create, after fork, and
-- the assignment to cleanup_ctxt that follows in sshpam_init_ctx, statement by statement.
use gexcloud.Base.{none, refl, set-set, some, ℕ, ◌≡◌}
use gexcloud.Pam.Context.{modify_pam, store_ctxt}
use gexcloud.Pam.Process.{switch_fork}
use gexcloud.Pam.Process.Interrupted.{Program, finished, reading, run_alone, statement}
use gexcloud.Server.Env.{Env, in_parent}
use gexcloud.Server.Event.{closed}
use gexcloud.Server.Monad.{M, emit, pure, ◌>>=◌}
use gexcloud.Server.State.{Disposition, PamCtxt, Server, sigchld_handler}

-- `sshpam_oldsig = signal(SIGCHLD, sshpam_sigchld_handler);` is a call and an assignment. `old`
-- is what the call returns: the disposition before it.
unfoldable pub register_statements : ℕ → Disposition → Program
register_statements p old = statement (modify_pam (λ q. record q { sigchld = sigchld_handler })) (
    statement (modify_pam (λ q. record q { oldsig = old }))
      (statement (modify_pam (λ q. record q { cleanup_ctxt = some p })) finished))

unfoldable pub start_statements : ℕ → PamCtxt → ℕ → Program
start_statements p ctxt pid = statement (store_ctxt p (some (record ctxt { pam_thread = pid }))) (
    statement (emit (closed ctxt.pam_csock)) (
      statement (store_ctxt p (some (record ctxt { pam_thread = pid; pam_csock = none })))
        (reading λ s. register_statements p s.pam.sigchld)))

-- Without a signal: the branch of pthread_create for the parent, and the assignment.
pub start_statements-alone :
    (env : Env) (start : ℕ → M (Unit {0})) (p : ℕ) (ctxt : PamCtxt) (pid : ℕ) (s : Server)
    → run_alone (start_statements p ctxt pid) s
      ≡ (switch_fork env start p ctxt (in_parent pid) >>= λ b.
            modify_pam (λ q. record q { cleanup_ctxt = some p }))
          s
unfolding run_alone start_statements register_statements store_ctxt pure ◌>>=◌
start_statements-alone env start p ctxt pid s =
    rw
      (set-set s.pam.contexts p (some (record ctxt { pam_thread = pid }))
        (some (record ctxt { pam_thread = pid; pam_csock = none })))
      refl
