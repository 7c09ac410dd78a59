-- ===== src/Pam/Process.antt =====
-- Threads simulated with processes: the SIGCHLD handler and the pthread_* functions of
-- auth-pam_next.c (built without UNSUPPORTED_POSIX_THREADS_HACK).
pub mod Owned
pub mod Writes
pub mod Interrupted
use gexcloud.Base.{Bool, Option, false, if◌then◌else◌, none, not, some, true, ℕ, ◌==◌}
use gexcloud.Pam.Context.{load_ctxt, modify_pam, store_ctxt}
use gexcloud.Server.Env.{Env, Fork, fork_failed, in_child, in_parent}
use gexcloud.Server.Event.{called_fork, called_waitpid, closed, killed}
use gexcloud.Server.Monad.{
  M, ask, emit, exit, fatal, gets, halt, halt_if, match_option, pure, skip, thread_died,
  thread_unclean, ◌>>=◌, ◌>>◌,
}
use gexcloud.Server.State.{
  Disposition, PamCtxt, WaitStatus, exited, running, sig_dfl, sigchld_handler, terminated,
}

abbrev is_sigterm : WaitStatus → Bool
is_sigterm terminated = true
is_sigterm _ = false

-- The tests at the end of the handler, on `sshpam_thread_status`.
unfoldable pub judge_status : Option WaitStatus → M (Unit {0})
judge_status (some terminated) = skip
judge_status (some (exited n)) = halt_if (not (n == 0)) (fatal thread_unclean)
judge_status _ = halt (fatal thread_died)

abbrev pub set_thread_status : Option WaitStatus → M (Unit {0})
set_thread_status w = modify_pam (λ p. record p { thread_status = w })

abbrev set_sigchld : Disposition → M (Unit {0})
set_sigchld d = modify_pam (λ p. record p { sigchld = d })

-- A pam_ctxt that calloc has made, or that memset has cleared.
abbrev pub zeroed : PamCtxt
zeroed = record { pam_thread = 0; pam_psock = some 0; pam_csock = some 0; pam_done = running }

module _ (env : Env) where
  -- `waitpid` returned the child, and has written the status.
  abbrev pub judge_waited : WaitStatus → M (Unit {0})
  judge_waited w = do set_thread_status (some w); judge_status (some w)

  -- The thread runs on, so the privsep slave must have ended: stop the thread and wait for it.
  abbrev pub stop_thread : ℕ → M (Unit {0})
  stop_thread thread = do
    emit (killed thread)
    waited ← ask (called_waitpid thread false) (env.waitpid thread)
    match_option waited skip λ w. judge_waited w

  unfoldable pub sshpam_sigchld_handler : M (Unit {0})
  sshpam_sigchld_handler = do
    set_sigchld sig_dfl
    cleanup ← gets (λ s. s.pam.cleanup_ctxt)
    match_option cleanup skip λ p. do
      ctxt ← load_ctxt p
      waited ← ask (called_waitpid ctxt.pam_thread true) (env.waitpid ctxt.pam_thread)
      match_option waited (stop_thread ctxt.pam_thread) λ w. judge_waited w

  unfoldable pub pthread_exit : M (Unit {0})
  pthread_exit = halt (exit 0)

  -- The answer of fork says which of the two processes the run is.
  -- `switch ((pid = fork()))`: the answer says which of the two processes the run is.
  abbrev pub switch_fork : (thread_start : ℕ → M (Unit {0})) → ℕ → PamCtxt → Fork → M Bool
  switch_fork thread_start p ctxt fork_failed = pure false
  switch_fork thread_start p ctxt in_child = do
    emit (closed ctxt.pam_psock)
    store_ctxt p (some (record ctxt { pam_psock = none }))
    thread_start p
    halt (exit 1)
  switch_fork thread_start p ctxt (in_parent pid) = do
    emit (closed ctxt.pam_csock)
    store_ctxt p (some (record ctxt { pam_thread = pid; pam_csock = none }))
    modify_pam (λ q. record q { oldsig = q.sigchld; sigchld = sigchld_handler })
    pure true

  unfoldable pub pthread_create : (thread_start : ℕ → M (Unit {0})) → ℕ → M Bool
  pthread_create thread_start p = do
    set_thread_status none
    forked ← ask called_fork env.fork
    ctxt ← load_ctxt p
    switch_fork thread_start p ctxt forked

  unfoldable pub pthread_cancel : ℕ → M (Unit {0})
  pthread_cancel thread = do modify_pam (λ p. record p { sigchld = p.oldsig }); emit (killed thread)

  -- A status that the handler has collected is given back; otherwise wait. (The only caller
  -- drops the status.)
  unfoldable pub pthread_join : ℕ → M (Option WaitStatus)
  pthread_join thread = do
    status ← gets (λ s. s.pam.thread_status)
    match_option status
        (do
          modify_pam (λ p. record p { sigchld = p.oldsig })
          ask (called_waitpid thread false) (env.waitpid thread))
        λ w. pure (some w)

  abbrev pub end_thread : ℕ → PamCtxt → M (Unit {0})
  end_thread p ctxt = do
    pthread_cancel ctxt.pam_thread
    pthread_join ctxt.pam_thread
    emit (closed ctxt.pam_psock)
    emit (closed ctxt.pam_csock)
    store_ctxt p (some zeroed)
    modify_pam (λ q. record q { cleanup_ctxt = none })

  unfoldable pub sshpam_thread_cleanup : M (Unit {0})
  sshpam_thread_cleanup = do
    cleanup ← gets (λ s. s.pam.cleanup_ctxt)
    match_option cleanup skip
        λ p. do ctxt ← load_ctxt p; if ctxt.pam_thread == 0 then skip else end_thread p ctxt
