-- ===== src/Pam/Process/Interrupted.antt =====
-- SIGCHLD in the middle of sshpam_thread_cleanup: the function statement by statement, with the
-- calls of pthread_cancel and pthread_join opened, and the handler of the signal between any two
-- statements.
pub mod Alone
pub mod Outline
pub mod Start
pub mod Ready
pub mod Starting
pub mod Phases
pub mod Safe
pub mod Aim
use gexcloud.Base.{Option, false, get_elem?, if◌then◌else◌, none, some, ℕ, ◌==◌, ◌≡◌}
use gexcloud.Pam.Context.{modify_pam, store_ctxt}
use gexcloud.Pam.Process.{sshpam_sigchld_handler, zeroed}
use gexcloud.Server.Env.{Env}
use gexcloud.Server.Event.{called_waitpid, closed, killed}
use gexcloud.Server.Monad.{M, ask, emit, halt, ok, skip, undefined, ◌>>=◌, ◌>>◌}
use gexcloud.Server.State.{PamCtxt, Server, WaitStatus, sigchld_handler}

-- A function, statement by statement. A statement is one step; what it reads to go on is another.
pub data Program : Type 0 where
  finished : Program
  statement : M (Unit {0}) → Program → Program
  reading : (Server → Program) → Program

-- Without a signal.
unfoldable pub run_alone : Program → M (Unit {0})
run_alone finished = skip
run_alone (statement m rest) = do m; run_alone rest
run_alone (reading k) = λ s. run_alone (k s) s

-- `signal(SIGCHLD, sshpam_oldsig)`
abbrev pub restore_signal : M (Unit {0})
restore_signal = modify_pam (λ p. record p { sigchld = p.oldsig })

-- Going on with the object that a pointer points to.
unfoldable pub through_pointer : Option (Option PamCtxt) → (PamCtxt → Program) → Program
through_pointer (some (some ctxt)) k = k ctxt
through_pointer _ k = statement (halt undefined) finished

module _ (env : Env) where
  -- pthread_join, and what comes after it. The status is dropped.
  unfoldable pub join_then : ℕ → Option WaitStatus → Program → Program
  join_then thread (some w) rest = rest
  join_then thread none rest =
      statement restore_signal
        (statement (do ask (called_waitpid thread false) (env.waitpid thread); skip) rest)

  unfoldable pub clear_then_forget : ℕ → PamCtxt → Program
  clear_then_forget p ctxt = statement (emit (closed ctxt.pam_psock)) (
      statement (emit (closed ctxt.pam_csock)) (
        statement (store_ctxt p (some zeroed))
          (statement (modify_pam (λ q. record q { cleanup_ctxt = none })) finished)))

  -- pthread_cancel, pthread_join and the rest of the block.
  unfoldable pub end_statements : ℕ → PamCtxt → Program
  end_statements p ctxt = statement restore_signal (
      statement (emit (killed ctxt.pam_thread))
        (reading λ s. join_then ctxt.pam_thread s.pam.thread_status (clear_then_forget p ctxt)))

  unfoldable pub on_pointer : Option ℕ → Program
  on_pointer none = finished
  on_pointer (some p) = reading λ s.
      through_pointer (get_elem? s.pam.contexts p)
        λ ctxt. if ctxt.pam_thread == 0 then finished else end_statements p ctxt

  unfoldable pub cleanup_statements : Program
  cleanup_statements = reading λ s. on_pointer s.pam.cleanup_ctxt

  -- From one program and state to another: statements run, and between them the handler, where
  -- it is the disposition of SIGCHLD.
  pub data Steps (first : Program) (s : Server) : Program → Server → Type 0 where
    at_start : Steps first s first s
    executed :
        {m : M (Unit {0})} {rest : Program} {t : Server}
        → Steps first s (statement m rest) t
        → (m t).0 ≡ ok tt
        → Steps first s rest (m t).1
    did_read :
        {k : Server → Program} {t : Server} → Steps first s (reading k) t → Steps first s (k t) t
    interrupted :
        {q : Program} {t : Server}
        → Steps first s q t
        → t.pam.sigchld ≡ sigchld_handler
        → (sshpam_sigchld_handler env t).0 ≡ ok tt
        → Steps first s q (sshpam_sigchld_handler env t).1
