-- ===== src/Pam/Process/Interrupted/Safe.antt =====
-- SIGCHLD at any point of sshpam_thread_cleanup.
use gexcloud.Base.{refl, ◌≡◌, ◌≢◌}
use gexcloud.Pam.Process.{sshpam_sigchld_handler, sshpam_thread_cleanup}
use gexcloud.Pam.Process.Interrupted.{Program, Steps, cleanup_statements, run_alone}
use gexcloud.Pam.Process.Interrupted.Aim.{Aimed, IsThread, handler-Armed, none_yet}
use gexcloud.Pam.Process.Interrupted.Alone.{cleanup_statements-alone}
use gexcloud.Pam.Process.Interrupted.Outline.{GoesOn, Outline-GoesOn, Steps-Outline}
use gexcloud.Pam.Process.Interrupted.Phases.{
  Holds, IsForgotten, Phase, armed, cleanup-Outline, disarmed, forgotten,
}
use gexcloud.Pam.Process.Owned.{IsOwned, IsOwned-kept, handler_defined}
use gexcloud.Server.Env.{Env}
use gexcloud.Server.Monad.{stop, undefined}
use gexcloud.Server.State.{Server, sigchld_handler}

pub record IsSafe (env : Env) (s : Server) (q : Program) (t : Server) : Type 0 where
  pub aimed : Aimed (IsThread s) s.history t.history
  pub answers : t.pam.sigchld ≡ sigchld_handler → (sshpam_sigchld_handler env t).0 ≢ stop undefined
  pub goes_on : GoesOn IsForgotten q t

module _ (env : Env) (s : Server) (own : IsOwned s) where
  handled-Holds :
      (ph : Phase) (t : Server)
      → t.pam.sigchld ≡ sigchld_handler
      → Holds s ph t
      → Holds s ph (sshpam_sigchld_handler env t).1
  unfolding Holds
  handled-Holds armed t e a = handler-Armed env t own a
  handled-Holds disarmed t e d = absurd (d.unhandled e)
  handled-Holds forgotten t e (d, z) = absurd (d.unhandled e)

  begins : Holds s armed s
  unfolding Holds
  begins = record {
    same = record { contexts = refl; cleanup_ctxt = refl };
    oldsig = refl;
    aimed = none_yet;
  }

  Holds-Aimed : (ph : Phase) (t : Server) → Holds s ph t → Aimed (IsThread s) s.history t.history
  unfolding Holds
  Holds-Aimed armed t a = a.aimed
  Holds-Aimed disarmed t d = d.aimed
  Holds-Aimed forgotten t (d, z) = d.aimed

  Holds-answers :
      (ph : Phase) (t : Server)
      → Holds s ph t
      → t.pam.sigchld ≡ sigchld_handler
      → (sshpam_sigchld_handler env t).0 ≢ stop undefined
  unfolding Holds
  Holds-answers armed t a e = handler_defined env t (IsOwned-kept s t a.same own)
  Holds-answers disarmed t d e = absurd (d.unhandled e)
  Holds-answers forgotten t (d, z) e = absurd (d.unhandled e)

-- Where cleanup_ctxt is NULL or points to a live object whose thread was started, and the
-- disposition of SIGCHLD that pthread_create has saved is not the handler: the statements of
-- sshpam_thread_cleanup, one after the other, are sshpam_thread_cleanup; and at whatever
-- statement it stands, with the handler of SIGCHLD run at whatever points before, as often as
-- its disposition allowed, and returned each time: kill and waitpid were called for no process
-- but the thread of the object at cleanup_ctxt, and so never for 0; a handler that runs now
-- reads through no NULL and no freed object; the next statement returns; and where there is
-- none left, cleanup_ctxt is NULL.
pub cleanup_statements-IsSafe :
    (env : Env) (s t : Server) (q : Program)
    → IsOwned s
    → s.pam.oldsig ≢ sigchld_handler
    → Steps env (cleanup_statements env) s q t
    → (run_alone (cleanup_statements env) s ≡ sshpam_thread_cleanup env s) × IsSafe env s q t
cleanup_statements-IsSafe env s t q own quiet st =
    let (ph, h, k) =
      Steps-Outline (Holds s) IsForgotten env (handled-Holds env s own) (cleanup_statements env) s
        armed (cleanup-Outline env s quiet own) (begins env s own) q t st in
    (
      cleanup_statements-alone env s,
      record {
        aimed = Holds-Aimed env s own ph t h;
        answers = Holds-answers env s own ph t h;
        goes_on = Outline-GoesOn (Holds s) IsForgotten ph q t h k;
      },
    )
