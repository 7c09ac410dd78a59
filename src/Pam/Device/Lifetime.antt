-- ===== src/Pam/Device/Lifetime.antt =====
-- cleanup_ctxt over any sequence of calls of the device.
use gexcloud.Base.{List, none, refl, ℕ, ◌≡◌, ◌≢◌}
use gexcloud.Pam.Context.{store_ctxt}
use gexcloud.Pam.Device.{query_loop, set_done, sshpam_free_ctx, sshpam_query}
use gexcloud.Pam.Device.Frame.{respond-SameContexts}
use gexcloud.Pam.Device.Interface.{Keeps, Uses, Uses-kept, sshpam_device}
use gexcloud.Pam.Device.Judged.{query_loop-Judged}
use gexcloud.Pam.Device.Opening.{ForkPid}
use gexcloud.Pam.Device.Started.{init_ctx-Stays}
use gexcloud.Pam.Process.{sshpam_sigchld_handler, sshpam_thread_cleanup}
use gexcloud.Pam.Process.Owned.{
  IsOwned, IsOwned-kept, IsStopped, handler_defined, thread_cleanup-IsStopped, unowned,
}
use gexcloud.Pam.Process.Writes.{
  Reads, Stays, Stays-Within, load-Reads, load-SameContexts, rewritten,
}
use gexcloud.Server.Env.{Env}
use gexcloud.Server.Hoare.{Hoare, Hoare-bind, Hoare-modify}
use gexcloud.Server.Monad.{modify, stop, undefined}
use gexcloud.Server.Pam.{PamCode}
use gexcloud.Server.State.{PamDone, Server, failed, succeeded}
use gexcloud.Text.{Bytes}

set_done-Stays : (p : ℕ) (d : PamDone) → Stays (set_done p d)
unfolding set_done store_ctxt modify
set_done-Stays p d =
    Hoare-bind (Reads p) (load-Reads p) λ c. record { after = λ s r x h. rewritten p c _ s refl r }

module _ (env : Env) where
  pub query_loop-Stays :
      (p : ℕ) (inbox : List (PamCode × Bytes)) → Stays (query_loop env p none inbox)
  query_loop-Stays p inbox =
      query_loop-Judged env p IsOwned (λ b. IsOwned) IsOwned-kept (λ s own. own)
        (set_done-Stays p failed) (set_done-Stays p succeeded) inbox none

  pub free_ctx-Stays : (p : ℕ) → Stays (sshpam_free_ctx env p)
  unfolding sshpam_free_ctx store_ctxt
  free_ctx-Stays p =
      Hoare-bind (λ _ s. s.pam.cleanup_ctxt ≡ none) stopped λ x. Hoare-modify _ (λ s e. unowned _ e)
    where
      stopped : Hoare IsOwned (sshpam_thread_cleanup env) (λ _ s. s.pam.cleanup_ctxt ≡ none)
      stopped = record { after = λ s own a h. (thread_cleanup-IsStopped env s own).1 }

  pub cleanup-Stays : Stays (sshpam_thread_cleanup env)
  cleanup-Stays = record { after = λ s own a h. unowned _ (thread_cleanup-IsStopped env s own).1 }

module _ (env : Env) (pids : ForkPid env) where
  device-Keeps : Keeps IsOwned (sshpam_device env)
  unfolding sshpam_query
  device-Keeps = record {
    keeps_init = init_ctx-Stays env pids;
    keeps_query = λ p inbox.
        Hoare-bind (λ _. IsOwned) (Stays-Within (load-SameContexts p))
          λ ctxt. query_loop-Stays env p inbox;
    keeps_respond = λ p num resp. Stays-Within (respond-SameContexts env p num resp);
    keeps_free = free_ctx-Stays env;
  }

  -- From a server whose cleanup_ctxt is NULL, by any sequence of calls of the device, of the
  -- cleanup and of the handler of SIGCHLD that returned, of whatever attempts and in whatever
  -- order, with code between them that leaves the pam_ctxt objects and cleanup_ctxt alone, and
  -- where fork gives no parent the pid 0: the handler reads through no NULL and no freed object,
  -- and sshpam_thread_cleanup returns and leaves cleanup_ctxt NULL.
  pub Uses-safe :
      (s t : Server)
      → s.pam.cleanup_ctxt ≡ none
      → Uses env (sshpam_device env) s t
      → ((sshpam_sigchld_handler env t).0 ≢ stop undefined) × IsStopped env t
  Uses-safe s t e us =
      let own =
        Uses-kept env (sshpam_device env) IsOwned device-Keeps IsOwned-kept (cleanup-Stays env) s t
          us (unowned s e) in
      (handler_defined env t own, thread_cleanup-IsStopped env t own)
