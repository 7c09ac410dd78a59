-- ===== src/Pam/Thread/Report.antt =====
-- How the PAM process ends.
use gexcloud.Base.{Bool, false, if◌then◌else◌, true, ℕ, ◌≢◌}
use gexcloud.Pam.Process.{pthread_exit}
use gexcloud.Pam.Thread.{
  auth_fail, sshpam_thread, thread_account, thread_authenticate, thread_change_password,
  thread_success,
}
use gexcloud.Server.Env.{Env}
use gexcloud.Server.Laws.{>>=-ok}
use gexcloud.Server.Monad.{M, halt, ok, ◌>>=◌}
use gexcloud.Server.Pam.{PamCode, pam_acct_expired}
use gexcloud.Server.State.{PamCtxt, Server}

-- No run ends with a value.
abbrev pub Ends : {A : Type 0} → M A → Type 0
Ends {A} m = (s : Server) (a : A) → (m s).0 ≢ ok a

Ends-then : {A B : Type 0} (m : M A) (f : A → M B) → ((a : A) → Ends (f a)) → Ends (m >>= f)
Ends-then m f k s b h = let (a, c, h1) = >>=-ok m f s h in k a _ b h1

Ends-if : {A : Type 0} (b : Bool) (m n : M A) → Ends m → Ends n → Ends (if b then m else n)
Ends-if true m n h k = h
Ends-if false m n h k = k

module _ (env : Env) where
  pthread_exit-Ends : Ends (pthread_exit env)
  unfolding pthread_exit halt
  pthread_exit-Ends s a h = cc

  auth_fail-Ends : (ctxt : PamCtxt) (code : PamCode) → Ends (auth_fail env ctxt code)
  unfolding auth_fail
  auth_fail-Ends ctxt code = Ends-then _ _ (λ x. Ends-then _ _ (λ y. pthread_exit-Ends))

  thread_success-Ends : (ctxt : PamCtxt) → Ends (thread_success env ctxt)
  unfolding thread_success
  thread_success-Ends ctxt =
      Ends-then _ _ (λ s. Ends-then _ _ (λ e. Ends-then _ _ (λ y. pthread_exit-Ends)))

  change-Ends : (ctxt : PamCtxt) → Ends (thread_change_password env ctxt)
  unfolding thread_change_password
  change-Ends ctxt = Ends-then _ _ (λ code. Ends-then _ _ (λ x.
      Ends-if _ _ _ (Ends-then _ _ (λ y. thread_success-Ends ctxt)) (auth_fail-Ends ctxt code)))

  account-Ends : (ctxt : PamCtxt) → Ends (thread_account env ctxt)
  unfolding thread_account
  account-Ends ctxt = Ends-if _ _ _ (thread_success-Ends ctxt) (
      Ends-then _ _ (λ allowed.
        Ends-if _ _ _ (auth_fail-Ends ctxt pam_acct_expired)
          (Ends-then _ _ (λ force. Ends-if _ _ _ (thread_success-Ends ctxt) (change-Ends ctxt)))))

  authenticate-Ends : (ctxt : PamCtxt) → Ends (thread_authenticate env ctxt)
  unfolding thread_authenticate
  authenticate-Ends ctxt =
      Ends-then _ _
        (λ code. Ends-then _ _ (λ x. Ends-if _ _ _ (account-Ends ctxt) (auth_fail-Ends ctxt code)))

  -- sshpam_thread never returns: whatever the state and the answers of the outside, the run ends
  -- in a stop of the process.
  pub sshpam_thread-Ends : (p : ℕ) (s : Server) → (sshpam_thread env p s).0 ≢ ok tt
  unfolding sshpam_thread
  sshpam_thread-Ends p s =
      Ends-then _ _
        (λ ctxt. Ends-then _ _ (λ found. Ends-then _ _ (λ x. Ends-then _ _ (λ y. Ends-then _ _ (λ z.
          Ends-then _ _ (λ known. Ends-then _ _ (λ w. Ends-then _ _ (λ code.
            Ends-then _ _
              (λ v. Ends-if _ _ _ (authenticate-Ends ctxt) (auth_fail-Ends ctxt code))))))))))
        s tt
