-- ===== src/Pam/Process/Interrupted/Alone.antt =====
-- The statements of sshpam_thread_cleanup, run without a signal.
use gexcloud.Base.{
  Bool, Option, arith, false, get_elem?, if◌then◌else◌, none, refl, some, true, ℕ, ◌==◌, ◌≡◌,
}
use gexcloud.Pam.Context.{live, load_ctxt}
use gexcloud.Pam.Process.{end_thread, pthread_cancel, pthread_join, sshpam_thread_cleanup}
use gexcloud.Pam.Process.Interrupted.{
  Program, cleanup_statements, clear_then_forget, end_statements, finished, join_then, on_pointer,
  run_alone, through_pointer,
}
use gexcloud.Server.Env.{Env}
use gexcloud.Server.Monad.{M, halt, match_option, pure, skip, ◌>>=◌}
use gexcloud.Server.State.{PamCtxt, Server}

module _ (env : Env) where
  end-alone :
      (p : ℕ) (ctxt : PamCtxt) (s : Server)
      → run_alone (end_statements env p ctxt) s ≡ end_thread env p ctxt s
  unfolding run_alone end_statements clear_then_forget join_then pthread_cancel pthread_join ◌>>=◌
  end-alone p ctxt s = ground arith

  through-alone :
      (o : Option (Option PamCtxt)) (k : PamCtxt → Program) (f : PamCtxt → M (Unit {0}))
      (s : Server)
      → ((c : PamCtxt) → run_alone (k c) s ≡ f c s)
      → run_alone (through_pointer o k) s ≡ (live o >>= f) s
  unfolding run_alone through_pointer halt pure ◌>>=◌
  through-alone none k f s h = refl
  through-alone (some none) k f s h = refl
  through-alone (some (some c)) k f s h = h c

  if-alone :
      (p : ℕ) (c : PamCtxt) (s : Server) (b : Bool)
      → run_alone (if b then finished else end_statements env p c) s
        ≡ (if b then skip else end_thread env p c) s
  unfolding run_alone
  if-alone p c s true = refl
  if-alone p c s false = end-alone p c s

  pointer-alone :
      (o : Option ℕ) (s : Server)
      → run_alone (on_pointer env o) s
        ≡ match_option o skip
            (λ p. load_ctxt p >>= λ c. if c.pam_thread == 0 then skip else end_thread env p c)
            s
  unfolding run_alone on_pointer load_ctxt match_option ◌>>=◌
  pointer-alone none s = refl
  pointer-alone (some p) s =
      through-alone (get_elem? s.pam.contexts p) _
        (λ c. if c.pam_thread == 0 then skip else end_thread env p c) s
        (λ c. if-alone p c s (c.pam_thread == 0))

  -- The statements are those of sshpam_thread_cleanup: one after the other, they give its result.
  pub cleanup_statements-alone :
      (s : Server) → run_alone (cleanup_statements env) s ≡ sshpam_thread_cleanup env s
  unfolding run_alone cleanup_statements sshpam_thread_cleanup ◌>>=◌
  cleanup_statements-alone s = pointer-alone s.pam.cleanup_ctxt s
