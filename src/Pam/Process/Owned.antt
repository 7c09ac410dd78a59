-- ===== src/Pam/Process/Owned.antt =====
-- cleanup_ctxt: who may be stopped.
use gexcloud.Base.{
  Bool-cases, Option, ap, arith, get_elem?, if◌then◌else◌, inl, inr, none, refl, some, subst, sym,
  true, ℕ, ◌==◌, ◌∙◌, ◌≡◌, ◌≢◌,
}
use gexcloud.Pam.Context.{load_ctxt, store_ctxt}
use gexcloud.Pam.Process.{
  end_thread, judge_status, judge_waited, pthread_cancel, pthread_join, sshpam_sigchld_handler,
  sshpam_thread_cleanup, stop_thread,
}
use gexcloud.Server.Env.{Env}
use gexcloud.Server.Event.{called_waitpid}
use gexcloud.Server.Frame.{IsFrame, Quiet, Within}
use gexcloud.Server.Laws.{>>=-eq}
use gexcloud.Server.Monad.{
  M, Result, ask, halt, match_option, ok, pure, skip, stop, undefined, ◌>>=◌,
}
use gexcloud.Server.State.{PamCtxt, Server, WaitStatus, sig_dfl}

-- The object `p` is alive, and its thread was started.
pub record HoldsThread (p : ℕ) (s : Server) : Type 0 where
  pub ctxt : PamCtxt
  pub alive : get_elem? s.pam.contexts p ≡ some (some ctxt)
  pub runs : ctxt.pam_thread ≢ 0

-- cleanup_ctxt is NULL, or points to such an object.
pub record IsOwned (s : Server) : Type 0 where
  pub held : (p : ℕ) → s.pam.cleanup_ctxt ≡ some p → HoldsThread p s

pub unowned : (s : Server) → s.pam.cleanup_ctxt ≡ none → IsOwned s
unowned s e = record { held = λ p h. absurd (none_some (sym e ∙ h)) }
  where
    none_some : {p : ℕ} → ◌≡◌ {A = Option ℕ} none (some p) → ⊥
    none_some h = cc

-- The pam_ctxt objects and cleanup_ctxt stay.
pub record SameContexts (s t : Server) : Type 0 where
  pub contexts : t.pam.contexts ≡ s.pam.contexts
  pub cleanup_ctxt : t.pam.cleanup_ctxt ≡ s.pam.cleanup_ctxt

pub SameContexts-IsFrame : IsFrame SameContexts
SameContexts-IsFrame = record {
  here = λ s. ground arith;
  compose = λ s t u h k. ground arith;
  longer = λ s h. ground arith;
}

pub Quiet-SameContexts : {A : Type 0} {m : M A} → Within Quiet m → Within SameContexts m
Quiet-SameContexts w = record {
  at = λ s.
      let q = w.at s in
      record {
        contexts = ap (λ p. p.contexts) q.pam;
        cleanup_ctxt = ap (λ p. p.cleanup_ctxt) q.pam;
      };
}

pub IsOwned-kept : (s t : Server) → SameContexts s t → IsOwned s → IsOwned t
IsOwned-kept s t k o = record {
  held = λ p h.
      let x = o.held p (sym k.cleanup_ctxt ∙ h) in
      record {
        ctxt = x.ctxt;
        alive = ap (λ cs. get_elem? cs p) k.contexts ∙ x.alive;
        runs = x.runs;
      };
}

pub load_alive :
    (p : ℕ) (s : Server) {c : PamCtxt}
    → get_elem? s.pam.contexts p ≡ some (some c)
    → load_ctxt p s ≡ (ok c, s)
unfolding load_ctxt pure
load_alive p s h = rw h

module _ (env : Env) where
  judged_defined : (w : Option WaitStatus) (s : Server) → (judge_status w s).0 ≢ stop undefined
  unfolding judge_status halt pure
  judged_defined w s e = ground arith

  abbrev pub wait_for : ℕ → M (Unit {0})
  wait_for thread = do
    waited ← ask (called_waitpid thread true) (env.waitpid thread)
    match_option waited (stop_thread env thread) λ w. judge_waited env w

  wait_defined : (thread : ℕ) (s : Server) → (wait_for thread s).0 ≢ stop undefined
  unfolding ◌>>=◌ judge_status
  wait_defined thread s bad = ground arith

  -- With a live object at cleanup_ctxt, the handler waits for its thread.
  pub handler_waits :
      (s : Server) (p : ℕ) (c : PamCtxt)
      → s.pam.cleanup_ctxt ≡ some p
      → get_elem? s.pam.contexts p ≡ some (some c)
      → sshpam_sigchld_handler env s
        ≡ wait_for c.pam_thread (record s { pam = record s.pam { sigchld = sig_dfl } })
  unfolding sshpam_sigchld_handler match_option ◌>>=◌
  handler_waits s p c e alive =
      let t = record s { pam = record s.pam { sigchld = sig_dfl } } in
      ap (λ o. match_option o skip (λ q. load_ctxt q >>= λ c. wait_for c.pam_thread) t) e
      ∙ >>=-eq (load_ctxt p) (λ c. wait_for c.pam_thread) t (load_alive p t alive)

  pub handler_idle :
      (s : Server)
      → s.pam.cleanup_ctxt ≡ none
      → sshpam_sigchld_handler env s ≡ skip (record s { pam = record s.pam { sigchld = sig_dfl } })
  unfolding sshpam_sigchld_handler match_option ◌>>=◌
  handler_idle s e =
      let t = record s { pam = record s.pam { sigchld = sig_dfl } } in
      ap (λ o. match_option o skip (λ q. load_ctxt q >>= λ c. wait_for c.pam_thread) t) e

  handler_from :
      (s : Server) (o : Option ℕ)
      → s.pam.cleanup_ctxt ≡ o
      → IsOwned s
      → (sshpam_sigchld_handler env s).0 ≢ stop undefined
  unfolding sshpam_sigchld_handler match_option ◌>>=◌
  handler_from s none e own = ground arith
  handler_from s (some p) e own =
      let x = own.held p e in
      subst (λ (r : Result (Unit {0}) × Server). r.0 ≢ stop undefined)
        (sym (handler_waits s p x.ctxt e x.alive)) (wait_defined x.ctxt.pam_thread _)

  -- The handler of SIGCHLD reads no freed object and no NULL.
  pub handler_defined : (s : Server) → IsOwned s → (sshpam_sigchld_handler env s).0 ≢ stop undefined
  handler_defined s own = handler_from s s.pam.cleanup_ctxt refl own

  -- The thread is stopped and its object cleared.
  abbrev pub IsStopped : Server → Type 0
  IsStopped s =
      ((sshpam_thread_cleanup env s).0 ≡ ok tt)
      × ((sshpam_thread_cleanup env s).1.pam.cleanup_ctxt ≡ none)

  end_thread_from :
      (p : ℕ) (c : PamCtxt) (s : Server)
      → ((end_thread env p c s).0 ≡ ok tt) × ((end_thread env p c s).1.pam.cleanup_ctxt ≡ none)
  unfolding pthread_cancel pthread_join store_ctxt ◌>>=◌
  end_thread_from p c s = ground arith

  -- The last test of the cleanup finds a thread.
  abbrev stop_running : ℕ → PamCtxt → M (Unit {0})
  stop_running p c = if c.pam_thread == 0 then skip else end_thread env p c

  stop_from :
      (p : ℕ) (c : PamCtxt) (s : Server)
      → c.pam_thread ≢ 0
      → ((stop_running p c s).0 ≡ ok tt) × ((stop_running p c s).1.pam.cleanup_ctxt ≡ none)
  stop_from p c s ne = elim (Bool-cases (c.pam_thread == 0)) [
    | inl is_0 ↦ absurd (ne (ground arith))
    | inr runs ↦ rw runs (end_thread_from p c s)
  ]

  cleanup_from : (s : Server) (o : Option ℕ) → s.pam.cleanup_ctxt ≡ o → IsOwned s → IsStopped s
  unfolding sshpam_thread_cleanup match_option ◌>>=◌
  cleanup_from s none e own = ground arith
  cleanup_from s (some p) e own =
      let x = own.held p e in
      subst (λ (r : Result (Unit {0}) × Server). (r.0 ≡ ok tt) × (r.1.pam.cleanup_ctxt ≡ none))
        (sym (
          ap (λ o. match_option o skip (λ q. load_ctxt q >>= stop_running q) s) e
          ∙ >>=-eq (load_ctxt p) (stop_running p) s (load_alive p s x.alive)))
        (stop_from p x.ctxt s x.runs)

  pub thread_cleanup-IsStopped : (s : Server) → IsOwned s → IsStopped s
  thread_cleanup-IsStopped s own = cleanup_from s s.pam.cleanup_ctxt refl own
