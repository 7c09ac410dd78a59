-- ===== src/Pam/Process/Interrupted/Aim.antt =====
-- At whom the signal handler aims: the state that it leaves, as far as sshpam_thread_cleanup
-- goes by it, and the processes that it waits for and stops.
use gexcloud.Base.{
  Option, ap, arith, false, get_elem?, none, refl, some, subst, sym, true, ℕ, ◌∙◌, ◌∷◌, ◌≡◌,
}
use gexcloud.Pam.Process.{judge_status, judge_waited, sshpam_sigchld_handler, stop_thread}
use gexcloud.Pam.Process.Owned.{
  HoldsThread, IsOwned, SameContexts, handler_idle, handler_waits, wait_for,
}
use gexcloud.Server.Env.{Env}
use gexcloud.Server.Event.{Event, History, called_waitpid, killed}
use gexcloud.Server.Monad.{M, Result, halt, match_option, pure, skip, ◌>>=◌}
use gexcloud.Server.State.{Disposition, Server, WaitStatus, sig_dfl}

-- `n` is the process that the object at cleanup_ctxt names, and not 0: kill and waitpid take 0
-- for the whole process group.
pub record IsThread (s : Server) (n : ℕ) : Type 0 where
  pub object : ℕ
  pub current : s.pam.cleanup_ctxt ≡ some object
  pub held : HoldsThread object s
  pub names : held.ctxt.pam_thread ≡ n

-- An event that stops or waits for a process has that process.
unfoldable pub AimsAt : (ℕ → Type 0) → Event → Type 0
AimsAt P (killed n) = P n
AimsAt P (called_waitpid n nohang) = P n
AimsAt P _ = Unit {0}

-- The events since `before` aim at such processes only.
pub data Aimed (P : ℕ → Type 0) (before : History) : History → Type 0 where
  none_yet : Aimed P before before
  one_more : {e : Event} {h : History} → Aimed P before h → AimsAt P e → Aimed P before (e ∷ h)

-- What the handler leaves of the state `s` that the cleanup began in.
pub record Armed (s t : Server) : Type 0 where
  pub same : SameContexts s t
  pub oldsig : t.pam.oldsig ≡ s.pam.oldsig
  pub aimed : Aimed (IsThread s) s.history t.history

judge_stays : (w : Option WaitStatus) (t : Server) → (judge_status w t).1 ≡ t
unfolding judge_status halt pure
judge_stays w t = ground arith

module _ {s : Server} where
  Armed-emit :
      {t : Server} {e : Event}
      → Armed s t
      → AimsAt (IsThread s) e
      → Armed s (record t { history = e ∷ t.history })
  Armed-emit a h = record {
    same = record { contexts = a.same.contexts; cleanup_ctxt = a.same.cleanup_ctxt };
    oldsig = a.oldsig;
    aimed = one_more a.aimed h;
  }

  -- Another disposition, and another status of the thread.
  Armed-set :
      {t : Server} (d : Disposition) (w : Option WaitStatus)
      → Armed s t
      → Armed s (record t { pam = record t.pam { sigchld = d; thread_status = w } })
  Armed-set d w a = record {
    same = record { contexts = a.same.contexts; cleanup_ctxt = a.same.cleanup_ctxt };
    oldsig = a.oldsig;
    aimed = a.aimed;
  }

  module _ (env : Env) where
    Armed-waited : {t : Server} (w : WaitStatus) → Armed s t → Armed s (judge_waited env w t).1
    unfolding ◌>>=◌
    Armed-waited {t} w a =
        subst (Armed s) (sym (judge_stays (some w) _)) (Armed-set t.pam.sigchld (some w) a)

    Armed-option :
        {t : Server} (o : Option WaitStatus) (m : M (Unit {0}))
        → Armed s t
        → Armed s (m t).1
        → Armed s (match_option o m (λ w. judge_waited env w) t).1
    unfolding match_option
    Armed-option none m a h = h
    Armed-option (some w) m a h = Armed-waited w a

    Armed-stop : {t : Server} (n : ℕ) → IsThread s n → Armed s t → Armed s (stop_thread env n t).1
    unfolding ◌>>=◌ AimsAt
    Armed-stop {t} n h a =
        let b = Armed-emit (Armed-emit a h) h in
        Armed-option (env.waitpid n (called_waitpid n false ∷ killed n ∷ t.history)) skip b b

    Armed-wait : {t : Server} (n : ℕ) → IsThread s n → Armed s t → Armed s (wait_for env n t).1
    unfolding ◌>>=◌ AimsAt
    Armed-wait {t} n h a =
        let b = Armed-emit a h in
        Armed-option (env.waitpid n (called_waitpid n true ∷ t.history)) (stop_thread env n) b
          (Armed-stop n h b)

    Armed-from :
        (t : Server) (o : Option ℕ)
        → t.pam.cleanup_ctxt ≡ o
        → IsOwned s
        → Armed s t
        → Armed s (sshpam_sigchld_handler env t).1
    unfolding pure
    Armed-from t none e own a =
        subst (λ (r : Result (Unit {0}) × Server). Armed s r.1) (sym (handler_idle env t e))
          (Armed-set sig_dfl t.pam.thread_status a)
    Armed-from t (some p) e own a =
        let e' = sym a.same.cleanup_ctxt ∙ e in
        let x = own.held p e' in
        subst (λ (r : Result (Unit {0}) × Server). Armed s r.1)
          (sym
            (handler_waits env t p x.ctxt e (ap (λ cs. get_elem? cs p) a.same.contexts ∙ x.alive)))
          (Armed-wait x.ctxt.pam_thread
            (record { object = p; current = e'; held = x; names = refl })
            (Armed-set sig_dfl t.pam.thread_status a))

    pub handler-Armed :
        (t : Server) → IsOwned s → Armed s t → Armed s (sshpam_sigchld_handler env t).1
    handler-Armed t own a = Armed-from t t.pam.cleanup_ctxt refl own a

AimsAt-map : {P Q : ℕ → Type 0} (f : (n : ℕ) → P n → Q n) (e : Event) → AimsAt P e → AimsAt Q e
unfolding AimsAt
AimsAt-map f (killed n) h = f n h
AimsAt-map f (called_waitpid n nohang) h = f n h
AimsAt-map f _ h = tt

-- What has been aimed at before, and then at processes that are among those.
pub Aimed-trans :
    {P Q : ℕ → Type 0} {a b c : History}
    → ((n : ℕ) → P n → Q n)
    → Aimed Q a b
    → Aimed P b c
    → Aimed Q a c
Aimed-trans f h none_yet = h
Aimed-trans f h (one_more {e} k x) = one_more (Aimed-trans f h k) (AimsAt-map f e x)
