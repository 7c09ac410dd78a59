-- ===== src/Pam/Process/Interrupted/Phases.antt =====
-- What holds at each statement of sshpam_thread_cleanup, before and after pthread_cancel.
use gexcloud.Base.{
  Bool-cases, Option, ap, arith, get_elem?, if◌then◌else◌, inl, inr, none, refl, some, subst, sym,
  ℕ, ◌==◌, ◌∙◌, ◌∷◌, ◌≡◌, ◌≢◌,
}
use gexcloud.Pam.Context.{store_ctxt}
use gexcloud.Pam.Process.Interrupted.{
  Program, cleanup_statements, clear_then_forget, end_statements, finished, join_then, on_pointer,
  restore_signal, through_pointer,
}
use gexcloud.Pam.Process.Interrupted.Aim.{Aimed, AimsAt, Armed, IsThread, one_more}
use gexcloud.Pam.Process.Interrupted.Outline.{Outline}
use gexcloud.Pam.Process.Owned.{IsOwned}
use gexcloud.Server.Env.{Env}
use gexcloud.Server.Event.{Event}
use gexcloud.Server.Monad.{emit, modify, ◌>>=◌}
use gexcloud.Server.State.{PamCtxt, Server, WaitStatus, sigchld_handler}

-- Once pthread_cancel has put the old disposition back.
pub record Disarmed (s t : Server) : Type 0 where
  pub aimed : Aimed (IsThread s) s.history t.history
  pub oldsig : t.pam.oldsig ≡ s.pam.oldsig
  pub unhandled : t.pam.sigchld ≢ sigchld_handler

pub data Phase : Type 0 where
  armed disarmed forgotten : Phase

unfoldable pub Holds : Server → Phase → Server → Type 0
Holds s armed t = Armed s t
Holds s disarmed t = Disarmed s t
Holds s forgotten t = Disarmed s t × (t.pam.cleanup_ctxt ≡ none)

-- What the whole function is to reach.
abbrev pub IsForgotten : Server → Type 0
IsForgotten t = t.pam.cleanup_ctxt ≡ none

module _ (env : Env) (s : Server) (quiet : s.pam.oldsig ≢ sigchld_handler) where
  event_kept :
      (e : Event) (t : Server)
      → AimsAt (IsThread s) e
      → Disarmed s t
      → Disarmed s (record t { history = e ∷ t.history })
  event_kept e t h d = record {
    aimed = one_more d.aimed h;
    oldsig = d.oldsig;
    unhandled = d.unhandled;
  }

  restored :
      (t : Server)
      → t.pam.oldsig ≡ s.pam.oldsig
      → Aimed (IsThread s) s.history t.history
      → Disarmed s (restore_signal t).1
  unfolding modify
  restored t e a = record { aimed = a; oldsig = e; unhandled = λ h. quiet (sym e ∙ h) }

  unobserved :
      (t u : Server)
      → u.history ≡ t.history
      → u.pam.oldsig ≡ t.pam.oldsig
      → u.pam.sigchld ≡ t.pam.sigchld
      → Disarmed s t
      → Disarmed s u
  unobserved t u h o d x = record {
    aimed = subst (Aimed (IsThread s) s.history) (sym h) x.aimed;
    oldsig = o ∙ x.oldsig;
    unhandled = λ e. x.unhandled (sym d ∙ e);
  }

  clear-Outline :
      (p : ℕ) (c : PamCtxt) → Outline (Holds s) IsForgotten disarmed (clear_then_forget env p c)
  unfolding clear_then_forget Outline Holds store_ctxt modify emit AimsAt
  clear-Outline p c = (
    disarmed,
    (λ t d. (refl, event_kept _ t tt d)),
    (
      disarmed,
      (λ t d. (refl, event_kept _ t tt d)),
      (
        disarmed,
        (λ t d. (refl, unobserved t _ refl refl refl d)),
        (forgotten, (λ t d. (refl, (unobserved t _ refl refl refl d, refl))), λ t h. h.1),
      ),
    ),
  )

  join-Outline :
      (n : ℕ) (o : Option WaitStatus) (rest : Program)
      → IsThread s n
      → Outline (Holds s) IsForgotten disarmed rest
      → Outline (Holds s) IsForgotten disarmed (join_then env n o rest)
  unfolding join_then Outline Holds modify ◌>>=◌ AimsAt
  join-Outline n (some w) rest x k = k
  join-Outline n none rest x k = (
    disarmed,
    (λ t d. (refl, restored t d.oldsig d.aimed)),
    (disarmed, (λ t d. (refl, event_kept _ t x d)), k),
  )

  end-Outline :
      (p : ℕ) (c : PamCtxt)
      → IsThread s c.pam_thread
      → Outline (Holds s) IsForgotten armed (end_statements env p c)
  unfolding end_statements Outline Holds modify emit AimsAt
  end-Outline p c x = (
    disarmed,
    (λ t a. (refl, restored t a.oldsig a.aimed)),
    (
      disarmed,
      (λ t d. (refl, event_kept _ t x d)),
      λ t d. join-Outline c.pam_thread t.pam.thread_status _ x (clear-Outline p c),
    ),
  )

  -- The test on pam_thread finds a thread.
  tested-Outline :
      (p : ℕ) (c : PamCtxt)
      → c.pam_thread ≢ 0
      → IsThread s c.pam_thread
      → Outline
          (Holds s)
          IsForgotten
          armed
          (if c.pam_thread == 0 then finished else end_statements env p c)
  tested-Outline p c ne x = elim (Bool-cases (c.pam_thread == 0)) [
    | inl is_0 ↦ absurd (ne (ground arith))
    | inr runs ↦ rw runs (end-Outline p c x)
  ]

  pointer-Outline :
      (o : Option ℕ)
      → s.pam.cleanup_ctxt ≡ o
      → IsOwned s
      → Outline (Holds s) IsForgotten armed (on_pointer env o)
  unfolding on_pointer Outline Holds through_pointer
  pointer-Outline none e own = λ t a. a.same.cleanup_ctxt ∙ e
  pointer-Outline (some p) e own = λ t a.
      let x = own.held p e in
      subst
        (λ o.
          Outline (Holds s) IsForgotten armed
            (through_pointer o λ c. if c.pam_thread == 0 then finished else end_statements env p c))
        (sym (ap (λ cs. get_elem? cs p) a.same.contexts ∙ x.alive))
        (tested-Outline p x.ctxt x.runs
          (record { object = p; current = e; held = x; names = refl }))

  pub cleanup-Outline : IsOwned s → Outline (Holds s) IsForgotten armed (cleanup_statements env)
  unfolding cleanup_statements Outline Holds
  cleanup-Outline own t a =
      subst (λ o. Outline (Holds s) IsForgotten armed (on_pointer env o)) (sym a.same.cleanup_ctxt)
        (pointer-Outline s.pam.cleanup_ctxt refl own)
