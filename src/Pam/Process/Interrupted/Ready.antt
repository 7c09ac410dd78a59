-- ===== src/Pam/Process/Interrupted/Ready.antt =====
-- What holds at each statement of the start of a PAM process, with the handler between them.
use gexcloud.Base.{ap, get_elem?, refl, some, sym, ℕ, ◌∙◌, ◌≡◌, ◌≢◌}
use gexcloud.Pam.Process.{sshpam_sigchld_handler}
use gexcloud.Pam.Process.Interrupted.Aim.{Aimed, Aimed-trans, Armed, handler-Armed, none_yet}
use gexcloud.Pam.Process.Owned.{HoldsThread, IsOwned, IsOwned-kept, SameContexts}
use gexcloud.Pam.Process.Writes.{Apart, Apart-kept}
use gexcloud.Server.Env.{Env}
use gexcloud.Server.State.{PamCtxt, Server, sigchld_handler}

-- No process that is stopped or waited for since `s` is 0, the whole process group.
abbrev pub Spares : Server → Server → Type 0
Spares s t = Aimed (λ n. n ≢ 0) s.history t.history

-- Another object than that of cleanup_ctxt, in its place, before and after its thread is started.
pub record Writing (p : ℕ) (s t : Server) : Type 0 where
  pub apart : Apart p t
  pub there : (c : PamCtxt) × (get_elem? t.pam.contexts p ≡ some (some c))
  pub unhandled : t.pam.sigchld ≢ sigchld_handler
  pub spares : Spares s t

pub record Running (p : ℕ) (s t : Server) : Type 0 where
  pub apart : Apart p t
  pub thread : HoldsThread p t
  pub spares : Spares s t

-- What the cleanup needs.
pub record IsReady (p : ℕ) (t : Server) : Type 0 where
  pub current : t.pam.cleanup_ctxt ≡ some p
  pub thread : HoldsThread p t
  pub quiet : t.pam.oldsig ≢ sigchld_handler

pub data StartPhase : Type 0 where
  prepared held registered saved ready : StartPhase

unfoldable pub HoldsAt : ℕ → Server → StartPhase → Server → Type 0
HoldsAt p s prepared t = Writing p s t
HoldsAt p s held t = Running p s t × (t.pam.sigchld ≢ sigchld_handler)
HoldsAt p s registered t = Running p s t
HoldsAt p s saved t = Running p s t × (t.pam.oldsig ≢ sigchld_handler)
HoldsAt p s ready t = IsOwned t × IsReady p t × Spares s t

pub kept_thread : (p : ℕ) (t u : Server) → SameContexts t u → HoldsThread p t → HoldsThread p u
kept_thread p t u k x = record {
  ctxt = x.ctxt;
  alive = ap (λ cs. get_elem? cs p) k.contexts ∙ x.alive;
  runs = x.runs;
}

module _ (env : Env) (p : ℕ) (s : Server) where
  -- The handler runs between two statements.
  answered : (t : Server) → IsOwned t → Armed t (sshpam_sigchld_handler env t).1
  answered t own = handler-Armed env t own (record {
    same = record { contexts = refl; cleanup_ctxt = refl };
    oldsig = refl;
    aimed = none_yet;
  })

  aims_off : (t u : Server) → Armed t u → Spares s t → Spares s u
  aims_off t u a h = Aimed-trans (λ n x e. x.held.runs (x.names ∙ e)) h a.aimed

  Running-answered : (t : Server) → Running p s t → Running p s (sshpam_sigchld_handler env t).1
  Running-answered t r =
      let a = answered t r.apart.own in
      record {
        apart = Apart-kept p t _ a.same r.apart;
        thread = kept_thread p t _ a.same r.thread;
        spares = aims_off t _ a r.spares;
      }

  pub handled-HoldsAt :
      (ph : StartPhase) (t : Server)
      → t.pam.sigchld ≡ sigchld_handler
      → HoldsAt p s ph t
      → HoldsAt p s ph (sshpam_sigchld_handler env t).1
  unfolding HoldsAt
  handled-HoldsAt prepared t e w = absurd (w.unhandled e)
  handled-HoldsAt held t e (r, ne) = absurd (ne e)
  handled-HoldsAt registered t e r = Running-answered t r
  handled-HoldsAt saved t e (r, q) =
      (Running-answered t r, λ z. q (sym (answered t r.apart.own).oldsig ∙ z))
  handled-HoldsAt ready t e (own, x, h) =
      let a = answered t own in
      (
        IsOwned-kept t _ a.same own,
        record {
          current = a.same.cleanup_ctxt ∙ x.current;
          thread = kept_thread p t _ a.same x.thread;
          quiet = λ z. x.quiet (sym a.oldsig ∙ z);
        },
        aims_off t _ a h,
      )
