-- ===== src/Pam/Process/Interrupted/Starting.antt =====
-- SIGCHLD at any point of the start of a PAM process.
use gexcloud.Base.{Option, get_elem?, get_elem?-set, refl, some, subst, ℕ, ◌∷◌, ◌≡◌, ◌≢◌}
use gexcloud.Pam.Context.{modify_pam, store_ctxt}
use gexcloud.Pam.Process.{sshpam_sigchld_handler, switch_fork}
use gexcloud.Pam.Process.Interrupted.{Program, Steps, run_alone}
use gexcloud.Pam.Process.Interrupted.Aim.{AimsAt, none_yet, one_more}
use gexcloud.Pam.Process.Interrupted.Outline.{GoesOn, Outline, Outline-GoesOn, Steps-Outline}
use gexcloud.Pam.Process.Interrupted.Ready.{
  HoldsAt, IsReady, Running, Spares, StartPhase, Writing, handled-HoldsAt, held, kept_thread,
  prepared, ready, registered, saved,
}
use gexcloud.Pam.Process.Interrupted.Start.{
  register_statements, start_statements, start_statements-alone,
}
use gexcloud.Pam.Process.Owned.{HoldsThread, IsOwned, handler_defined}
use gexcloud.Pam.Process.Writes.{Apart, Apart-kept, some_injective, write-Apart}
use gexcloud.Server.Env.{Env, in_parent}
use gexcloud.Server.Event.{closed}
use gexcloud.Server.Monad.{M, emit, modify, stop, undefined, ◌>>=◌}
use gexcloud.Server.State.{Disposition, PamCtxt, Server, sigchld_handler}

module _ (env : Env) (p : ℕ) (s : Server) where
  first_write :
      (c d : PamCtxt) (t : Server)
      → d.pam_thread ≢ 0
      → Writing p s t
      → Running p s (store_ctxt p (some d) t).1 × (t.pam.sigchld ≢ sigchld_handler)
  unfolding store_ctxt modify
  first_write c d t ne w = (
    record {
      apart = (write-Apart p (some d)).after t w.apart tt refl;
      thread = record {
        ctxt = d;
        alive = get_elem?-set t.pam.contexts p (some d) w.there.1;
        runs = ne;
      };
      spares = w.spares;
    },
    w.unhandled,
  )

  again : (t : Server) → Running p s t → t.pam.sigchld ≢ sigchld_handler → Writing p s t
  again t r ne = record {
    apart = r.apart;
    there = (r.thread.ctxt, r.thread.alive);
    unhandled = ne;
    spares = r.spares;
  }

  -- Another disposition: the objects stay.
  Running-set :
      (t : Server) (d e : Disposition)
      → Running p s t
      → Running p s (record t { pam = record t.pam { sigchld = d; oldsig = e } })
  Running-set t d e r = record {
    apart = Apart-kept p t _ (record { contexts = refl; cleanup_ctxt = refl }) r.apart;
    thread = kept_thread p t _ (record { contexts = refl; cleanup_ctxt = refl }) r.thread;
    spares = r.spares;
  }

  pointed :
      (t : Server)
      → Running p s t
      → t.pam.oldsig ≢ sigchld_handler
      → HoldsAt p s ready (record t { pam = record t.pam { cleanup_ctxt = some p } })
  unfolding HoldsAt
  pointed t r q =
      let u = record t { pam = record t.pam { cleanup_ctxt = some p } } in
      let x : HoldsThread p u = record {
        ctxt = r.thread.ctxt;
        alive = r.thread.alive;
        runs = r.thread.runs;
      } in
      (
        record { held = λ i e. subst (λ j. HoldsThread j u) (some_injective e) x },
        record { current = refl; thread = x; quiet = q },
        r.spares,
      )

  register-Outline :
      (old : Disposition)
      → old ≢ sigchld_handler
      → Outline (HoldsAt p s) (IsReady p) held (register_statements p old)
  unfolding register_statements Outline HoldsAt modify
  register-Outline old ne = (
    registered,
    (λ t (r, un). (refl, Running-set t sigchld_handler t.pam.oldsig r)),
    (
      saved,
      (λ t r. (refl, (Running-set t t.pam.sigchld old r, ne))),
      (ready, (λ t (r, q). (refl, pointed t r q)), λ t (own, x, h). x),
    ),
  )

  closed_kept :
      (t : Server) (fd : Option ℕ)
      → Running p s t
      → Running p s (record t { history = closed fd ∷ t.history })
  unfolding AimsAt
  closed_kept t fd r = record {
    apart = Apart-kept p t _ (record { contexts = refl; cleanup_ctxt = refl }) r.apart;
    thread = kept_thread p t _ (record { contexts = refl; cleanup_ctxt = refl }) r.thread;
    spares = one_more r.spares tt;
  }

  start-Outline :
      (c : PamCtxt) (pid : ℕ)
      → pid ≢ 0
      → Outline (HoldsAt p s) (IsReady p) prepared (start_statements p c pid)
  unfolding start_statements Outline HoldsAt store_ctxt modify emit
  start-Outline c pid ne = (
    held,
    (λ t w. (refl, first_write c _ t ne w)),
    (
      held,
      (λ t (r, un). (refl, (closed_kept t c.pam_csock r, un))),
      (
        held,
        (λ t (r, un). (refl, first_write c _ t ne (again t r un))),
        λ t (r, un). register-Outline t.pam.sigchld un,
      ),
    ),
  )

  HoldsAt-IsOwned : (ph : StartPhase) (t : Server) → HoldsAt p s ph t → IsOwned t × Spares s t
  unfolding HoldsAt
  HoldsAt-IsOwned prepared t w = (w.apart.own, w.spares)
  HoldsAt-IsOwned held t (r, un) = (r.apart.own, r.spares)
  HoldsAt-IsOwned registered t r = (r.apart.own, r.spares)
  HoldsAt-IsOwned saved t (r, q) = (r.apart.own, r.spares)
  HoldsAt-IsOwned ready t (own, x, h) = (own, h)

-- What is to hold at each point of the start.
pub record IsStarting (env : Env) (p : ℕ) (s : Server) (q : Program) (t : Server) : Type 0 where
  pub own : IsOwned t
  pub spares : Spares s t
  pub answers : (sshpam_sigchld_handler env t).0 ≢ stop undefined
  pub goes_on : GoesOn (IsReady p) q t

-- Let the object at `p` be live, and not be that of cleanup_ctxt, which is NULL or points to a
-- live object whose thread was started; let fork have answered the parent with a pid other than
-- 0, and SIGCHLD not be handled yet. Then the rest of pthread_create and the assignment to
-- cleanup_ctxt, one statement after the other, are what pthread_create does in the parent and
-- the assignment; and at whatever statement they stand, with the handler run at whatever points
-- before and returned each time: cleanup_ctxt is NULL or points to a live object whose thread
-- was started; no kill and no waitpid was called for 0; a handler that runs now reads through
-- no NULL and no freed object; the next statement returns; and where there is none left,
-- cleanup_ctxt points to the object, its thread was started, and the disposition that was saved
-- is not the handler.
pub start_statements-IsStarting :
    (env : Env) (start : ℕ → M (Unit {0})) (p : ℕ) (c : PamCtxt) (pid : ℕ) (s t : Server)
    (q : Program)
    → Apart p s
    → get_elem? s.pam.contexts p ≡ some (some c)
    → pid ≢ 0
    → s.pam.sigchld ≢ sigchld_handler
    → Steps env (start_statements p c pid) s q t
    → (run_alone (start_statements p c pid) s
        ≡ (switch_fork env start p c (in_parent pid) >>= λ b.
              modify_pam (λ x. record x { cleanup_ctxt = some p }))
            s)
      × IsStarting env p s q t
unfolding HoldsAt
start_statements-IsStarting env start p c pid s t q a e ne un st =
    let begins : Writing p s s = record {
      apart = a;
      there = (c, e);
      unhandled = un;
      spares = none_yet;
    } in
    let (ph, h, k) =
      Steps-Outline (HoldsAt p s) (IsReady p) env (handled-HoldsAt env p s)
        (start_statements p c pid) s prepared (start-Outline env p s c pid ne) begins q t st in
    let (own, spares) = HoldsAt-IsOwned env p s ph t h in
    (
      start_statements-alone env start p c pid s,
      record {
        own = own;
        spares = spares;
        answers = handler_defined env t own;
        goes_on = Outline-GoesOn (HoldsAt p s) (IsReady p) ph q t h k;
      },
    )
