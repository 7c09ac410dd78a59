-- ===== src/Pam/Device/Started.antt =====
-- sshpam_init_ctx and cleanup_ctxt.
use gexcloud.Base.{
  ap, arith, get_elem?, get_elem?-append, get_elem?-lt, get_elem?-set, none, refl, some, subst, ℕ,
  ◌∙◌, ◌≡◌, ◌≢◌,
}
use gexcloud.Pam.Context.{load_ctxt, store_ctxt}
use gexcloud.Pam.Device.{allocate, sshpam_init_ctx}
use gexcloud.Pam.Device.Opening.{ForkPid, Opening, init_ctx-whole}
use gexcloud.Pam.Process.{zeroed}
use gexcloud.Pam.Process.Owned.{HoldsThread, IsOwned, IsOwned-kept, SameContexts}
use gexcloud.Pam.Process.Writes.{
  Apart, Apart-kept, Stays, load-Reads, load-SameContexts, some_injective, write-Apart,
}
use gexcloud.Server.Env.{Env}
use gexcloud.Server.Hoare.{Hoare, Hoare-modify}
use gexcloud.Server.Laws.{ok_injective}
use gexcloud.Server.Monad.{modify}
use gexcloud.Server.State.{PamCtxt, Server}

allocate-Apart : (c : PamCtxt) → Hoare IsOwned (allocate c) (λ p. Apart p)
allocate-Apart c = record {
  after = λ s own p h. record {
    own = record {
      held = λ q k.
          let x = own.held q k in
          record {
            ctxt = x.ctxt;
            alive = get_elem?-append s.pam.contexts _ q x.alive;
            runs = x.runs;
          };
    };
    apart = λ e.
        let x = own.held p e in
        let lt = get_elem?-lt s.pam.contexts p x.alive in
        let eq = ok_injective h in omega (arith, lt, eq);
  };
}

-- cleanup_ctxt is pointed to an object whose thread has been started.
taken_over :
    (p : ℕ) (s : Server)
    → HoldsThread p s
    → IsOwned (record s { pam = record s.pam { cleanup_ctxt = some p } })
taken_over p s t = record {
  held = λ q k.
      subst (λ i. HoldsThread i (record s { pam = record s.pam { cleanup_ctxt = some p } }))
        (some_injective k) (record { ctxt = t.ctxt; alive = t.alive; runs = t.runs });
}

-- An object that was read, of an attempt that is set up.
abbrev At : ℕ → PamCtxt → Server → Type 0
At p c s = Apart p s × (get_elem? s.pam.contexts p ≡ some (some c))

-- The same, after its thread was started.
abbrev HasStarted : ℕ → Server → Type 0
HasStarted p s = Apart p s × HoldsThread p s

At-kept : (p : ℕ) (c : PamCtxt) (s t : Server) → SameContexts s t → At p c s → At p c t
At-kept p c s t k (a, r) = (Apart-kept p s t k a, ap (λ cs. get_elem? cs p) k.contexts ∙ r)

HasStarted-kept : (p : ℕ) (s t : Server) → SameContexts s t → HasStarted p s → HasStarted p t
HasStarted-kept p s t k (a, x) = (
  Apart-kept p s t k a,
  record { ctxt = x.ctxt; alive = ap (λ cs. get_elem? cs p) k.contexts ∙ x.alive; runs = x.runs },
)

load-At : (p : ℕ) → Hoare (Apart p) (load_ctxt p) (At p)
load-At p = record {
  after = λ s a c h.
      let k = (load-SameContexts p).at s in
      (Apart-kept p s _ k a, ((load-Reads p).after s a.own c h).1);
}

store-HasStarted :
    (p : ℕ) (c d : PamCtxt)
    → d.pam_thread ≢ 0
    → Hoare (At p c) (store_ctxt p (some d)) (λ _. HasStarted p)
unfolding store_ctxt modify
store-HasStarted p c d ne = record {
  after = λ s (a, r) x h. (
    (write-Apart p (some d)).after s a x refl,
    record { ctxt = d; alive = get_elem?-set s.pam.contexts p (some d) r; runs = ne },
  );
}

module _ (env : Env) (pids : ForkPid env) where
  owned-Opening : Opening env (λ pid. pid ≢ 0) IsOwned Apart At HasStarted
  owned-Opening = record {
    forked = pids.positive;
    whole_kept = IsOwned-kept;
    apart_kept = Apart-kept;
    loaded_kept = At-kept;
    started_kept = HasStarted-kept;
    loaded_apart = λ p c s (a, r). a;
    apart_whole = λ p s a. a.own;
    allocates = allocate-Apart zeroed;
    connects = λ p psock csock. write-Apart p _;
    frees = λ p. write-Apart p none;
    loads = load-At;
    starts = λ p c pid ne. store-HasStarted p c _ ne;
    points = λ p. Hoare-modify _ (λ s (a, x). taken_over p s x);
  }

  pub init_ctx-Stays : Stays (sshpam_init_ctx env)
  init_ctx-Stays = init_ctx-whole owned-Opening
