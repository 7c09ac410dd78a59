-- ===== src/Pam/Device/Opening.antt =====
-- sshpam_init_ctx step by step, for any condition that it keeps.
use gexcloud.Base.{
  Bool, Option, false, if◌then◌else◌, none, not, refl, some, true, ℕ, ◌==◌, ◌||◌, ◌∙◌, ◌≡◌, ◌≢◌,
}
use gexcloud.Pam.Context.{load_ctxt, modify_pam, store_ctxt}
use gexcloud.Pam.Device.{allocate, fresh_ctxt, set_up, sshpam_init_ctx, start_thread}
use gexcloud.Pam.Device.Frame.{init-SameContexts}
use gexcloud.Pam.Process.{pthread_create, switch_fork, zeroed}
use gexcloud.Pam.Process.Owned.{SameContexts, SameContexts-IsFrame}
use gexcloud.Pam.Process.Writes.{modify-SameContexts}
use gexcloud.Pam.Thread.{sshpam_thread}
use gexcloud.Server.Env.{Env, Fork, fork_failed, in_child, in_parent}
use gexcloud.Server.Event.{History, called_fork, called_socketpair, closed}
use gexcloud.Server.Frame.{Within, Within-ask, Within-emit, Within-gets}
use gexcloud.Server.Hoare.{Hoare, Hoare-bind, Hoare-frame, Hoare-if, Hoare-pure}
use gexcloud.Server.Laws.{ok_injective}
use gexcloud.Server.Monad.{M, ask, emit, halt, match_option, pure, ◌>>◌}
use gexcloud.Server.State.{PamCtxt, Server}

-- fork gives no parent the pid 0.
pub record ForkPid (env : Env) : Type 0 where
  pub positive : (h : History) (pid : ℕ) → env.fork h ≡ in_parent pid → pid ≢ 0

-- A branch that does not return.
anything : {A : Type 0} {P : Server → Type 0} {m : M A} → Hoare P m (λ _ _. Unit {0})
anything = record { after = λ s p a h. tt }

-- What has to be shown of the calls that write an object: `whole` holds before and after,
-- `apart` while the object at `p` is new, `loaded` when it was read, and `started` when its
-- thread was.
pub record Opening (env : Env) (fits : ℕ → Type 0) (whole : Server → Type 0)
    (apart : ℕ → Server → Type 0) (loaded : ℕ → PamCtxt → Server → Type 0)
    (started : ℕ → Server → Type 0) : Type 0 where
  pub forked : (h : History) (pid : ℕ) → env.fork h ≡ in_parent pid → fits pid
  pub whole_kept : (s t : Server) → SameContexts s t → whole s → whole t
  pub apart_kept : (p : ℕ) (s t : Server) → SameContexts s t → apart p s → apart p t
  pub loaded_kept :
      (p : ℕ) (c : PamCtxt) (s t : Server) → SameContexts s t → loaded p c s → loaded p c t
  pub started_kept : (p : ℕ) (s t : Server) → SameContexts s t → started p s → started p t
  pub loaded_apart : (p : ℕ) (c : PamCtxt) (s : Server) → loaded p c s → apart p s
  pub apart_whole : (p : ℕ) (s : Server) → apart p s → whole s
  pub allocates : Hoare whole (allocate zeroed) (λ p. apart p)
  pub connects :
      (p psock csock : ℕ)
      → Hoare (apart p) (store_ctxt p (some (fresh_ctxt psock csock))) (λ _. apart p)
  pub frees : (p : ℕ) → Hoare (apart p) (store_ctxt p none) (λ _. apart p)
  pub loads : (p : ℕ) → Hoare (apart p) (load_ctxt p) (loaded p)
  pub starts :
      (p : ℕ) (c : PamCtxt) (pid : ℕ)
      → fits pid
      → Hoare
          (loaded p c)
          (store_ctxt p (some (record c { pam_thread = pid; pam_csock = none })))
          (λ _. started p)
  pub points :
      (p : ℕ)
      → Hoare (started p) (modify_pam (λ q. record q { cleanup_ctxt = some p })) (λ _. whole)

module _ {env : Env} {fits : ℕ → Type 0} {whole : Server → Type 0} {apart : ℕ → Server → Type 0}
    {loaded : ℕ → PamCtxt → Server → Type 0} {started : ℕ → Server → Type 0}
    (o : Opening env fits whole apart loaded started) where
  -- What pthread_create leaves behind when it returns.
  abbrev Created : ℕ → Bool → Server → Type 0
  Created p true s = started p s
  Created p false s = apart p s

  quietly :
      {A : Type 0} {p : ℕ} {m : M A} → Within SameContexts m → Hoare (apart p) m (λ _. apart p)
  quietly {p} w = Hoare-frame w (o.apart_kept p)

  by_fork :
      (start : ℕ → M (Unit {0})) (p : ℕ) (c : PamCtxt) (fork : Fork)
      → ((pid : ℕ) → fork ≡ in_parent pid → fits pid)
      → Hoare (loaded p c) (switch_fork env start p c fork) (Created p)
  unfolding pure halt
  by_fork start p c fork_failed fit = Hoare-pure false (o.loaded_apart p c)
  by_fork start p c in_child fit =
      Hoare-bind (λ _ _. Unit {0}) anything
        λ x.
          Hoare-bind (λ _ _. Unit {0}) anything
            λ y. Hoare-bind (λ _ _. Unit {0}) anything λ z. record { after = λ s a b h. cc }
  by_fork start p c (in_parent pid) fit =
      Hoare-bind (λ _. loaded p c)
        (Hoare-frame (Within-emit SameContexts-IsFrame _) (o.loaded_kept p c))
        λ x.
          Hoare-bind (λ _. started p) (o.starts p c pid (fit pid refl))
            λ y.
              Hoare-bind (λ _. started p)
                (Hoare-frame (modify-SameContexts _ (λ q. (refl, refl))) (o.started_kept p))
                λ z. Hoare-pure true (λ s r. r)

  ask_fork :
      (p : ℕ)
      → Hoare
          (apart p)
          (ask called_fork env.fork)
          (λ fork s. apart p s × ((h : History) × (env.fork h ≡ fork)))
  unfolding ask
  ask_fork p = record {
    after =
        λ s a f h. (o.apart_kept p s _ (SameContexts-IsFrame.longer s _) a, (_, ok_injective h));
  }

  pthread_create-Created :
      (start : ℕ → M (Unit {0})) (p : ℕ) → Hoare (apart p) (pthread_create env start p) (Created p)
  unfolding pthread_create
  pthread_create-Created start p =
      Hoare-bind (λ _. apart p) (quietly (modify-SameContexts _ (λ q. (refl, refl))))
        λ x.
          Hoare-bind (λ fork s. apart p s × ((h : History) × (env.fork h ≡ fork))) (ask_fork p)
            λ fork. record {
              after = λ s (a, (h, e)) b r.
                  (Hoare-bind (loaded p) (o.loads p)
                      λ c. by_fork start p c fork (λ pid e'. o.forked h pid (e ∙ e'))).after
                    s a b r;
            }

  start_thread-whole :
      (p : ℕ) (socks : ℕ × ℕ) → Hoare (apart p) (start_thread env p socks) (λ _. whole)
  unfolding start_thread
  start_thread-whole p (psock, csock) =
      Hoare-bind (Created p) (pthread_create-Created (sshpam_thread env) p) by_start
    where
      by_start :
          (b : Bool)
          → Hoare
              (Created p b)
              (if b
                then (modify_pam (λ q. record q { cleanup_ctxt = some p }) >> pure (some p))
                else (emit (closed (some psock))
                    >> (emit (closed (some csock)) >> (store_ctxt p none >> pure none))))
              (λ _. whole)
      by_start true = Hoare-bind (λ _. whole) (o.points p) λ x. Hoare-pure (some p) (λ s w. w)
      by_start false =
          Hoare-bind (λ _. apart p) (quietly (Within-emit SameContexts-IsFrame _))
            λ x.
              Hoare-bind (λ _. apart p) (quietly (Within-emit SameContexts-IsFrame _))
                λ y. Hoare-bind (λ _. apart p) (o.frees p) λ z. Hoare-pure none (o.apart_whole p)

  -- What sshpam_init_ctx does, once the handle is open.
  with_socks-whole :
      (p : ℕ) (socks : Option (ℕ × ℕ))
      → Hoare
          (apart p)
          (match_option socks
            (do store_ctxt p none; pure none)
            λ (psock, csock). do
              store_ctxt p (some (fresh_ctxt psock csock))
              start_thread env p (psock, csock))
          (λ _. whole)
  unfolding match_option
  with_socks-whole p none =
      Hoare-bind (λ _. apart p) (o.frees p) λ x. Hoare-pure none (o.apart_whole p)
  with_socks-whole p (some (psock, csock)) =
      Hoare-bind (λ _. apart p) (o.connects p psock csock) λ x. start_thread-whole p (psock, csock)

  set_up-whole : Hoare whole (set_up env) (λ _. whole)
  set_up-whole = Hoare-bind apart o.allocates λ p.
      Hoare-bind (λ _. apart p)
        (quietly (Within-ask SameContexts-IsFrame called_socketpair env.socketpair))
        (with_socks-whole p)

  pub init_ctx-whole : Hoare whole (sshpam_init_ctx env) (λ _. whole)
  unfolding sshpam_init_ctx
  init_ctx-whole =
      Hoare-bind (λ _. whole)
        (Hoare-frame (Within-gets SameContexts-IsFrame (λ s. s.pam.account_status)) o.whole_kept)
        λ status.
          Hoare-if (not env.options.use_pam || status == 0) (λ e. Hoare-pure none (λ s w. w))
            λ e.
              Hoare-bind (λ _. whole) (Hoare-frame (init-SameContexts env) o.whole_kept)
                λ ready. Hoare-if (not ready) (λ e'. Hoare-pure none (λ s w. w)) λ e'. set_up-whole
