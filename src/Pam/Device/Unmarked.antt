-- ===== src/Pam/Device/Unmarked.antt =====
-- The mark of success through sshpam_init_ctx, sshpam_thread_cleanup and sshpam_free_ctx.
use gexcloud.Base.{
  Option, ap, arith, get_elem?, get_elem?-last, get_elem?-lt, inl, inr, refl, some, sym, ℕ, ◌==◌,
  ◌∙◌, ◌≡◌, ◌≢◌,
}
use gexcloud.Pam.Context.{load_ctxt, modify_pam, store_ctxt}
use gexcloud.Pam.Device.{allocate, sshpam_free_ctx, sshpam_init_ctx}
use gexcloud.Pam.Device.Marks.{
  NoNew, NoNew-IsFrame, SameContexts-NoNew, Unmarked, Unmarked-Within, free-NoNew, running_apart,
  store-NoNew, unmoved,
}
use gexcloud.Pam.Device.Opening.{Opening, init_ctx-whole}
use gexcloud.Pam.Process.{end_thread, pthread_cancel, pthread_join, sshpam_thread_cleanup, zeroed}
use gexcloud.Pam.Process.Owned.{SameContexts, SameContexts-IsFrame}
use gexcloud.Pam.Process.Writes.{load-SameContexts, load_from, modify-SameContexts, some_injective}
use gexcloud.Server.Env.{Env}
use gexcloud.Server.Frame.{
  Within, Within-bind, Within-gets, Within-if, Within-match_option, Within-pure, login_rules,
}
use gexcloud.Server.Hoare.{Hoare}
use gexcloud.Server.Laws.{ok_injective}
use gexcloud.Server.Monad.{modify}
use gexcloud.Server.State.{PamCtxt, Server, succeeded}

point-NoNew : (o : Option ℕ) → Within NoNew (modify_pam (λ q. record q { cleanup_ctxt = o }))
unfolding modify
point-NoNew o = record {
  at = λ t. record { before = λ q x. record { ctxt = x.ctxt; alive = x.alive; marked = x.marked } };
}

-- The object is written again with pam_done as it was read.
rewritten-Unmarked :
    (s : Server) (p : ℕ) (c d : PamCtxt)
    → d.pam_done ≡ c.pam_done
    → Hoare
        (λ t. Unmarked s p t × (c.pam_done ≢ succeeded))
        (store_ctxt p (some d))
        (λ _. Unmarked s p)
rewritten-Unmarked s p c d e = record {
  after = λ t (u, ne) x h. (Unmarked-Within (store-NoNew p d (λ m. ne (sym e ∙ m)))).after t u x h;
}

load-Unmarked :
    (s : Server) (p : ℕ)
    → Hoare (Unmarked s p) (load_ctxt p) (λ c t. Unmarked s p t × (c.pam_done ≢ succeeded))
unfolding load_ctxt
load-Unmarked s p = record {
  after = λ t u c h.
      let k = (load-SameContexts p).at t in
      (
        (Unmarked-Within (unmoved (load-SameContexts p))).after t u c h,
        λ m. u.not_yet (record {
          ctxt = c;
          alive = load_from p t (get_elem? t.pam.contexts p) c refl h;
          marked = m;
        }),
      );
}

-- A new object, at an index where there was none.
allocate-Unmarked : (s : Server) → Hoare (NoNew s) (allocate zeroed) (λ p. Unmarked s p)
allocate-Unmarked s = record {
  after = λ t k p h. record {
    no_new = NoNew-IsFrame.compose s t _ k (appended t);
    not_yet = λ x.
        let y = (appended t).before p x in
        let lt = get_elem?-lt t.pam.contexts p y.alive in
        let eq = ok_injective h in omega (arith, lt, eq);
  };
}
  where
    appended : (t : Server) → NoNew t (allocate zeroed t).1
    appended t = record {
      before = λ p x. elim (get_elem?-last t.pam.contexts (some zeroed) p x.alive) [
        | inl old ↦ record { ctxt = x.ctxt; alive = old; marked = x.marked }
        | inr new ↦
            absurd
              (running_apart (ap (λ (c : PamCtxt). c.pam_done) (some_injective new) ∙ x.marked))
      ];
    }

Unmarked-Opening :
    (env : Env) (s : Server)
    → Opening env
        (λ pid. Unit {0})
        (NoNew s)
        (Unmarked s)
        (λ p c t. Unmarked s p t × (c.pam_done ≢ succeeded))
        (Unmarked s)
Unmarked-Opening env s = record {
  forked = λ h pid e. tt;
  whole_kept = λ t u k n. NoNew-IsFrame.compose s t u n (SameContexts-NoNew t u k);
  apart_kept = same_marks;
  loaded_kept = λ p c t u k (x, ne). (same_marks p t u k x, ne);
  started_kept = same_marks;
  loaded_apart = λ p c t (x, ne). x;
  apart_whole = λ p t x. x.no_new;
  allocates = allocate-Unmarked s;
  connects = λ p psock csock. Unmarked-Within (store-NoNew p _ running_apart);
  frees = λ p. Unmarked-Within (free-NoNew p);
  loads = load-Unmarked s;
  starts = λ p c pid fit. rewritten-Unmarked s p c _ refl;
  points = λ p. record {
    after = λ t u x h. ((Unmarked-Within (point-NoNew (some p))).after t u x h).no_new;
  };
}
  where
    same_marks : (p : ℕ) (t u : Server) → SameContexts t u → Unmarked s p t → Unmarked s p u
    same_marks p t u k x = record {
      no_new = NoNew-IsFrame.compose s t u x.no_new (SameContexts-NoNew t u k);
      not_yet = λ y. x.not_yet ((SameContexts-NoNew t u k).before p y);
    }

pub init_ctx-NoNew : (env : Env) (s : Server) → Hoare (NoNew s) (sshpam_init_ctx env) (λ _. NoNew s)
init_ctx-NoNew env s = init_ctx-whole (Unmarked-Opening env s)

module _ (env : Env) where
  end_thread-NoNew : (p : ℕ) (c : PamCtxt) → Within NoNew (end_thread env p c)
  unfolding pthread_cancel pthread_join
  end_thread-NoNew p c =
      Within-bind NoNew-IsFrame
        (unmoved (search (login_rules, SameContexts-IsFrame, modify-SameContexts) depth 8))
        λ x.
          Within-bind NoNew-IsFrame
            (unmoved (search (login_rules, SameContexts-IsFrame, modify-SameContexts) depth 8))
            λ y.
              search (login_rules, NoNew-IsFrame, store-NoNew, running_apart, point-NoNew) depth 8

  pub cleanup-NoNew : Within NoNew (sshpam_thread_cleanup env)
  unfolding sshpam_thread_cleanup
  cleanup-NoNew =
      let f = NoNew-IsFrame in
      Within-bind f (Within-gets f _) λ o. Within-match_option f o (Within-pure f tt) λ p.
        Within-bind f (unmoved (load-SameContexts p))
          λ c. Within-if f (c.pam_thread == 0) (Within-pure f tt) (end_thread-NoNew p c)

  pub free_ctx-NoNew : (p : ℕ) → Within NoNew (sshpam_free_ctx env p)
  unfolding sshpam_free_ctx
  free_ctx-NoNew p = Within-bind NoNew-IsFrame cleanup-NoNew λ x. free-NoNew p
