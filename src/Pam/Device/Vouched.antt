-- ===== src/Pam/Device/Vouched.antt =====
-- Where the success that sshpam_respond reports comes from, over any sequence of calls.
use gexcloud.Base.{
  Bool, Bool-cases, List, Option, arith, false, get_elem?, get_elem?-set_other, inl, inr, none,
  refl, some, sym, true, ℕ, ◌==◌, ◌∙◌, ◌≡◌, ◌≢◌, ◌⊎◌,
}
use gexcloud.Pam.Context.{load_ctxt, store_ctxt}
use gexcloud.Pam.Device.{Query, respond_done, set_done, sshpam_query, sshpam_respond}
use gexcloud.Pam.Device.Admitted.{sshpam_respond-authenticated}
use gexcloud.Pam.Device.Frame.{handler-SameContexts, respond-SameContexts}
use gexcloud.Pam.Device.Interface.{
  Uses, cleaned, freed, inited, queried, responded, signalled, sshpam_device, then_used, untouched,
  unused,
}
use gexcloud.Pam.Device.Judged.{query_loop-Judged, says_success}
use gexcloud.Pam.Device.Marks.{
  HasSucceeded, NoNew, NoNew-IsFrame, SameContexts-NoNew, store-NoNew, unmoved,
}
use gexcloud.Pam.Device.Unmarked.{cleanup-NoNew, free_ctx-NoNew, init_ctx-NoNew}
use gexcloud.Pam.Process.Writes.{load-SameContexts, other_index, same_index}
use gexcloud.Server.Env.{Env}
use gexcloud.Server.Frame.{Within-bind}
use gexcloud.Server.Hoare.{Hoare, Hoare-bind, Hoare-frame}
use gexcloud.Server.Monad.{modify, ok, ◌>>=◌}
use gexcloud.Server.Pam.{PamCode}
use gexcloud.Server.State.{PamCtxt, Server, failed, succeeded}
use gexcloud.Text.{Bytes}

-- Since `s`, at most the object `p` has got the mark.
record OnlyAt (p : ℕ) (s t : Server) : Type 0 where
  elsewhere_old : (q : ℕ) → HasSucceeded q t → HasSucceeded q s ⊎ (q ≡ p)

onward : (s t u : Server) → NoNew t u → NoNew s t → NoNew s u
onward s t u k h = NoNew-IsFrame.compose s t u h k

Told : ℕ → Server → Bool → Server → Type 0
Told p s true t = OnlyAt p s t
Told p s false t = NoNew s t

succeeded-OnlyAt : (p : ℕ) (s : Server) → Hoare (NoNew s) (set_done p succeeded) (λ _. OnlyAt p s)
unfolding set_done store_ctxt modify
succeeded-OnlyAt p s =
    Hoare-bind (λ c. NoNew s) (Hoare-frame (unmoved (load-SameContexts p)) (onward s))
      λ c. record {
        after = λ t k x h. record {
          elsewhere_old = λ q y. elim (Bool-cases (p == q)) [
            | inl same ↦ inr (sym (same_index p q same))
            | inr other ↦ inl (
                k.before q (record {
                  ctxt = y.ctxt;
                  alive =
                      sym (get_elem?-set_other t.pam.contexts p q _ (other_index p q other))
                      ∙ y.alive;
                  marked = y.marked;
                }))
          ];
        };
      }

failed-NoNew : (p : ℕ) (s : Server) → Hoare (NoNew s) (set_done p failed) (λ _. NoNew s)
unfolding set_done
failed-NoNew p s =
    Hoare-frame
      (Within-bind NoNew-IsFrame (unmoved (load-SameContexts p)) λ c. store-NoNew p _ failed_apart)
      (onward s)
  where
    failed_apart : failed ≢ succeeded
    failed_apart e = cc

module _ (env : Env) where
  query-Told :
      (p : ℕ) (inbox : List (PamCode × Bytes)) (s : Server) {q : Query}
      → (sshpam_query env p inbox s).0 ≡ ok q
      → Told p s (says_success inbox) (sshpam_query env p inbox s).1
  unfolding sshpam_query Told
  query-Told p inbox s h =
      (Hoare-bind {R = λ _. Told p s (says_success inbox)} (λ _. NoNew s)
          (Hoare-frame (unmoved (load-SameContexts p)) (onward s))
          λ ctxt.
            query_loop-Judged env p (NoNew s) (Told p s)
              (λ u v k n. NoNew-IsFrame.compose s u v n (SameContexts-NoNew u v k)) (λ u k. k)
              (failed-NoNew p s) (succeeded-OnlyAt p s) inbox none).after
        s (NoNew-IsFrame.here s) _ h

  -- Among the calls there was a query of `p` on which the PAM process said that it has succeeded.
  unfoldable pub Vouched : {s t : Server} → ℕ → Uses env (sshpam_device env) s t → Type 0
  Vouched p unused = ⊥
  Vouched p (then_used us (queried q inbox h)) =
      ((p ≡ q) × (says_success inbox ≡ true)) ⊎ Vouched p us
  Vouched p (then_used us _) = Vouched p us

  marked_before :
      (p q : ℕ) (b : Bool) (s t : Server)
      → Told q s b t
      → HasSucceeded p t
      → HasSucceeded p s ⊎ ((p ≡ q) × (b ≡ true))
  unfolding Told
  marked_before p q true s t o x = elim (o.elsewhere_old p x) [
    | inl old ↦ inl old
    | inr e ↦ inr (e, refl)
  ]
  marked_before p q false s t n x = inl (n.before p x)

  -- Every mark comes from such a query, or was there before the first call.
  marked-Vouched :
      (p : ℕ) (s t : Server) (us : Uses env (sshpam_device env) s t)
      → HasSucceeded p t
      → HasSucceeded p s ⊎ Vouched p us
  unfolding Vouched
  marked-Vouched p s _ unused x = inl x
  marked-Vouched p s _ (then_used {t} us (queried q inbox h)) x =
      elim (marked_before p q (says_success inbox) t _ (query-Told q inbox t h) x) [
        | inl old ↦ elim (marked-Vouched p s t us old) [ inl y ↦ inl y | inr v ↦ inr (inr v) ]
        | inr e ↦ inr (inl e)
      ]
  marked-Vouched p s _ (then_used {t} us (inited h)) x =
      marked-Vouched p s t us
        (((init_ctx-NoNew env t).after t (NoNew-IsFrame.here t) _ h).before p x)
  marked-Vouched p s _ (then_used {t} us (responded q num resp h)) x =
      marked-Vouched p s t us (((unmoved (respond-SameContexts env q num resp)).at t).before p x)
  marked-Vouched p s _ (then_used {t} us (freed q h)) x =
      marked-Vouched p s t us (((free_ctx-NoNew env q).at t).before p x)
  marked-Vouched p s _ (then_used {t} us (cleaned h)) x =
      marked-Vouched p s t us (((cleanup-NoNew env).at t).before p x)
  marked-Vouched p s _ (then_used {t} us (signalled h)) x =
      marked-Vouched p s t us (((unmoved (handler-SameContexts env)).at t).before p x)
  marked-Vouched p s _ (then_used {t} us (untouched u k)) x =
      marked-Vouched p s t us ((SameContexts-NoNew t u k).before p x)

  done_live :
      (p num : ℕ) (resp : Bytes) (t : Server) (c : PamCtxt)
      → get_elem? t.pam.contexts p ≡ some (some c)
      → (sshpam_respond env p num resp t).0 ≡ ok respond_done
      → c.pam_done ≡ succeeded
  unfolding sshpam_respond load_ctxt ◌>>=◌
  done_live p num resp t c e h = ground arith

  done_marked :
      (p num : ℕ) (resp : Bytes) (t : Server) (o : Option (Option PamCtxt))
      → get_elem? t.pam.contexts p ≡ o
      → (sshpam_respond env p num resp t).0 ≡ ok respond_done
      → HasSucceeded p t
  unfolding sshpam_respond load_ctxt ◌>>=◌
  done_marked p num resp t none e h = ground arith
  done_marked p num resp t (some none) e h = ground arith
  done_marked p num resp t (some (some c)) e h = record {
    ctxt = c;
    alive = e;
    marked = done_live p num resp t c e h;
  }

  -- From a server where no pam_ctxt is marked as succeeded, after any sequence of calls of the
  -- device, of the cleanup and of the handler of SIGCHLD that returned, of whatever attempts and
  -- in whatever order, with code between them that leaves the pam_ctxt objects and cleanup_ctxt
  -- alone: if sshpam_respond then returns 0, for done, or turns sshpam_authenticated from 0 to 1,
  -- then among those calls there was a query of the same pam_ctxt on which the first message of
  -- the PAM process, other than notes and error texts, was PAM_SUCCESS.
  pub sshpam_respond-Vouched :
      (s t : Server)
      → ((q : ℕ) → HasSucceeded q s → ⊥)
      → (us : Uses env (sshpam_device env) s t) → (p num : ℕ) (resp : Bytes)
      → ((sshpam_respond env p num resp t).0 ≡ ok respond_done → Vouched p us)
        × (t.pam.authenticated ≡ false
            → (sshpam_respond env p num resp t).1.pam.authenticated ≡ true
            → Vouched p us)
  sshpam_respond-Vouched s t new us p num resp = (
    (λ h. vouched (done_marked p num resp t (get_elem? t.pam.contexts p) refl h)),
    λ off on. vouched (sshpam_respond-authenticated env p num resp t off on).0,
  )
    where
      vouched : HasSucceeded p t → Vouched p us
      vouched x = elim (marked-Vouched p s t us x) [ inl old ↦ absurd (new p old) | inr v ↦ v ]
