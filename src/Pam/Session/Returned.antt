-- ===== src/Pam/Session/Returned.antt =====
-- When the calls of the session code return.
use gexcloud.Base.{
  Bool, ap, arith, false, if◌then◌else◌, inl, inr, not, refl, subst, sym, true, ◌∙◌, ◌≡◌, ◌≢◌, ◌⊎◌,
}
use gexcloud.Pam.Context.{modify_pam, set_err}
use gexcloud.Pam.Conversation.{pam_call, pam_set_item}
use gexcloud.Pam.Frame.{pam_call-Quiet}
use gexcloud.Pam.Session.{do_pam_chauthtok, do_pam_setcred, set_item_or_die}
use gexcloud.Server.Env.{Env}
use gexcloud.Server.Event.{Event, History, called_pam_setcred}
use gexcloud.Server.Frame.{IsFrame, Within}
use gexcloud.Server.Hoare.{Hoare, Hoare-bind, Hoare-frame}
use gexcloud.Server.Laws.{halt_if-ok}
use gexcloud.Server.Monad.{
  M, fatal, gets, halt_if, ok, pam_call_failed, privsep_chauthtok, ◌>>=◌, ◌>>◌,
}
use gexcloud.Server.Pam.{Dialog, PamCode, PamItem, conv_item, is_success, pam_success, store_conv}
use gexcloud.Server.State.{Server}

module _ (env : Env) where
  abbrev end_setcred : PamCode → M (Unit {0})
  end_setcred code = do
    set_err code
    if is_success code then modify_pam (λ p. record p { cred_established = true }) else do
      authenticated ← gets (λ s. s.pam.authenticated)
      halt_if authenticated (fatal pam_call_failed)

  -- PAM has established the credentials, or it has not and the user was not authenticated by PAM.
  abbrev pub Credited : Server → Server → Type 0
  Credited s t =
      ((t.pam.err ≡ pam_success) × (t.pam.cred_established ≡ true))
      ⊎ ((t.pam.err ≢ pam_success)
          × (s.pam.authenticated ≡ false)
          × (t.pam.cred_established ≡ s.pam.cred_established))

  -- The two flags.
  record SameFlags (s t : Server) : Type 0 where
    authenticated : t.pam.authenticated ≡ s.pam.authenticated
    cred_established : t.pam.cred_established ≡ s.pam.cred_established

  SameFlags-IsFrame : IsFrame SameFlags
  SameFlags-IsFrame = record {
    here = λ s. ground arith;
    compose = λ s t u h k. ground arith;
    longer = λ s h. ground arith;
  }

  set_item-SameFlags : (i : PamItem) → Within SameFlags (set_item_or_die env i)
  unfolding set_item_or_die pam_set_item ◌>>=◌
  set_item-SameFlags i = record { at = λ s. ground arith }

  pam_call-SameFlags : (e : Event) (g : History → Dialog) → Within SameFlags (pam_call env e g)
  pam_call-SameFlags e g = record {
    at = λ s.
        let q = (pam_call-Quiet env e g).at s in
        record {
          authenticated = ap (λ p. p.authenticated) q.pam;
          cred_established = ap (λ p. p.cred_established) q.pam;
        };
  }

  end_setcred-Credited :
      (s : Server) (code : PamCode) → Hoare (SameFlags s) (end_setcred code) (λ _. Credited s)
  unfolding ◌>>=◌
  end_setcred-Credited s pam_success = record { after = λ t k a h. inl (refl, refl) }
  end_setcred-Credited s _ = record {
    after = λ t k a h.
        let (off, stays) = halt_if-ok t.pam.authenticated (fatal pam_call_failed) _ h in
        subst (Credited s) (sym stays)
          (inr ((λ d. cc), sym k.authenticated ∙ off, k.cred_established));
  }

  setcred-Credited :
      (s : Server) (init : Bool) → Hoare (SameFlags s) (do_pam_setcred env init) (λ _. Credited s)
  unfolding do_pam_setcred
  setcred-Credited s init =
      Hoare-bind (λ _. SameFlags s)
        (Hoare-frame (set_item-SameFlags (conv_item store_conv))
          (λ t u k c. SameFlags-IsFrame.compose s t u c k))
        λ x.
          Hoare-bind (λ _. SameFlags s)
            (Hoare-frame (pam_call-SameFlags (called_pam_setcred init) (env.pam_setcred init))
              (λ t u k c. SameFlags-IsFrame.compose s t u c k))
            (end_setcred-Credited s)

  abbrev Unshared : Type 0
  Unshared = env.use_privsep ≡ false

  still : {A : Type 0} {m : M A} → Hoare (λ _. Unshared) m (λ _ _. Unshared)
  still = record { after = λ s c a h. c }

  end_chauthtok :
      (code : PamCode)
      → Hoare
          (λ _. Unshared)
          (do set_err code; halt_if (not (is_success code)) (fatal pam_call_failed))
          (λ _ t. Unshared × (t.pam.err ≡ pam_success))
  unfolding ◌>>=◌
  end_chauthtok pam_success = record { after = λ s c a h. (c, refl) }
  end_chauthtok _ = record { after = λ s c a h. cc }

  not_shared :
      Hoare (λ _. Unit {0}) (halt_if env.use_privsep (fatal privsep_chauthtok)) (λ _ _. Unshared)
  not_shared = record {
    after = λ s c a h. (halt_if-ok env.use_privsep (fatal privsep_chauthtok) s h).0;
  }

  chauthtok-ok :
      (s : Server)
      → (do_pam_chauthtok env s).0 ≡ ok tt
      → (env.use_privsep ≡ false) × ((do_pam_chauthtok env s).1.pam.err ≡ pam_success)
  unfolding do_pam_chauthtok
  chauthtok-ok s h =
      (Hoare-bind (λ _ _. Unshared) not_shared
          λ x.
            Hoare-bind (λ _ _. Unshared) still
              λ y. Hoare-bind (λ _ _. Unshared) still end_chauthtok).after
        s tt tt h

  pub session_calls-ok :
      (s : Server)
      → ((init : Bool)
          → (do_pam_setcred env init s).0 ≡ ok tt
          → Credited s (do_pam_setcred env init s).1)
        × ((do_pam_chauthtok env s).0 ≡ ok tt
            → (env.use_privsep ≡ false) × ((do_pam_chauthtok env s).1.pam.err ≡ pam_success))
  session_calls-ok s = (
    (λ init h. (setcred-Credited s init).after s (SameFlags-IsFrame.here s) tt h),
    chauthtok-ok s,
  )
