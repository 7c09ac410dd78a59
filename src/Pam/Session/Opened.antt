-- ===== src/Pam/Session/Opened.antt =====
-- The PAM session and forwarding.
use gexcloud.Base.{ap, false, if◌then◌else◌, inl, inr, refl, true, ◌∙◌, ◌≡◌, ◌≢◌, ◌⊎◌}
use gexcloud.Pam.Context.{modify_pam, set_err}
use gexcloud.Pam.Conversation.{pam_call, pam_set_item}
use gexcloud.Pam.Frame.{pam_call-Quiet}
use gexcloud.Pam.Session.{do_pam_session, session_refused, set_item_or_die}
use gexcloud.Server.Env.{Env}
use gexcloud.Server.Event.{Event, History, called_pam_open_session}
use gexcloud.Server.Frame.{IsFrame, Within, login_rules}
use gexcloud.Server.Hoare.{Hoare, Hoare-bind, Hoare-frame}
use gexcloud.Server.Monad.{M, modify, ok, ◌>>=◌, ◌>>◌}
use gexcloud.Server.Pam.{Dialog, PamCode, PamItem, conv_item, is_success, pam_success, store_conv}
use gexcloud.Server.State.{Forwarding, Pam, Server}

abbrev SameForwarding : Server → Server → Type 0
SameForwarding s t = t.forwarding ≡ s.forwarding

SameForwarding-IsFrame : IsFrame SameForwarding
SameForwarding-IsFrame = record {
  here = λ s. refl;
  compose = λ s t u h k. k ∙ h;
  longer = λ s h. refl;
}

modify_pam-SameForwarding : (f : Pam → Pam) → Within SameForwarding (modify_pam f)
unfolding modify
modify_pam-SameForwarding f = record { at = λ s. refl }

module _ (env : Env) where
  pam_call-SameForwarding :
      (e : Event) (g : History → Dialog) → Within SameForwarding (pam_call env e g)
  pam_call-SameForwarding e g = record { at = λ s. ((pam_call-Quiet env e g).at s).forwarding }

  set_item_or_die-SameForwarding : (i : PamItem) → Within SameForwarding (set_item_or_die env i)
  unfolding set_item_or_die pam_set_item
  set_item_or_die-SameForwarding i =
      search (login_rules, SameForwarding-IsFrame, modify_pam-SameForwarding) depth 12

  -- Either PAM has opened the session, and forwarding is as it was; or it is marked as not open,
  -- and disable_forwarding has been called on the flags.
  abbrev pub Opened : Forwarding → Server → Type 0
  Opened f t =
      ((t.pam.err ≡ pam_success) × (t.pam.session_open ≡ true) × (t.forwarding ≡ f))
      ⊎ ((t.pam.err ≢ pam_success)
          × (t.pam.session_open ≡ false)
          × (t.forwarding ≡ env.disable_forwarding f))

  abbrev end_session : PamCode → M (Unit {0})
  end_session code = do
    set_err code
    if is_success code
        then modify_pam (λ p. record p { session_open = true })
        else session_refused env

  end_session-Opened :
      (f : Forwarding) (code : PamCode)
      → Hoare (λ s. s.forwarding ≡ f) (end_session code) (λ _. Opened f)
  unfolding ◌>>=◌
  end_session-Opened f pam_success = record { after = λ s e a h. inl (refl, refl, e) }
  end_session-Opened f _ = record {
    after = λ s e a h. inr ((λ d. cc), refl, ap env.disable_forwarding e);
  }

  session-Opened :
      (f : Forwarding) → Hoare (λ s. s.forwarding ≡ f) (do_pam_session env) (λ _. Opened f)
  unfolding do_pam_session
  session-Opened f =
      Hoare-bind (λ _ s. s.forwarding ≡ f)
        (Hoare-frame (set_item_or_die-SameForwarding (conv_item store_conv)) (λ s t k e. k ∙ e))
        λ x.
          Hoare-bind (λ _ s. s.forwarding ≡ f)
            (Hoare-frame (pam_call-SameForwarding called_pam_open_session env.pam_open_session)
              (λ s t k e. k ∙ e))
            (end_session-Opened f)

  pub do_pam_session-Opened :
      (s : Server) → (do_pam_session env s).0 ≡ ok tt → Opened s.forwarding (do_pam_session env s).1
  do_pam_session-Opened s h = (session-Opened s.forwarding).after s refl tt h
