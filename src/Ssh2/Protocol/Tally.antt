-- ===== src/Ssh2/Protocol/Tally.antt =====
-- The count of failures through a request, part by part.
use gexcloud.Auth.UserName.{UserSpec, split_user}
use gexcloud.Base.{
  Bool, Option, ap, arith, false, if◌then◌else◌, ltb, not, refl, subst, sym, true, ℕ, ◌+◌, ◌==◌,
  ◌||◌, ◌∙◌, ◌≡◌, ◌≢◌,
}
use gexcloud.Pam.Context.{modify_auth}
use gexcloud.Server.Env.{Env}
use gexcloud.Server.Event.{invalid_user}
use gexcloud.Server.Frame.{IsFrame, SameLogin, Within, Within-ask, Within-bind, Within-if}
use gexcloud.Server.Hoare.{Hoare, Hoare-bind, Hoare-frame, Hoare-gets, Hoare-modify}
use gexcloud.Server.Monad.{M, modify, ok, ◌>>=◌}
use gexcloud.Server.State.{Passwd, Server}
use gexcloud.Ssh2.Finish.{conclude, refuse, succeed, userauth_finish}
use gexcloud.Ssh2.Protocol.Handled.{get_cstring-SameLogin}
use gexcloud.Ssh2.Protocol.Stages.{
  SameRequest, audit_unless, inform-SameRequest, later_request-SameLogin, pam_if_on,
  reset-SameRequest, same, show_banner-SameLogin, try_method-SameRequest,
}
use gexcloud.Ssh2.Request.{
  first_request, input_userauth_request, later_request, set_service, set_user,
}
use gexcloud.Ssh2.Success.{check_account-SameLogin, check_root-SameLogin, check_valid-SameLogin}
use gexcloud.Text.{Bytes, codes, str_eq}

-- A request, or the answer of a method that had postponed, has been refused, and not through the
-- server's own fault: a USERAUTH_FAILURE went out, and no success.
pub record IsRefused (s : Server) : Type 0 where
  pub out : s.auth.success ≡ false
  pub concluded : s.auth.postponed ≡ false
  pub blamed : s.auth.server_caused_failure ≡ false

-- The two counters of a connection.
abbrev pub Tally : ℕ → ℕ → Server → Type 0
Tally attempt failures s = (s.auth.attempt ≡ attempt) × (s.auth.failures ≡ failures)

record SameTally (s t : Server) : Type 0 where
  attempt : t.auth.attempt ≡ s.auth.attempt
  failures : t.auth.failures ≡ s.auth.failures

SameTally-IsFrame : IsFrame SameTally
SameTally-IsFrame = record {
  here = λ s. ground arith;
  compose = λ s t u h k. ground arith;
  longer = λ s h. ground arith;
}

tallied : {A : Type 0} {m : M A} → Within SameRequest m → Within SameTally m
tallied w = record {
  at = λ s. let k = w.at s in record { attempt = k.attempt; failures = k.failures };
}

module _ (env : Env) where
  keeps_Tally :
      {A : Type 0} {m : M A} {a f : ℕ} → Within SameTally m → Hoare (Tally a f) m (λ _. Tally a f)
  keeps_Tally w = Hoare-frame w (λ s t k (a, f). (k.attempt ∙ a, k.failures ∙ f))

  user-SameTally :
      (u : UserSpec) (service : Bytes) (o : Option Passwd)
      → Within SameTally (modify_auth (set_user env u service o))
  unfolding set_user modify
  user-SameTally u service o = record { at = λ s. record { attempt = refl; failures = refl } }

  service-SameTally :
      (u : UserSpec) (service : Bytes) → Within SameTally (modify_auth (set_service env u service))
  unfolding modify
  service-SameTally u service = record { at = λ s. record { attempt = refl; failures = refl } }

  logged : {A : Type 0} {m : M A} → Within SameLogin m → Within SameTally m
  logged w = tallied (same w)

  first-SameTally :
      (u : UserSpec) (service : Bytes) → Within SameTally (first_request env u service)
  unfolding first_request
  first-SameTally u service =
      let f = SameTally-IsFrame in
      Within-bind f (Within-ask f _ _) λ found. Within-bind f (user-SameTally u service found) λ x.
        Within-bind f (logged (audit_unless env _ invalid_user)) λ y.
          Within-bind f (logged (pam_if_on env)) λ z.
            Within-bind f (service-SameTally u service) λ v.
              Within-bind f (tallied (inform-SameRequest env u service))
                λ w. logged (show_banner-SameLogin env)

  -- A refusal counts, unless the first request of the connection was for "none".
  conclude-counted :
      (method : Bytes) (n : ℕ) (s : Server)
      → (ltb 1 s.auth.attempt || not (str_eq method (codes "none"))) ≡ true
      → (conclude env method n s).0 ≡ ok tt
      → IsRefused (conclude env method n s).1
      → (conclude env method n s).1.auth.failures ≡ s.auth.failures + 1
  unfolding conclude succeed refuse ◌>>=◌
  conclude-counted method n s c h r = ground arith

  conclude-attempt :
      (method : Bytes) (n : ℕ) (s : Server)
      → (conclude env method n s).1.auth.attempt ≡ s.auth.attempt
  unfolding conclude succeed refuse ◌>>=◌
  conclude-attempt method n s = ground arith

  -- After a request or an answer: `a` requests, and one failure more if it was refused and
  -- `counted` says so.
  pub record Concluded (counted : Type 0) (a f : ℕ) (s : Server) : Type 0 where
    pub attempt : s.auth.attempt ≡ a
    pub counts : counted → IsRefused s → s.auth.failures ≡ f + 1

  pub finish-Concluded :
      (n : ℕ) (method : Bytes) (a f : ℕ)
      → Hoare
          (Tally a f)
          (userauth_finish env n method)
          (λ _. Concluded ((ltb 1 a || not (str_eq method (codes "none"))) ≡ true) a f)
  unfolding userauth_finish
  finish-Concluded n method a f =
      Hoare-bind (λ _. Tally a f) (keeps_Tally (logged (check_valid-SameLogin env n)))
        λ x.
          Hoare-bind (λ _. Tally a f) (keeps_Tally (logged (check_root-SameLogin env method n)))
            λ m.
              Hoare-bind (λ _. Tally a f) (keeps_Tally (logged (check_account-SameLogin env m)))
                λ y. record {
                  after = λ s (e, k) r h. record {
                    attempt = conclude-attempt method m s ∙ e;
                    counts = λ c refused.
                        conclude-counted method m s
                          (subst (λ i. (ltb 1 i || not (str_eq method (codes "none"))) ≡ true)
                            (sym e) c)
                          h refused
                        ∙ ap (λ i. i + 1) k;
                  };
                }

  first_or_later-SameTally :
      (b : Bool) (u : UserSpec) (service : Bytes)
      → Within SameTally (if b then first_request env u service else later_request env u service)
  first_or_later-SameTally b u service =
      Within-if SameTally-IsFrame b (first-SameTally u service)
        (logged (later_request-SameLogin env u service))

  weaker : (P Q : Type 0) (a f : ℕ) (s : Server) → (Q → P) → Concluded P a f s → Concluded Q a f s
  weaker P Q a f s h c = record { attempt = c.attempt; counts = λ q. c.counts (h q) }

  later :
      (a : ℕ) (method : Bytes)
      → a ≢ 0
      → (ltb 1 (a + 1) || not (str_eq method (codes "none"))) ≡ true
  later a method ne = ground arith

  -- A refused request counts, unless it was the first of the connection.
  pub request-Concluded :
      (a f : ℕ) → Hoare (Tally a f) (input_userauth_request env) (λ _. Concluded (a ≢ 0) (a + 1) f)
  unfolding input_userauth_request
  request-Concluded a f =
      Hoare-bind (λ _. Tally a f) (keeps_Tally (logged (get_cstring-SameLogin env)))
        λ text.
          Hoare-bind (λ _. Tally a f) (keeps_Tally (logged (get_cstring-SameLogin env)))
            λ service.
              Hoare-bind (λ _. Tally a f) (keeps_Tally (logged (get_cstring-SameLogin env)))
                λ method. Hoare-bind _ (Hoare-gets (λ s. s.auth.attempt)) λ attempt.
                  Hoare-bind (λ _. Tally (a + 1) f)
                    (Hoare-modify _ (λ s (e, (h, k)). (ap (λ i. i + 1) h, k)))
                    λ x.
                      Hoare-bind (λ _. Tally (a + 1) f)
                        (keeps_Tally
                          (first_or_later-SameTally (attempt == 0) (split_user text) service))
                        λ y.
                          Hoare-bind (λ _. Tally (a + 1) f)
                            (keeps_Tally (tallied (reset-SameRequest env)))
                            λ z.
                              Hoare-bind (λ _. Tally (a + 1) f)
                                (keeps_Tally (tallied (try_method-SameRequest env method)))
                                λ n. record {
                                  after = λ s t r h.
                                      weaker _ (a ≢ 0) (a + 1) f _ (later a method)
                                        ((finish-Concluded n method (a + 1) f).after s t r h);
                                }
