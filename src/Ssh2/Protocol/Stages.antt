-- ===== src/Ssh2/Protocol/Stages.antt =====
-- The stages of a request of protocol 2: what each part of its handler keeps and what it adds.
use gexcloud.Auth.Frame.{privsep_start_pam-SameLogin}
use gexcloud.Auth.Privsep.{audit, privsep_start_pam}
use gexcloud.Auth.UserName.{UserSpec}
use gexcloud.Base.{
  Bool, Option, arith, false, if◌then◌else◌, none, refl, some, subst, sym, true, ℕ, ◌<◌, ◌∙◌, ◌≡◌,
  ◌≢◌,
}
use gexcloud.Pam.Context.{modify_auth}
use gexcloud.Server.Env.{Env}
use gexcloud.Server.Event.{AuditEvent, MethodId, informed_authserv, invalid_user}
use gexcloud.Server.Frame.{IsFrame, SameLogin, SameLogin-IsFrame, Within, Within-ask, login_rules}
use gexcloud.Server.Hoare.{Hoare, Hoare-bind, Hoare-frame, Hoare-modify}
use gexcloud.Server.Monad.{M, emit, modify, skip, when}
use gexcloud.Server.State.{Passwd, Server, Shared, adopt}
use gexcloud.Ssh2.Banner.{
  auth2_read_banner, privsep_read_banner, send_configured, send_found, show_banner,
  userauth_send_banner,
}
use gexcloud.Ssh2.Request.{
  call_method, first_request, known_for, later_request, reset_state, set_service, set_user,
  try_method,
}
use gexcloud.Text.{Bytes}

-- What a handler keeps, except where it says otherwise.
pub record SameRequest (s t : Server) : Type 0 where
  pub success : t.auth.success ≡ s.auth.success
  pub valid : t.auth.valid ≡ s.auth.valid
  pub attempt : t.auth.attempt ≡ s.auth.attempt
  pub failures : t.auth.failures ≡ s.auth.failures
  pub user : t.auth.user ≡ s.auth.user
  pub service : t.auth.service ≡ s.auth.service
  pub pw : t.auth.pw ≡ s.auth.pw

pub SameRequest-IsFrame : IsFrame SameRequest
SameRequest-IsFrame = record {
  here = λ s. ground arith;
  compose = λ s t u h k. ground arith;
  longer = λ s h. ground arith;
}

pub same : {A : Type 0} {m : M A} → Within SameLogin m → Within SameRequest m
same w = record { at = λ s. from_login s _ (w.at s) }
  where
    from_login : (s t : Server) → SameLogin s t → SameRequest s t
    from_login s t h = ground arith

-- The stages of a request.
pub record Fresh (limit : ℕ) (s : Server) : Type 0 where
  pub waits : s.auth.success ≡ false
  pub below : s.auth.failures < limit
  pub seen : s.auth.attempt ≢ 0

pub record Found (limit : ℕ) (s : Server) : Type 0 where
  pub fresh : Fresh limit s
  pub valid : s.auth.valid ≡ true
  pub user : s.auth.user ≢ none
  pub pw : s.auth.pw ≢ none

pub record Named (limit : ℕ) (s : Server) : Type 0 where
  pub found : Found limit s
  pub service : s.auth.service ≢ none

Fresh-kept : (limit : ℕ) (s t : Server) → SameRequest s t → Fresh limit s → Fresh limit t
Fresh-kept limit s t k f = record {
  waits = k.success ∙ f.waits;
  below = subst (λ n. n < limit) (sym k.failures) f.below;
  seen = λ e. f.seen (sym k.attempt ∙ e);
}

Found-kept : (limit : ℕ) (s t : Server) → SameRequest s t → Found limit s → Found limit t
Found-kept limit s t k f = record {
  fresh = Fresh-kept limit s t k f.fresh;
  valid = k.valid ∙ f.valid;
  user = λ e. f.user (sym k.user ∙ e);
  pw = λ e. f.pw (sym k.pw ∙ e);
}

Named-kept : (limit : ℕ) (s t : Server) → SameRequest s t → Named limit s → Named limit t
Named-kept limit s t k f = record {
  found = Found-kept limit s t k f.found;
  service = λ e. f.service (sym k.service ∙ e);
}

module _ (env : Env) where
  abbrev pub limit : ℕ
  limit = env.options.max_authtries

  send-SameLogin : (text : Bytes) → Within SameLogin (userauth_send_banner env text)
  unfolding userauth_send_banner
  send-SameLogin text = search login_rules

  read_banner-SameLogin : Within SameLogin (privsep_read_banner env)
  unfolding privsep_read_banner auth2_read_banner
  read_banner-SameLogin = search login_rules depth 14

  send_found-SameLogin : (o : Option Bytes) → Within SameLogin (send_found env o)
  send_found-SameLogin none = search login_rules
  send_found-SameLogin (some banner) = send-SameLogin banner

  send_configured-SameLogin : (o : Option Bytes) → Within SameLogin (send_configured env o)
  send_configured-SameLogin none = search login_rules
  send_configured-SameLogin (some path) =
      search (login_rules, read_banner-SameLogin, send_found-SameLogin) depth 8

  pub show_banner-SameLogin : Within SameLogin (show_banner env)
  unfolding show_banner
  show_banner-SameLogin = send_configured-SameLogin env.options.banner

  keep_fresh :
      {A : Type 0} {m : M A} → Within SameLogin m → Hoare (Fresh limit) m (λ _. Fresh limit)
  keep_fresh w = Hoare-frame (same w) (Fresh-kept limit)

  keeps_lookup :
      {A : Type 0} {m : M A} → Within SameLogin m → Hoare (Found limit) m (λ _. Found limit)
  keeps_lookup w = Hoare-frame (same w) (Found-kept limit)

  pub keeps_names :
      {A : Type 0} {m : M A} → Within SameRequest m → Hoare (Named limit) m (λ _. Named limit)
  keeps_names w = Hoare-frame w (Named-kept limit)

  chosen : (o : Option Passwd) → elim o [ some p ↦ some p | none ↦ some env.fakepw ] ≢ none
  chosen none e = cc
  chosen (some p) e = cc

  pub set_user-Found :
      (u : UserSpec) (service : Bytes) (o : Option Passwd) (s : Server)
      → Fresh limit s
      → Found limit (record s { auth = set_user env u service o s.auth })
  unfolding set_user
  set_user-Found u service o s f = record {
    fresh = record { waits = f.waits; below = f.below; seen = f.seen };
    valid = refl;
    user = λ e. cc;
    pw = chosen (known_for env o service);
  }

  pub set_service-Named :
      (u : UserSpec) (service : Bytes) (s : Server)
      → Found limit s
      → Named limit (record s { auth = set_service env u service s.auth })
  set_service-Named u service s f = record {
    found = record {
      fresh = record { waits = f.fresh.waits; below = f.fresh.below; seen = f.fresh.seen };
      valid = f.valid;
      user = f.user;
      pw = f.pw;
    };
    service = λ e. cc;
  }

  audit-SameLogin : (e : AuditEvent) → Within SameLogin (audit env e)
  audit-SameLogin e = search login_rules

  pub audit_unless :
      (b : Bool) (e : AuditEvent) → Within SameLogin (if b then skip else audit env e)
  audit_unless b e = search (login_rules, audit-SameLogin)

  pub pam_if_on : Within SameLogin (when env.options.use_pam (privsep_start_pam env))
  pam_if_on = search (login_rules, privsep_start_pam-SameLogin)

  pub inform-SameRequest :
      (u : UserSpec) (service : Bytes)
      → Within SameRequest (when env.use_privsep (emit (informed_authserv service u.style u.role)))
  inform-SameRequest u service = same (search login_rules)

  pub first_request-Named :
      (u : UserSpec) (service : Bytes)
      → Hoare (Fresh limit) (first_request env u service) (λ _. Named limit)
  unfolding first_request
  first_request-Named u service =
      Hoare-bind (λ _. Fresh limit) (keep_fresh (Within-ask SameLogin-IsFrame _ _))
        λ found.
          Hoare-bind (λ _. Found limit) (Hoare-modify _ (set_user-Found u service found))
            λ x.
              Hoare-bind (λ _. Found limit) (keeps_lookup (audit_unless _ invalid_user))
                λ y.
                  Hoare-bind (λ _. Found limit) (keeps_lookup pam_if_on)
                    λ z.
                      Hoare-bind (λ _. Named limit) (Hoare-modify _ (set_service-Named u service))
                        λ v.
                          Hoare-bind (λ _. Named limit) (keeps_names (inform-SameRequest u service))
                            λ w. keeps_names (same show_banner-SameLogin)

  pub later_request-SameLogin :
      (u : UserSpec) (service : Bytes) → Within SameLogin (later_request env u service)
  unfolding later_request
  later_request-SameLogin u service = search login_rules depth 8

  flags-SameRequest :
      (p f : Bool)
      → Within SameRequest
          (modify_auth (λ a. record a { postponed = p; server_caused_failure = f }))
  unfolding modify
  flags-SameRequest p f = record { at = λ s. ground arith }

  pub reset-SameRequest : Within SameRequest (reset_state env)
  reset-SameRequest = search (login_rules, flags-SameRequest, SameRequest-IsFrame) depth 12

  adopt-SameRequest : (s : Server) (l : Shared) → SameRequest s (adopt l s)
  adopt-SameRequest s l = ground arith

  call-SameRequest : (m : MethodId) → Within SameRequest (call_method env m)
  call-SameRequest m =
      search (login_rules, flags-SameRequest, adopt-SameRequest, SameRequest-IsFrame) depth 12

  pub try_method-SameRequest : (method : Bytes) → Within SameRequest (try_method env method)
  unfolding try_method
  try_method-SameRequest method =
      search (login_rules, call-SameRequest, SameRequest-IsFrame) depth 12
