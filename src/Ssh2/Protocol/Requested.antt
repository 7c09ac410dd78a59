-- ===== src/Ssh2/Protocol/Requested.antt =====
-- How a request moves the view of a connection.
use gexcloud.Auth.UserName.{UserSpec, split_user}
use gexcloud.Base.{
  Option, ap, arith, false, if◌then◌else◌, refl, subst, sym, true, ℕ, ◌+◌, ◌==◌, ◌∙◌, ◌≡◌, ◌≢◌,
}
use gexcloud.Pam.Context.{modify_auth}
use gexcloud.Server.Env.{Env}
use gexcloud.Server.Event.{invalid_user}
use gexcloud.Server.Frame.{IsFrame, SameLogin, Within, Within-ask, Within-bind}
use gexcloud.Server.Hoare.{Hoare, Hoare-bind, Hoare-frame, Hoare-gets, Hoare-if, Hoare-modify}
use gexcloud.Server.Monad.{M, modify}
use gexcloud.Server.State.{Passwd, Server}
use gexcloud.Ssh2.Protocol.Handled.{get_cstring-SameLogin}
use gexcloud.Ssh2.Protocol.Outcome.{Asked, finish-Moves, keeps_view, view, view-SameRequest}
use gexcloud.Ssh2.Protocol.Stages.{
  SameRequest, audit_unless, inform-SameRequest, later_request-SameLogin, limit, pam_if_on,
  reset-SameRequest, same, show_banner-SameLogin, try_method-SameRequest,
}
use gexcloud.Ssh2.Protocol.View.{Moves, View, moved, name_user, stay}
use gexcloud.Ssh2.Request.{first_request, input_userauth_request, later_request, set_service}
use gexcloud.Text.{Bytes}

-- What naming a user leaves alone.
record SameCount (s t : Server) : Type 0 where
  success : t.auth.success ≡ s.auth.success
  attempt : t.auth.attempt ≡ s.auth.attempt
  failures : t.auth.failures ≡ s.auth.failures

SameCount-IsFrame : IsFrame SameCount
SameCount-IsFrame = record {
  here = λ s. ground arith;
  compose = λ s t u h k. ground arith;
  longer = λ s h. ground arith;
}

counted : {A : Type 0} {m : M A} → Within SameRequest m → Within SameCount m
counted w = record { at = λ s. from_request s _ (w.at s) }
  where
    from_request : (s t : Server) → SameRequest s t → SameCount s t
    from_request s t h = ground arith

module _ (env : Env) where
  set_user-SameCount :
      (u : UserSpec) (service : Bytes) (o : Option Passwd)
      → Within SameCount (modify_auth (gexcloud.Ssh2.Request.set_user env u service o))
  unfolding gexcloud.Ssh2.Request.set_user modify
  set_user-SameCount u service o = record { at = λ s. ground arith }

  set_service-SameCount :
      (u : UserSpec) (service : Bytes) → Within SameCount (modify_auth (set_service env u service))
  unfolding modify
  set_service-SameCount u service = record { at = λ s. ground arith }

  first_request-SameCount :
      (u : UserSpec) (service : Bytes) → Within SameCount (first_request env u service)
  unfolding first_request
  first_request-SameCount u service =
      Within-bind SameCount-IsFrame (Within-ask SameCount-IsFrame _ _) λ found.
        Within-bind SameCount-IsFrame (set_user-SameCount u service found) λ x.
          Within-bind SameCount-IsFrame (counted (same (audit_unless env _ invalid_user))) λ y.
            Within-bind SameCount-IsFrame (counted (same (pam_if_on env))) λ z.
              Within-bind SameCount-IsFrame (set_service-SameCount u service) λ v.
                Within-bind SameCount-IsFrame (counted (inform-SameRequest env u service))
                  λ w. counted (same (show_banner-SameLogin env))

  -- A request has been counted, and says by `attempt` whether it is the first.
  record Counting (v : View) (attempt : ℕ) (s : Server) : Type 0 where
    entered : s.auth.success ≡ false
    failures : s.auth.failures ≡ v.failures
    again : attempt ≢ 0 → (view s ≡ v) × (v.named ≡ true)
    out : v.entered ≡ false
    first : attempt ≡ 0 → v.named ≡ false
    seen : s.auth.attempt ≢ 0

  count-Counting :
      (v : View) (attempt : ℕ) (s : Server)
      → (s.auth.attempt ≡ attempt) × ((view s ≡ v) × (v.entered ≡ false))
      → Counting v attempt (record s { auth = record s.auth { attempt = s.auth.attempt + 1 } })
  count-Counting v attempt s (e, (seen, out)) = record {
    entered = ap (λ w. w.entered) seen ∙ out;
    failures = ap (λ w. w.failures) seen;
    again = λ ne. (ground arith, ground arith);
    out = out;
    first = λ z. ground arith;
    seen = λ z. omega arith;
  }

  first-Asked : (v : View) (s t : Server) → Counting v 0 s → SameCount s t → Asked env v (view t)
  first-Asked v s t c k =
      let e : record v { named = true; user = t.auth.user; service = t.auth.service } ≡ view t =
        ground arith in
      record {
        moves =
            subst (Moves (limit env) v) e
              (moved stay (name_user t.auth.user t.auth.service (c.first refl) c.out));
        named = ground arith;
        out = k.success ∙ c.entered;
      }

  first_or_later-Asked :
      (v : View) (attempt : ℕ) (u : UserSpec) (service : Bytes)
      → Hoare
          (Counting v attempt)
          (if attempt == 0 then first_request env u service else later_request env u service)
          (λ _ s. Asked env v (view s))
  first_or_later-Asked v attempt u service =
      Hoare-if (attempt == 0)
        (λ e. record {
          after = λ s c a h.
              first-Asked v s _ (subst (λ k. Counting v k s) (is_zero attempt e) c)
                ((first_request-SameCount u service).at s);
        })
        (λ e. record {
          after = λ s c a h.
              (keeps_view env (Asked env v) (same (later_request-SameLogin env u service))).after s
                (again attempt s c e) a h;
        })
    where
      is_zero : (n : ℕ) → (n == 0) ≡ true → n ≡ 0
      is_zero n e = ground arith

      again :
          (attempt : ℕ) (s : Server)
          → Counting v attempt s
          → (attempt == 0) ≡ false
          → Asked env v (view s)
      again attempt s c e =
          let (seen, n) = c.again (ground arith) in
          subst (Asked env v) (sym seen) (record { moves = stay; named = n; out = c.out })

  -- From a view in which no user is in.
  abbrev pub Starts : View → Server → Type 0
  Starts v s = (view s ≡ v) × (v.entered ≡ false)

  keeps_start :
      {A : Type 0} {m : M A} (v : View) → Within SameLogin m → Hoare (Starts v) m (λ _. Starts v)
  keeps_start v w = Hoare-frame (same w) (λ s t k p. (view-SameRequest s t k ∙ p.0, p.1))

  pub request-Moves :
      (v : View)
      → Hoare (Starts v) (input_userauth_request env) (λ _ t. Moves (limit env) v (view t))
  unfolding input_userauth_request
  request-Moves v =
      Hoare-bind (λ _. Starts v) (keeps_start v (get_cstring-SameLogin env))
        λ text.
          Hoare-bind (λ _. Starts v) (keeps_start v (get_cstring-SameLogin env))
            λ service.
              Hoare-bind (λ _. Starts v) (keeps_start v (get_cstring-SameLogin env))
                λ method. Hoare-bind _ (Hoare-gets (λ s. s.auth.attempt)) λ attempt.
                  Hoare-bind (λ _. Counting v attempt) (Hoare-modify _ (count-Counting v attempt))
                    λ x.
                      Hoare-bind (λ _ s. Asked env v (view s))
                        (first_or_later-Asked v attempt (split_user text) service)
                        λ y.
                          Hoare-bind (λ _ s. Asked env v (view s))
                            (keeps_view env (Asked env v) (reset-SameRequest env))
                            λ z.
                              Hoare-bind (λ _ s. Asked env v (view s))
                                (keeps_view env (Asked env v) (try_method-SameRequest env method))
                                λ n. finish-Moves env v n method
