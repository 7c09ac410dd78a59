-- ===== src/Ssh2/Protocol/Refined.antt =====
-- The handlers of protocol 2 against the view of a connection.
use gexcloud.Base.{Bool, ap, arith, false, refl, subst, sym, true, ◌∙◌, ◌≡◌, ◌≢◌}
use gexcloud.Server.Env.{Env}
use gexcloud.Server.Event.{History}
use gexcloud.Server.Frame.{Within, login_rules}
use gexcloud.Server.Monad.{modify}
use gexcloud.Server.State.{Server, Shared, on_userauth_request}
use gexcloud.Ssh2.Protocol.{
  Between, IsNew, Later, Reachable, Step, answered, elsewhere, now, on_response, on_service,
  on_userauth, stepped, then_step,
}
use gexcloud.Ssh2.Protocol.Outcome.{Asked, finish-Moves, view, view-SameRequest}
use gexcloud.Ssh2.Protocol.Preserved.{Reachable-Between, not_closed}
use gexcloud.Ssh2.Protocol.Requested.{request-Moves}
use gexcloud.Ssh2.Protocol.Stages.{SameRequest, SameRequest-IsFrame, limit}
use gexcloud.Ssh2.Protocol.View.{Moves, Moves-SameName, Moves-final, Moves-trans, stay}
use gexcloud.Ssh2.Request.{input_service_request}

module _ (env : Env) where
  register-SameRequest : Within SameRequest (
      modify
        (λ s. record s { dispatch = record s.dispatch { userauth_request = on_userauth_request } }))
  unfolding modify
  register-SameRequest = record { at = λ s. ground arith }

  service-SameRequest : Within SameRequest (input_service_request env)
  unfolding input_service_request
  service-SameRequest = search (login_rules, SameRequest-IsFrame, register-SameRequest) depth 14

  -- A service request moves nothing.
  service-view : (s : Server) → view (input_service_request env s).1 ≡ view s
  service-view s = view-SameRequest s _ (service-SameRequest.at s)

  response-Asked :
      (s : Server) (p f : Bool) (l : Shared) (h : History)
      → Between env s
      → s.auth.success ≡ false
      → s.auth.postponed ≡ true
      → Asked env (view s) (view (answered p f l h s))
  response-Asked s p f l h b waits e = record {
    moves = stay;
    named = (let ne = b.waiting e in ground arith);
    out = waits;
  }

  -- Every step of protocol 2 from a state in which the invariant holds is some moves of the view.
  pub Step-Moves :
      (s t : Server) → Step env s t → Between env s → Moves (limit env) (view s) (view t)
  Step-Moves s _ (on_service u d h) b =
      subst (Moves (limit env) (view u)) (sym (service-view u)) stay
  Step-Moves s _ (on_userauth u d h) b =
      (request-Moves env (view u)).after u (refl, not_closed env u b d) tt h
  Step-Moves s _ (on_response u p f l h n method waits e r) b =
      (finish-Moves env (view u) n method).after (answered p f l h u)
        (response-Asked u p f l h b waits e) tt r
  Step-Moves s _ (elsewhere u l h) b = stay

  Later-Reachable :
      {start s t : Server} → Reachable env start s → Later env s t → Reachable env start t
  Later-Reachable r now = r
  Later-Reachable r (then_step l st) = stepped (Later-Reachable r l) st

  -- Protocol 2 refines the view of a connection: if MaxAuthTries is not 0, then from any state
  -- that is reached from a new connection, any number of further steps makes moves of the view,
  -- and no others: it names a user where none was named, adds one failure to a count that stays
  -- below MaxAuthTries, or lets a named user in, and each of these only while no user is in.
  pub Later-Moves :
      (start s t : Server)
      → IsNew start
      → limit env ≢ 0
      → Reachable env start s
      → Later env s t
      → Moves (limit env) (view s) (view t)
  Later-Moves start s _ new room r now = stay
  Later-Moves start s _ new room r (then_step {t} {u} l st) =
      Moves-trans (Later-Moves start s t new room r l)
        (Step-Moves t u st (Reachable-Between env start t new room (Later-Reachable r l)))

  -- After the first request of a connection (MaxAuthTries not being 0) the user and the service
  -- stay what they are, whatever the client sends; and once a user is in, the count of failures
  -- stays, too, and the user stays in.
  pub Later-SameName :
      (start s t : Server)
      → IsNew start
      → limit env ≢ 0
      → Reachable env start s
      → Later env s t
      → s.auth.attempt ≢ 0
      → (t.auth.user ≡ s.auth.user)
        × (t.auth.service ≡ s.auth.service)
        × (s.auth.success ≡ true → (t.auth.success ≡ true) × (t.auth.failures ≡ s.auth.failures))
  Later-SameName start s t new room r l ne =
      let moves = Later-Moves start s t new room r l in
      let (n, u, c) = Moves-SameName moves (ground arith) in
      (
        u,
        c,
        λ e.
            let final = Moves-final moves e in
            (ap (λ v. v.entered) final ∙ e, ap (λ v. v.failures) final),
      )
