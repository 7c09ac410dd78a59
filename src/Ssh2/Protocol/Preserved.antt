-- ===== src/Ssh2/Protocol/Preserved.antt =====
-- Every step of protocol 2 keeps what holds between two packets.
use mathlib.Core.Bool.{false≢true}
use gexcloud.Base.{Bool, Bool-cases, arith, false, inl, inr, sym, true, ◌∙◌, ◌≡◌, ◌≢◌}
use gexcloud.Server.Env.{Env}
use gexcloud.Server.Event.{History}
use gexcloud.Server.Frame.{SameLogin, SameLogin-IsFrame, Within, Within-emit, login_rules}
use gexcloud.Server.Hoare.{Hoare, Hoare-bind, Hoare-frame, Hoare-gets, Hoare-if, Hoare-modify}
use gexcloud.Server.Monad.{M, bad_service, disconnect, halt, modify}
use gexcloud.Server.State.{Server, Shared, on_userauth_request, protocol_ignore}
use gexcloud.Ssh2.Protocol.{
  Between, IsNew, Reachable, Step, answered, begun, elsewhere, on_response, on_service, on_userauth,
  stepped,
}
use gexcloud.Ssh2.Protocol.Handled.{
  Between-kept, finish-Between, get_cstring-SameLogin, request-Between,
}
use gexcloud.Ssh2.Protocol.Stages.{Named, limit}
use gexcloud.Ssh2.Request.{accepts, do_authentication2, input_service_request}
use gexcloud.Text.{Bytes}

module _ (env : Env) where
  keeps_invariant :
      {A : Type 0} {m : M A} → Within SameLogin m → Hoare (Between env) m (λ _. Between env)
  keeps_invariant w = Hoare-frame w (Between-kept env)

  register :
      (s : Server)
      → s.auth.success ≡ false
      → Between env s
      → Between env
          (record s { dispatch = record s.dispatch { userauth_request = on_userauth_request } })
  register s waits b = record {
    closed = λ e. absurd (false≢true (sym waits ∙ e));
    named = b.named;
    waiting = b.waiting;
    below = b.below;
  }

  refuse_service :
      (P : Server → Type 0)
      → Hoare {A = Unit {0}} P (halt (disconnect bad_service)) (λ _. Between env)
  unfolding halt
  refuse_service P = record { after = λ s p a h. cc }

  accepted : (service : Bytes) (b : Bool) → accepts env service b ≡ true → b ≡ false
  accepted service b h = ground arith

  service-Between : Hoare (Between env) (input_service_request env) (λ _. Between env)
  unfolding input_service_request
  service-Between =
      Hoare-bind (λ _. Between env) (keeps_invariant (get_cstring-SameLogin env))
        λ service.
          Hoare-bind (λ _. Between env) (keeps_invariant (search login_rules))
            λ x. Hoare-bind _ (Hoare-gets (λ s. s.auth.success)) λ success.
              Hoare-if (accepts env service success)
                (λ e.
                  Hoare-bind (λ _. Between env)
                    (Hoare-modify _ (λ s p. register s (p.0 ∙ accepted service success e) p.1))
                    λ y. keeps_invariant (Within-emit SameLogin-IsFrame _))
                (λ e. refuse_service _)

  pub not_closed :
      (s : Server)
      → Between env s
      → s.dispatch.userauth_request ≡ on_userauth_request
      → s.auth.success ≡ false
  not_closed s b e = elim (Bool-cases s.auth.success) [
    | inl done ↦ absurd (other (sym e ∙ b.closed done))
    | inr waits ↦ waits
  ]
    where
      other : on_userauth_request ≡ protocol_ignore → ⊥
      other e = cc

  -- Where a postponed method has waited, its answer finds the user named.
  pub answered-Named :
      (s : Server) (p f : Bool) (l : Shared) (h : History)
      → Between env s
      → s.auth.success ≡ false
      → s.auth.postponed ≡ true
      → Named (limit env) (answered p f l h s)
  answered-Named s p f l h b waits e =
      let (v, u, c, w) = b.named (b.waiting e) in
      record {
        found = record {
          fresh = record { waits = waits; below = b.below; seen = b.waiting e };
          valid = v;
          user = u;
          pw = w;
        };
        service = c;
      }

  Step-Between : (s t : Server) → Step env s t → Between env s → Between env t
  Step-Between _ _ (on_service u e h) b = service-Between.after u b tt h
  Step-Between _ _ (on_userauth u e h) b = (request-Between env).after u (not_closed u b e, b) tt h
  Step-Between _ _ (on_response u p f l h n method waits e r) b =
      (finish-Between env n method).after (answered p f l h u) (answered-Named u p f l h b waits e)
        tt r
  Step-Between _ _ (elsewhere u l h) b = record {
    closed = b.closed;
    named = b.named;
    waiting = b.waiting;
    below = b.below;
  }

  begins_well :
      (start : Server) → IsNew start → limit env ≢ 0 → Between env (do_authentication2 env start).1
  unfolding do_authentication2 modify
  begins_well start new room = record {
    closed = λ e. absurd (false≢true (sym new.waits ∙ e));
    named = λ ne. absurd (ne new.first);
    waiting = λ e. absurd (false≢true (sym new.ready ∙ e));
    below = omega (arith, new.no_failure, room);
  }

  -- In every state that protocol 2 reaches from a new connection, if MaxAuthTries is not 0: once
  -- a user is in, the handler of requests is the one that ignores them; the failures are below
  -- MaxAuthTries; and after the first request, and wherever a method has postponed, the user is
  -- marked as valid, and the user, the service and the password entry are not NULL.
  pub Reachable-Between :
      (start t : Server) → IsNew start → limit env ≢ 0 → Reachable env start t → Between env t
  Reachable-Between start _ new room begun = begins_well start new room
  Reachable-Between start _ new room (stepped {s} {t} r st) =
      Step-Between s t st (Reachable-Between start s new room r)
