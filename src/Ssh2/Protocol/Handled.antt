-- ===== src/Ssh2/Protocol/Handled.antt =====
-- userauth_finish and a request keep what holds between two packets.
use gexcloud.Auth.Privsep.{packet_get_cstring}
use gexcloud.Auth.UserName.{UserSpec, split_user}
use gexcloud.Base.{
  ap, arith, false, if◌then◌else◌, subst, sym, true, ℕ, ◌+◌, ◌<◌, ◌==◌, ◌∙◌, ◌≡◌, ◌≢◌,
}
use gexcloud.Server.Env.{Env}
use gexcloud.Server.Frame.{SameLogin, Within, login_rules}
use gexcloud.Server.Hoare.{
  Hoare, Hoare-bind, Hoare-frame, Hoare-gets, Hoare-if, Hoare-modify, Hoare-pure,
}
use gexcloud.Server.Monad.{M, ok, ◌>>=◌}
use gexcloud.Server.State.{Server, protocol_ignore}
use gexcloud.Ssh2.Finish.{conclude, refuse, succeed, userauth_finish}
use gexcloud.Ssh2.Protocol.{Between, IsNamed}
use gexcloud.Ssh2.Protocol.Answer.{request-result, request_result}
use gexcloud.Ssh2.Protocol.Stages.{
  Fresh, Named, first_request-Named, keeps_names, later_request-SameLogin, limit, reset-SameRequest,
  same, try_method-SameRequest,
}
use gexcloud.Ssh2.Request.{first_request, input_userauth_request, later_request}
use gexcloud.Ssh2.Success.{check_account-SameLogin, check_root-SameLogin, check_valid-SameLogin}
use gexcloud.Text.{Bytes}

module _ (env : Env) where
  pub conclude-names :
      (method : Bytes) (n : ℕ) (s : Server)
      → let t = (conclude env method n s).1 in
        (t.auth.attempt ≡ s.auth.attempt)
        × (t.auth.valid ≡ s.auth.valid)
        × (t.auth.user ≡ s.auth.user)
        × (t.auth.service ≡ s.auth.service)
        × (t.auth.pw ≡ s.auth.pw)
  unfolding conclude succeed refuse ◌>>=◌
  conclude-names method n s = ground arith

  named_after :
      (method : Bytes) (n : ℕ) (s : Server)
      → Named (limit env) s
      → IsNamed (conclude env method n s).1
  named_after method n s p =
      let (a, v, u, c, w) = conclude-names method n s in
      (
        v ∙ p.found.valid,
        (λ e. p.found.user (sym u ∙ e)),
        (λ e. p.service (sym c ∙ e)),
        λ e. p.found.pw (sym w ∙ e),
      )

  seen_after :
      (method : Bytes) (n : ℕ) (s : Server)
      → Named (limit env) s
      → (conclude env method n s).1.auth.attempt ≢ 0
  seen_after method n s p e = p.found.fresh.seen (sym (conclude-names method n s).0 ∙ e)

  conclude-limits :
      (method : Bytes) (n : ℕ) (s : Server) (a : Unit {0})
      → Named (limit env) s
      → (conclude env method n s).0 ≡ ok a
      → ((conclude env method n s).1.auth.success ≡ true
          → (conclude env method n s).1.dispatch.userauth_request ≡ protocol_ignore)
        × ((conclude env method n s).1.auth.failures < limit env)
  unfolding conclude succeed refuse ◌>>=◌
  conclude-limits method n s a p h = ground arith

  conclude-Between :
      (method : Bytes) (n : ℕ)
      → Hoare (Named (limit env)) (conclude env method n) (λ _. Between env)
  conclude-Between method n = record {
    after = λ s p a h.
        let (shut, room) = conclude-limits method n s a p h in
        record {
          closed = shut;
          named = λ ne. named_after method n s p;
          waiting = λ e. seen_after method n s p;
          below = room;
        };
  }

  pub finish-Between :
      (n : ℕ) (method : Bytes)
      → Hoare (Named (limit env)) (userauth_finish env n method) (λ _. Between env)
  unfolding userauth_finish
  finish-Between n method =
      Hoare-bind (λ _. Named (limit env)) (keeps_names env (same (check_valid-SameLogin env n)))
        λ x.
          Hoare-bind (λ _. Named (limit env))
            (keeps_names env (same (check_root-SameLogin env method n)))
            λ m.
              Hoare-bind (λ _. Named (limit env))
                (keeps_names env (same (check_account-SameLogin env m)))
                λ y. conclude-Between method m

  -- Before a request, with `attempt` as it was read.
  record Counted (attempt : ℕ) (s : Server) : Type 0 where
    fresh : Fresh (limit env) s
    known : attempt ≢ 0 → IsNamed s

  still : (s t : Server) → SameLogin s t → IsNamed s → IsNamed t
  still s t k (v, u, c, w) =
      (k.valid ∙ v, (λ e. u (sym k.user ∙ e)), (λ e. c (sym k.service ∙ e)), λ e. w (sym k.pw ∙ e))

  pub Between-kept : (s t : Server) → SameLogin s t → Between env s → Between env t
  Between-kept s t k b = record {
    closed = λ e. ap (λ x. x.userauth_request) k.dispatch ∙ b.closed (sym k.success ∙ e);
    named = λ ne. still s t k (b.named (λ e. ne (k.attempt ∙ e)));
    waiting = λ e z. b.waiting (sym k.postponed ∙ e) (sym k.attempt ∙ z);
    below = subst (λ n. n < limit env) (sym k.failures) b.below;
  }

  abbrev pub Open : Server → Type 0
  Open s = (s.auth.success ≡ false) × Between env s

  Open-kept : (s t : Server) → SameLogin s t → Open s → Open t
  Open-kept s t k (waits, b) = (k.success ∙ waits, Between-kept s t k b)

  keeps_waiting : {A : Type 0} {m : M A} → Within SameLogin m → Hoare Open m (λ _. Open)
  keeps_waiting w = Hoare-frame w Open-kept

  count_attempt :
      (attempt : ℕ) (s : Server)
      → (s.auth.attempt ≡ attempt) × Open s
      → Counted attempt (record s { auth = record s.auth { attempt = s.auth.attempt + 1 } })
  count_attempt attempt s (e, (waits, b)) = record {
    fresh = record { waits = waits; below = b.below; seen = λ z. omega arith };
    known = λ ne. b.named (λ z. ne (sym e ∙ z));
  }

  first_or_later :
      (attempt : ℕ) (u : UserSpec) (service : Bytes)
      → Hoare
          (Counted attempt)
          (if attempt == 0 then first_request env u service else later_request env u service)
          (λ _. Named (limit env))
  first_or_later attempt u service =
      Hoare-if (attempt == 0)
        (λ e. record { after = λ s c a h. (first_request-Named env u service).after s c.fresh a h })
        (λ e. record {
          after = λ s c a h.
              (keeps_names env (same (later_request-SameLogin env u service))).after s
                (already attempt s c e) a h;
        })
    where
      already :
          (attempt : ℕ) (s : Server)
          → Counted attempt s
          → (attempt == 0) ≡ false
          → Named (limit env) s
      already attempt s c e =
          let (v, u, n, w) = c.known (ground arith) in
          record { found = record { fresh = c.fresh; valid = v; user = u; pw = w }; service = n }

  pub get_cstring-SameLogin : Within SameLogin (packet_get_cstring env)
  get_cstring-SameLogin = search login_rules

  -- The parts of a request one after another, up to userauth_finish.
  pub result-Named : Hoare Open (request_result env) (λ _. Named (limit env))
  unfolding request_result
  result-Named =
      Hoare-bind (λ _. Open) (keeps_waiting get_cstring-SameLogin)
        λ text.
          Hoare-bind (λ _. Open) (keeps_waiting get_cstring-SameLogin)
            λ service.
              Hoare-bind (λ _. Open) (keeps_waiting get_cstring-SameLogin)
                λ method. Hoare-bind _ (Hoare-gets (λ s. s.auth.attempt)) λ attempt.
                  Hoare-bind (λ _. Counted attempt) (Hoare-modify _ (count_attempt attempt))
                    λ x.
                      Hoare-bind (λ _. Named (limit env))
                        (first_or_later attempt (split_user text) service)
                        λ y.
                          Hoare-bind (λ _. Named (limit env))
                            (keeps_names env (reset-SameRequest env))
                            λ z.
                              Hoare-bind (λ _. Named (limit env))
                                (keeps_names env (try_method-SameRequest env method))
                                λ n. Hoare-pure (n, method) (λ s p. p)

  pub request-Between : Hoare Open (input_userauth_request env) (λ _. Between env)
  request-Between =
      subst (λ m. Hoare Open m (λ _. Between env)) (sym (request-result env))
        (Hoare-bind (λ _. Named (limit env)) result-Named (λ r. finish-Between r.0 r.1))
