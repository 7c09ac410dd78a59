-- ===== src/Ssh2/Protocol/Entered.antt =====
-- How a user got in, told from the end of the connection.
use mathlib.Core.Bool.{false≢true}
use gexcloud.Auth.Checks.{check_root}
use gexcloud.Auth.Checks.Passed.{Passed}
use gexcloud.Base.{Bool, ap, arith, false, refl, subst, sym, true, ℕ, ◌<◌, ◌∙◌, ◌≡◌, ◌≢◌}
use gexcloud.Server.Env.{Env}
use gexcloud.Server.Event.{History}
use gexcloud.Server.Frame.{IsFrame, SameLogin, Within, Within-bind, login_rules}
use gexcloud.Server.Laws.{>>=-ok, >>=-run}
use gexcloud.Server.Monad.{M, Result, modify, ok}
use gexcloud.Server.State.{Server, Shared, on_userauth_request}
use gexcloud.Ssh2.Finish.{userauth_finish}
use gexcloud.Ssh2.Protocol.{
  IsNew, Later, Reachable, Step, answered, begun, elsewhere, now, on_response, on_service,
  on_userauth, stepped, then_step,
}
use gexcloud.Ssh2.Protocol.Answer.{request-result, request_result}
use gexcloud.Ssh2.Protocol.Handled.{conclude-names, result-Named}
use gexcloud.Ssh2.Protocol.Preserved.{Reachable-Between, answered-Named, not_closed}
use gexcloud.Ssh2.Protocol.Stages.{Named, limit}
use gexcloud.Ssh2.Request.{do_authentication2, input_service_request, input_userauth_request}
use gexcloud.Ssh2.Success.{
  check_account-SameLogin, check_root-SameLogin, check_valid-SameLogin, userauth_finish-success,
}
use gexcloud.Text.{Bytes}

-- Who the user is stays.
record SameName (s t : Server) : Type 0 where
  user : t.auth.user ≡ s.auth.user
  pw : t.auth.pw ≡ s.auth.pw

SameName-IsFrame : IsFrame SameName
SameName-IsFrame = record {
  here = λ s. ground arith;
  compose = λ s t u h k. ground arith;
  longer = λ s h. ground arith;
}

-- And so does whether the user is in.
record Waits (s t : Server) : Type 0 where
  success : t.auth.success ≡ s.auth.success
  user : t.auth.user ≡ s.auth.user
  pw : t.auth.pw ≡ s.auth.pw

Waits-IsFrame : IsFrame Waits
Waits-IsFrame = record {
  here = λ s. ground arith;
  compose = λ s t u h k. ground arith;
  longer = λ s h. ground arith;
}

names : {A : Type 0} {m : M A} → Within SameLogin m → Within SameName m
names w = record { at = λ s. let k = w.at s in record { user = k.user; pw = k.pw } }

module _ (env : Env) where
  -- A packet, handled in the state `u`, brings userauth_finish the result 1 of a method, in the
  -- state `before`: a request, or the answer for a method that had postponed.
  pub data Answers (u : Server) : (method : Bytes) (before : Server) → Type 0 where
    by_request :
        (method : Bytes)
        → u.dispatch.userauth_request ≡ on_userauth_request
        → (request_result env u).0 ≡ ok (1, method)
        → Answers u method (request_result env u).1
    by_answer :
        (p f : Bool) (l : Shared) (h : History) (method : Bytes)
        → u.auth.success ≡ false
        → u.auth.postponed ≡ true
        → Answers u method (answered p f l h u)

  -- A packet of the connection from `start` to `t` by which the user got in.
  pub record Admission (start t : Server) : Type 0 where
    pub at_packet : Server
    pub reached : Reachable env start at_packet
    pub method : Bytes
    pub before : Server
    pub answers : Answers at_packet method before
    -- userauth_finish returned, and let the user in
    pub returned : (userauth_finish env 1 method before).0 ≡ ok tt
    pub let_in : (userauth_finish env 1 method before).1.auth.success ≡ true
    pub since : Later env (userauth_finish env 1 method before).1 t
    pub waits : before.auth.success ≡ false
    pub ready : before.auth.postponed ≡ false
    pub below : before.auth.failures < env.options.max_authtries
    pub passed : Passed env method before (check_root env method 1 before).1
    pub user : t.auth.user ≡ before.auth.user
    pub pw : t.auth.pw ≡ before.auth.pw

  finish-SameName : (n : ℕ) (method : Bytes) → Within SameName (userauth_finish env n method)
  unfolding userauth_finish
  finish-SameName n method = Within-bind SameName-IsFrame (names (check_valid-SameLogin env n)) λ x.
      Within-bind SameName-IsFrame (names (check_root-SameLogin env method n)) λ m.
        Within-bind SameName-IsFrame (names (check_account-SameLogin env m)) λ y. record {
          at = λ s.
              let (a, v, u, c, w) = conclude-names env method m s in record { user = u; pw = w };
        }

  finish-Admission :
      (start u : Server) (n : ℕ) (method : Bytes) (s : Server)
      → Reachable env start u
      → (n ≡ 1 → Answers u method s)
      → Named (limit env) s
      → (userauth_finish env n method s).0 ≡ ok tt
      → (userauth_finish env n method s).1.auth.success ≡ true
      → Admission start (userauth_finish env n method s).1
  finish-Admission start u n method s r answers p h e =
      let (one, ready, passed) = userauth_finish-success env n method s p.found.fresh.waits e in
      let kept = (finish-SameName n method).at s in
      record {
        at_packet = u;
        reached = r;
        method = method;
        before = s;
        answers = answers one;
        returned = subst (λ k. (userauth_finish env k method s).0 ≡ ok tt) one h;
        let_in = subst (λ k. (userauth_finish env k method s).1.auth.success ≡ true) one e;
        since =
            subst
              (λ k. Later env (userauth_finish env k method s).1 (userauth_finish env n method s).1)
              one now;
        waits = p.found.fresh.waits;
        ready = ready;
        below = p.found.fresh.below;
        passed = subst (λ k. Passed env method s (check_root env method k s).1) one passed;
        user = kept.user;
        pw = kept.pw;
      }

  -- The request by which a user got in.
  request-Admission :
      (start u : Server)
      → IsNew start
      → limit env ≢ 0
      → Reachable env start u
      → u.dispatch.userauth_request ≡ on_userauth_request
      → (input_userauth_request env u).0 ≡ ok tt
      → (input_userauth_request env u).1.auth.success ≡ true
      → Admission start (input_userauth_request env u).1
  request-Admission start u new room r d h e =
      let between = Reachable-Between env start u new room r in
      let split = ap (λ (m : M (Unit {0})). m u) (request-result env) in
      let (a, o, f) =
        >>=-ok (request_result env) (λ x. userauth_finish env x.0 x.1) u
          (ap (λ (q : Result (Unit {0}) × Server). q.0) (sym split) ∙ h) in
      let run = split ∙ >>=-run (request_result env) (λ x. userauth_finish env x.0 x.1) u a o in
      let named = (result-Named env).after u (not_closed env u between d, between) a o in
      subst (λ (q : Result (Unit {0}) × Server). Admission start q.1) (sym run)
        (finish-Admission start u a.0 a.1 (request_result env u).1 r
          (λ one. by_request a.1 d (o ∙ ap (λ n. ok (n, a.1)) one)) named f
          (ap (λ (q : Result (Unit {0}) × Server). q.1.auth.success) (sym run) ∙ e))

  -- What happens after the user got in.
  then_Admission :
      (start s t : Server) → Step env s t → Waits s t → Admission start s → Admission start t
  then_Admission start s t st k a = record {
    at_packet = a.at_packet;
    reached = a.reached;
    method = a.method;
    before = a.before;
    answers = a.answers;
    returned = a.returned;
    let_in = a.let_in;
    since = then_step a.since st;
    waits = a.waits;
    ready = a.ready;
    below = a.below;
    passed = a.passed;
    user = k.user ∙ a.user;
    pw = k.pw ∙ a.pw;
  }

  register-Waits : Within Waits (
      modify
        (λ s. record s { dispatch = record s.dispatch { userauth_request = on_userauth_request } }))
  unfolding modify
  register-Waits = record { at = λ s. ground arith }

  service-Waits : Within Waits (input_service_request env)
  unfolding input_service_request
  service-Waits = search (login_rules, Waits-IsFrame, register-Waits) depth 14

  begin-Waits : Within Waits (do_authentication2 env)
  unfolding do_authentication2 modify
  begin-Waits = record { at = λ s. ground arith }

  -- If protocol 2 reaches a state in which a user is in, from a new connection, and MaxAuthTries
  -- is not 0, then some packet of that connection brought userauth_finish the result 1: a request
  -- whose method gave it, or the answer for a method that had postponed. There no user was in, the
  -- method did not postpone, there were fewer failures than MaxAuthTries, and the user was valid
  -- and passed the tests on root and, where PAM is on, on the account, which were made in that
  -- state and the one that follows. The connection went on from there to the state that was
  -- reached, and the user and the password entry are still those that were tested.
  pub Reachable-Admission :
      (start t : Server)
      → IsNew start
      → limit env ≢ 0
      → Reachable env start t
      → t.auth.success ≡ true
      → Admission start t
  Reachable-Admission start _ new room begun e =
      absurd (false≢true (sym new.waits ∙ (sym (begin-Waits.at start).success ∙ e)))
  Reachable-Admission start _ new room (stepped r (on_service u d h)) e =
      let k = service-Waits.at u in
      then_Admission start u _ (on_service u d h) k
        (Reachable-Admission start u new room r (sym k.success ∙ e))
  Reachable-Admission start _ new room (stepped r (on_userauth u d h)) e =
      request-Admission start u new room r d h e
  Reachable-Admission start _ new room (stepped r (on_response u p f l h n method waits w d)) e =
      let between = Reachable-Between env start u new room r in
      finish-Admission start u n method (answered p f l h u) r
        (λ one. by_answer p f l h method waits w) (answered-Named env u p f l h between waits w) d e
  Reachable-Admission start _ new room (stepped r (elsewhere u l h)) e =
      then_Admission start u _ (elsewhere u l h) (record { success = refl; user = refl; pw = refl })
        (Reachable-Admission start u new room r e)
