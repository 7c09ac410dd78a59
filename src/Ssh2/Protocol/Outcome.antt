-- ===== src/Ssh2/Protocol/Outcome.antt =====
-- How userauth_finish moves the view of a connection.
use gexcloud.Base.{
  Bool-cases, arith, false, inl, inr, not, subst, sym, true, ℕ, ◌+◌, ◌<◌, ◌==◌, ◌≡◌,
}
use gexcloud.Server.Env.{Env}
use gexcloud.Server.Frame.{Within}
use gexcloud.Server.Hoare.{Hoare, Hoare-bind, Hoare-frame}
use gexcloud.Server.Monad.{M, ok, ◌>>=◌}
use gexcloud.Server.State.{Server}
use gexcloud.Ssh2.Finish.{conclude, counts, refuse, succeed, userauth_finish}
use gexcloud.Ssh2.Protocol.Stages.{SameRequest, limit, same}
use gexcloud.Ssh2.Protocol.View.{Moves, View, enter, fail_once, moved}
use gexcloud.Ssh2.Success.{check_account-SameLogin, check_root-SameLogin, check_valid-SameLogin}
use gexcloud.Text.{Bytes}

abbrev pub view : Server → View
view s = record {
  named = not (s.auth.attempt == 0);
  user = s.auth.user;
  service = s.auth.service;
  entered = s.auth.success;
  failures = s.auth.failures;
}

pub view-SameRequest : (s t : Server) → SameRequest s t → view t ≡ view s
view-SameRequest s t k = ground arith

module _ (env : Env) where
  -- A view with a named user who is not in, after moves from `v`.
  pub record Asked (v w : View) : Type 0 where
    pub moves : Moves (limit env) v w
    pub named : w.named ≡ true
    pub out : w.entered ≡ false

  pub keeps_view :
      {A : Type 0} {m : M A} (P : View → Type 0)
      → Within SameRequest m
      → Hoare (λ s. P (view s)) m (λ _ s. P (view s))
  keeps_view P w = Hoare-frame w (λ s t k p. subst P (sym (view-SameRequest s t k)) p)

  -- How `conclude` ends, when it does not end the process.
  data Outcome (s t : Server) : Type 0 where
    unchanged : view t ≡ view s → Outcome s t
    fails :
        view t ≡ record (view s) { failures = s.auth.failures + 1 }
        → s.auth.failures + 1 < limit env
        → Outcome s t
    succeeds : view t ≡ record (view s) { entered = true } → Outcome s t

  waits-view :
      (method : Bytes) (n : ℕ) (s : Server)
      → s.auth.postponed ≡ true
      → view (conclude env method n s).1 ≡ view s
  unfolding conclude succeed refuse ◌>>=◌
  waits-view method n s w = ground arith

  success-view :
      (method : Bytes) (n : ℕ) (s : Server)
      → s.auth.postponed ≡ false
      → (n == 1) ≡ true
      → view (conclude env method n s).1 ≡ record (view s) { entered = true }
  unfolding conclude succeed refuse ◌>>=◌
  success-view method n s w one = ground arith

  failure-view :
      (method : Bytes) (n : ℕ) (s : Server)
      → s.auth.postponed ≡ false
      → (n == 1) ≡ false
      → counts env method s.auth ≡ true
      → (conclude env method n s).0 ≡ ok tt
      → (view (conclude env method n s).1 ≡ record (view s) { failures = s.auth.failures + 1 })
        × (s.auth.failures + 1 < limit env)
  unfolding conclude succeed refuse ◌>>=◌
  failure-view method n s w other c h = ground arith

  free-view :
      (method : Bytes) (n : ℕ) (s : Server)
      → s.auth.postponed ≡ false
      → (n == 1) ≡ false
      → counts env method s.auth ≡ false
      → view (conclude env method n s).1 ≡ view s
  unfolding conclude succeed refuse ◌>>=◌
  free-view method n s w other c = ground arith

  conclude-Outcome :
      (method : Bytes) (n : ℕ) (s : Server)
      → (conclude env method n s).0 ≡ ok tt
      → Outcome s (conclude env method n s).1
  conclude-Outcome method n s h = elim (Bool-cases s.auth.postponed) [
    | inl w ↦ unchanged (waits-view method n s w)
    | inr w ↦ elim (Bool-cases (n == 1)) [
      | inl one ↦ succeeds (success-view method n s w one)
      | inr other ↦ elim (Bool-cases (counts env method s.auth)) [
        | inl c ↦ let (e, room) = failure-view method n s w other c h in fails e room
        | inr c ↦ unchanged (free-view method n s w other c)
      ]
    ]
  ]

  Asked-Outcome :
      (v : View) (s t : Server) → Outcome s t → Asked v (view s) → Moves (limit env) v (view t)
  Asked-Outcome v s t (unchanged e) a = subst (Moves (limit env) v) (sym e) a.moves
  Asked-Outcome v s t (fails e room) a =
      subst (Moves (limit env) v) (sym e) (moved a.moves (fail_once a.named a.out room))
  Asked-Outcome v s t (succeeds e) a =
      subst (Moves (limit env) v) (sym e) (moved a.moves (enter a.named a.out))

  pub finish-Moves :
      (v : View) (n : ℕ) (method : Bytes)
      → Hoare
          (λ s. Asked v (view s))
          (userauth_finish env n method)
          (λ _ t. Moves (limit env) v (view t))
  unfolding userauth_finish
  finish-Moves v n method =
      Hoare-bind (λ _ s. Asked v (view s))
        (keeps_view (Asked v) (same (check_valid-SameLogin env n)))
        λ x.
          Hoare-bind (λ _ s. Asked v (view s))
            (keeps_view (Asked v) (same (check_root-SameLogin env method n)))
            λ m.
              Hoare-bind (λ _ s. Asked v (view s))
                (keeps_view (Asked v) (same (check_account-SameLogin env m)))
                λ y. record {
                  after = λ s p a h. Asked-Outcome v s _ (conclude-Outcome method m s h) p;
                }
