-- ===== src/Ssh1/Authorised.antt =====
-- Who gets in by protocol 1: what has to have happened before a round, and then the loop, accepts.
use gexcloud.Auth.Checks.{check_root, check_valid}
use gexcloud.Auth.Checks.Passed.{Passed, Passed-checks}
use gexcloud.Auth.Privsep.{account_check}
use gexcloud.Base.{
  Bool-cases, Option, [], ap, arith, inl, inr, leb, none, refl, some, subst, suc, sym, true, zero,
  ℕ, ◌-◌, ◌<◌, ◌∙◌, ◌≡◌, ◌≢◌, ◌∷◌,
}
use gexcloud.Server.Env.{Env}
use gexcloud.Server.Event.{Authenticated, got_packet, postponed, result}
use gexcloud.Server.Frame.{SameLogin, SameLogin-IsFrame}
use gexcloud.Server.Laws.{>>=-ok}
use gexcloud.Server.Monad.{emit, match_option, ok, pure, ◌>>=◌}
use gexcloud.Server.State.{Server}
use gexcloud.Ssh1.Methods.{AuthMethod1, lookup_authmethod1, run_method}
use gexcloud.Ssh1.Round.{
  abandon_stale, accepted, auth_round, check_account, judge_method, limit_or_try, reply_round,
  require_account, show_denial, try_method, try_type,
}
use gexcloud.Ssh1.Round.Tries.{abandon_stale-SameLogin, run_method-SameLogin}
use gexcloud.Text.{Bytes}

module _ (env : Env) where
  reply_accepted :
      (type n : ℕ) (info : Bytes) (s : Server)
      → (reply_round env type n info s).0 ≡ ok accepted
      → n ≢ 0
  unfolding reply_round ◌>>=◌
  reply_accepted type n info s h = ground arith

  show_denial-ok :
      (allowed : ℕ) (s : Server) {x : Unit {0}}
      → (show_denial env allowed s).0 ≡ ok x
      → allowed ≡ suc (allowed - 1)
  unfolding show_denial ◌>>=◌
  show_denial-ok allowed s h = ground arith

  require_account-ok :
      (t : Server) {x : Unit {0}}
      → (require_account env t).0 ≡ ok x
      → (k : ℕ) × ((account_check env t).0 ≡ ok (suc k))
  unfolding require_account
  require_account-ok t h =
      let (allowed, asked, shown) = >>=-ok (account_check env) (show_denial env) t h in
      (allowed - 1, asked ∙ ap ok (show_denial-ok allowed _ shown))

  check_account-ok :
      (n : ℕ) (t : Server) {x : Unit {0}}
      → (check_account env n t).0 ≡ ok x
      → n ≢ 0
      → env.options.use_pam ≡ true
      → (k : ℕ) × ((account_check env t).0 ≡ ok (suc k))
  unfolding check_account
  check_account-ok zero t h ne e = absurd (ne refl)
  check_account-ok (suc n) t h ne e = require_account-ok t {x = tt} (ground arith)

  -- What a granted round went through, from the state `t` in which it looks up its method.
  pub record Granted (type : ℕ) (t : Server) : Type 0 where
    pub meth : AuthMethod1
    pub found : lookup_authmethod1 type ≡ some meth
    pub enabled : meth.enabled env.options ≡ true
    pub within_limit : t.auth.failures < env.options.max_authtries
    pub answer : ℕ
    pub info : Bytes
    pub said : (run_method env meth.method t).0 ≡ ok (result answer, info)
    pub positive : answer ≢ 0
    -- the method has not changed who the user is
    pub same : SameLogin t (run_method env meth.method t).1
    -- the tests are made in the state that the method has left
    pub passed :
        Passed env meth.name
          (run_method env meth.method t).1
          (check_root env meth.name answer (run_method env meth.method t).1).1

  judge_accepted :
      (type n : ℕ) (name info : Bytes) (t : Server)
      → (judge_method env type name (result n, info) t).0 ≡ ok accepted
      → (n ≢ 0) × Passed env name t (check_root env name n t).1
  unfolding judge_method
  judge_accepted type n name info t h =
      let (x, v, h1) = >>=-ok (check_valid env n) _ t h in
      let (m, r, h2) = >>=-ok (check_root env name n) _ _ h1 in
      let (y, c, h3) = >>=-ok (check_account env m) _ _ h2 in
      let ne = reply_accepted type m info _ h3 in
      let (same, p) = Passed-checks env name n m t v r ne (λ on. check_account-ok m _ c ne on) in
      (subst (λ k. k ≢ 0) (sym same) ne, p)

  answer_grants :
      (type : ℕ) (meth : AuthMethod1) (s : Server) (a : Authenticated) (info : Bytes)
      → lookup_authmethod1 type ≡ some meth
      → meth.enabled env.options ≡ true
      → s.auth.failures < env.options.max_authtries
      → (run_method env meth.method s).0 ≡ ok (a, info)
      → (judge_method env type meth.name (a, info) (run_method env meth.method s).1).0 ≡ ok accepted
      → Granted type s
  unfolding judge_method pure
  answer_grants type meth s postponed info found on lt r j = cc
  answer_grants type meth s (result n) info found on lt r j =
      let (ne, p) = judge_accepted type n meth.name info _ j in
      record {
        meth = meth;
        found = found;
        enabled = on;
        within_limit = lt;
        answer = n;
        info = info;
        said = r;
        positive = ne;
        same = (run_method-SameLogin env meth.method).at s;
        passed = p;
      }

  method_grants :
      (type : ℕ) (meth : AuthMethod1) (s : Server)
      → lookup_authmethod1 type ≡ some meth
      → (try_method env type meth s).0 ≡ ok accepted
      → s.auth.failures < env.options.max_authtries
      → Granted type s
  unfolding try_method
  method_grants type meth s found h lt = elim (Bool-cases (meth.enabled env.options)) [
    | inl on ↦
        let ((a, text), r, j) =
          >>=-ok (run_method env meth.method) (judge_method env type meth.name) s
            (rw (on, try_method) at h) in
        answer_grants type meth s a text found on lt r j
    | inr off ↦ absurd (reply_accepted type 0 [] s (rw (off, try_method) at h) refl)
  ]

  try_type_accepted :
      (type : ℕ) (o : Option AuthMethod1) (s : Server)
      → lookup_authmethod1 type ≡ o
      → (match_option o (reply_round env type 0 []) (try_method env type) s).0 ≡ ok accepted
      → s.auth.failures < env.options.max_authtries
      → Granted type s
  unfolding match_option
  try_type_accepted type none s e h lt = absurd (reply_accepted type 0 [] s h refl)
  try_type_accepted type (some meth) s e h lt = method_grants type meth s e h lt

  accepted_below :
      (type : ℕ) (s : Server) → (limit_or_try env type s).0 ≡ ok accepted → Granted type s
  unfolding limit_or_try ◌>>=◌
  accepted_below type s h = elim (Bool-cases (leb env.options.max_authtries s.auth.failures)) [
    | inl full ↦ absurd (reply_accepted type 0 [] s (rw (full, limit_or_try) at h) refl)
    | inr room ↦
        try_type_accepted type (lookup_authmethod1 type) s refl
          (unfold try_type in rw (room, limit_or_try) at h) (ground arith)
  ]

  -- The state in which a round looks up its method: it has read the packet, and a challenge that
  -- the packet does not answer is abandoned.
  abbrev pub at_lookup : (prev type : ℕ) → Server → Server
  at_lookup prev type s = (abandon_stale env prev type (emit (got_packet type) s).1).1

  -- A round accepts only after a method that the table has for the packet's type, that is
  -- enabled, and that said yes when it was asked in this round, about the user that the round
  -- began with, with fewer failures before than MaxAuthTries; and the user passed the tests on a
  -- valid user, on root and, where PAM is on, on the account, in the states that this round led to.
  pub auth_round-accepted :
      (prev type : ℕ) (s : Server)
      → (auth_round env prev type s).0 ≡ ok accepted
      → SameLogin s (at_lookup prev type s) × Granted type (at_lookup prev type s)
  unfolding auth_round emit
  auth_round-accepted prev type s h =
      let (x, _, h1) = >>=-ok (emit (got_packet type)) _ s h in
      let (y, _, h2) = >>=-ok (abandon_stale env prev type) _ _ h1 in
      let kept = (abandon_stale-SameLogin env prev type).at (emit (got_packet type) s).1 in
      (
        SameLogin-IsFrame.compose s _ _ (SameLogin-IsFrame.longer s (got_packet type ∷ s.history))
            kept,
        accepted_below type _ h2,
      )
