-- ===== src/Auth/Checks/Passed.antt =====
-- What a user has passed when the tests let an answer through.
use gexcloud.Auth.Checks.{check_root, check_valid}
use gexcloud.Auth.Privsep.{account_check, root_refused}
use gexcloud.Base.{
  Option-cases, ap, arith, inl, inr, some, subst, suc, sym, true, ℕ, ◌∙◌, ◌∷◌, ◌≡◌, ◌≢◌,
}
use gexcloud.Server.Env.{Env}
use gexcloud.Server.Event.{called_auth_root_allowed}
use gexcloud.Server.Monad.{ok, ◌>>=◌}
use gexcloud.Server.State.{Passwd, Server}
use gexcloud.Text.{Bytes}

module _ (env : Env) where
  -- The tests on a user, after a method `name` has said yes in the state `t`; PAM is asked for the
  -- account in the state `u`.
  pub record Passed (name : Bytes) (t u : Server) : Type 0 where
    pub valid : t.auth.valid ≡ true
    pub pw : Passwd
    pub known : t.auth.pw ≡ some pw
    -- root only by a method that is allowed for root
    pub root :
        pw.pw_uid ≡ 0
        → env.auth_root_allowed name (called_auth_root_allowed name ∷ t.history) ≡ true
    -- with PAM, the account check said yes
    pub account : env.options.use_pam ≡ true → (k : ℕ) × ((account_check env u).0 ≡ ok (suc k))

  pub check_root-ok :
      (name : Bytes) (n m : ℕ) (t : Server)
      → (check_root env name n t).0 ≡ ok m
      → m ≢ 0
      → (n ≡ m)
        × ((pw : Passwd) × (t.auth.pw ≡ some pw)
            × (pw.pw_uid ≡ 0
                → env.auth_root_allowed name (called_auth_root_allowed name ∷ t.history) ≡ true))
  unfolding check_root root_refused ◌>>=◌
  check_root-ok name n m t h ne = elim (Option-cases t.auth.pw) [
    | inl missing ↦ ground arith
    | inr (pw, e) ↦ (ground arith, (pw, e, λ z. ground arith))
  ]

  pub check_valid-ok :
      (n : ℕ) (t : Server) {x : Unit {0}}
      → (check_valid env n t).0 ≡ ok x
      → (n ≢ 0 → t.auth.valid ≡ true) × ((check_valid env n t).1 ≡ t)
  unfolding check_valid ◌>>=◌
  check_valid-ok n t h = ground arith

  pub Passed-checks :
      (name : Bytes) (n m : ℕ) (t : Server) {x : Unit {0}}
      → (check_valid env n t).0 ≡ ok x
      → (check_root env name n (check_valid env n t).1).0 ≡ ok m
      → m ≢ 0
      → (env.options.use_pam ≡ true
          → (k : ℕ) × ((account_check env (check_root env name n (check_valid env n t).1).1).0
              ≡ ok (suc k)))
      → (n ≡ m) × Passed name t (check_root env name n t).1
  Passed-checks name n m t v r ne account =
      let (same, (pw, known, root)) = check_root-ok name n m _ r ne in
      let (valid, e) = check_valid-ok n t v in
      let ne' = subst (λ k. k ≢ 0) (sym same) ne in
      (
        same,
        subst (λ u. Passed name u (check_root env name n u).1) e
            (record {
              valid = ap (λ u. u.auth.valid) e ∙ valid ne';
              pw = pw;
              known = known;
              root = root;
              account = account;
            }),
      )
