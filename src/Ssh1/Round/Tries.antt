-- ===== src/Ssh1/Round/Tries.antt =====
-- The count of failures over a round of protocol 1.
use gexcloud.Auth.Checks.{check_root, check_valid}
use gexcloud.Auth.Frame.{account_check-SameLogin, root_refused-SameLogin}
use gexcloud.Base.{
  Bool, Option, [], ap, arith, false, if◌then◌else◌, none, refl, some, subst, sym, true, ℕ, ◌+◌,
  ◌<◌, ◌∙◌, ◌≡◌,
}
use gexcloud.Server.Env.{Env}
use gexcloud.Server.Event.{Authenticated, postponed, result}
use gexcloud.Server.Frame.{
  SameLogin, SameLogin-IsFrame, Within, Within-emit, Within-gets, login_rules,
}
use gexcloud.Server.Laws.{>>=-ok, >>=-run, ok_injective}
use gexcloud.Server.Monad.{M, match_option, modify, ok, pure, ◌>>=◌}
use gexcloud.Server.State.{Server}
use gexcloud.Ssh1.Methods.{
  AuthMethod1, Method, auth1_process_password, auth1_process_rhosts_rsa, auth1_process_rsa,
  auth1_process_tis_challenge, auth1_process_tis_response, lookup_authmethod1, process_password,
  process_rhosts_rsa, process_rsa, process_tis_challenge, process_tis_response, run_method,
}
use gexcloud.Ssh1.Round.{
  Verdict, abandon_stale, accepted, auth_round, check_account, judge_method, limit_or_try, rejected,
  reply_round, require_account, show_denial, try_method, try_type, waiting,
}
use gexcloud.Text.{Bytes}

-- What a round of verdict `v` does to the count: only a refusal adds to it, and the loop goes on
-- only below the limit.
abbrev pub Counted : (limit : ℕ) → Verdict → Server → Server → Type 0
Counted limit accepted s t = t.auth.failures ≡ s.auth.failures
Counted limit waiting s t = t.auth.failures ≡ s.auth.failures
Counted limit rejected s t = (t.auth.failures ≡ s.auth.failures + 1) × (t.auth.failures < limit)

Counted-after :
    (limit : ℕ) (v : Verdict) (s t u : Server)
    → t.auth.failures ≡ s.auth.failures
    → Counted limit v t u
    → Counted limit v s u
Counted-after limit accepted s t u e h = h ∙ e
Counted-after limit waiting s t u e h = h ∙ e
Counted-after limit rejected s t u e h = (h.0 ∙ ap (λ n. n + 1) e, h.1)

module _ (env : Env) where
  abbrev Counts : M Verdict → Type 0
  Counts m =
      (s : Server) (v : Verdict) → (m s).0 ≡ ok v → Counted env.options.max_authtries v s (m s).1

  reply-Counts : (type n : ℕ) (info : Bytes) → Counts (reply_round env type n info)
  unfolding reply_round ◌>>=◌
  reply-Counts type n info s accepted h = ground arith
  reply-Counts type n info s waiting h = ground arith
  reply-Counts type n info s rejected h = ground arith

  then-Counts :
      {A : Type 0} {m : M A} (f : A → M Verdict)
      → Within SameLogin m
      → ((a : A) → Counts (f a))
      → Counts (m >>= f)
  then-Counts {m} f w k s v h =
      let (a, e, h1) = >>=-ok m f s h in
      subst (λ p. Counted env.options.max_authtries v s p.1) (sym (>>=-run m f s a e))
        (Counted-after env.options.max_authtries v s (m s).1 (f a (m s).1).1 (w.at s).failures
          (k a _ v h1))

  if-Counts : (b : Bool) (m n : M Verdict) → Counts m → Counts n → Counts (if b then m else n)
  if-Counts true m n hm hn = hm
  if-Counts false m n hm hn = hn

  set_client-SameLogin :
      (c : Bytes) → Within SameLogin (modify (λ s. record s { client_user = some c }))
  unfolding modify
  set_client-SameLogin c = record { at = λ s. ground arith }

  pub run_method-SameLogin : (m : Method) → Within SameLogin (run_method env m)
  unfolding run_method auth1_process_password auth1_process_rsa auth1_process_rhosts_rsa
      auth1_process_tis_challenge auth1_process_tis_response
  run_method-SameLogin process_password = search login_rules depth 10
  run_method-SameLogin process_rsa = search login_rules depth 10
  run_method-SameLogin process_rhosts_rsa = search (login_rules, set_client-SameLogin) depth 16
  run_method-SameLogin process_tis_challenge = search login_rules depth 10
  run_method-SameLogin process_tis_response = search login_rules depth 10

  pub check_root-SameLogin : (name : Bytes) (n : ℕ) → Within SameLogin (check_root env name n)
  unfolding check_root
  check_root-SameLogin name n = search (login_rules, root_refused-SameLogin) depth 8

  pub check_valid-SameLogin : (n : ℕ) → Within SameLogin (check_valid env n)
  unfolding check_valid
  check_valid-SameLogin n = search login_rules

  pub check_account-SameLogin : (n : ℕ) → Within SameLogin (check_account env n)
  unfolding check_account require_account show_denial
  check_account-SameLogin n = search (login_rules, account_check-SameLogin) depth 10

  judge-Counts :
      (type : ℕ) (name : Bytes) (o : Authenticated × Bytes) → Counts (judge_method env type name o)
  unfolding judge_method pure
  judge-Counts type name (postponed, info) s accepted h = refl
  judge-Counts type name (postponed, info) s waiting h = refl
  judge-Counts type name (postponed, info) s rejected h = absurd (other (ok_injective h))
    where
      other : waiting ≡ rejected → ⊥
      other e = cc
  judge-Counts type name (result n, info) s v h =
      then-Counts _ (check_valid-SameLogin n)
        (λ x. then-Counts _ (check_root-SameLogin name n) (λ granted.
          then-Counts _ (check_account-SameLogin granted) (λ y. reply-Counts type granted info)))
        s v h

  try_method-Counts : (type : ℕ) (meth : AuthMethod1) → Counts (try_method env type meth)
  unfolding try_method
  try_method-Counts type meth =
      if-Counts _ _ _
        (then-Counts _ (run_method-SameLogin meth.method) (judge-Counts type meth.name))
        (reply-Counts type 0 [])

  try_found-Counts :
      (type : ℕ) (o : Option AuthMethod1)
      → Counts (match_option o (reply_round env type 0 []) (try_method env type))
  unfolding match_option
  try_found-Counts type none = reply-Counts type 0 []
  try_found-Counts type (some meth) = try_method-Counts type meth

  limit-Counts : (type : ℕ) → Counts (limit_or_try env type)
  unfolding limit_or_try try_type
  limit-Counts type = then-Counts _ (Within-gets SameLogin-IsFrame _) (λ failures.
      if-Counts _ _ _ (reply-Counts type 0 []) (try_found-Counts type (lookup_authmethod1 type)))

  pub abandon_stale-SameLogin : (prev type : ℕ) → Within SameLogin (abandon_stale env prev type)
  unfolding abandon_stale
  abandon_stale-SameLogin prev type = search login_rules

  -- A round that ends adds one to the failures if it refuses, and nothing if it grants or
  -- waits for the client; and after a refusal the count is below MaxAuthTries, since a client
  -- that has reached it is disconnected.
  pub auth_round-Counted :
      (prev type : ℕ) (s : Server) (v : Verdict)
      → (auth_round env prev type s).0 ≡ ok v
      → Counted env.options.max_authtries v s (auth_round env prev type s).1
  unfolding auth_round
  auth_round-Counted prev type =
      then-Counts _ (Within-emit SameLogin-IsFrame _)
        (λ x. then-Counts _ (abandon_stale-SameLogin prev type) (λ y. limit-Counts type))
