-- ===== src/Ssh1/Entry.antt =====
-- Who gets in by protocol 1, over the whole loop.
use mathlib.Core.Bool.{false≢true}
use gexcloud.Auth.Frame.{account_check-SameLogin}
use gexcloud.Auth.Privsep.{account_check}
use gexcloud.Base.{
  Bool, List, [], ap, arith, false, inl, inr, not, suc, sym, true, ℕ, ◌-◌, ◌==◌, ◌∙◌, ◌∷◌, ◌≡◌, ◌≢◌,
  ◌⊎◌,
}
use gexcloud.Server.Env.{Env}
use gexcloud.Server.Event.{called_auth_password, sent, smsg_failure}
use gexcloud.Server.Frame.{SameLogin, Within, login_rules}
use gexcloud.Server.Laws.{>>=-ok, if-ok, pure-ok}
use gexcloud.Server.Monad.{emit, halt, ok, pure, ◌>>=◌}
use gexcloud.Server.State.{Server}
use gexcloud.Ssh1.Authorised.{Granted, at_lookup, auth_round-accepted}
use gexcloud.Ssh1.Loop.{
  account_ok, auth_rounds, do_authloop, empty_password_ok, go_on, without_password,
}
use gexcloud.Ssh1.Round.{Verdict, accepted, auth_round, rejected, waiting}
use gexcloud.Ssh1.Round.Same.{SameLogin-SameUser, SameUser, SameUser-IsFrame, auth_round-SameUser}

module _ (env : Env) where
  -- What lets a user in with no packet at all.
  pub record EmptyPassword (s : Server) : Type 0 where
    pub permitted : env.options.permit_empty_passwd ≡ true
    pub by_password : env.options.password_authentication ≡ true
    pub said :
        (env.auth_password [] (record s { history = called_auth_password [] ∷ s.history })).value
        ≢ 0
    pub with_pam : env.options.use_pam ≡ true
    pub account : (k : ℕ) × ((account_check env (empty_password_ok env s).1).0 ≡ ok (suc k))
    pub same : SameUser s (empty_password_ok env s).1

  said_yes : (n : ℕ) (s : Server) → (pure (not (n == 0)) s).0 ≡ ok true → n ≡ suc (n - 1)
  unfolding pure
  said_yes n s h = ground arith

  account_ok-ok :
      (s : Server)
      → (account_ok env s).0 ≡ ok true
      → (env.options.use_pam ≡ true) × ((k : ℕ) × ((account_check env s).0 ≡ ok (suc k)))
  unfolding account_ok
  account_ok-ok s h = elim (if-ok (not env.options.use_pam) _ _ s h) [
    | inl (off, h1) ↦ absurd (false≢true (pure-ok false true s h1))
    | inr (on, h1) ↦
        let (n, a, h2) = >>=-ok (account_check env) _ s h1 in
        (ground arith, (n - 1, a ∙ ap ok (said_yes n _ h2)))
  ]

  empty_password_ok-ok :
      (s : Server)
      → (empty_password_ok env s).0 ≡ ok true
      → (env.options.permit_empty_passwd ≡ true)
        × (env.options.password_authentication ≡ true)
        × ((env.auth_password [] (record s { history = called_auth_password [] ∷ s.history })).value
            ≢ 0)
  unfolding empty_password_ok ◌>>=◌
  empty_password_ok-ok s h = ground arith

  negated_false : (b : Bool) → not b ≡ false → b ≡ true
  negated_false b h = ground arith

  empty_password-SameLogin : Within SameLogin (empty_password_ok env)
  unfolding empty_password_ok
  empty_password-SameLogin = search login_rules depth 10

  account_ok-SameLogin : Within SameLogin (account_ok env)
  unfolding account_ok
  account_ok-SameLogin = search (login_rules, account_check-SameLogin) depth 10

  without_password-SameLogin : Within SameLogin (without_password env)
  unfolding without_password
  without_password-SameLogin =
      search (login_rules, empty_password-SameLogin, account_ok-SameLogin) depth 10

  without_password-ok : (s : Server) → (without_password env s).0 ≡ ok true → EmptyPassword s
  unfolding without_password
  without_password-ok s h =
      let (granted, g, h1) = >>=-ok (empty_password_ok env) _ s h in
      elim (if-ok (not granted) _ _ _ h1) [
        | inl (no_way, h2) ↦ absurd (false≢true (pure-ok false true _ h2))
        | inr (yes_way, h2) ↦
            let (p, w, said) = empty_password_ok-ok s (g ∙ ap ok (negated_false granted yes_way)) in
            let (on, (k, a)) = account_ok-ok _ h2 in
            record {
              permitted = p;
              by_password = w;
              said = said;
              with_pam = on;
              account = (k, a);
              same = SameLogin-SameUser s _ (empty_password-SameLogin.at s);
            }
      ]

  -- From the state `s`, with the packets `types` to come, a round accepts: this one, or a later one
  -- in the state that this one has left. The user is that of the state `first`.
  abbrev pub SomeRound : (first : Server) (prev : ℕ) (types : List ℕ) (s : Server) → Type 0
  SomeRound first prev [] s = ⊥
  SomeRound first prev (type ∷ types) s =
      (SameUser first (at_lookup env prev type s) × Granted env type (at_lookup env prev type s))
      ⊎ (((auth_round env prev type s).0 ≢ ok accepted)
          × SomeRound first type types (auth_round env prev type s).1)

  go_on-ok :
      (first : Server) (prev type : ℕ) (types : List ℕ) (s : Server) (v : Verdict)
      → SameUser first s
      → (auth_round env prev type s).0 ≡ ok v
      → ((auth_rounds env type types (auth_round env prev type s).1).0 ≡ ok tt
          → SomeRound first type types (auth_round env prev type s).1)
      → (go_on v (auth_rounds env type types) (auth_round env prev type s).1).0 ≡ ok tt
      → SomeRound first prev (type ∷ types) s
  unfolding go_on
  go_on-ok first prev type types s accepted same r ih h =
      let (kept, granted) = auth_round-accepted env prev type s r in
      inl (SameUser-IsFrame.compose first s _ same (SameLogin-SameUser s _ kept), granted)
  go_on-ok first prev type types s waiting same r ih h = inr ((λ e. other (sym r ∙ e)), ih h)
    where
      other : ok waiting ≡ ok accepted → ⊥
      other e = cc
  go_on-ok first prev type types s rejected same r ih h = inr ((λ e. other (sym r ∙ e)), ih h)
    where
      other : ok rejected ≡ ok accepted → ⊥
      other e = cc

  auth_rounds-ok :
      (first : Server) (prev : ℕ) (types : List ℕ) (s : Server)
      → SameUser first s
      → (auth_rounds env prev types s).0 ≡ ok tt
      → SomeRound first prev types s
  unfolding auth_rounds halt
  auth_rounds-ok first prev [] s same h = cc
  auth_rounds-ok first prev (type ∷ types) s same h =
      let (v, r, h1) = >>=-ok (auth_round env prev type) _ s h in
      go_on-ok first prev type types s v same r
        (auth_rounds-ok first type types (auth_round env prev type s).1
          (SameUser-IsFrame.compose first s _ same ((auth_round-SameUser env prev type).at s)))
        h1

  -- The state in which the loop over the packets begins.
  abbrev pub at_loop : Server → Server
  at_loop s = (emit (sent smsg_failure) (without_password env s).1).1

  -- do_authloop returns only if the user that it began with has been authenticated: by the empty
  -- password, where that is permitted and PAM is on and allows the account; or in one of its
  -- rounds, for some packet of the client, after rounds that did not accept: by a method that the
  -- table has for the packet's type, that is enabled, and that said yes in this round, with fewer
  -- failures before than MaxAuthTries; and then the user passed the tests on a valid user, on root
  -- and, where PAM is on, on the account.
  pub do_authloop-ok :
      (types : List ℕ) (s : Server)
      → (do_authloop env types s).0 ≡ ok tt
      → EmptyPassword s ⊎ SomeRound s 0 types (at_loop s)
  unfolding do_authloop emit
  do_authloop-ok types s h =
      let (done, w, h1) = >>=-ok (without_password env) _ s h in
      elim (if-ok done _ _ _ h1) [
        | inl (yes_way, h2) ↦ inl (without_password-ok s (w ∙ ap ok yes_way))
        | inr (no_way, h2) ↦
            let (x, e, h3) = >>=-ok (emit (sent smsg_failure)) _ _ h2 in
            inr (
              auth_rounds-ok s 0 types (at_loop s)
                (SameUser-IsFrame.compose s (without_password env s).1 _
                  (SameLogin-SameUser s _ (without_password-SameLogin.at s))
                  (SameUser-IsFrame.longer _ _))
                h3)
      ]
