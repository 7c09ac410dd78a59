-- ===== src/Ssh1/Loop/Ends.antt =====
-- The end of the loop of do_authloop.
use gexcloud.Auth.Frame.{account_check-SameLogin}
use gexcloud.Base.{
  Bool, List, [], ap, arith, false, if◌then◌else◌, length, refl, subst, sym, true, ℕ, ◌+◌, ◌<◌, ◌∙◌,
  ◌∷◌, ◌≡◌, ◌≢◌, ◌≤◌,
}
use gexcloud.Server.Env.{Env}
use gexcloud.Server.Event.{logged_auth, result, sent, smsg_failure}
use gexcloud.Server.Frame.{SameLogin, Within, login_rules}
use gexcloud.Server.Monad.{M, emit, lost, ok, pure, stop, ◌>>◌}
use gexcloud.Server.State.{Server}
use gexcloud.Server.Stops.{NoQuit, NoQuit-at, NoQuit-emit, stop_rules}
use gexcloud.Ssh1.Loop.{
  account_ok, auth_rounds, do_authloop, empty_password_ok, go_on, without_password,
}
use gexcloud.Ssh1.Round.{Verdict, accepted, auth_round, rejected, waiting}
use gexcloud.Ssh1.Round.Settles.{Final, round-Final}
use gexcloud.Ssh1.Round.Tries.{auth_round-Counted}
use gexcloud.Ssh1.Round.Waits.{account-NoQuit, auth_round-NoQuit}
use gexcloud.Text.{codes}

module _ (env : Env) where
  without_password-NoQuit : NoQuit (without_password env)
  unfolding without_password empty_password_ok account_ok
  without_password-NoQuit = search (stop_rules, account-NoQuit) depth 10

  without_password-SameLogin : Within SameLogin (without_password env)
  unfolding without_password empty_password_ok account_ok
  without_password-SameLogin = search (login_rules, account_check-SameLogin) depth 10

  module _ (off : env.options.challenge_response_authentication ≡ false) where
    next_round :
        (v : Verdict) (rest : M (Unit {0})) (t : Server)
        → Final v
        → (v ≡ rejected → (rest t).0 ≢ stop lost)
        → (go_on v rest t).0 ≢ stop lost
    unfolding go_on pure
    next_round accepted rest t f h = λ e. cc
    next_round waiting rest t f h = absurd (f refl)
    next_round rejected rest t f h = h refl

    rounds-end :
        (types : List ℕ) (prev : ℕ) (s : Server)
        → 0 < length types
        → env.options.max_authtries ≤ length types + s.auth.failures
        → (auth_rounds env prev types s).0 ≢ stop lost
    unfolding auth_rounds
    rounds-end [] prev s some_type enough = ground arith
    rounds-end (type ∷ types) prev s some_type enough =
        NoQuit-at (auth_round env prev type) (λ v. go_on v (auth_rounds env type types)) s
          (auth_round-NoQuit env prev type)
          λ v e. next_round v _ _ ((round-Final env off prev type).value s v e) λ refused.
            let (more, below) = auth_round-Counted env prev type s rejected (e ∙ ap ok refused) in
            rounds-end types type _ (ground arith) (ground arith)

    by_answer :
        (done : Bool) (types : List ℕ) (t : Server)
        → 0 < length types
        → env.options.max_authtries ≤ length types + t.auth.failures
        → ((if done
              then emit (logged_auth (result 1) (codes "without authentication") [])
              else (emit (sent smsg_failure) >> auth_rounds env 0 types))
            t).0
          ≢ stop lost
    unfolding emit
    by_answer true types t some_type enough =
        (NoQuit-emit (logged_auth (result 1) (codes "without authentication") [])).not_lost t
    by_answer false types t some_type enough =
        NoQuit-at (emit (sent smsg_failure)) _ t (NoQuit-emit _)
          λ x e. rounds-end types 0 _ some_type enough

    -- With challenge-response authentication off, do_authloop never waits for more packets than
    -- the tries that are left: if the client sends at least one packet, and at least as many as
    -- there are failures left to MaxAuthTries, the loop returns or ends the connection with one
    -- of these packets.
    pub do_authloop-ends :
        (types : List ℕ) (s : Server)
        → 0 < length types
        → env.options.max_authtries ≤ length types + s.auth.failures
        → (do_authloop env types s).0 ≢ stop lost
    unfolding do_authloop
    do_authloop-ends types s some_type enough =
        NoQuit-at (without_password env) _ s without_password-NoQuit λ done e.
          by_answer done types _ some_type (
            subst (λ n. env.options.max_authtries ≤ length types + n)
              (sym (without_password-SameLogin.at s).failures) enough)
