-- ===== src/Ssh1/Loop/Admits.antt =====
-- do_authentication as a whole.
use gexcloud.Base.{List, ap, ℕ, ◌∙◌, ◌∷◌, ◌≡◌, ◌⊎◌}
use gexcloud.Server.Env.{Env}
use gexcloud.Server.Event.{sent, smsg_success}
use gexcloud.Server.Laws.{>>=-ok, >>=-run}
use gexcloud.Server.Monad.{emit, ok}
use gexcloud.Server.State.{Server}
use gexcloud.Ssh1.Entry.{EmptyPassword, SomeRound, at_loop, do_authloop-ok}
use gexcloud.Ssh1.Loop.{begin_authentication, do_authentication, do_authloop}
use gexcloud.Ssh1.Loop.Begun.{Begun, begin_authentication-Begun}

module _ (env : Env) where
  -- do_authentication returns only if its head has come through, for the user that the packet
  -- names (known or not, with the password entry of getpwnamallow or of fakepw), and that user has
  -- been authenticated in the loop: by the empty password, where that is permitted and PAM is on
  -- and allows the account; or in a round for some packet of the client, by an enabled method that
  -- said yes in that round, and by the tests behind it; and the last message that was sent is
  -- SSH_SMSG_SUCCESS.
  pub do_authentication-ok :
      (types : List ℕ) (s : Server)
      → (do_authentication env types s).0 ≡ ok tt
      → let named = (begin_authentication env s).1 in
        Begun env s named
        × (EmptyPassword env named ⊎ SomeRound env named 0 types (at_loop env named))
        × ((do_authentication env types s).1.history
            ≡ sent smsg_success ∷ (do_authloop env types named).1.history)
  unfolding do_authentication emit
  do_authentication-ok types s h =
      let (x, b, h1) = >>=-ok (begin_authentication env) _ s h in
      let (y, l, h2) = >>=-ok (do_authloop env types) _ _ h1 in
      (
        begin_authentication-Begun env s b,
        do_authloop-ok env types _ l,
        ap (λ r. r.1.history)
            (>>=-run (begin_authentication env) _ s x b ∙ >>=-run (do_authloop env types) _ _ y l),
      )
