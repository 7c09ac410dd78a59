-- ===== src/Pam/Handle/Closed.antt =====
-- The end of the PAM handle.
use gexcloud.Base.{Option, arith, false, none, not, refl, some, ℕ, ◌&&◌, ◌≡◌, ◌≢◌}
use gexcloud.Pam.Conversation.{pam_set_item}
use gexcloud.Pam.Handle.{end_handle, sshpam_cleanup}
use gexcloud.Server.Env.{Env}
use gexcloud.Server.Monad.{ok, ◌>>=◌}
use gexcloud.Server.State.{Server}

-- Nothing of PAM is left open.
abbrev pub IsClosed : Server → Type 0
IsClosed s =
    (s.pam.handle ≡ none)
    × (s.pam.session_open ≡ false)
    × (s.pam.cred_established ≡ false)
    × (s.pam.authenticated ≡ false)

module _ (env : Env) where
  abbrev pub MayClean : Type 0
  MayClean = (env.use_privsep && not env.is_monitor) ≡ false

  cleanup_from :
      (s : Server) (o : Option ℕ)
      → s.pam.handle ≡ o
      → o ≢ none
      → MayClean
      → IsClosed (sshpam_cleanup env s).1
  unfolding sshpam_cleanup pam_set_item end_handle ◌>>=◌
  cleanup_from s none e ne may = absurd (ne refl)
  cleanup_from s (some h) e ne may = ground arith

  closed_again :
      (s : Server) (o : Option ℕ) → s.pam.handle ≡ o → o ≡ none → sshpam_cleanup env s ≡ (ok tt, s)
  unfolding sshpam_cleanup ◌>>=◌
  closed_again s none e n = ground arith
  closed_again s (some h) e n = cc

  pub sshpam_cleanup-twice :
      (s : Server)
      → s.pam.handle ≢ none
      → MayClean
      → IsClosed (sshpam_cleanup env s).1
        × (sshpam_cleanup env (sshpam_cleanup env s).1 ≡ (ok tt, (sshpam_cleanup env s).1))
  sshpam_cleanup-twice s ne may =
      let c = cleanup_from s s.pam.handle refl ne may in (c, closed_again _ _ refl c.0)
