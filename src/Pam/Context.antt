-- ===== src/Pam/Context.antt =====
-- Access to the statics of auth-pam_next.c, and to its pam_ctxt objects by pointer.
use gexcloud.Base.{Bool, Option, false, get_elem?, none, set, some, true, ℕ, ◌++◌}
use gexcloud.Server.Monad.{M, halt, modify, or_halt, pure, undefined}
use gexcloud.Server.Pam.{PamCode}
use gexcloud.Server.State.{Authctxt, Pam, PamCtxt, Passwd}
use gexcloud.Text.{Bytes}

abbrev pub modify_pam : (Pam → Pam) → M (Unit {0})
modify_pam f = modify (λ s. record s { pam = f s.pam })

abbrev pub modify_auth : (Authctxt → Authctxt) → M (Unit {0})
modify_auth f = modify (λ s. record s { auth = f s.auth })

abbrev pub set_err : PamCode → M (Unit {0})
set_err c = modify_pam (λ p. record p { err = c })

abbrev pub live : Option (Option PamCtxt) → M PamCtxt
live none = halt undefined
live (some none) = halt undefined
live (some (some c)) = pure c

-- `ctxt->…`: a pointer to no object, or to one that was freed, is undefined.
unfoldable pub load_ctxt : ℕ → M PamCtxt
load_ctxt p s = live (get_elem? s.pam.contexts p) s

unfoldable pub store_ctxt : ℕ → Option PamCtxt → M (Unit {0})
store_ctxt p c = modify_pam (λ q. record q { contexts = set q.contexts p c })

-- `buffer_append(&loginmsg, text, …)`
abbrev pub append_loginmsg : Bytes → M (Unit {0})
append_loginmsg text = modify (λ s. record s { loginmsg = s.loginmsg ++ text })

abbrev pub pw_behind : Bool → Option Passwd → M Passwd
pw_behind true pw = or_halt pw undefined
pw_behind false pw = halt undefined

-- `sshpam_authctxt` is used where the source does not test it against NULL.
unfoldable pub sshpam_authctxt_pw : M Passwd
sshpam_authctxt_pw s = pw_behind s.pam.authctxt_set s.auth.pw s
