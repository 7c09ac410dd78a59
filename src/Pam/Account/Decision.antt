-- ===== src/Pam/Account/Decision.antt =====
-- PAM's decision on an account.
use gexcloud.Base.{Bool-cases, ap, arith, inl, inr, refl, sym, true, ℕ, ◌==◌, ◌∙◌, ◌≡◌, ◌≢◌, ◌⊎◌}
use gexcloud.Pam.Account.{
  account_outcome, do_pam_account, sshpam_password_change_required, undecided,
}
use gexcloud.Pam.Context.{set_err}
use gexcloud.Pam.Conversation.{pam_call}
use gexcloud.Server.Env.{Env}
use gexcloud.Server.Event.{called_pam_acct_mgmt}
use gexcloud.Server.Laws.{>>=-eq, >>=-ok, >>=-run, ok_injective}
use gexcloud.Server.Monad.{M, gets, modify, ok, ◌>>=◌, ◌>>◌}
use gexcloud.Server.Pam.{PamCode, pam_new_authtok_reqd, pam_success}
use gexcloud.Server.State.{Server}

outcome-decides :
    (c : PamCode) (s : Server) {r : ℕ}
    → (account_outcome c s).0 ≡ ok r
    → ((r ≡ 0) ⊎ (r ≡ 1)) × ((account_outcome c s).1.pam.account_status ≡ r)
unfolding account_outcome sshpam_password_change_required ◌>>=◌
outcome-decides pam_success s h = ground arith
outcome-decides pam_new_authtok_reqd s h = ground arith
outcome-decides _ s h = ground arith

module _ (env : Env) where
  unfoldable ask_pam : M ℕ
  ask_pam = pam_call env called_pam_acct_mgmt env.pam_acct_mgmt >>= λ code. do
    set_err code
    account_outcome code

  ask_pam-decides :
      (s : Server) {r : ℕ}
      → (ask_pam s).0 ≡ ok r
      → ((r ≡ 0) ⊎ (r ≡ 1)) × ((ask_pam s).1.pam.account_status ≡ r)
  unfolding ask_pam modify
  ask_pam-decides s h =
      let (code, c, h1) = >>=-ok (pam_call env called_pam_acct_mgmt env.pam_acct_mgmt) _ s h in
      let run =
        >>=-run (pam_call env called_pam_acct_mgmt env.pam_acct_mgmt)
          (λ code. do set_err code; account_outcome code) s code c in
      let (x, y, h2) = >>=-ok (set_err code) (λ _. account_outcome code) _ h1 in
      let run' = >>=-run (set_err code) (λ _. account_outcome code) _ x y in
      let (bit, status) = outcome-decides code _ h2 in
      (bit, ap (λ p. p.1.pam.account_status) (run ∙ run') ∙ status)

  -- An answer that is known is given again, and PAM is not asked.
  pub do_pam_account-known :
      (s : Server)
      → s.pam.account_status ≢ undecided
      → do_pam_account env s ≡ (ok s.pam.account_status, s)
  unfolding do_pam_account ◌>>=◌
  do_pam_account-known s h = ground arith

  asks :
      (s : Server) → (s.pam.account_status == undecided) ≡ true → do_pam_account env s ≡ ask_pam s
  unfolding do_pam_account ask_pam gets
  asks s e = >>=-eq (gets (λ s. s.pam.account_status)) _ s refl ∙ rw e

  -- If do_pam_account returns, a second call of it returns the same result, changes nothing and
  -- does not ask PAM again.
  pub do_pam_account-twice :
      (s : Server) {r : ℕ}
      → (do_pam_account env s).0 ≡ ok r
      → do_pam_account env (do_pam_account env s).1 ≡ (ok r, (do_pam_account env s).1)
  do_pam_account-twice s {r} h = elim (Bool-cases (s.pam.account_status == undecided)) [
    | inl open_yet ↦
        let (bit, status) = ask_pam-decides s (ap (λ p. p.0) (sym (asks s open_yet)) ∙ h) in
        let after = ap (λ p. p.1.pam.account_status) (asks s open_yet) ∙ status in
        do_pam_account-known _ (ground arith) ∙ rw after
    | inr known ↦
        let k = do_pam_account-known s (ground arith) in
        let same : s.pam.account_status ≡ r = ok_injective (ap (λ p. p.0) (sym k) ∙ h) in
        ap (λ p. do_pam_account env p.1) k
        ∙ (k ∙ (ap (λ v. (ok v, s)) same ∙ ap (λ p. (ok r, p.1)) (sym k)))
  ]
