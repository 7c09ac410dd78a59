-- ===== src/Ssh2/Success.antt =====
-- Who gets in by protocol 2: what has to hold for userauth_finish to end the authentication.
use mathlib.Core.Bool.{false≢true}
use gexcloud.Auth.Checks.{check_root, check_valid, is_zero}
use gexcloud.Auth.Checks.Passed.{Passed, Passed-checks}
use gexcloud.Auth.Frame.{account_check-SameLogin, root_refused-SameLogin}
use gexcloud.Auth.Privsep.{account_check}
use gexcloud.Base.{
  [], ap, arith, false, inl, inr, refl, suc, sym, true, zero, ℕ, ◌-◌, ◌∙◌, ◌∷◌, ◌≡◌, ◌≢◌,
}
use gexcloud.Server.Env.{Env}
use gexcloud.Server.Frame.{SameLogin, Within, login_rules}
use gexcloud.Server.Laws.{>>=-cases, >>=-ok, if-ok}
use gexcloud.Server.Monad.{M, account_denied, fatal, gets, halt, ok, ◌>>=◌}
use gexcloud.Server.State.{Server}
use gexcloud.Ssh2.Banner.{userauth_send_banner}
use gexcloud.Ssh2.Finish.{
  check_account, conclude, deny, refuse, require_account, show_login_message, succeed,
  userauth_finish,
}
use gexcloud.Text.{Bytes}

module _ (env : Env) where
  deny-ok : (s : Server) {x : Unit {0}} → (deny env s).0 ≡ ok x → ⊥
  deny-ok s h =
      let (text, _, h1) = >>=-ok (gets (λ s. s.loginmsg)) _ s h in
      let (y, _, h2) =
        >>=-ok (show_login_message env text) (λ _. halt (fatal account_denied)) _ h1 in
      unfold halt in cc h2

  require_account-ok :
      (t : Server) {x : Unit {0}}
      → (require_account env t).0 ≡ ok x
      → (k : ℕ) × ((account_check env t).0 ≡ ok (suc k))
  unfolding require_account
  require_account-ok t h =
      let (n, asked, h1) = >>=-ok (account_check env) _ t h in
      elim (if-ok (is_zero n) _ _ _ h1) [
        | inl (zero_way, h2) ↦ absurd (deny-ok _ h2)
        | inr (other, h2) ↦ (n - 1, asked ∙ ap ok (positive n other))
      ]
    where
      positive : (n : ℕ) → is_zero n ≡ false → n ≡ suc (n - 1)
      positive n h = ground arith

  check_account-ok :
      (n : ℕ) (t : Server) {x : Unit {0}}
      → (check_account env n t).0 ≡ ok x
      → n ≢ 0
      → env.options.use_pam ≡ true
      → (k : ℕ) × ((account_check env t).0 ≡ ok (suc k))
  unfolding check_account
  check_account-ok zero t h ne e = absurd (ne refl)
  check_account-ok (suc n) t h ne e = require_account-ok t {x = tt} (ground arith)

  pub check_root-SameLogin : (name : Bytes) (n : ℕ) → Within SameLogin (check_root env name n)
  unfolding check_root
  check_root-SameLogin name n = search (login_rules, root_refused-SameLogin) depth 8

  show-SameLogin : (text : Bytes) → Within SameLogin (show_login_message env text)
  unfolding show_login_message userauth_send_banner
  show-SameLogin [] = search login_rules
  show-SameLogin (c ∷ text) = search login_rules

  pub check_account-SameLogin : (n : ℕ) → Within SameLogin (check_account env n)
  unfolding check_account require_account
  check_account-SameLogin n = search (login_rules, account_check-SameLogin, show-SameLogin) depth 10

  pub check_valid-SameLogin : (n : ℕ) → Within SameLogin (check_valid env n)
  unfolding check_valid
  check_valid-SameLogin n = search login_rules

  conclude-success :
      (method : Bytes) (n : ℕ) (s : Server)
      → (conclude env method n s).1.auth.success ≡ true
      → s.auth.success ≡ false
      → (n ≡ 1) × (s.auth.postponed ≡ false)
  unfolding conclude succeed refuse ◌>>=◌
  conclude-success method n s h f = ground arith

  -- An action that leaves the login alone, in front of one that sets `success`.
  through :
      {A B : Type 0} {m : M A} (w : Within SameLogin m) (f : A → M B) (s : Server)
      → s.auth.success ≡ false
      → ((m >>= f) s).1.auth.success ≡ true
      → (a : A) × ((m s).0 ≡ ok a)
        × ((f a (m s).1).1.auth.success ≡ true)
        × ((m s).1.auth.success ≡ false)
  through {m} w f s off on =
      let kept = (w.at s).success ∙ off in
      elim (>>=-cases m f s) [
        | inl (a, r, e) ↦ (a, r, ap (λ p. p.1.auth.success) (sym e) ∙ on, kept)
        | inr (x, r, e) ↦ absurd (false≢true (sym kept ∙ ap (λ p. p.1.auth.success) (sym e) ∙ on))
      ]

  -- userauth_finish sets `success` only if the method said 1 and did not postpone, the user is
  -- valid, root logs in by a method that is allowed for root, and PAM's account check, if PAM is
  -- on, said yes when it was asked in the state that the test on root had left.
  pub userauth_finish-success :
      (n : ℕ) (method : Bytes) (s : Server)
      → s.auth.success ≡ false
      → (userauth_finish env n method s).1.auth.success ≡ true
      → (n ≡ 1) × (s.auth.postponed ≡ false) × Passed env method s (check_root env method n s).1
  unfolding userauth_finish
  userauth_finish-success n method s f h =
      let (x, v, h1, f1) = through (check_valid-SameLogin n) _ s f h in
      let (m, r, h2, f2) = through (check_root-SameLogin method n) _ _ f1 h1 in
      let (y, c, h3, f3) = through (check_account-SameLogin m) _ _ f2 h2 in
      let (one, waits) = conclude-success method m _ h3 f3 in
      let ne : m ≢ 0 = ground arith in
      let (same, p) = Passed-checks env method n m s v r ne (λ on. check_account-ok m _ c ne on) in
      let still = (check_valid-SameLogin n).at s in
      let still' = (check_root-SameLogin method n).at (check_valid env n s).1 in
      let still'' =
        (check_account-SameLogin m).at (check_root env method n (check_valid env n s).1).1 in
      (same ∙ one, sym still.postponed ∙ sym still'.postponed ∙ sym still''.postponed ∙ waits, p)
