-- ===== src/Pam/Password/Secret.antt =====
-- The password that sshpam_auth_passwd holds for the conversation.
use gexcloud.Base.{
  Bool, Option, arith, false, if◌then◌else◌, none, not, refl, subst, sym, true, ℕ, ◌||◌, ◌≡◌, ◌≢◌,
}
use gexcloud.Pam.Password.{
  ask_password, end_password, is_none, sshpam_auth_passwd, try_password, with_password,
}
use gexcloud.Server.Env.{Env}
use gexcloud.Server.Laws.{>>=-eq, >>=-ok, >>=-run, ok_injective}
use gexcloud.Server.Monad.{M, fatal, gets, halt, ok, pam_disabled, ◌>>=◌}
use gexcloud.Server.Pam.{PamCode, is_success}
use gexcloud.Server.State.{Server}
use gexcloud.Text.{Bytes}

-- The password is gone, and the answer is 1 just where PAM's last code is PAM_SUCCESS.
abbrev pub Judged : ℕ → Server → Type 0
Judged n t = (t.pam.password ≡ none) × (n ≡ (if is_success t.pam.err then 1 else 0))

end_password-Judged :
    (code : PamCode) (s : Server) {n : ℕ}
    → (end_password code s).0 ≡ ok n
    → Judged n (end_password code s).1
unfolding end_password ◌>>=◌
end_password-Judged code s h = (refl, sym (ok_injective h))

module _ (env : Env) where
  try_password-Judged :
      (s : Server) {n : ℕ} → (try_password env s).0 ≡ ok n → Judged n (try_password env s).1
  unfolding try_password
  try_password-Judged s {n} h =
      let (code, c, h1) = >>=-ok (ask_password env) end_password s h in
      subst (λ p. Judged n p.1) (sym (>>=-run (ask_password env) end_password s code c))
        (end_password-Judged code _ h1)

  tail_Judged :
      {A : Type 0} (m : M A) (f : A → M ℕ) (s : Server) {n : ℕ}
      → ((a : A) (t : Server) → (f a t).0 ≡ ok n → Judged n (f a t).1)
      → ((m >>= f) s).0 ≡ ok n
      → Judged n ((m >>= f) s).1
  tail_Judged m f s {n} k h =
      let (a, c, h1) = >>=-ok m f s h in
      subst (λ p. Judged n p.1) (sym (>>=-run m f s a c)) (k a _ h1)

  with_password-Judged :
      (password : Bytes) (s : Server) {n : ℕ}
      → (with_password env password s).0 ≡ ok n
      → Judged n (with_password env password s).1
  unfolding with_password
  with_password-Judged password s h =
      tail_Judged _ _ s
        (λ a t.
          tail_Judged _ _ t
            (λ code t. tail_Judged _ _ t (λ x t. tail_Judged _ _ t (λ y t. try_password-Judged t))))
        h

  choose_Judged :
      (b : Bool) (password : Bytes) (s : Server) {n : ℕ}
      → ((if b then halt (fatal pam_disabled) else with_password env password) s).0 ≡ ok n
      → (b ≡ false)
        × Judged n ((if b then halt (fatal pam_disabled) else with_password env password) s).1
  unfolding halt
  choose_Judged true password s h = cc
  choose_Judged false password s h = (refl, with_password-Judged password s h)

  pub sshpam_auth_passwd-forgets :
      (password : Bytes) (s : Server) {n : ℕ}
      → (sshpam_auth_passwd env password s).0 ≡ ok n
      → (env.options.use_pam ≡ true)
        × (s.pam.handle ≢ none)
        × Judged n (sshpam_auth_passwd env password s).1
  unfolding sshpam_auth_passwd gets
  sshpam_auth_passwd-forgets password s {n} h =
      let e = >>=-eq (gets (λ s. s.pam.handle)) _ s refl in
      let (on, judged) =
        choose_Judged (not env.options.use_pam || is_none s.pam.handle) password s
          (subst (λ p. p.0 ≡ ok n) e h) in
      (has_pam _ _ on, has_handle _ _ on, subst (λ p. Judged n p.1) (sym e) judged)
    where
      has_pam : (a b : Bool) → (not a || b) ≡ false → a ≡ true
      has_pam a b h = ground arith

      has_handle : (a : Bool) (o : Option ℕ) → (not a || is_none o) ≡ false → o ≢ none
      has_handle a o h e = ground arith
