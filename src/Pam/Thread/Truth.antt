-- ===== src/Pam/Thread/Truth.antt =====
-- What the PAM process reports, and what PAM has answered it.
use gexcloud.Base.{
  Bool, Option, ap, arith, false, if◌then◌else◌, inl, inr, none, not, refl, some, subst, suc, sym,
  true, ℕ, ◌-◌, ◌==◌, ◌∙◌, ◌∷◌, ◌≡◌, ◌≢◌,
}
use gexcloud.Pam.Account.{
  do_pam_account, pam_chauthtok, sshpam_chauthtok_ruid, sshpam_password_change_required,
}
use gexcloud.Pam.Context.{load_ctxt, set_err, sshpam_authctxt_pw}
use gexcloud.Pam.Conversation.{pam_call, pam_set_item}
use gexcloud.Pam.Environment.{pam_getenvlist}
use gexcloud.Pam.Process.{pthread_exit}
use gexcloud.Pam.Thread.{
  auth_fail, failure_type, reset_environ, send_and_exit, sshpam_thread, thread_account,
  thread_authenticate, thread_change_password, thread_success,
}
use gexcloud.Pam.Waits.{do_pam_account-NoQuit, load-NoQuit, pam_call-NoQuit}
use gexcloud.Server.Env.{Env}
use gexcloud.Server.Event.{History, called_pam_authenticate, called_pam_get_user, msg_sent}
use gexcloud.Server.Laws.{>>=-cases, do_laws, is_success-only}
use gexcloud.Server.Monad.{
  M, Result, ask, exit, fatal, gets, halt, halt_if, ok, or_halt, pam_authctxt_missing, pure, stop,
  undefined, ◌>>=◌, ◌>>◌,
}
use gexcloud.Server.Pam.{
  PamCode, PamItem, conv_item, is_success, pam_acct_expired, pam_success, thread_conv,
}
use gexcloud.Server.State.{PamCtxt, Server}
use gexcloud.Server.Stops.{
  NoQuit, NoQuit-gets, NoQuit-modify, NoQuit-undefined, stop_injective, stop_rules,
}
use gexcloud.Text.{Bytes}

module _ (env : Env) where
  abbrev authenticate : M PamCode
  authenticate =
      pam_call env (called_pam_authenticate (not env.options.permit_empty_passwd))
        (env.pam_authenticate (not env.options.permit_empty_passwd))

  -- sshpam_thread up to the call of pam_authenticate, or to what takes its place when PAM has not
  -- taken the conversation function, which the code says.
  unfoldable pub thread_ready : ℕ → M (PamCtxt × PamCode)
  thread_ready p = do
    ctxt ← load_ctxt p
    found ← ask called_pam_get_user env.pam_get_user
    set_err found
    halt_if (not (is_success found)) undefined
    reset_environ env env.tz
    known ← gets (λ s. s.pam.authctxt_set)
    halt_if (not known) (fatal pam_authctxt_missing)
    code ← pam_set_item env (conv_item (thread_conv p))
    set_err code
    pure (ctxt, code)

  -- PAM, called in the state `v`, has authenticated the user; and in protocol 2 do_pam_account,
  -- called in the state that this has left, has allowed the account.
  pub record Approved (v : Server) : Type 0 where
    pub authenticated : (authenticate v).0 ≡ ok pam_success
    pub account :
        env.compat20 ≡ true
        → (k : ℕ) × ((do_pam_account env (set_err pam_success (authenticate v).1).1).0 ≡ ok (suc k))

  -- The last thing that was done was to send a message, and if that says that all is well, it is.
  pub record Reported (v t : Server) : Type 0 where
    pub csock : Option ℕ
    pub type : PamCode
    pub payload : Bytes
    pub earlier : History
    pub last : t.history ≡ msg_sent csock type payload ∷ earlier
    pub true_success : type ≡ pam_success → Approved v

  abbrev Reports : Server → M (Unit {0}) → Server → Type 0
  Reports v m s = (m s).0 ≡ stop (exit 0) → Reported v (m s).1

  then-Reports :
      {A : Type 0} (v : Server) (m : M A) (f : A → M (Unit {0})) (s : Server)
      → NoQuit m
      → ((a : A) → (m s).0 ≡ ok a → Reports v (f a) (m s).1)
      → Reports v (m >>= f) s
  then-Reports v m f s quits hf q = elim (>>=-cases m f s) [
    | inl (a, r, run) ↦
        subst (λ (p : Result (Unit {0}) × Server). p.0 ≡ stop (exit 0) → Reported v p.1) (sym run)
          (hf a r) q
    | inr (e, r, run) ↦ absurd (
        quits.not_exit 0 s (
          r
          ∙ ap stop (stop_injective (ap (λ (p : Result (Unit {0}) × Server). p.0) (sym run) ∙ q))))
  ]

  if-Reports :
      (v : Server) (b : Bool) (m n : M (Unit {0})) (s : Server)
      → (b ≡ true → Reports v m s)
      → (b ≡ false → Reports v n s)
      → Reports v (if b then m else n) s
  if-Reports v true m n s hm hn = hm refl
  if-Reports v false m n s hm hn = hn refl

  no_success : (code : PamCode) → failure_type env code ≢ pam_success
  no_success pam_acct_expired e = cc
  no_success _ e = cc

  fail-Reports :
      (v : Server) (ctxt : PamCtxt) (code : PamCode) (s : Server)
      → Reports v (auth_fail env ctxt code) s
  unfolding auth_fail pthread_exit ◌>>=◌
  fail-Reports v ctxt code s q = record {
    csock = ctxt.pam_csock;
    type = failure_type env code;
    payload = env.put_cstring (env.pam_strerror code);
    earlier = s.history;
    last = refl;
    true_success = λ e. absurd (no_success code e);
  }

  send-Reports :
      (v : Server) (ctxt : PamCtxt) (type : PamCode) (payload : Bytes) (s : Server)
      → Approved v
      → Reports v (send_and_exit env ctxt type payload) s
  unfolding pthread_exit ◌>>=◌
  send-Reports v ctxt type payload s a q = record {
    csock = ctxt.pam_csock;
    type = type;
    payload = payload;
    earlier = s.history;
    last = refl;
    true_success = λ e. a;
  }

  getenvlist-NoQuit : NoQuit (pam_getenvlist env)
  unfolding pam_getenvlist
  getenvlist-NoQuit = search stop_rules

  success-Reports :
      (v : Server) (ctxt : PamCtxt) (s : Server)
      → Approved v
      → Reports v (thread_success env ctxt) s
  unfolding thread_success
  success-Reports v ctxt s a =
      then-Reports v _ _ s (NoQuit-gets _)
        λ t e. then-Reports v _ _ _ getenvlist-NoQuit λ from_pam e'. send-Reports v ctxt _ _ _ a

  load_pw-NoQuit : NoQuit sshpam_authctxt_pw
  unfolding sshpam_authctxt_pw or_halt halt pure
  load_pw-NoQuit = record { not_lost = λ s e. ground arith; not_exit = λ n s e. ground arith }

  chauthtok-NoQuit : NoQuit (pam_chauthtok env)
  unfolding pam_chauthtok sshpam_chauthtok_ruid
  chauthtok-NoQuit = search (stop_rules, pam_call-NoQuit, load_pw-NoQuit) depth 16

  required-NoQuit : (n : ℕ) → NoQuit (sshpam_password_change_required n)
  unfolding sshpam_password_change_required
  required-NoQuit n = search stop_rules depth 10

  change-Reports :
      (v : Server) (ctxt : PamCtxt) (s : Server)
      → Approved v
      → Reports v (thread_change_password env ctxt) s
  unfolding thread_change_password
  change-Reports v ctxt s a = then-Reports v _ _ s chauthtok-NoQuit λ code e.
      then-Reports v _ _ _ (NoQuit-modify _) λ x e'.
        if-Reports v (is_success code) _ _ _
          (λ good. then-Reports v _ _ _ (required-NoQuit 0) λ y e''. success-Reports v ctxt _ a)
          (λ bad. fail-Reports v ctxt code _)

  not_zero : (n : ℕ) → (n == 0) ≡ false → n ≡ suc (n - 1)
  not_zero n h = ground arith

  both : {b : Bool} → not b ≡ true → b ≡ true → ⊥
  both h k = ground arith

  account-Reports :
      (v : Server) (ctxt : PamCtxt)
      → (authenticate v).0 ≡ ok pam_success
      → Reports v (thread_account env ctxt) (set_err pam_success (authenticate v).1).1
  unfolding thread_account
  account-Reports v ctxt good =
      if-Reports v (not env.compat20) _ _ _
        (λ one.
          success-Reports v ctxt _
            (record { authenticated = good; account = λ two. absurd (both one two) }))
        (λ two. then-Reports v _ _ _ (do_pam_account-NoQuit env) λ allowed e.
          if-Reports v (allowed == 0) _ _ _ (λ none_left. fail-Reports v ctxt pam_acct_expired _)
            λ some_left.
              let a : Approved v = record {
                authenticated = good;
                account = λ x. (allowed - 1, e ∙ ap ok (not_zero allowed some_left));
              } in
              then-Reports v _ _ _ (NoQuit-gets _) λ force e'.
                if-Reports v (force == 0) _ _ _ (λ z. success-Reports v ctxt _ a)
                  (λ z. change-Reports v ctxt _ a))

  authenticate-Reports : (ctxt : PamCtxt) (v : Server) → Reports v (thread_authenticate env ctxt) v
  unfolding thread_authenticate
  authenticate-Reports ctxt v = then-Reports v authenticate _ v (pam_call-NoQuit env _ _) λ code e.
      then-Reports v _ _ _ (NoQuit-modify _) λ x e'.
        if-Reports v (is_success code) _ _ _
          (λ good.
            let c = is_success-only code good in
            subst (λ k. Reports v (thread_account env ctxt) (set_err k (authenticate v).1).1)
              (sym c) (account-Reports v ctxt (e ∙ ap ok c)))
          (λ bad. fail-Reports v ctxt code _)

  reset-NoQuit : (tz : Option Bytes) → NoQuit (reset_environ env tz)
  unfolding reset_environ
  reset-NoQuit none = search stop_rules
  reset-NoQuit (some t) = search stop_rules depth 8

  set_item-NoQuit : (i : PamItem) → NoQuit (pam_set_item env i)
  unfolding pam_set_item
  set_item-NoQuit i = search stop_rules depth 8

  thread_ready-NoQuit : (p : ℕ) → NoQuit (thread_ready p)
  unfolding thread_ready
  thread_ready-NoQuit p =
      search (stop_rules, load-NoQuit, NoQuit-undefined, reset-NoQuit, set_item-NoQuit) depth 30

  thread_then :
      (p : ℕ)
      → sshpam_thread env p ≡ (
          thread_ready p >>= λ r.
          if is_success r.1 then thread_authenticate env r.0 else auth_fail env r.0 r.1)
  unfolding sshpam_thread thread_ready
  thread_then p = simp do_laws

  -- When the PAM process ends by itself, with exit status 0, the last thing that it has done is to
  -- send its parent a message; and if that message says PAM_SUCCESS, pam_authenticate, called
  -- where the process is ready for it, has returned PAM_SUCCESS, and in protocol 2 do_pam_account,
  -- called in the state that pam_authenticate has left, has allowed the account.
  pub sshpam_thread-Reported :
      (p : ℕ) (s : Server)
      → (sshpam_thread env p s).0 ≡ stop (exit 0)
      → Reported (thread_ready p s).1 (sshpam_thread env p s).1
  sshpam_thread-Reported p s =
      subst (λ m. Reports (thread_ready p s).1 m s) (sym (thread_then p))
        (then-Reports _ (thread_ready p) _ s (thread_ready-NoQuit p) λ r e.
          if-Reports _ (is_success r.1) _ _ _ (λ good. authenticate-Reports r.0 _)
            (λ bad. fail-Reports _ r.0 r.1 _))
