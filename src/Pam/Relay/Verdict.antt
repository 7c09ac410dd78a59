-- ===== src/Pam/Relay/Verdict.antt =====
-- The last message of the PAM process, and what its parent makes of it.
use gexcloud.Base.{
  Bool, List, Option, [], ap, false, get_elem?, if◌then◌else◌, none, not, refl, set, some, true, ℕ,
  ◌++◌, ◌∙◌, ◌∷◌, ◌≡◌,
}
use gexcloud.Pam.Account.{set_account_status}
use gexcloud.Pam.Context.{load_ctxt, store_ctxt}
use gexcloud.Pam.Device.{let_in, no_answer, query_failed, query_loop, set_done, sshpam_query}
use gexcloud.Pam.Device.Admitted.{RootPermitted, mark, sshpam_query-admitted}
use gexcloud.Pam.Device.Prompts.{load_known, query_live}
use gexcloud.Pam.Environment.{buffer_get_string, or_none, pam_getenvlist}
use gexcloud.Pam.Environment.RoundTrip.{Exportable, IsCodec, imported}
use gexcloud.Pam.Process.{pthread_exit}
use gexcloud.Pam.Relay.{get_alone, outbox}
use gexcloud.Pam.Thread.{auth_fail, failure_type, send_and_exit, success_payload, thread_success}
use gexcloud.Server.Env.{Env}
use gexcloud.Server.Event.{History, called_pam_getenvlist}
use gexcloud.Server.Laws.{>>=-eq, or_halt-some}
use gexcloud.Server.Monad.{
  Result, ask, bad_packet, fatal, gets, halt_if, modify, ok, pure, skip, undefined, ◌>>=◌,
}
use gexcloud.Server.Pam.{PamCode, pam_acct_expired, pam_success}
use gexcloud.Server.State.{PamCtxt, Passwd, Server, failed}
use gexcloud.Text.{Bytes}

module _ (env : Env) where
  -- The environment of PAM that a PAM process exports.
  abbrev pub listed : Server → Option (List Bytes)
  listed s =
      if env.build.have_getenvlist
      then env.pam_getenvlist (called_pam_getenvlist ∷ s.history)
      else none

  abbrev noted : Bool → History → History
  noted b h = if b then called_pam_getenvlist ∷ h else h

  list_if :
      (b : Bool) (s : Server)
      → (if b then ask called_pam_getenvlist env.pam_getenvlist else pure none) s ≡ (
        ok (if b then env.pam_getenvlist (called_pam_getenvlist ∷ s.history) else none),
        record s { history = noted b s.history },
      )
  unfolding ask pure
  list_if true s = refl
  list_if false s = refl

  outbox-noted : (b : Bool) (h : History) → outbox (noted b h) ≡ outbox h
  outbox-noted true h = refl
  outbox-noted false h = refl

  abbrev pub payload_of : Server → Bytes
  payload_of s = success_payload env s.pam.account_status s.auth.force_pwchange s.environ (listed s)

  sent_last :
      (ctxt : PamCtxt) (type : PamCode) (payload : Bytes) (s : Server)
      → outbox (send_and_exit env ctxt type payload s).1.history
        ≡ outbox s.history ++ (type, payload) ∷ []
  unfolding pthread_exit ◌>>=◌
  sent_last ctxt type payload s = refl

  success-outbox :
      (ctxt : PamCtxt) (s : Server)
      → outbox (thread_success env ctxt s).1.history
        ≡ outbox s.history ++ (s.pam.err, payload_of s) ∷ []
  unfolding thread_success pam_getenvlist gets
  success-outbox ctxt s =
      let b = env.build.have_getenvlist in
      ap (λ (r : Result (Unit {0}) × Server). outbox r.1.history)
        (>>=-eq (gets (λ s. s)) _ s refl ∙ >>=-eq (pam_getenvlist env) _ s (list_if b s))
      ∙ (sent_last ctxt s.pam.err (payload_of s) (record s { history = noted b s.history })
          ∙ ap (λ o. o ++ (s.pam.err, payload_of s) ∷ []) (outbox-noted b s.history))

  -- A PAM process that has succeeded, and has sent nothing before, tells its parent so: what
  -- thread_success sends makes sshpam_query of the parent answer that no prompt is needed, take
  -- over the account status, the flag for a password change and both environments of the PAM
  -- process, and mark the context as succeeded, provided that buffer.c gets what it puts,
  -- sshpam_authctxt and its password entry are set, root is not the user unless PermitRootLogin
  -- says yes, the context is live, and what is sent is within the bounds of Exportable.
  pub thread_success-query :
      (codec : IsCodec env) (child_ctxt : PamCtxt) (child : Server) (p : ℕ) (ctxt : PamCtxt)
      (pw : Passwd) (parent : Server)
      → outbox child.history ≡ []
      → child.pam.err ≡ pam_success
      → Exportable env codec child.pam.account_status child.auth.force_pwchange child.environ
          (listed child)
      → parent.pam.authctxt_set ≡ true
      → parent.auth.pw ≡ some pw
      → RootPermitted env pw
      → get_elem? parent.pam.contexts p ≡ some (some ctxt)
      → sshpam_query env p (outbox (thread_success env child_ctxt child).1.history) parent ≡ (
        ok let_in,
        mark env p ctxt (
            imported env codec child.pam.account_status child.auth.force_pwchange child.environ
              (or_none env (listed child))
              parent),
      )
  thread_success-query codec child_ctxt child p ctxt pw parent quiet good x known e root found =
      ap (λ b. sshpam_query env p b parent)
        (success-outbox child_ctxt child
          ∙ (ap (λ o. o ++ (child.pam.err, payload_of child) ∷ []) quiet
              ∙ ap (λ c. (c, payload_of child) ∷ []) good))
      ∙ sshpam_query-admitted env codec p ctxt pw child.pam.account_status child.auth.force_pwchange
          child.environ (listed child) [] parent known e root found x

  fail-outbox :
      (ctxt : PamCtxt) (code : PamCode) (s : Server)
      → outbox (auth_fail env ctxt code s).1.history
        ≡ outbox s.history ++ (failure_type env code, env.put_cstring (env.pam_strerror code)) ∷ []
  unfolding auth_fail pthread_exit ◌>>=◌
  fail-outbox ctxt code s = refl

  -- An expired account is remembered.
  abbrev pub decided : PamCode → Server → Server
  decided pam_acct_expired s = record s { pam = record s.pam { account_status = 0 } }
  decided _ s = s

  abbrev pub refused : ℕ → PamCtxt → Server → Server
  refused p ctxt s = record s {
    pam = record s.pam {
      contexts = set s.pam.contexts p (some (record ctxt { pam_done = failed }));
    };
  }

  module _ (codec : IsCodec env) (p : ℕ) (ctxt : PamCtxt) where
    failed_query :
        (s : Server)
        → s.pam.authctxt_set ≡ true
        → get_elem? s.pam.contexts p ≡ some (some ctxt)
        → query_failed env p none s ≡ (ok (no_answer none (some 0) (some false)), refused p ctxt s)
    unfolding query_failed set_done store_ctxt modify pure gets
    failed_query s known found =
        >>=-eq skip _ s refl
        ∙ (>>=-eq (gets (λ s. s.pam.authctxt_set)) _ s refl
            ∙ (>>=-eq (halt_if (not s.pam.authctxt_set) undefined) _ s
                  (ap (λ b. halt_if (not b) undefined s) known)
                ∙ >>=-eq (set_done p failed) _ s
                    (>>=-eq (load_ctxt p) _ s (load_known p ctxt s found))))

    told_failure :
        (code : PamCode) (text : Bytes) (s : Server)
        → s.pam.authctxt_set ≡ true
        → get_elem? s.pam.contexts p ≡ some (some ctxt)
        → sshpam_query env p ((failure_type env code, env.put_cstring text) ∷ []) s
          ≡ (ok (no_answer none (some 0) (some false)), refused p ctxt (decided code s))
    unfolding query_loop buffer_get_string modify
    told_failure pam_acct_expired text s known found =
        query_live env p ctxt _ s found
        ∙ (>>=-eq (buffer_get_string env (env.put_cstring text)) _ s
              (or_halt-some (text, []) (fatal bad_packet) s (get_alone env codec text))
            ∙ (>>=-eq (set_account_status 0) _ s refl
                ∙ failed_query (decided pam_acct_expired s) known found))
    told_failure _ text s known found =
        query_live env p ctxt _ s found
        ∙ (>>=-eq (buffer_get_string env (env.put_cstring text)) _ s
              (or_halt-some (text, []) (fatal bad_packet) s (get_alone env codec text))
            ∙ failed_query s known found)

    -- A PAM process that has failed, and has sent nothing before, tells its parent so: what
    -- auth_fail sends makes sshpam_query of the parent return -1 and mark the context as failed,
    -- and an expired account makes it remember that the account is refused; nothing else of the
    -- state changes. (buffer.c gets what it puts, sshpam_authctxt is set, and the context is live.)
    pub auth_fail-query :
        (child_ctxt : PamCtxt) (code : PamCode) (child parent : Server)
        → outbox child.history ≡ []
        → parent.pam.authctxt_set ≡ true
        → get_elem? parent.pam.contexts p ≡ some (some ctxt)
        → sshpam_query env p (outbox (auth_fail env child_ctxt code child).1.history) parent
          ≡ (ok (no_answer none (some 0) (some false)), refused p ctxt (decided code parent))
    auth_fail-query child_ctxt code child parent quiet known found =
        ap (λ b. sshpam_query env p b parent)
          (fail-outbox child_ctxt code child
            ∙ ap (λ o. o ++ (failure_type env code, env.put_cstring (env.pam_strerror code)) ∷ [])
                quiet)
        ∙ told_failure code (env.pam_strerror code) parent known found
