-- ===== src/Pam/Device/Admitted.antt =====
-- Who is let in by the keyboard-interactive device.
use gexcloud.Base.{
  Bool, List, Option, ap, arith, false, get_elem?, none, not, refl, set, some, true, ℕ, ◌&&◌, ◌==◌,
  ◌∙◌, ◌∷◌, ◌≡◌,
}
use gexcloud.Pam.Context.{load_ctxt, pw_behind, sshpam_authctxt_pw, store_ctxt}
use gexcloud.Pam.Device.{
  let_in, query_loop, query_succeeded, respond_done, set_done, sshpam_query, sshpam_respond,
}
use gexcloud.Pam.Device.Marks.{HasSucceeded}
use gexcloud.Pam.Device.Prompts.{get_put, load_known, query_live}
use gexcloud.Pam.Environment.{buffer_get_string, import_environments, or_none}
use gexcloud.Pam.Environment.RoundTrip.{Exportable, IsCodec, import-export, imported}
use gexcloud.Pam.Thread.{success_payload}
use gexcloud.Server.Env.{Env}
use gexcloud.Server.Laws.{>>=-eq, or_halt-some}
use gexcloud.Server.Monad.{
  fatal, halt_if, modify, ok, pure, root_authenticated, skip, undefined, ◌>>=◌,
}
use gexcloud.Server.Pam.{PamCode, pam_success}
use gexcloud.Server.State.{PamCtxt, Passwd, Server, succeeded}
use gexcloud.Text.{Bytes, codes}

module _ (env : Env) where
  respond_live :
      (p num : ℕ) (resp : Bytes) (s : Server) (ctxt : PamCtxt)
      → get_elem? s.pam.contexts p ≡ some (some ctxt)
      → s.pam.authenticated ≡ false
      → (sshpam_respond env p num resp s).1.pam.authenticated ≡ true
      → (ctxt.pam_done ≡ succeeded) × ((sshpam_respond env p num resp s).0 ≡ ok respond_done)
  unfolding sshpam_respond load_ctxt ◌>>=◌
  respond_live p num resp s ctxt e off on = ground arith

  respond_judged :
      (p num : ℕ) (resp : Bytes) (s : Server) (o : Option (Option PamCtxt))
      → get_elem? s.pam.contexts p ≡ o
      → s.pam.authenticated ≡ false
      → (sshpam_respond env p num resp s).1.pam.authenticated ≡ true
      → HasSucceeded p s × ((sshpam_respond env p num resp s).0 ≡ ok respond_done)
  unfolding sshpam_respond load_ctxt ◌>>=◌
  respond_judged p num resp s none e off on = ground arith
  respond_judged p num resp s (some none) e off on = ground arith
  respond_judged p num resp s (some (some ctxt)) e off on =
      let (m, r) = respond_live p num resp s ctxt e off on in
      (record { ctxt = ctxt; alive = e; marked = m }, r)

  -- If sshpam_respond turns sshpam_authenticated from 0 to 1, then pam_done of the context, which
  -- is live, says that PAM has succeeded, and the result is 0, for done.
  pub sshpam_respond-authenticated :
      (p num : ℕ) (resp : Bytes) (s : Server)
      → s.pam.authenticated ≡ false
      → (sshpam_respond env p num resp s).1.pam.authenticated ≡ true
      → HasSucceeded p s × ((sshpam_respond env p num resp s).0 ≡ ok respond_done)
  sshpam_respond-authenticated p num resp s off on =
      respond_judged p num resp s (get_elem? s.pam.contexts p) refl off on

  -- root may log in by this device only where PermitRootLogin says yes.
  abbrev pub RootPermitted : Passwd → Type 0
  RootPermitted pw = (pw.pw_uid == 0 && not env.options.permit_root_login_yes) ≡ false

  pw_known :
      (pw : Passwd) (s : Server)
      → s.pam.authctxt_set ≡ true
      → s.auth.pw ≡ some pw
      → sshpam_authctxt_pw s ≡ (ok pw, s)
  unfolding sshpam_authctxt_pw
  pw_known pw s e h = ap (λ b. pw_behind b s.auth.pw s) e ∙ or_halt-some pw undefined s h

  abbrev pub mark : ℕ → PamCtxt → Server → Server
  mark p ctxt s = record s {
    pam = record s.pam {
      contexts = set s.pam.contexts p (some (record ctxt { pam_done = succeeded }));
    };
  }

  set_done_known :
      (p : ℕ) (ctxt : PamCtxt) (s : Server)
      → get_elem? s.pam.contexts p ≡ some (some ctxt)
      → set_done p succeeded s ≡ (ok tt, mark p ctxt s)
  unfolding set_done store_ctxt modify
  set_done_known p ctxt s h = >>=-eq (load_ctxt p) _ s (load_known p ctxt s h)

  permitted :
      (b : Bool) (s : Server) → b ≡ false → halt_if b (fatal root_authenticated) s ≡ (ok tt, s)
  unfolding pure
  permitted b s h = rw h refl

  succeeded_query :
      (p : ℕ) (ctxt : PamCtxt) (pw : Passwd) (payload : Bytes) (s t : Server)
      → s.pam.authctxt_set ≡ true
      → s.auth.pw ≡ some pw
      → RootPermitted pw
      → import_environments env payload s ≡ (ok tt, t)
      → get_elem? t.pam.contexts p ≡ some (some ctxt)
      → query_succeeded env p none payload s ≡ (ok let_in, mark p ctxt t)
  unfolding query_succeeded pure
  succeeded_query p ctxt pw payload s t known e root imports found =
      >>=-eq skip _ s refl
      ∙ (>>=-eq sshpam_authctxt_pw _ s (pw_known pw s known e)
          ∙ (>>=-eq (halt_if (pw.pw_uid == 0 && not env.options.permit_root_login_yes) _) _ s
                (permitted _ s root)
              ∙ (>>=-eq (import_environments env payload) _ s imports
                  ∙ >>=-eq (set_done p succeeded) _ t (set_done_known p ctxt t found))))

  -- What thread_success of the PAM process sends is what sshpam_query of its parent takes over,
  -- provided that buffer.c gets what it puts, sshpam_authctxt and its password entry are set,
  -- root is not the user unless PermitRootLogin says yes, the context is live, and what is sent
  -- is within the bounds of Exportable: the query answers that no prompt is needed, the account
  -- status, the password change and the environment are those of the PAM process, and the context
  -- is marked as succeeded.
  pub sshpam_query-admitted :
      (codec : IsCodec env) (p : ℕ) (ctxt : PamCtxt) (pw : Passwd) (status force : ℕ)
      (own : List Bytes) (from_pam : Option (List Bytes)) (inbox : List (PamCode × Bytes))
      (s : Server)
      → s.pam.authctxt_set ≡ true
      → s.auth.pw ≡ some pw
      → RootPermitted pw
      → get_elem? s.pam.contexts p ≡ some (some ctxt)
      → Exportable env codec status force own from_pam
      → sshpam_query env p ((pam_success, success_payload env status force own from_pam) ∷ inbox) s
        ≡ (ok let_in, mark p ctxt (imported env codec status force own (or_none env from_pam) s))
  unfolding query_loop
  sshpam_query-admitted codec p ctxt pw status force own from_pam inbox s known e root found x =
      query_live env p ctxt _ s found
      ∙ (>>=-eq (buffer_get_string env _) _ s (get_put env codec (codes "OK") _ s)
          ∙ succeeded_query p ctxt pw _ s _ known e root
              (import-export env codec status force own from_pam s x known) found)
