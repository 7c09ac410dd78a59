-- ===== src/Pam/Account/Ruid.antt =====
-- The real uid around pam_chauthtok.
use mathlib.Core.Bool.{false≢true}
use gexcloud.Base.{
  Bool, Option, [], ap, false, none, not, refl, some, subst, sym, true, ℕ, ◌∙◌, ◌∷◌, ◌≡◌,
}
use gexcloud.Pam.Account.{sshpam_chauthtok_ruid}
use gexcloud.Pam.Context.{pw_behind, sshpam_authctxt_pw}
use gexcloud.Pam.Conversation.{pam_call}
use gexcloud.Server.Env.{Env}
use gexcloud.Server.Event.{History, called_pam_chauthtok, called_setreuid}
use gexcloud.Server.Hoare.{Hoare, Hoare-bind, Hoare-pure}
use gexcloud.Server.Laws.{halt_if-ok, ok_injective}
use gexcloud.Server.Monad.{
  Stop, ask, fatal, gets, halt, halt_if, ok, or_halt, pure, setreuid_failed,
}
use gexcloud.Server.Pam.{PamCode}
use gexcloud.Server.State.{Passwd, Server}

-- The real uid that the last setreuid of a history asked for.
abbrev pub real_uid : History → Option ℕ
real_uid [] = none
real_uid (called_setreuid u ∷ h) = some u
real_uid (_ ∷ h) = real_uid h

-- An `if (…) fatal(…)` that did not end the process changes nothing.
Hoare-halt_if : {P : Server → Type 0} (b : Bool) (e : Stop) → Hoare P (halt_if b e) (λ _. P)
Hoare-halt_if {P} b e = record { after = λ s p x h. subst P (sym (halt_if-ok b e s h).1) p }

module _ (env : Env) where
  -- PAM was called for a new password with the uid of the user, and answered `code`.
  pub record AsUser (s : Server) (code : PamCode) : Type 0 where
    pub pw : Passwd
    pub known : s.auth.pw ≡ some pw
    pub before : Server
    -- the setreuid was all that had happened, and it succeeded
    pub only_lowered : before ≡ record s { history = called_setreuid pw.pw_uid ∷ s.history }
    pub lowered : real_uid before.history ≡ some pw.pw_uid
    pub succeeded : env.setreuid pw.pw_uid (called_setreuid pw.pw_uid ∷ s.history) ≡ true
    pub answered : (pam_call env called_pam_chauthtok env.pam_chauthtok before).0 ≡ ok code

  pw_from :
      (b : Bool) (o : Option Passwd) (t : Server) (pw : Passwd)
      → (pw_behind b o t).0 ≡ ok pw
      → o ≡ some pw
  unfolding or_halt halt pure
  pw_from true none t pw h = cc
  pw_from true (some x) t pw h = ap some (ok_injective h)
  pw_from false o t pw h = cc

  pw_kept : (b : Bool) (o : Option Passwd) (t : Server) → (pw_behind b o t).1 ≡ t
  unfolding or_halt halt pure
  pw_kept true none t = refl
  pw_kept true (some x) t = refl
  pw_kept false o t = refl

  read_pw :
      (s : Server) → Hoare (λ t. t ≡ s) sshpam_authctxt_pw (λ pw t. (s.auth.pw ≡ some pw) × (t ≡ s))
  unfolding sshpam_authctxt_pw
  read_pw s = record {
    after = λ t e pw h. (
      ap (λ u. u.auth.pw) (sym e) ∙ pw_from t.pam.authctxt_set t.auth.pw t pw h,
      pw_kept t.pam.authctxt_set t.auth.pw t ∙ e,
    );
  }

  -- From `s`, only the setreuid to the user's uid was called, and answered `done`.
  abbrev Lowered : Server → Passwd → Bool → Server → Type 0
  Lowered s pw done t =
      (env.setreuid pw.pw_uid (called_setreuid pw.pw_uid ∷ s.history) ≡ done)
      × (s.auth.pw ≡ some pw)
      × (t ≡ record s { history = called_setreuid pw.pw_uid ∷ s.history })

  lower :
      (s : Server) (pw : Passwd)
      → Hoare
          (λ t. (s.auth.pw ≡ some pw) × (t ≡ s))
          (ask (called_setreuid pw.pw_uid) (env.setreuid pw.pw_uid))
          (Lowered s pw)
  unfolding ask
  lower s pw = record {
    after = λ t (known, e) done h. (
      ap (λ u. env.setreuid pw.pw_uid (called_setreuid pw.pw_uid ∷ u.history)) (sym e)
          ∙ ok_injective h,
      known,
      ap {B = Server} (λ (u : Server). record u { history = called_setreuid pw.pw_uid ∷ u.history })
          e,
    );
  }

  set_uid :
      (u : ℕ) {P : Type 0}
      → Hoare
          (λ _. P)
          (ask (called_setreuid u) (env.setreuid u))
          (λ _ t. P × (real_uid t.history ≡ some u))
  unfolding ask
  set_uid u = record { after = λ s p a h. (p, refl) }

  call_as :
      (s : Server) (pw : Passwd)
      → Hoare
          (Lowered s pw true)
          (pam_call env called_pam_chauthtok env.pam_chauthtok)
          (λ code _. AsUser s code)
  call_as s pw = record {
    after = λ t (done, known, e) code h. record {
      pw = pw;
      known = known;
      before = t;
      only_lowered = e;
      lowered = ap (λ u. real_uid u.history) e;
      succeeded = done;
      answered = h;
    };
  }

  -- The process goes on only if the first setreuid succeeded.
  go_lowered :
      (P : Bool → Server → Type 0) (done : Bool)
      → Hoare (P done) (halt_if (not done) (fatal setreuid_failed)) (λ _. P true)
  go_lowered P true = Hoare-halt_if false (fatal setreuid_failed)
  go_lowered P false = record {
    after = λ s p x h. absurd (false≢true (sym (halt_if-ok true (fatal setreuid_failed) s h).0));
  }

  read_flag : (s : Server) → Hoare (λ t. t ≡ s) (gets (λ t. t.pam.authctxt_set)) (λ _ t. t ≡ s)
  unfolding gets
  read_flag s = record { after = λ t e b h. e }

  ruid-Hoare :
      (s : Server)
      → Hoare
          (λ t. t ≡ s)
          (sshpam_chauthtok_ruid env)
          (λ code t. AsUser s code × (real_uid t.history ≡ some 0))
  unfolding sshpam_chauthtok_ruid
  ruid-Hoare s =
      Hoare-bind (λ _ t. t ≡ s) (read_flag s)
        λ known.
          Hoare-bind (λ _ t. t ≡ s) (Hoare-halt_if _ _)
            λ x. Hoare-bind _ (read_pw s) λ pw. Hoare-bind _ (lower s pw) λ lowered.
              Hoare-bind _ (go_lowered (Lowered s pw) lowered) λ y.
                Hoare-bind (λ code _. AsUser s code) (call_as s pw)
                  λ code.
                    Hoare-bind _ (set_uid 0)
                      λ raised. Hoare-bind _ (Hoare-halt_if _ _) λ z. Hoare-pure code (λ t r. r)

  -- When sshpam_chauthtok_ruid returns, all that it had done before PAM was called was a setreuid
  -- to the uid of the user, which succeeded; the result is what PAM answered then; and the last
  -- setreuid of all was back to 0.
  pub sshpam_chauthtok_ruid-AsUser :
      (s : Server) (code : PamCode)
      → (sshpam_chauthtok_ruid env s).0 ≡ ok code
      → AsUser s code × (real_uid (sshpam_chauthtok_ruid env s).1.history ≡ some 0)
  sshpam_chauthtok_ruid-AsUser s code h = (ruid-Hoare s).after s refl code h
