-- ===== src/Pam/Environment/RoundTrip.antt =====
-- What the PAM process exports, and what its parent imports.
use mathlib.Core.List.{append_assoc}
use gexcloud.Base.{
  Bool, List, Option, [], arith, false, if◌then◌else◌, length, ltb, refl, some, true, ℕ, ◌++◌, ◌<◌,
  ◌==◌, ◌^◌, ◌∙◌, ◌∷◌, ◌≡◌, ◌≢◌, ◌≤◌,
}
use gexcloud.Pam.Account.{forbid, permit, set_account_status, sshpam_password_change_required}
use gexcloud.Pam.Account.Bits.{change_required-run}
use gexcloud.Pam.Context.{modify_pam}
use gexcloud.Pam.Environment.{
  buffer_get_int, buffer_get_string, export_environments, get_strings, import_environments,
  import_pam_env, or_none, pam_putenv, put_strings,
}
use gexcloud.Server.Env.{Env}
use gexcloud.Server.Event.{History, called_pam_putenv}
use gexcloud.Server.Laws.{>>=-eq, or_halt-some}
use gexcloud.Server.Monad.{ask, fatal, halt_if, modify, ok, pure, too_many_environment}
use gexcloud.Server.Pam.{PamCode, pam_other}
use gexcloud.Server.State.{Server}
use gexcloud.Text.{Bytes, c_string}

-- What is relied on of buffer.c: a get takes off what a put has appended, an integer as its
-- 32 bits.
pub record IsCodec (env : Env) : Type 0 where
  pub get_int-put_int :
      (n : ℕ) (rest : Bytes) → n < 2 ^ 32 → env.get_int (env.put_int n ++ rest) ≡ some (n, rest)
  pub get_string-put_cstring :
      (s rest : Bytes) → env.get_string (env.put_cstring s ++ rest) ≡ some (s, rest)

-- No byte of a C string is NUL.
abbrev pub NoNul : Bytes → Type 0
NoNul [] = Unit {0}
NoNul (x ∷ xs) = (x ≢ 0) × NoNul xs

pub c_string-NoNul : (s : Bytes) → NoNul s → c_string s ≡ s
unfolding c_string
c_string-NoNul [] h = refl
c_string-NoNul (x ∷ s) h = ground (arith, c_string-NoNul s h.1)

abbrev pub AllNoNul : List Bytes → Type 0
AllNoNul [] = Unit {0}
AllNoNul (v ∷ vs) = NoNul v × AllNoNul vs

module _ (env : Env) (codec : IsCodec env) where
  get_string-put :
      (v rest : Bytes) (s : Server)
      → buffer_get_string env (env.put_cstring v ++ rest) s ≡ (ok (v, rest), s)
  unfolding buffer_get_string
  get_string-put v rest s = or_halt-some _ _ s (codec.get_string-put_cstring v rest)

  get_int-put :
      (n : ℕ) (rest : Bytes) (s : Server)
      → n < 2 ^ 32
      → buffer_get_int env (env.put_int n ++ rest) s ≡ (ok (n, rest), s)
  unfolding buffer_get_int
  get_int-put n rest s h = or_halt-some _ _ s (codec.get_int-put_int n rest h)

  get_strings-put :
      (vs : List Bytes) (rest : Bytes) (s : Server)
      → AllNoNul vs
      → get_strings env (length vs) (put_strings env vs ++ rest) s ≡ (ok (vs, rest), s)
  unfolding get_strings put_strings pure
  get_strings-put [] rest s h = refl
  get_strings-put (v ∷ vs) rest s h = rw append_assoc (
      >>=-eq (buffer_get_string env _) _ s (get_string-put v _ s)
      ∙ (>>=-eq (get_strings env (length vs) _) _ s (get_strings-put vs rest s h.1)
          ∙ rw (c_string-NoNul v h.0)))

  -- The calls of pam_putenv, newest first; none where libpam lacks it.
  abbrev pub putenv_calls : List Bytes → History → History
  putenv_calls [] h = h
  putenv_calls (v ∷ vs) h =
      putenv_calls vs (if env.build.have_putenv then called_pam_putenv v ∷ h else h)

  putenv_if :
      (b : Bool) (text : Bytes) (s : Server)
      → (c : PamCode) × ((if b
              then ask (called_pam_putenv text) (env.pam_putenv text)
              else pure (pam_other 1))
            s
          ≡ (
            ok c,
            record s { history = if b then called_pam_putenv text ∷ s.history else s.history },
          ))
  unfolding ask pure
  putenv_if true text s = (_, refl)
  putenv_if false text s = (_, refl)

  pam_putenv_lem :
      (text : Bytes) (s : Server)
      → (c : PamCode) × (pam_putenv env text s ≡ (
        ok c,
        record s {
          history = if env.build.have_putenv then called_pam_putenv text ∷ s.history else s.history;
        },
      ))
  unfolding pam_putenv
  pam_putenv_lem text s = putenv_if env.build.have_putenv text s

  import_pam_env-put :
      (vs : List Bytes) (s : Server)
      → AllNoNul vs
      → import_pam_env env (length vs) (put_strings env vs) s
        ≡ (ok tt, record s { history = putenv_calls vs s.history })
  unfolding import_pam_env put_strings pure ask
  import_pam_env-put [] s h = refl
  import_pam_env-put (v ∷ vs) s h =
      >>=-eq (buffer_get_string env _) _ s (get_string-put v _ s)
      ∙ (>>=-eq (pam_putenv env (c_string v)) _ s (pam_putenv_lem (c_string v) s).1
          ∙ rw (c_string-NoNul v h.0) (import_pam_env-put vs _ h.1))

  -- do_pam_account's result, and what the two processes know of a password change, as the parent
  -- has them after an import.
  abbrev pub imported : ℕ → ℕ → List Bytes → List Bytes → Server → Server
  imported status force own from_pam s = record s {
    auth = record s.auth { force_pwchange = force };
    pam = record s.pam { account_status = status; child_env = some own };
    forwarding = if force == 0 then permit s.forwarding else forbid s.forwarding;
    history = putenv_calls from_pam s.history;
  }

  few :
      (n : ℕ) (s : Server)
      → n ≤ 1024
      → halt_if (ltb 1024 n) (fatal too_many_environment) s ≡ (ok tt, s)
  unfolding pure
  few n s h = ground arith

  -- Integers of 32 bits, at most 1024 variables of the process itself, no NUL in a variable.
  pub record Exportable (status force : ℕ) (own : List Bytes) (from_pam : Option (List Bytes))
      : Type 0 where
    pub status_bits : status < 2 ^ 32
    pub force_bits : force < 2 ^ 32
    pub own_few : length own ≤ 1024
    pub from_pam_bits : length (or_none env from_pam) < 2 ^ 32
    pub own_plain : AllNoNul own
    pub from_pam_plain : AllNoNul (or_none env from_pam)

  -- Provided that buffer.c gets what it puts and sshpam_authctxt is set, what the PAM process
  -- puts behind "OK" (integers of 32 bits, at most 1024 variables of its own, no NUL in a
  -- variable) is what import_environments takes over: the account status, the password change
  -- with its bit in the forwarding flags, the environment, and one pam_putenv for each variable
  -- that PAM has set.
  pub import-export :
      (status force : ℕ) (own : List Bytes) (from_pam : Option (List Bytes)) (s : Server)
      → Exportable status force own from_pam
      → s.pam.authctxt_set ≡ true
      → import_environments env (export_environments env status force own from_pam) s
        ≡ (ok tt, imported status force own (or_none env from_pam) s)
  unfolding import_environments export_environments modify
  import-export status force own from_pam s x known =
      >>=-eq (buffer_get_int env _) _ s (get_int-put status _ s x.status_bits)
      ∙ (>>=-eq (set_account_status status) _ _ refl
          ∙ (>>=-eq (buffer_get_int env _) _ _ (get_int-put force _ _ x.force_bits)
              ∙ (>>=-eq (sshpam_password_change_required force) _ _
                    (change_required-run force _ known)
                  ∙ (>>=-eq (buffer_get_int env _) _ _
                        (get_int-put (length own) _ _ (omega (arith, x.own_few)))
                      ∙ (>>=-eq (halt_if (ltb 1024 (length own)) (fatal too_many_environment)) _ _
                            (few (length own) _ x.own_few)
                          ∙ (>>=-eq (get_strings env (length own) _) _ _
                                (get_strings-put own _ _ x.own_plain)
                              ∙ (>>=-eq (modify_pam (λ p. record p { child_env = some own })) _ _
                                    refl
                                  ∙ (>>=-eq (buffer_get_int env _) _ _ (
                                        get_int-put (length (or_none env from_pam)) _ _
                                          x.from_pam_bits)
                                      ∙ import_pam_env-put (or_none env from_pam) _
                                          x.from_pam_plain))))))))
