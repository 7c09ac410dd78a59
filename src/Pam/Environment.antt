-- ===== src/Pam/Environment.antt =====
-- The account status and the environment on their way from the PAM process to its parent:
-- the export at the end of sshpam_thread, and import_environments. Also the accessors of the
-- environment, and do_pam_putenv.
pub mod Compound
pub mod RoundTrip
use gexcloud.Base.{
  List, Option, [], if◌then◌else◌, length, ltb, none, some, suc, zero, ℕ, ◌++◌, ◌+◌, ◌∷◌,
}
use gexcloud.Pam.Account.{set_account_status, sshpam_password_change_required}
use gexcloud.Pam.Context.{modify_pam}
use gexcloud.Server.Env.{Env}
use gexcloud.Server.Event.{called_pam_getenvlist, called_pam_putenv, freed_list, freed_string}
use gexcloud.Server.Monad.{
  M, ask, bad_packet, emit, fatal, gets, halt_if, or_halt, pure, skip, too_many_environment, ◌>>=◌,
  ◌>>◌,
}
use gexcloud.Server.Pam.{PamCode, pam_other}
use gexcloud.Text.{Bytes, c_string, snprintf}

module _ (env : Env) where
  pub put_strings : List Bytes → Bytes
  put_strings [] = []
  put_strings (v ∷ vs) = env.put_cstring v ++ put_strings vs

  abbrev pub or_none : Option (List Bytes) → List Bytes
  or_none none = []
  or_none (some vs) = vs

  -- What the child puts behind "OK": do_pam_account's result, the flag for a password change,
  -- and the two environments, each behind its length.
  unfoldable pub export_environments : ℕ → ℕ → List Bytes → Option (List Bytes) → Bytes
  export_environments status force own from_pam =
      env.put_int status
      ++ (env.put_int force
          ++ (env.put_int (length own)
              ++ (put_strings own
                  ++ (env.put_int (length (or_none from_pam)) ++ put_strings (or_none from_pam)))))

  unfoldable pub buffer_get_int : Bytes → M (ℕ × Bytes)
  buffer_get_int b = or_halt (env.get_int b) (fatal bad_packet)

  unfoldable pub buffer_get_string : Bytes → M (Bytes × Bytes)
  buffer_get_string b = or_halt (env.get_string b) (fatal bad_packet)

  unfoldable pub get_strings : ℕ → Bytes → M (List Bytes × Bytes)
  get_strings zero b = pure ([], b)
  get_strings (suc n) b = do
    first ← buffer_get_string b
    others ← get_strings n first.1
    pure (c_string first.0 ∷ others.0, others.1)

  -- libpam's pam_putenv, where it is there (HAVE_PAM_PUTENV); do_pam_putenv returns 1 otherwise.
  unfoldable pub pam_putenv : Bytes → M PamCode
  pam_putenv text =
      if env.build.have_putenv
      then ask (called_pam_putenv text) (env.pam_putenv text)
      else pure (pam_other 1)

  -- The second loop. A failure of pam_putenv is logged and passed over.
  unfoldable pub import_pam_env : ℕ → Bytes → M (Unit {0})
  import_pam_env zero b = skip
  import_pam_env (suc n) b = do
    first ← buffer_get_string b
    pam_putenv (c_string first.0)
    import_pam_env n first.1

  unfoldable pub import_environments : Bytes → M (Unit {0})
  import_environments b = do
    status ← buffer_get_int b
    set_account_status status.0
    reqd ← buffer_get_int status.1
    sshpam_password_change_required reqd.0
    count ← buffer_get_int reqd.1
    halt_if (ltb 1024 count.0) (fatal too_many_environment)
    own ← get_strings count.0 count.1
    modify_pam (λ p. record p { child_env = some own.0 })
    pam_count ← buffer_get_int own.1
    import_pam_env pam_count.0 pam_count.1

  -- `snprintf(compound, len, "%s=%s", name, value)` into a buffer of `len` bytes.
  unfoldable pub compound : Bytes → Bytes → Bytes
  compound name value =
      let len = length name + length value + 2 in snprintf len (name ++ b'=' ∷ value)

  unfoldable pub do_pam_putenv : Bytes → Bytes → M PamCode
  do_pam_putenv name value = pam_putenv (compound name value)

  unfoldable pub fetch_pam_child_environment : M (Option (List Bytes))
  fetch_pam_child_environment = gets (λ s. s.pam.child_env)

  -- The fallback for a libpam without pam_getenvlist returns NULL.
  unfoldable pub pam_getenvlist : M (Option (List Bytes))
  pam_getenvlist =
      if env.build.have_getenvlist then ask called_pam_getenvlist env.pam_getenvlist else pure none

  unfoldable pub fetch_pam_environment : M (Option (List Bytes))
  fetch_pam_environment = pam_getenvlist

  -- Each string of the list, and then the list itself.
  unfoldable pub free_strings : List Bytes → M (Unit {0})
  free_strings [] = skip
  free_strings (v ∷ vs) = do emit (freed_string v); free_strings vs

  unfoldable pub free_pam_environment : Option (List Bytes) → M (Unit {0})
  free_pam_environment none = skip
  free_pam_environment (some vs) = do free_strings vs; emit (freed_list vs)
