-- ===== src/Pam/Environment/Compound.antt =====
-- The text that do_pam_putenv hands to libpam.
use gexcloud.Base.{
  [], ap, arith, length, length-append, suc, take, zero, ℕ, ◌++◌, ◌+◌, ◌-◌, ◌∷◌, ◌≡◌, ◌≢◌, ◌≤◌,
}
use gexcloud.Pam.Environment.{compound}
use gexcloud.Server.Env.{Env}
use gexcloud.Text.{Bytes, snprintf}
use gexcloud.Text.Laws.{take-all}

length-pair : (name value : Bytes) → length (name ++ b'=' ∷ value) ≡ length name + length value + 1
length-pair name value = omega (arith, length-append name (b'=' ∷ value))

take-le : (n : ℕ) (s : Bytes) → length (take n s) ≤ n
take-le zero s = omega arith
take-le (suc n) [] = omega arith
take-le (suc n) (x ∷ s) = omega (arith, take-le n s)

too_short :
    (name value : Bytes)
    → length (snprintf (length name + length value + 1) (name ++ b'=' ∷ value))
      ≢ length (name ++ b'=' ∷ value)
too_short name value e = omega (
  arith,
  take-le (length name + length value + 1 - 1) (name ++ b'=' ∷ value),
  length-pair name value,
  e,
)

pub compound-eq :
    (env : Env) (name value : Bytes)
    → (compound env name value ≡ name ++ b'=' ∷ value)
      × (snprintf (length name + length value + 1) (name ++ b'=' ∷ value) ≢ name ++ b'=' ∷ value)
unfolding compound
compound-eq env name value = (
  take-all _ (name ++ b'=' ∷ value) (omega (arith, length-pair name value)),
  λ e. too_short name value (ap length e),
)
