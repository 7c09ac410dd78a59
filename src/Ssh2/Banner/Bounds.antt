-- ===== src/Ssh2/Banner/Bounds.antt =====
-- The size of a banner.
use gexcloud.Base.{
  Option, [], arith, false, if◌then◌else◌, length, ltb, none, not, some, subst, ℕ, ◌==◌, ◌∷◌, ◌≡◌,
  ◌≤◌,
}
use gexcloud.Server.Env.{Env}
use gexcloud.Server.Event.{closed_banner, read_banner}
use gexcloud.Server.Hoare.{Hoare, Hoare-bind, Hoare-if}
use gexcloud.Server.Laws.{ok_injective, pure-ok}
use gexcloud.Server.Monad.{M, ask, emit, match_option, ok, pure, ◌>>=◌, ◌>>◌}
use gexcloud.Server.State.{Server}
use gexcloud.Ssh2.Banner.{auth2_read_banner, max_banner}
use gexcloud.Text.{Bytes, c_string}

c_string-le : (s : Bytes) → length (c_string s) ≤ length s
unfolding c_string
c_string-le [] = omega arith
c_string-le (x ∷ s) = ground (arith, c_string-le s)

-- Either no banner, or one within the limit.
abbrev pub IsSmall : Option Bytes → Type 0
IsSmall none = Unit {0}
IsSmall (some banner) = length banner ≤ max_banner

whole-IsSmall :
    (len : ℕ) (banner : Bytes)
    → ltb max_banner len ≡ false
    → IsSmall (if length banner == len then some (c_string banner) else none)
whole-IsSmall len banner h = ground (arith, c_string-le banner)

module _ (env : Env) where
  none-IsSmall : Hoare (λ _. Unit {0}) (pure none) (λ o _. IsSmall o)
  unfolding pure
  none-IsSmall = record { after = λ s p o h. subst IsSmall (ok_injective h) tt }

  anything : {A : Type 0} (m : M A) → Hoare (λ _. Unit {0}) m (λ _ _. Unit {0})
  anything m = record { after = λ s p a r. tt }

  gives_nothing : Hoare (λ _. Unit {0}) (do emit closed_banner; pure none) (λ o _. IsSmall o)
  gives_nothing = Hoare-bind (λ _ _. Unit {0}) (anything _) λ x. none-IsSmall

  gives_whole :
      (len : ℕ) (banner : Bytes)
      → ltb max_banner len ≡ false
      → Hoare
          (λ _. Unit {0})
          (pure (if length banner == len then some (c_string banner) else none))
          (λ o _. IsSmall o)
  gives_whole len banner small = record {
    after = λ s p o h. subst IsSmall (pure-ok _ o s h) (whole-IsSmall len banner small);
  }

  of_size :
      (size : Option ℕ)
      → Hoare
          (λ _. Unit {0})
          (match_option size
            (do emit closed_banner; pure none)
            λ len. if ltb max_banner len then (do emit closed_banner; pure none) else do
              banner ← ask (read_banner len) (env.read_file len)
              emit closed_banner
              pure (if length banner == len then some (c_string banner) else none))
          (λ o _. IsSmall o)
  unfolding match_option
  of_size none = gives_nothing
  of_size (some len) =
      Hoare-if (ltb max_banner len) (λ e. gives_nothing)
        (λ small.
          Hoare-bind (λ _ _. Unit {0}) (anything _)
            λ banner. Hoare-bind (λ _ _. Unit {0}) (anything _) λ x. gives_whole len banner small)

  read-IsSmall : Hoare (λ _. Unit {0}) (auth2_read_banner env) (λ o _. IsSmall o)
  unfolding auth2_read_banner
  read-IsSmall =
      Hoare-bind (λ _ _. Unit {0}) (anything _)
        λ found.
          Hoare-if (not found) (λ e. none-IsSmall)
            (λ e. Hoare-bind (λ _ _. Unit {0}) (anything _) of_size)

  -- Whatever the file's status says and whatever is read from it, auth2_read_banner gives no
  -- banner of more than a megabyte (2^20 bytes).
  pub auth2_read_banner-le :
      (s : Server) (o : Option Bytes) → (auth2_read_banner env s).0 ≡ ok o → IsSmall o
  auth2_read_banner-le s o h = read-IsSmall.after s tt o h
