-- ===== src/Auth/UserName/Parse.antt =====
-- Taking a user name apart, and writing it.
use mathlib.Core.List.{append-nil}
use gexcloud.Auth.UserName.{UserSpec, split_user, style_in_role, style_of}
use gexcloud.Base.{Option, [], arith, none, refl, some, ℕ, ◌++◌, ◌∷◌, ◌≡◌, ◌≢◌}
use gexcloud.Text.{Bytes, cut_at}

-- `c` does not occur.
abbrev pub Free : ℕ → Bytes → Type 0
Free c [] = Unit {0}
Free c (x ∷ xs) = (x ≢ c) × Free c xs

Free-append : (c : ℕ) (a b : Bytes) → Free c a → Free c b → Free c (a ++ b)
Free-append c [] b h k = k
Free-append c (x ∷ a) b h k = (h.0, Free-append c a b h.1 k)

pub cut_at-append : (c : ℕ) (a b : Bytes) → Free c a → cut_at c (a ++ c ∷ b) ≡ (a, some b)
unfolding cut_at
cut_at-append c [] b h = ground arith
cut_at-append c (x ∷ a) b h = ground (arith, cut_at-append c a b h.1)

pub cut_at-Free : (c : ℕ) (a : Bytes) → Free c a → cut_at c a ≡ (a, none)
unfolding cut_at
cut_at-Free c [] h = refl
cut_at-Free c (x ∷ a) h = ground (arith, cut_at-Free c a h.1)

Free-cut_at : (c : ℕ) (s : Bytes) → Free c (cut_at c s).0
unfolding cut_at
Free-cut_at c [] = tt
Free-cut_at c (x ∷ s) = ground (arith, Free-cut_at c s)

-- What is free of a byte stays so when it is cut at another.
cut_at-keeps-Free : (c d : ℕ) (s : Bytes) → Free d s → Free d (cut_at c s).0
unfolding cut_at
cut_at-keeps-Free c d [] h = tt
cut_at-keeps-Free c d (x ∷ s) h = ground (arith, cut_at-keeps-Free c d s h.1)

abbrev pub suffix : ℕ → Option Bytes → Bytes
suffix c none = []
suffix c (some s) = c ∷ s

-- user[:style][/role]
abbrev pub render : UserSpec → Bytes
render u = (u.user ++ suffix b':' u.style) ++ suffix b'/' u.role

-- The role may hold a ':' only behind a style.
abbrev pub RoleFits : Option Bytes → Option Bytes → Type 0
RoleFits none (some role) = Free b':' role
RoleFits style role = Unit {0}

abbrev pub StyleFits : Option Bytes → Type 0
StyleFits none = Unit {0}
StyleFits (some style) = Free b'/' style

pub record IsPlain (u : UserSpec) : Type 0 where
  pub no_slash : Free b'/' u.user
  pub no_colon : Free b':' u.user
  pub style_fits : StyleFits u.style
  pub role_fits : RoleFits u.style u.role

suffix-Free : (style : Option Bytes) → StyleFits style → Free b'/' (suffix b':' style)
suffix-Free none h = tt
suffix-Free (some style) h = ((λ e. omega arith), h)

cut_role :
    (before : Bytes) (role : Option Bytes)
    → Free b'/' before
    → cut_at b'/' (before ++ suffix b'/' role) ≡ (before, role)
cut_role before none h = rw append-nil (cut_at-Free b'/' before h)
cut_role before (some role) h = cut_at-append b'/' before role h

split_front :
    (user : Bytes) (style role : Option Bytes)
    → Free b':' user
    → RoleFits style role
    → style_of (cut_at b':' (user ++ suffix b':' style)) role
      ≡ record { user = user; style = style; role = role }
unfolding style_of style_in_role
split_front user none none h k = rw (append-nil, cut_at-Free b':' user h)
split_front user none (some role) h k =
    rw (append-nil, cut_at-Free b':' user h) (rw (cut_at-Free b':' role k))
split_front user (some style) role h k = rw (cut_at-append b':' user style h)

-- A name written as user[:style][/role], with no '/' or ':' in the user, no '/' in the style and,
-- where there is no style, no ':' in the role, is taken apart into those parts.
pub split_user-render : (u : UserSpec) → IsPlain u → split_user (render u) ≡ u
unfolding split_user
split_user-render u p =
    rw
      (cut_role (u.user ++ suffix b':' u.style) u.role
        (Free-append b'/' u.user _ p.no_slash (suffix-Free u.style p.style_fits)))
      (split_front u.user u.style u.role p.no_colon p.role_fits)

style_of-user :
    (cut : Bytes × Option Bytes) (role : Option Bytes) → (style_of cut role).user ≡ cut.0
unfolding style_of style_in_role
style_of-user (user, none) none = refl
style_of-user (user, none) (some role) = refl
style_of-user (user, some style) role = refl

-- Whatever the client sends, the name that is looked up has no '/' and no ':'.
pub split_user-Free :
    (text : Bytes) → Free b'/' (split_user text).user × Free b':' (split_user text).user
unfolding split_user
split_user-Free text =
    rw style_of-user (cut_at-keeps-Free b':' b'/' _ (Free-cut_at b'/' text), Free-cut_at b':' _)
