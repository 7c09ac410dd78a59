-- ===== src/Server/Laws.antt =====
-- Inversion: an action that ended with a value, taken apart.
use mathlib.Core.Path.{fun_ext}
use gexcloud.Base.{
  Bool, Option, ap, arith, false, if◌then◌else◌, inl, inr, refl, some, true, ◌≡◌, ◌⊎◌,
}
use gexcloud.Server.Monad.{M, Result, Stop, halt, halt_if, ok, or_halt, pure, stop, ◌>>=◌}
use gexcloud.Server.Pam.{PamCode, is_success, pam_success}
use gexcloud.Server.State.{Server}

module _ {A B : Type 0} where
  invert :
      (r : Result A) (t : Server) (f : A → M B) {b : B}
      → (((λ (s : Server). (r, t)) >>= f) t).0 ≡ ok b
      → (a : A) × (r ≡ ok a) × ((f a t).0 ≡ ok b)
  unfolding ◌>>=◌
  invert (ok a) t f h = (a, refl, h)
  invert (stop e) t f h = cc

  -- Both parts of a `do` block ended with a value.
  pub >>=-ok :
      (m : M A) (f : A → M B) (s : Server) {b : B}
      → ((m >>= f) s).0 ≡ ok b
      → (a : A) × ((m s).0 ≡ ok a) × ((f a (m s).1).0 ≡ ok b)
  unfolding ◌>>=◌
  >>=-ok m f s h = let (r, t) = m s in invert r t f h

  -- And this is the state in which it ended.
  pub >>=-run :
      (m : M A) (f : A → M B) (s : Server) (a : A) → (m s).0 ≡ ok a → (m >>= f) s ≡ f a (m s).1
  unfolding ◌>>=◌
  >>=-run m f s a h = rw (h, ◌>>=◌)

pub halt_if-ok :
    (b : Bool) (e : Stop) (s : Server) {x : Unit {0}}
    → (halt_if b e s).0 ≡ ok x
    → (b ≡ false) × ((halt_if b e s).1 ≡ s)
unfolding halt pure
halt_if-ok b e s h = ground arith

-- An `if` that ended with a value went one of its two ways.
pub if-ok :
    {A : Type 0} (b : Bool) (m n : M A) (s : Server) {a : A}
    → ((if b then m else n) s).0 ≡ ok a
    → ((b ≡ true) × ((m s).0 ≡ ok a)) ⊎ ((b ≡ false) × ((n s).0 ≡ ok a))
if-ok true m n s h = inl (refl, h)
if-ok false m n s h = inr (refl, h)

pub ok_injective : {A : Type 0} {a b : A} → ok a ≡ ok b → a ≡ b
ok_injective h = cc

pub pure-ok : {A : Type 0} (a b : A) (s : Server) → (pure a s).0 ≡ ok b → a ≡ b
unfolding pure
pure-ok a b s h = ok_injective h

-- A `do` block whose first part is known.
pub >>=-eq :
    {A B : Type 0} (m : M A) (f : A → M B) (s : Server) {a : A} {t : Server}
    → m s ≡ (ok a, t)
    → (m >>= f) s ≡ f a t
unfolding ◌>>=◌
>>=-eq {A} {B} m f s h =
    ap
      (λ (p : Result A × Server). elim p.0 as (λ _. Result B × Server) [
        | ok a ↦ f a p.1
        | stop e ↦ (stop e, p.1)
      ])
      h

pub or_halt-some :
    {A : Type 0} {o : Option A} (a : A) (e : Stop) (s : Server)
    → o ≡ some a
    → or_halt o e s ≡ (ok a, s)
unfolding or_halt pure
or_halt-some a e s h = rw h

-- A `do` block goes on after its first part, or ends where that ended the process.
pub >>=-cases :
    {A B : Type 0} (m : M A) (f : A → M B) (s : Server)
    → ((a : A) × ((m s).0 ≡ ok a) × ((m >>= f) s ≡ f a (m s).1))
      ⊎ ((e : Stop) × ((m s).0 ≡ stop e) × ((m >>= f) s ≡ (stop e, (m s).1)))
unfolding ◌>>=◌
>>=-cases {A} {B} m f s = let (r, t) = m s in split r t
  where
    split :
        (r : Result A) (t : Server)
        → ((a : A) × (r ≡ ok a)
            × (elim r as (λ _. Result B × Server) [ ok a ↦ f a t | stop e ↦ (stop e, t) ] ≡ f a t))
          ⊎ ((e : Stop) × (r ≡ stop e)
              × (elim r as (λ _. Result B × Server) [ ok a ↦ f a t | stop e ↦ (stop e, t) ]
                  ≡ (stop e, t)))
    split (ok a) t = inl (a, refl, refl)
    split (stop e) t = inr (e, refl, refl)

pub is_success-only : (c : PamCode) → is_success c ≡ true → c ≡ pam_success
is_success-only pam_success h = refl
is_success-only _ h = cc

-- The laws by which `do` blocks are regrouped.
module _ {A B C : Type 0} where
  assoc_at :
      (r : Result A) (t : Server) (f : A → M B) (g : B → M C)
      → (((λ (s : Server). (r, t)) >>= f) >>= g) t ≡ ((λ (s : Server). (r, t)) >>= λ a. f a >>= g) t
  unfolding ◌>>=◌
  assoc_at (ok a) t f g = refl
  assoc_at (stop e) t f g = refl

  pub >>=-assoc : (m : M A) (f : A → M B) (g : B → M C) → ((m >>= f) >>= g) ≡ (m >>= λ a. f a >>= g)
  unfolding ◌>>=◌
  >>=-assoc m f g = fun_ext (λ s. let (r, t) = m s in assoc_at r t f g)

pub pure->>= : {A B : Type 0} (a : A) (f : A → M B) → (pure a >>= f) ≡ f a
unfolding ◌>>=◌
pure->>= a f = refl

pub ruleset do_laws = (>>=-assoc, pure->>=)
