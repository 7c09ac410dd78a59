-- ===== src/Base/Lists.antt =====
-- Lists measured and indexed by native numbers, under the library's names.
use Prim.Native.Nat.{ℕ, zero, suc, ◌+◌, ◌<◌}
use mathlib.Core.Path.{◌≡◌, refl, ap}
use mathlib.Core.Logic.{◌≢◌, ◌⊎◌, inl, inr}
use mathlib.Core.List.{List, [], ◌∷◌, ◌++◌}
use mathlib.Core.Option.{Option, none, some}
use native.Mathlib.Omega.{arith}

module _ {ℓ} {A : Type ℓ} where
  none-some : {x : A} → ◌≡◌ {A = Option A} none (some x) → ⊥
  none-some h = cc

  abbrev pub length : List A → ℕ
  length [] = 0
  length (x ∷ xs) = suc (length xs)

  abbrev pub take : ℕ → List A → List A
  take zero xs = []
  take (suc n) [] = []
  take (suc n) (x ∷ xs) = x ∷ take n xs

  abbrev pub get_elem? : List A → ℕ → Option A
  get_elem? [] i = none
  get_elem? (x ∷ xs) zero = some x
  get_elem? (x ∷ xs) (suc i) = get_elem? xs i

  -- A write out of bounds changes nothing.
  abbrev pub set : List A → ℕ → A → List A
  set [] i v = []
  set (x ∷ xs) zero v = v ∷ xs
  set (x ∷ xs) (suc i) v = x ∷ set xs i v

  pub length-append : (xs ys : List A) → length (xs ++ ys) ≡ length xs + length ys
  length-append [] ys = omega arith
  length-append (x ∷ xs) ys = omega (arith, length-append xs ys)

  pub get_elem?-set :
      (xs : List A) (i : ℕ) {x : A} (v : A)
      → get_elem? xs i ≡ some x
      → get_elem? (set xs i v) i ≡ some v
  get_elem?-set [] i v h = absurd (none-some h)
  get_elem?-set (x ∷ xs) zero v h = refl
  get_elem?-set (x ∷ xs) (suc i) v h = get_elem?-set xs i v h

  pub get_elem?-set_other :
      (xs : List A) (i j : ℕ) (v : A) → i ≢ j → get_elem? (set xs i v) j ≡ get_elem? xs j
  get_elem?-set_other [] i j v ne = refl
  get_elem?-set_other (x ∷ xs) zero zero v ne = absurd (ne refl)
  get_elem?-set_other (x ∷ xs) zero (suc j) v ne = refl
  get_elem?-set_other (x ∷ xs) (suc i) zero v ne = refl
  get_elem?-set_other (x ∷ xs) (suc i) (suc j) v ne =
      get_elem?-set_other xs i j v (λ e. ne (ap suc e))

  pub get_elem?-append :
      (xs ys : List A) (i : ℕ) {x : A} → get_elem? xs i ≡ some x → get_elem? (xs ++ ys) i ≡ some x
  get_elem?-append [] ys i h = absurd (none-some h)
  get_elem?-append (x ∷ xs) ys zero h = h
  get_elem?-append (x ∷ xs) ys (suc i) h = get_elem?-append xs ys i h

  pub get_elem?-lt : (xs : List A) (i : ℕ) {x : A} → get_elem? xs i ≡ some x → i < length xs
  get_elem?-lt [] i h = absurd (none-some h)
  get_elem?-lt (x ∷ xs) zero h = omega arith
  get_elem?-lt (x ∷ xs) (suc i) h = omega (arith, get_elem?-lt xs i h)

  -- What is read where a write went is what was written.
  pub get_elem?-set_only :
      (xs : List A) (i : ℕ) (v : A) {x : A} → get_elem? (set xs i v) i ≡ some x → v ≡ x
  get_elem?-set_only [] i v h = absurd (none-some h)
  get_elem?-set_only (y ∷ xs) zero v h = cc
  get_elem?-set_only (y ∷ xs) (suc i) v h = get_elem?-set_only xs i v h

  -- What is read in a list with one more element.
  pub get_elem?-last :
      (xs : List A) (y : A) (i : ℕ) {x : A}
      → get_elem? (xs ++ y ∷ []) i ≡ some x
      → (get_elem? xs i ≡ some x) ⊎ (y ≡ x)
  get_elem?-last [] y zero h = inr cc
  get_elem?-last [] y (suc i) h = absurd (none-some h)
  get_elem?-last (z ∷ xs) y zero h = inl h
  get_elem?-last (z ∷ xs) y (suc i) h = get_elem?-last xs y i h

  -- Of two writes to one place the second stays.
  pub set-set : (xs : List A) (i : ℕ) (v w : A) → set (set xs i v) i w ≡ set xs i w
  set-set [] i v w = refl
  set-set (x ∷ xs) zero v w = refl
  set-set (x ∷ xs) (suc i) v w = ap (λ ys. x ∷ ys) (set-set xs i v w)
