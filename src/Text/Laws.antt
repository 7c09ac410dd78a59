-- ===== src/Text/Laws.antt =====
-- Laws of the libc functions.
use gexcloud.Base.{[], ap, arith, length, refl, suc, take, true, zero, ℕ, ◌∷◌, ◌≡◌, ◌≤◌}
use gexcloud.Text.{Bytes, str_eq}

pub str_eq_refl : (a : Bytes) → str_eq a a ≡ true
unfolding str_eq
str_eq_refl [] = refl
str_eq_refl (x ∷ a) = ground (arith, str_eq_refl a)

pub str_eq_sound : (a b : Bytes) → str_eq a b ≡ true → a ≡ b
unfolding str_eq
str_eq_sound [] [] h = refl
str_eq_sound [] (y ∷ b) h = cc
str_eq_sound (x ∷ a) [] h = cc
str_eq_sound (x ∷ a) (y ∷ b) h = ground (arith, str_eq_sound a b)

pub take-all : (n : ℕ) (s : Bytes) → length s ≤ n → take n s ≡ s
take-all zero [] h = refl
take-all zero (x ∷ s) h = absurd (omega arith)
take-all (suc n) [] h = refl
take-all (suc n) (x ∷ s) h = ap (λ r. x ∷ r) (take-all n s (omega arith))
