-- ===== src/Ssh1/Round/Denial.antt =====
-- The text that a refused user is shown.
use gexcloud.Base.{
  Bool-cases, [], ap, arith, false, get_elem?, if◌then◌else◌, inl, inr, length, length-append, refl,
  set, some, subst, suc, sym, true, zero, ℕ, ◌++◌, ◌==◌, ◌∙◌, ◌∷◌, ◌≡◌,
}
use gexcloud.Ssh1.Round.{denial_text, strip_newlines}
use gexcloud.Text.{Bytes, c_string}

-- A text without the newlines at its end.
abbrev put : ℕ → Bytes → Bytes
put c [] = if c == b'\n' then [] else c ∷ []
put c (x ∷ text) = c ∷ x ∷ text

unfoldable pub trim : Bytes → Bytes
trim [] = []
trim (c ∷ text) = put c (trim text)

put_before : (x : ℕ) (xs : Bytes) (c : ℕ) → put x (xs ++ c ∷ []) ≡ x ∷ (xs ++ c ∷ [])
put_before x [] c = refl
put_before x (y ∷ xs) c = refl

trim-newline : (xs : Bytes) (c : ℕ) → (c == b'\n') ≡ true → trim (xs ++ c ∷ []) ≡ trim xs
unfolding trim
trim-newline [] c h = rw h
trim-newline (x ∷ xs) c h = ap (put x) (trim-newline xs c h)

trim-other : (xs : Bytes) (c : ℕ) → (c == b'\n') ≡ false → trim (xs ++ c ∷ []) ≡ xs ++ c ∷ []
unfolding trim
trim-other [] c h = rw h
trim-other (x ∷ xs) c h = ap (put x) (trim-other xs c h) ∙ put_before x xs c

c_string-append : (xs z : Bytes) → c_string (xs ++ 0 ∷ z) ≡ c_string xs
unfolding c_string
c_string-append [] z = refl
c_string-append (x ∷ xs) z = rw (c_string-append xs z)

get_last : (xs : Bytes) (c : ℕ) (z : Bytes) → get_elem? (xs ++ c ∷ z) (length xs) ≡ some c
get_last [] c z = refl
get_last (x ∷ xs) c z = get_last xs c z

set_last : (xs : Bytes) (c v : ℕ) (z : Bytes) → set (xs ++ c ∷ z) (length xs) v ≡ xs ++ v ∷ z
set_last [] c v z = refl
set_last (x ∷ xs) c v z = ap (λ t. x ∷ t) (set_last xs c v z)

append_last : (xs : Bytes) (c : ℕ) (z : Bytes) → (xs ++ c ∷ []) ++ z ≡ xs ++ c ∷ z
append_last [] c z = refl
append_last (x ∷ xs) c z = ap (λ t. x ∷ t) (append_last xs c z)

record Snoc (xs : Bytes) (n : ℕ) : Type 0 where
  front : Bytes
  end : ℕ
  whole : xs ≡ front ++ end ∷ []
  size : length front ≡ n

last_of : (xs : Bytes) (n : ℕ) → length xs ≡ suc n → Snoc xs n
last_of [] n h = ground arith
last_of (x ∷ []) n h = record { front = []; end = x; whole = refl; size = ground arith }
last_of (x ∷ y ∷ xs) zero h = ground arith
last_of (x ∷ y ∷ xs) (suc n) h =
    let l = last_of (y ∷ xs) n (ground arith) in
    record {
      front = x ∷ l.front;
      end = l.end;
      whole = ap (λ t. x ∷ t) l.whole;
      size = ap suc l.size;
    }

strip-newline :
    (xs : Bytes) (c : ℕ) (z : Bytes)
    → (c == b'\n') ≡ true
    → strip_newlines (suc (length xs)) (xs ++ c ∷ z) ≡ strip_newlines (length xs) (xs ++ 0 ∷ z)
unfolding strip_newlines
strip-newline xs c z h = rw (get_last xs c z, h, set_last xs c 0 z, strip_newlines)

strip-other :
    (xs : Bytes) (c : ℕ) (z : Bytes)
    → (c == b'\n') ≡ false
    → strip_newlines (suc (length xs)) (xs ++ c ∷ z) ≡ xs ++ c ∷ z
unfolding strip_newlines
strip-other xs c z h = rw (get_last xs c z, h, strip_newlines)

-- The loop does to the buffer what `trim` does to the text in it.
abbrev Stripped : Bytes → Bytes → Type 0
Stripped xs z = c_string (strip_newlines (length xs) (xs ++ 0 ∷ z)) ≡ c_string (trim xs)

length_last : (xs : Bytes) (c : ℕ) → length (xs ++ c ∷ []) ≡ suc (length xs)
length_last xs c = length-append xs (c ∷ []) ∙ omega arith

Stripped-last : (xs : Bytes) (c : ℕ) (z : Bytes) → Stripped xs (0 ∷ z) → Stripped (xs ++ c ∷ []) z
Stripped-last xs c z ih = elim (Bool-cases (c == b'\n')) [
  | inl newline ↦ rw (
    length_last xs c,
    append_last xs c (0 ∷ z),
    strip-newline xs c (0 ∷ z) newline,
    trim-newline xs c newline,
    ih,
  )
  | inr other ↦ rw (
    length_last xs c,
    append_last xs c (0 ∷ z),
    strip-other xs c (0 ∷ z) other,
    trim-other xs c other,
    sym (append_last xs c (0 ∷ z)),
    c_string-append (xs ++ c ∷ []) z,
  )
]

Stripped-at : (n : ℕ) (xs z : Bytes) → length xs ≡ n → Stripped xs z
unfolding strip_newlines trim c_string
Stripped-at zero [] z h = refl
Stripped-at zero (x ∷ xs) z h = ground arith
Stripped-at (suc n) xs z h =
    let l = last_of xs n h in
    subst (λ t. Stripped t z) (sym l.whole)
      (Stripped-last l.front l.end z (Stripped-at n l.front (0 ∷ z) l.size))

pub denial_text-trim : (c : ℕ) (text : Bytes) → denial_text (c ∷ text) ≡ c_string (trim (c ∷ text))
unfolding denial_text
denial_text-trim c text = Stripped-at _ (c ∷ text) [] refl
