-- ===== src/Text.antt =====
-- C strings as lists of byte values without the terminating NUL, and the libc functions on them
-- that the sources call.
pub mod Laws
use Prim.Native.Char.{code}
use gexcloud.Base.{
  Bool, List, Option, String, [], false, if◌then◌else◌, leb, ltb, none, some, suc, take, true, zero,
  ℕ, ◌%◌, ◌&&◌, ◌+◌, ◌-◌, ◌/◌, ◌==◌, ◌∷◌,
}

abbrev pub Bytes : Type 0
Bytes = List ℕ

-- A literal of the source as its bytes (all are ASCII).
abbrev pub codes : String → Bytes
codes String.[] = []
codes (String.◌∷◌ c s) = code c ∷ codes s

-- `strcmp(a, b) == 0`
unfoldable pub str_eq : Bytes → Bytes → Bool
str_eq [] [] = true
str_eq [] (y ∷ ys) = false
str_eq (x ∷ xs) [] = false
str_eq (x ∷ xs) (y ∷ ys) = (x == y) && str_eq xs ys

-- `if ((p = strchr(s, c)) != NULL) *p++ = '\0';`: what stands before the first `c`, and what
-- follows it.
unfoldable pub cut_at : ℕ → Bytes → Bytes × Option Bytes
cut_at c [] = ([], none)
cut_at c (x ∷ xs) = let rest = cut_at c xs in if x == c then ([], some xs) else (x ∷ rest.0, rest.1)

-- A byte string read as a C string: it ends before its first NUL.
unfoldable pub c_string : Bytes → Bytes
c_string [] = []
c_string (x ∷ xs) = let rest = c_string xs in if x == 0 then [] else x ∷ rest

-- `snprintf(buf, size, "%s", s)` keeps at most `size - 1` bytes.
abbrev pub snprintf : ℕ → Bytes → Bytes
snprintf size s = take (size - 1) s

-- `%d` of a number that is not negative. The fuel is the number of digits allowed; three hold
-- a byte, ten an `int`.
unfoldable pub decimal_on : ℕ → ℕ → Bytes → Bytes
decimal_on zero n acc = acc
decimal_on (suc fuel) n acc =
    let digits = (b'0' + n % 10) ∷ acc in
    let rest = decimal_on fuel (n / 10) digits in if ltb n 10 then digits else rest

unfoldable pub decimal : ℕ → Bytes
decimal n = decimal_on 10 n []

-- `strcasecmp(a, b) == 0` in the C locale.
abbrev to_lower : ℕ → ℕ
to_lower c = if leb b'A' c && leb c b'Z' then c + 32 else c

unfoldable pub case_eq : Bytes → Bytes → Bool
case_eq [] [] = true
case_eq [] (y ∷ ys) = false
case_eq (x ∷ xs) [] = false
case_eq (x ∷ xs) (y ∷ ys) = (to_lower x == to_lower y) && case_eq xs ys
