-- ===== src/Prelude/Text.antt =====
-- C strings: a string is the list of its bytes before the terminating NUL, and the read
-- functions of <string.h>, <strings.h> and <ctype.h> that the sources call, in the C locale.
use Prim.Native.Char.{code}
use Prim.Native.String.{String}
use Prim.Native.Nat.{ℕ, ◌+◌, ◌<◌}
use mathlib.Core.Path.{◌≡◌, refl}
use mathlib.Core.Logic.{◌≢◌}
use mathlib.Core.Bool.{Bool, true, false, ◌&&◌, ◌||◌}
use mathlib.Core.List.{List, [], ◌∷◌, ◌++◌}
use native.Mathlib.Omega.{arith}
use package.fetchmail.Prelude.Tests.{◌==◌, leb, if◌then◌else◌}

abbrev pub Bytes : Type 0
Bytes = List ℕ

-- The bytes of an ASCII literal.
abbrev pub codes : String → Bytes
codes String.[] = []
codes (String.◌∷◌ c s) = code c ∷ codes s

-- `*p`: the first byte, or the terminating NUL.
abbrev pub peek : Bytes → ℕ
peek [] = 0
peek (c ∷ s) = c

-- `p + 1`, which the sources form at a byte other than NUL only.
abbrev pub next : Bytes → Bytes
next [] = []
next (c ∷ s) = s

module _ {ℓ κ} {A : Type ℓ} (P : A → Type κ) where
  abbrev pub All : List A → Type κ
  All [] = Unit
  All (x ∷ xs) = P x × All xs

  pub All-append : (xs ys : List A) → All xs → All ys → All (xs ++ ys)
  All-append [] ys _ hy = hy
  All-append (x ∷ xs) ys (px, hx) hy = (px, All-append xs ys hx hy)

-- The byte does not occur.
abbrev pub Lacks : ℕ → Bytes → Type 0
Lacks b = All (λ c. c ≢ b)

-- What a C string is: no byte of it is NUL.
abbrev pub NoNul : Bytes → Type 0
NoNul = Lacks 0

-- An `unsigned char`.
abbrev pub IsByte : ℕ → Type 0
IsByte c = c < 256

-- `strchr(set, c) != NULL` at a byte `c` other than NUL.
unfoldable pub contains : Bytes → ℕ → Bool
contains [] c = false
contains (x ∷ xs) c = (x == c) || contains xs c

-- `isspace` in the C locale.
unfoldable pub is_space : ℕ → Bool
is_space c = c == b' ' || (leb 9 c && leb c 13)

-- `tolower` in the C locale.
unfoldable pub to_lower : ℕ → ℕ
to_lower c = if leb b'A' c && leb c b'Z' then c + 32 else c

-- `strcmp(a, b) == 0`.
unfoldable pub str_eq : Bytes → Bytes → Bool
str_eq [] [] = true
str_eq (x ∷ xs) (y ∷ ys) = (x == y) && str_eq xs ys
str_eq _ _ = false

-- `strcasecmp(a, b) == 0`.
unfoldable pub str_case_eq : Bytes → Bytes → Bool
unfolding to_lower
str_case_eq [] [] = true
str_case_eq (x ∷ xs) (y ∷ ys) = (to_lower x == to_lower y) && str_case_eq xs ys
str_case_eq _ _ = false

-- `strncmp(p, s, strlen(p)) == 0`.
unfoldable pub starts_with : Bytes → Bytes → Bool
starts_with [] s = true
starts_with (x ∷ xs) [] = false
starts_with (x ∷ xs) (y ∷ ys) = (x == y) && starts_with xs ys

-- `strncasecmp(p, s, strlen(p)) == 0`.
unfoldable pub has_case_prefix : Bytes → Bytes → Bool
unfolding to_lower
has_case_prefix [] s = true
has_case_prefix (x ∷ xs) [] = false
has_case_prefix (x ∷ xs) (y ∷ ys) = (to_lower x == to_lower y) && has_case_prefix xs ys

pub str_eq_sound : (a b : Bytes) → str_eq a b ≡ true → a ≡ b
unfolding str_eq
str_eq_sound [] [] h = refl
str_eq_sound (x ∷ a) (y ∷ b) h = ground (arith, str_eq_sound a b)
str_eq_sound [] (y ∷ b) h = ground arith
str_eq_sound (x ∷ a) [] h = ground arith

pub str_eq_refl : (a : Bytes) → str_eq a a ≡ true
unfolding str_eq
str_eq_refl [] = refl
str_eq_refl (x ∷ a) = ground (arith, str_eq_refl a)
