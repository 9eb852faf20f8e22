-- ===== src/Unmime/ContentType.antt =====
-- unmime.c: the header fields of a body part. A pointer that may be NULL is an option.
use fetchmail.Prelude.{
  ℕ, zero, suc, ◌-◌, ◌≤◌, ◌<◌, ◌≡◌, refl, ap, ◌∙◌, ◌≢◌, Bool, true, false, ◌||◌, Option, none, some,
  List, [], ◌∷◌, ◌++◌, arith, leb, ◌==◌, if◌then◌else◌, ◌>>=◌, length, drop, replicate, length-drop,
  Bytes, codes, peek, next, All, Lacks, is_space, has_case_prefix,
}
use fetchmail.Unmime.Quoted.{strchr}
use fetchmail.Rfc2047e.RoundTrip.{strchr_skip}

-- `for (; isspace(*p); p++)`.
unfoldable pub skip_space : Bytes → Bytes
unfolding is_space
skip_space [] = []
skip_space (c ∷ s) = let rest = skip_space s in if is_space c then rest else c ∷ s

-- `ENC8BIT`.
abbrev pub enc8bit : Bytes
enc8bit = codes "Content-Transfer-Encoding: 8bit"

-- The loop of `SetEncoding8bit`, up to the first control character or the NUL.
unfoldable pub blank : Bytes → Bytes
blank [] = []
blank (c ∷ s) = let rest = blank s in if leb b' ' c then b' ' ∷ rest else c ∷ s

-- `SetEncoding8bit`, on the headers from the field on.
unfoldable pub set_encoding8bit : Option Bytes → Option Bytes
unfolding blank
set_encoding8bit none = none
set_encoding8bit (some s) = some (enc8bit ++ blank (drop (length enc8bit) s))

-- The loop of `GetBoundary`. A round eats a `;`, so that the length is fuel enough.
unfoldable pub find_boundary : ℕ → Bytes → Option Bytes
unfolding skip_space has_case_prefix
find_boundary zero p1 = none
find_boundary (suc fuel) p1 = elim (strchr b';' p1) [
  | none ↦ none
  | some (before, at) ↦
      let p2 = skip_space (next at) in
      elim (has_case_prefix (codes "boundary") p2) [
        | true ↦ some p2
        | false ↦ find_boundary fuel p2
      ]
]

-- White space and `=`, with the flag.
unfoldable pub skip_equals : Bytes → Bool → Bytes × Bool
unfolding is_space
skip_equals [] flag = ([], flag)
skip_equals (c ∷ s) flag =
    let rest = skip_equals s (flag || c == b'=') in
    if is_space c || c == b'=' then rest else (c ∷ s, flag)

abbrev pub not_empty : Bytes → Option Bytes
not_empty [] = none
not_empty (c ∷ s) = some (c ∷ s)

-- The delimiter behind the `=`.
unfoldable pub delimiter : Bytes → Option Bytes
unfolding strchr
delimiter p1 = elim (peek p1 == b'"') [
  | true ↦ elim (strchr b'"' (next p1)) [ none ↦ none | some (inside, at) ↦ not_empty inside ]
  | false ↦ elim (strchr b';' p1) [ none ↦ not_empty p1 | some (before, at) ↦ not_empty before ]
]

-- `GetBoundary`.
unfoldable pub get_boundary : Bytes → Option Bytes
unfolding find_boundary skip_equals delimiter
get_boundary cnt_type = do
  p1 ← find_boundary (suc (length cnt_type)) cnt_type
  let (rest, flag) = skip_equals (drop 8 p1) false
  if flag then delimiter rest else none

-- `CheckContentType`, with `DecodedTypes`.
unfoldable pub has_type : List Bytes → Bytes → Bool
unfolding has_case_prefix
has_type [] p = false
has_type (t ∷ types) p = has_case_prefix t p || has_type types p

unfoldable pub check_content_type : Option Bytes → Bool
unfolding has_type skip_space
check_content_type none = false
check_content_type (some p) = has_type (codes "text/" ∷ codes "message/rfc822" ∷ []) (skip_space p)

blank_line :
    (l rest : Bytes)
    → All (λ c. b' ' ≤ c) l
    → peek rest < b' '
    → blank (l ++ rest) ≡ replicate (length l) b' ' ++ rest
unfolding blank
blank_line [] [] a h = refl
blank_line [] (c ∷ rest) a h = ground arith
blank_line (c ∷ l) rest (p, a) h =
    let yes : leb b' ' c ≡ true = ground arith in rw yes (ap (◌∷◌ b' ') (blank_line l rest a h))

drop-append_left {ℓ} :
    {A : Type ℓ} (n : ℕ) (l rest : List A) → n ≤ length l → drop n (l ++ rest) ≡ drop n l ++ rest
drop-append_left zero l rest h = refl
drop-append_left (suc n) [] rest h = elim h [ ]
drop-append_left (suc n) (c ∷ l) rest h = drop-append_left n l rest (omega arith)

drop-All {ℓ κ} : {A : Type ℓ} (P : A → Type κ) (n : ℕ) (l : List A) → All P l → All P (drop n l)
drop-All P zero l a = a
drop-All P (suc n) [] a = a
drop-All P (suc n) (c ∷ l) (p, a) = drop-All P n l a

-- `SetEncoding8bit` replaces a header line of 31 characters at least by the new field and blanks,
-- of the same length, and does not touch what follows the line.
pub set_encoding8bit-append :
    (l rest : Bytes)
    → 31 ≤ length l
    → All (λ c. b' ' ≤ c) l
    → peek rest < b' '
    → set_encoding8bit (some (l ++ rest)) ≡ some (enc8bit ++ replicate (length l - 31) b' ' ++ rest)
unfolding set_encoding8bit
set_encoding8bit-append l rest long a h =
    let tail : length (drop 31 l) ≡ length l - 31 = length-drop 31 l in
    ap (λ s. some (enc8bit ++ s))
      (ap blank (drop-append_left 31 l rest long)
        ∙ blank_line (drop 31 l) rest (drop-All (λ c. b' ' ≤ c) 31 l a) h
        ∙ ap (λ n. replicate n b' ' ++ rest) tail)

found_boundary :
    (n : ℕ) (t s : Bytes)
    → Lacks b';' t
    → find_boundary (suc n) (t ++ (b';' ∷ (codes " boundary=\"" ++ s)))
      ≡ some (codes "boundary=\"" ++ s)
unfolding find_boundary skip_space has_case_prefix is_space
found_boundary n t s h = rw (strchr_skip b';' t (codes " boundary=\"" ++ s) h, find_boundary) refl

not_empty-some : (b : Bytes) → b ≢ [] → not_empty b ≡ some b
not_empty-some [] h = absurd (h refl)
not_empty-some (c ∷ b) h = refl

delimiter-quoted :
    (b rest : Bytes) → Lacks b'"' b → b ≢ [] → delimiter (b'"' ∷ (b ++ b'"' ∷ rest)) ≡ some b
unfolding delimiter
delimiter-quoted b rest h ne = rw (strchr_skip b'"' b rest h, delimiter) (not_empty-some b ne)

-- A content type without `;`, followed by a boundary in quotes, has that boundary, whatever it
-- holds but for quotes, and whatever follows it.
pub get_boundary-quoted :
    (t b rest : Bytes)
    → Lacks b';' t
    → Lacks b'"' b
    → b ≢ []
    → get_boundary (t ++ (b';' ∷ (codes " boundary=\"" ++ (b ++ b'"' ∷ rest)))) ≡ some b
unfolding get_boundary
get_boundary-quoted t b rest lt lb ne =
    let s = b ++ b'"' ∷ rest in
    rw (found_boundary (length (t ++ (b';' ∷ (codes " boundary=\"" ++ s)))) t s lt)
      (delimiter-quoted b rest lb ne)
