-- ===== src/UidDb/Trie/Bits.antt =====
-- uid_db.c: `find_first_diff_bit` and the bits of an identifier.
use fetchmail.Prelude.{
  some_injective, ℕ, zero, suc, ◌+◌, ◌-◌, ◌*◌, ◌/◌, ◌%◌, ◌<◌, bit_xor, ◌≡◌, refl, sym, ap, ◌∙◌, ◌≢◌,
  inl, inr, Bool, true, false, not, Option, none, some, [], ◌∷◌, arith, ltb, ◌==◌, if◌then◌else◌,
  ltb→lt, Bool-cases, Bytes, peek, All, ==_ne, IsByte,
}
use fetchmail.UidDb.Trie.{bit_set, low_bit, first_set_bit_in_char, find_first_diff_bit}
use fetchmail.UidDb.Trie.Tree.{AgreeBelow}
use fetchmail.UidDb.Trie.Digits.{
  digit, digit_lt, digit-zero, digit-div, low_bit-digit, bit_xor-zero, low_bit-bit_xor,
}

-- The bytes of an identifier are those of a C string.
abbrev pub IsId : Bytes → Type 0
IsId = All (λ c. (c ≢ 0) × IsByte c)

-- The first bit in which two identifiers differ.
abbrev pub IsFirstDiff : ℕ → Bytes → Bytes → Type 0
IsFirstDiff d a b = AgreeBelow d a b × (bit_set d a ≡ not (bit_set d b))

pub bit_set-first : (j : ℕ) (s : Bytes) → j < 8 → bit_set j s ≡ (digit j (peek s) == 1)
unfolding bit_set
bit_set-first j [] lt = let bit : j % 8 ≡ j = omega arith in rw (bit, digit-div j 0 lt) refl
bit_set-first j (x ∷ s) lt =
    let byte : j / 8 ≡ 0 = omega arith in
    let bit : j % 8 ≡ j = omega arith in rw (byte, bit, digit-div j x lt) refl

bit_set-next : (j x : ℕ) (s : Bytes) → bit_set (j + 8) (x ∷ s) ≡ bit_set j s
unfolding bit_set
bit_set-next j x s =
    let byte : (j + 8) / 8 ≡ suc (j / 8) = omega arith in
    let bit : (j + 8) % 8 ≡ j % 8 = omega arith in rw (byte, bit) refl

pub bit_set-nil : (j : ℕ) → bit_set j [] ≡ false
unfolding bit_set
bit_set-nil j = rw (digit-div (j % 8) 0 (omega arith), digit-zero (j % 8)) refl

-- A difference in the first byte.
first_byte :
    (d : ℕ) (a b : Bytes)
    → d < 8
    → digit d (peek a) ≢ digit d (peek b)
    → ((j : ℕ) → j < d → digit j (peek a) ≡ digit j (peek b))
    → IsFirstDiff d a b
first_byte d a b lt apart under = (
  λ j below.
      bit_set-first j a (omega arith) ∙ rw (under j below) (sym (bit_set-first j b (omega arith))),
  rw (bit_set-first d a lt, bit_set-first d b lt)
      (opposite (digit d (peek a)) (digit d (peek b)) (digit_lt d (peek a)) (digit_lt d (peek b))
        apart),
)
  where
    opposite : (p q : ℕ) → p < 2 → q < 2 → p ≢ q → (p == 1) ≡ not (q == 1)
    opposite zero zero lp lq ne = absurd (ne refl)
    opposite zero (suc zero) lp lq ne = refl
    opposite (suc zero) zero lp lq ne = refl
    opposite (suc zero) (suc zero) lp lq ne = absurd (ne refl)
    opposite (suc (suc p)) q lp lq ne = absurd (omega arith)
    opposite p (suc (suc q)) lp lq ne = absurd (omega arith)

IsFirstDiff-sym : (d : ℕ) (a b : Bytes) → IsFirstDiff d a b → IsFirstDiff d b a
IsFirstDiff-sym d a b (agree, differ) =
    (λ j lt. sym (agree j lt), flip (bit_set d a) (bit_set d b) differ)
  where
    flip : (p q : Bool) → p ≡ not q → q ≡ not p
    flip true true e = e
    flip true false e = refl
    flip false true e = refl
    flip false false e = e

-- `ffs` finds where the empty identifier and another one differ.
pub IsFirstDiff-nil :
    (x : ℕ) (s : Bytes) → x ≢ 0 → IsByte x → IsFirstDiff (first_set_bit_in_char x) [] (x ∷ s)
unfolding first_set_bit_in_char
IsFirstDiff-nil x s nonzero fits =
    let (lt, at, under) = low_bit-digit 8 x nonzero (omega arith) in
    rw (==_ne x 0 nonzero) (
      first_byte (low_bit 8 x) [] (x ∷ s) lt
        (λ e. absurd (omega (arith, at, sym e ∙ digit-zero (low_bit 8 x))))
        (λ j below. digit-zero j ∙ sym (under j below)))

IsFirstDiff-bit_xor :
    (x y : ℕ) (s t : Bytes)
    → IsByte x
    → IsByte y
    → (bit_xor x y == 0) ≡ false
    → IsFirstDiff (first_set_bit_in_char (bit_xor x y)) (x ∷ s) (y ∷ t)
unfolding first_set_bit_in_char
IsFirstDiff-bit_xor x y s t fits fits' test =
    let nonzero : bit_xor x y ≢ 0 = ground arith in
    let (lt, apart, under) = low_bit-bit_xor 8 x y nonzero (omega arith) (omega arith) in
    rw test (first_byte (low_bit 8 (bit_xor x y)) (x ∷ s) (y ∷ t) lt apart under)

IsFirstDiff-next : (d x : ℕ) (a b : Bytes) → IsFirstDiff d a b → IsFirstDiff (d + 8) (x ∷ a) (x ∷ b)
IsFirstDiff-next d x a b (agree, differ) = (
  λ j lt. elim (Bool-cases (ltb j 8)) [
    | inl first ↦
        bit_set-first j (x ∷ a) (ltb→lt j 8 first)
        ∙ sym (bit_set-first j (x ∷ b) (ltb→lt j 8 first))
    | inr later ↦
        let is : j ≡ j - 8 + 8 = ground arith in
        rw is
          (bit_set-next (j - 8) x a ∙ agree (j - 8) (ground arith) ∙ sym (bit_set-next (j - 8) x b))
  ],
  bit_set-next d x a ∙ differ ∙ sym (ap not (bit_set-next d x b)),
)

pub find_first_diff_bit-none : (ofs : ℕ) (a b : Bytes) → find_first_diff_bit ofs a b ≡ none → a ≡ b
unfolding find_first_diff_bit
find_first_diff_bit-none ofs [] [] e = refl
find_first_diff_bit-none ofs [] (y ∷ b) e = cc
find_first_diff_bit-none ofs (x ∷ a) [] e = cc
find_first_diff_bit-none ofs (x ∷ a) (y ∷ b) e = elim (Bool-cases (bit_xor x y == 0)) [
  | inl test ↦
      let is : x ≡ y = bit_xor-zero x y (ground arith) in
      rw (is, find_first_diff_bit-none (ofs + 1) a b (rw test at e)) refl
  | inr test ↦ let e' = rw test at e in cc
]

pub find_first_diff_bit-some :
    (ofs : ℕ) (a b : Bytes) (n : ℕ)
    → IsId a
    → IsId b
    → find_first_diff_bit ofs a b ≡ some n
    → (d : ℕ) × (n ≡ d + ofs * 8) × IsFirstDiff d a b
unfolding find_first_diff_bit
find_first_diff_bit-some ofs [] [] n ids ids' e = cc
find_first_diff_bit-some ofs [] (y ∷ b) n ids ((nonzero, fits), _) e =
    (first_set_bit_in_char y, sym (some_injective _ n e), IsFirstDiff-nil y b nonzero fits)
find_first_diff_bit-some ofs (x ∷ a) [] n ((nonzero, fits), _) ids' e = (
  first_set_bit_in_char x,
  sym (some_injective _ n e),
  IsFirstDiff-sym (first_set_bit_in_char x) [] (x ∷ a) (IsFirstDiff-nil x a nonzero fits),
)
find_first_diff_bit-some ofs (x ∷ a) (y ∷ b) n ((_, fits), ids) ((_, fits'), ids') e =
    elim (Bool-cases (bit_xor x y == 0)) [
      | inl test ↦
          let is : x ≡ y = bit_xor-zero x y (ground arith) in
          let (d, at, diff) = find_first_diff_bit-some (ofs + 1) a b n ids ids' (rw test at e) in
          (d + 8, omega (arith, at), rw is (IsFirstDiff-next d y a b diff))
      | inr test ↦ (
        first_set_bit_in_char (bit_xor x y),
        sym (otherwise (bit_xor x y == 0) (find_first_diff_bit (ofs + 1) a b) _ n test e),
        IsFirstDiff-bit_xor x y a b fits fits' test,
      )
    ]
  where
    otherwise :
        (t : Bool) (rest : Option ℕ) (v n : ℕ)
        → t ≡ false
        → (if t then rest else some v) ≡ some n
        → v ≡ n
    otherwise true rest v n f e = cc
    otherwise false rest v n f e = some_injective v n e
