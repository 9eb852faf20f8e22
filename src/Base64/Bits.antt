-- ===== src/Base64/Bits.antt =====
-- The shifts and masks of base64.c as arithmetic, and the digit table.
use fetchmail.Prelude.{
  ℕ, ◌+◌, ◌*◌, ◌/◌, ◌%◌, ◌<◌, ◌≡◌, refl, Bool, true, false, not, Option, none, some, bit_and,
  bit_or, ◌==◌, ==_iff, every, every_lem, arith, ◌&&◌,
}
use fetchmail.Base64.{decode64, digit}

table_sound : (n : ℕ) (f g : ℕ → ℕ) (x : ℕ) → every (λ y. f y == g y) n ≡ true → x < n → f x ≡ g x
table_sound n f g x t h = (==_iff _ _).0 (every_lem (λ y. f y == g y) n t x h)

pub and_low2 : (a : ℕ) → a < 256 → bit_and (a * 16) 0x30 ≡ a % 4 * 16
unfolding every
and_low2 a h = table_sound 256 (λ a. bit_and (a * 16) 0x30) (λ a. a % 4 * 16) a refl h

pub and_low4 : (a : ℕ) → a < 256 → bit_and (a * 4) 0x3c ≡ a % 16 * 4
unfolding every
and_low4 a h = table_sound 256 (λ a. bit_and (a * 4) 0x3c) (λ a. a % 16 * 4) a refl h

pub and_low6 : (a : ℕ) → a < 256 → bit_and a 0x3f ≡ a % 64
unfolding every
and_low6 a h = table_sound 256 (λ a. bit_and a 0x3f) (λ a. a % 64) a refl h

pub and_f0 : (v : ℕ) → v < 64 → bit_and (v * 16) 0xf0 ≡ v % 16 * 16
unfolding every
and_f0 v h = table_sound 64 (λ v. bit_and (v * 16) 0xf0) (λ v. v % 16 * 16) v refl h

pub and_c0 : (v : ℕ) → v < 64 → bit_and (v * 64) 0xc0 ≡ v % 4 * 64
unfolding every
and_c0 v h = table_sound 64 (λ v. bit_and (v * 64) 0xc0) (λ v. v % 4 * 64) v refl h

or_split4 : (x : ℕ) → x < 256 → bit_or (x / 4 * 4) (x % 4) ≡ x
unfolding every
or_split4 x h = table_sound 256 (λ x. bit_or (x / 4 * 4) (x % 4)) (λ x. x) x refl h

or_split16 : (x : ℕ) → x < 256 → bit_or (x / 16 * 16) (x % 16) ≡ x
unfolding every
or_split16 x h = table_sound 256 (λ x. bit_or (x / 16 * 16) (x % 16)) (λ x. x) x refl h

or_split64 : (x : ℕ) → x < 256 → bit_or (x / 64 * 64) (x % 64) ≡ x
unfolding every
or_split64 x h = table_sound 256 (λ x. bit_or (x / 64 * 64) (x % 64)) (λ x. x) x refl h

-- An `or` of parts that share no bit is their sum.
pub or_low2 : (hi lo : ℕ) → hi < 64 → lo < 4 → bit_or (hi * 4) lo ≡ hi * 4 + lo
or_low2 hi lo h k = rw (ap₂' (omega arith) (omega arith)) (or_split4 (hi * 4 + lo) (omega arith))
  where
    ap₂' :
        hi ≡ (hi * 4 + lo) / 4
        → lo ≡ (hi * 4 + lo) % 4
        → bit_or (hi * 4) lo ≡ bit_or ((hi * 4 + lo) / 4 * 4) ((hi * 4 + lo) % 4)
    ap₂' p q = cc

pub or_low4 : (hi lo : ℕ) → hi < 16 → lo < 16 → bit_or (hi * 16) lo ≡ hi * 16 + lo
or_low4 hi lo h k = grind (arith, or_split16 (hi * 16 + lo))

pub or_low6 : (hi lo : ℕ) → hi < 4 → lo < 64 → bit_or (hi * 64) lo ≡ hi * 64 + lo
or_low6 hi lo h k = grind (arith, or_split64 (hi * 64 + lo))

is_value : Option ℕ → ℕ → Bool
is_value none i = false
is_value (some v) i = v == i

is_value_sound : (o : Option ℕ) (i : ℕ) → is_value o i ≡ true → o ≡ some i
unfolding is_value
is_value_sound none i h = cc
is_value_sound (some v) i h = ground arith

-- A digit of the table is decoded to its index, and is neither `=` nor CR nor NUL nor `+ `.
pub decode64-digit : (i : ℕ) → i < 64 → decode64 (digit i) ≡ some i
unfolding every is_value digit decode64
decode64-digit i h =
    is_value_sound _ i (every_lem (λ i. is_value (decode64 (digit i)) i) 64 refl i h)

plain : ℕ → Bool
plain c = not (c == b'=') && not (c == b'\r') && not (c == 0) && not (c == b' ')

plain_ne :
    (c : ℕ)
    → plain c ≡ true
    → ((c == b'=') ≡ false) × ((c == b'\r') ≡ false) × ((c == 0) ≡ false) × ((c == b' ') ≡ false)
unfolding plain
plain_ne c h = ground arith

pub digit_ne :
    (i : ℕ)
    → i < 64
    → ((digit i == b'=') ≡ false)
      × ((digit i == b'\r') ≡ false)
      × ((digit i == 0) ≡ false)
      × ((digit i == b' ') ≡ false)
unfolding plain every digit
digit_ne i h = plain_ne (digit i) (every_lem (λ i. plain (digit i)) 64 refl i h)
