-- ===== src/UidDb/Trie/Digits.antt =====
-- uid_db.c: the binary digits of a byte, as `ffs`, `^` and `&` read them.
use fetchmail.Prelude.{
  ℕ, zero, suc, ◌+◌, ◌*◌, ◌/◌, ◌%◌, ◌^◌, ◌≤◌, ◌<◌, bit_xor, ◌≡◌, refl, sym, ap, ◌∙◌, ◌≢◌, inl, inr,
  arith, ◌==◌, Bool-cases,
}
use Prim.Native.Nat.{digits, differ, bit_xor-bitwise}
use fetchmail.UidDb.Trie.{low_bit}

abbrev pub digit : ℕ → ℕ → ℕ
digit zero v = v % 2
digit (suc j) v = digit j (v / 2)

pub digit_lt : (j v : ℕ) → digit j v < 2
digit_lt zero v = omega arith
digit_lt (suc j) v = digit_lt j (v / 2)

pub digit-zero : (j : ℕ) → digit j 0 ≡ 0
digit-zero zero = omega arith
digit-zero (suc j) = let half : 0 / 2 ≡ 0 = omega arith in rw half (digit-zero j)

pub digit-div : (j v : ℕ) → j < 8 → (v / 2 ^ j) % 2 ≡ digit j v
digit-div zero v lt = omega arith
digit-div (suc zero) v lt = omega arith
digit-div (suc (suc zero)) v lt = omega arith
digit-div (suc (suc (suc zero))) v lt = omega arith
digit-div (suc (suc (suc (suc zero)))) v lt = omega arith
digit-div (suc (suc (suc (suc (suc zero))))) v lt = omega arith
digit-div (suc (suc (suc (suc (suc (suc zero)))))) v lt = omega arith
digit-div (suc (suc (suc (suc (suc (suc (suc zero))))))) v lt = omega arith
digit-div (suc (suc (suc (suc (suc (suc (suc (suc j)))))))) v lt = absurd (omega arith)

-- 2 ^ n, by steps.
abbrev pub size : ℕ → ℕ
size zero = 1
size (suc n) = 2 * size n

-- The lowest digit that is 1.
pub low_bit-digit :
    (n v : ℕ)
    → v ≢ 0
    → v < size n
    → (low_bit n v < n) × (digit (low_bit n v) v ≡ 1) × ((j : ℕ) → j < low_bit n v → digit j v ≡ 0)
unfolding low_bit
low_bit-digit zero v nonzero fits = absurd (nonzero (omega arith))
low_bit-digit (suc n) v nonzero fits = elim (Bool-cases (v % 2 == 1)) [
  | inl odd ↦ rw odd (omega arith, ground arith, λ j lt. absurd (omega arith))
  | inr even ↦
      let is : v % 2 ≡ 0 = ground arith in
      let (lt, at, under) =
        low_bit-digit n (v / 2) (λ e. nonzero (omega (arith, e, is))) (omega arith) in
      rw even (omega arith, at, go is under)
]
  where
    go :
        v % 2 ≡ 0
        → ((j : ℕ) → j < low_bit n (v / 2) → digit j (v / 2) ≡ 0)
        → (j : ℕ) → j < suc (low_bit n (v / 2))
        → digit j v ≡ 0
    go is under zero lt = is
    go is under (suc j) lt = under j (omega arith)

abbrev xor_digits : ℕ → ℕ → ℕ → ℕ
xor_digits n a b = digits (λ b. b) differ n a b

differ_self : (a : ℕ) → differ a a ≡ 0
differ_self zero = refl
differ_self (suc a) = differ_self a

differ-zero : (a b : ℕ) → differ a b ≡ 0 → a ≡ b
differ-zero zero b e = sym e
differ-zero (suc a) zero e = e
differ-zero (suc a) (suc b) e = ap suc (differ-zero a b e)

differ_lt : (a b : ℕ) → a < 2 → b < 2 → differ a b < 2
differ_lt zero b la lb = lb
differ_lt (suc a) zero la lb = la
differ_lt (suc a) (suc b) la lb = differ_lt a b (omega arith) (omega arith)

digit-xor : (j n a b : ℕ) → a ≤ n → digit j (xor_digits n a b) ≡ differ (digit j a) (digit j b)
digit-xor j zero zero b le = rw (digit-zero j) refl
digit-xor j zero (suc a) b le = absurd (omega arith)
digit-xor j (suc n) zero b le = rw (digit-zero j) refl
digit-xor zero (suc n) (suc a) b le =
    omega (arith, differ_lt (suc a % 2) (b % 2) (omega arith) (omega arith))
digit-xor (suc j) (suc n) (suc a) b le =
    let rest = xor_digits n (suc a / 2) (b / 2) in
    let half : (rest * 2 + differ (suc a % 2) (b % 2)) / 2 ≡ rest =
      omega (arith, differ_lt (suc a % 2) (b % 2) (omega arith) (omega arith)) in
    rw half (digit-xor j n (suc a / 2) (b / 2) (omega arith))

xor_digits-zero : (n a b : ℕ) → a ≤ n → xor_digits n a b ≡ 0 → a ≡ b
xor_digits-zero zero zero b le e = sym e
xor_digits-zero zero (suc a) b le e = absurd (omega arith)
xor_digits-zero (suc n) zero b le e = sym e
xor_digits-zero (suc n) (suc a) b le e =
    let low = differ-zero (suc a % 2) (b % 2) (omega arith) in
    let high = xor_digits-zero n (suc a / 2) (b / 2) (omega arith) (omega arith) in
    omega (arith, low, high)

xor_digits_lt : (k n a b : ℕ) → a < size k → b < size k → xor_digits n a b < size k
xor_digits_lt zero zero a b la lb = lb
xor_digits_lt zero (suc n) zero b la lb = lb
xor_digits_lt zero (suc n) (suc a) b la lb = absurd (omega arith)
xor_digits_lt (suc k) zero a b la lb = lb
xor_digits_lt (suc k) (suc n) zero b la lb = lb
xor_digits_lt (suc k) (suc n) (suc a) b la lb =
    let bit = differ_lt (suc a % 2) (b % 2) (omega arith) (omega arith) in
    let rest = xor_digits_lt k n (suc a / 2) (b / 2) (omega arith) (omega arith) in
    omega (arith, bit, rest)

-- Of two bytes that differ, the lowest digit of `a ^ b` that is 1 is the first in which they differ.
pub bit_xor-zero : (a b : ℕ) → bit_xor a b ≡ 0 → a ≡ b
bit_xor-zero a b e = xor_digits-zero a a b (omega arith) (sym (bit_xor-bitwise a b) ∙ e)

pub low_bit-bit_xor :
    (n a b : ℕ)
    → bit_xor a b ≢ 0
    → a < size n
    → b < size n
    → (low_bit n (bit_xor a b) < n)
      × (digit (low_bit n (bit_xor a b)) a ≢ digit (low_bit n (bit_xor a b)) b)
      × ((j : ℕ) → j < low_bit n (bit_xor a b) → digit j a ≡ digit j b)
low_bit-bit_xor n a b nonzero la lb =
    let is = bit_xor-bitwise a b in
    let (lt, at, under) =
      low_bit-digit n (bit_xor a b) nonzero (rw is (xor_digits_lt n a a b la lb)) in
    let each : (j : ℕ) → digit j (bit_xor a b) ≡ differ (digit j a) (digit j b) =
      λ j. rw is (digit-xor j a a b (omega arith)) in
    (
      lt,
      λ e.
          let none_there : digit (low_bit n (bit_xor a b)) (bit_xor a b) ≡ 0 =
            each (low_bit n (bit_xor a b))
            ∙ rw e (differ_self (digit (low_bit n (bit_xor a b)) b)) in
          absurd (omega (arith, at, none_there)),
      λ j below. differ-zero (digit j a) (digit j b) (sym (each j) ∙ under j below),
    )
