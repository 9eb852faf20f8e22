-- ===== src/Md5/Bits.antt =====
-- The functions of MD5, digit by digit.
use fetchmail.Prelude.{
  ℕ, zero, suc, ◌+◌, ◌-◌, ◌*◌, ◌/◌, ◌%◌, ◌≤◌, ◌<◌, bit_and, bit_or, bit_xor, ◌≡◌, refl, sym, ap,
  ◌∙◌, ◌||◌, arith, ◌==◌, if◌then◌else◌,
}
use Prim.Native.Nat.{min, max, digits, differ, bit_and-bitwise, bit_or-bitwise, bit_xor-bitwise}
use fetchmail.Md5.{m32, f1, f2, f3, f4}

digits_fuel :
    (z : ℕ → ℕ) (f : ℕ → ℕ → ℕ) (n m a b : ℕ) → a ≤ n → a ≤ m → digits z f n a b ≡ digits z f m a b
digits_fuel z f zero zero zero b h k = refl
digits_fuel z f zero (suc m) zero b h k = refl
digits_fuel z f (suc n) zero zero b h k = refl
digits_fuel z f (suc n) (suc m) zero b h k = refl
digits_fuel z f zero m (suc a) b h k = absurd (omega arith)
digits_fuel z f (suc n) zero (suc a) b h k = absurd (omega arith)
digits_fuel z f (suc n) (suc m) (suc a) b h k =
    ap (λ r. r * 2 + f (suc a % 2) (b % 2))
      (digits_fuel z f n m (suc a / 2) (b / 2) (omega arith) (omega arith))

-- The lowest digit, and the others.
bitwise_step :
    (z : ℕ → ℕ) (f : ℕ → ℕ → ℕ) (a b : ℕ)
    → ((c : ℕ) → z c ≡ z (c / 2) * 2 + f 0 (c % 2))
    → digits z f a a b ≡ digits z f (a / 2) (a / 2) (b / 2) * 2 + f (a % 2) (b % 2)
bitwise_step z f zero b law = law b
bitwise_step z f (suc a) b law =
    ap (λ r. r * 2 + f (suc a % 2) (b % 2))
      (digits_fuel z f a (suc a / 2) (suc a / 2) (b / 2) (omega arith) (omega arith))

-- A number of two parts.
halves : (v a d : ℕ) → v ≡ a * 2 + d → d < 2 → (v / 2 ≡ a) × (v % 2 ≡ d)
halves v a d e lt = (omega arith, omega arith)

-- An operation on digits below 2.
AreDigits : (ℕ → ℕ → ℕ) → Type 0
AreDigits f = (a b : ℕ) → a < 2 → b < 2 → f a b < 2

on_digits : (f : ℕ → ℕ → ℕ) → (f 0 0 < 2) × (f 0 1 < 2) × (f 1 0 < 2) × (f 1 1 < 2) → AreDigits f
unfolding AreDigits
on_digits f (p, q, r, s) zero zero h k = p
on_digits f (p, q, r, s) zero (suc zero) h k = q
on_digits f (p, q, r, s) (suc zero) zero h k = r
on_digits f (p, q, r, s) (suc zero) (suc zero) h k = s
on_digits f _ zero (suc (suc b)) h k = absurd (omega arith)
on_digits f _ (suc zero) (suc (suc b)) h k = absurd (omega arith)
on_digits f _ (suc (suc a)) b h k = absurd (omega arith)

and_halves :
    (a b : ℕ)
    → (bit_and a b / 2 ≡ bit_and (a / 2) (b / 2)) × (bit_and a b % 2 ≡ min (a % 2) (b % 2))
unfolding AreDigits
and_halves a b =
    halves (bit_and a b) (bit_and (a / 2) (b / 2)) (min (a % 2) (b % 2))
      (bit_and-bitwise a b
        ∙ bitwise_step (λ b. zero) min a b (λ c. omega arith)
        ∙ ap (λ r. r * 2 + min (a % 2) (b % 2)) (sym (bit_and-bitwise (a / 2) (b / 2))))
      (on_digits min (omega arith, omega arith, omega arith, omega arith) (a % 2) (b % 2)
        (omega arith) (omega arith))

or_halves :
    (a b : ℕ) → (bit_or a b / 2 ≡ bit_or (a / 2) (b / 2)) × (bit_or a b % 2 ≡ max (a % 2) (b % 2))
unfolding AreDigits
or_halves a b =
    halves (bit_or a b) (bit_or (a / 2) (b / 2)) (max (a % 2) (b % 2))
      (bit_or-bitwise a b
        ∙ bitwise_step (λ b. b) max a b (λ c. omega arith)
        ∙ ap (λ r. r * 2 + max (a % 2) (b % 2)) (sym (bit_or-bitwise (a / 2) (b / 2))))
      (on_digits max (omega arith, omega arith, omega arith, omega arith) (a % 2) (b % 2)
        (omega arith) (omega arith))

xor_halves :
    (a b : ℕ)
    → (bit_xor a b / 2 ≡ bit_xor (a / 2) (b / 2)) × (bit_xor a b % 2 ≡ differ (a % 2) (b % 2))
unfolding AreDigits
xor_halves a b =
    halves (bit_xor a b) (bit_xor (a / 2) (b / 2)) (differ (a % 2) (b % 2))
      (bit_xor-bitwise a b
        ∙ bitwise_step (λ b. b) differ a b (λ c. omega arith)
        ∙ ap (λ r. r * 2 + differ (a % 2) (b % 2)) (sym (bit_xor-bitwise (a / 2) (b / 2))))
      (on_digits differ (omega arith, omega arith, omega arith, omega arith) (a % 2) (b % 2)
        (omega arith) (omega arith))

-- The number whose digits are a function of those of three numbers.
abbrev pub digitwise : ℕ → (ℕ → ℕ → ℕ → ℕ) → ℕ → ℕ → ℕ → ℕ
digitwise zero g x y z = 0
digitwise (suc n) g x y z = digitwise n g (x / 2) (y / 2) (z / 2) * 2 + g (x % 2) (y % 2) (z % 2)

abbrev pub two_to : ℕ → ℕ
two_to zero = 1
two_to (suc n) = two_to n * 2

digitwise_lem :
    (f : ℕ → ℕ → ℕ → ℕ → ℕ) (g : ℕ → ℕ → ℕ → ℕ)
    → ((n x y z : ℕ) → f (suc n) x y z / 2 ≡ f n (x / 2) (y / 2) (z / 2))
    → ((n x y z : ℕ) → f (suc n) x y z % 2 ≡ g (x % 2) (y % 2) (z % 2))
    → f 0 0 0 0 ≡ 0
    → (n x y z : ℕ) → x < two_to n
    → y < two_to n
    → z < two_to n
    → f n x y z ≡ digitwise n g x y z
digitwise_lem f g half low start zero x y z h k l =
    let a : x ≡ 0 = omega arith in
    let b : y ≡ 0 = omega arith in let c : z ≡ 0 = omega arith in rw (a, b, c) start
digitwise_lem f g half low start (suc n) x y z h k l =
    let rest =
      digitwise_lem f g half low start n (x / 2) (y / 2) (z / 2) (omega arith) (omega arith)
        (omega arith) in
    omega (arith, half n x y z, low n x y z, rest)

-- Two functions on digits that are the same at each of them.
on_three :
    (p q : ℕ → ℕ → ℕ → ℕ)
    → ((p 0 0 0 ≡ q 0 0 0) × (p 0 0 1 ≡ q 0 0 1) × (p 0 1 0 ≡ q 0 1 0) × (p 0 1 1 ≡ q 0 1 1))
      × ((p 1 0 0 ≡ q 1 0 0) × (p 1 0 1 ≡ q 1 0 1) × (p 1 1 0 ≡ q 1 1 0) × (p 1 1 1 ≡ q 1 1 1))
    → (x y z : ℕ) → x < 2
    → y < 2
    → z < 2
    → p x y z ≡ q x y z
on_three p q e zero zero zero h k l = e.0.0
on_three p q e zero zero (suc zero) h k l = e.0.1
on_three p q e zero zero (suc (suc z)) h k l = absurd (omega arith)
on_three p q e zero (suc zero) zero h k l = e.0.2
on_three p q e zero (suc zero) (suc zero) h k l = e.0.3
on_three p q e zero (suc zero) (suc (suc z)) h k l = absurd (omega arith)
on_three p q e zero (suc (suc y)) z h k l = absurd (omega arith)
on_three p q e (suc zero) zero zero h k l = e.1.0
on_three p q e (suc zero) zero (suc zero) h k l = e.1.1
on_three p q e (suc zero) zero (suc (suc z)) h k l = absurd (omega arith)
on_three p q e (suc zero) (suc zero) zero h k l = e.1.2
on_three p q e (suc zero) (suc zero) (suc zero) h k l = e.1.3
on_three p q e (suc zero) (suc zero) (suc (suc z)) h k l = absurd (omega arith)
on_three p q e (suc zero) (suc (suc y)) z h k l = absurd (omega arith)
on_three p q e (suc (suc x)) y z h k l = absurd (omega arith)

-- If X then Y else Z.
abbrev pub digit_f : ℕ → ℕ → ℕ → ℕ
digit_f x y z = if x == 1 then y else z

-- If Z then X else Y.
abbrev pub digit_g : ℕ → ℕ → ℕ → ℕ
digit_g x y z = if z == 1 then x else y

-- Whether an odd number of them is 1.
abbrev pub digit_h : ℕ → ℕ → ℕ → ℕ
digit_h x y z = (x + y + z) % 2

-- Y is turned over if X or not Z.
abbrev pub digit_i : ℕ → ℕ → ℕ → ℕ
digit_i x y z = if x == 1 || z == 0 then 1 - y else y

ones : ℕ → ℕ
ones zero = 0
ones (suc n) = ones n * 2 + 1

ones_half : (n : ℕ) → (ones (suc n) / 2 ≡ ones n) × (ones (suc n) % 2 ≡ 1)
unfolding ones
ones_half n = (omega arith, omega arith)

ones_32 : ones 32 ≡ m32 - 1
unfolding ones
ones_32 = refl

two_to_32 : two_to 32 ≡ m32
two_to_32 = refl

pub f1_digits : (x y z : ℕ) → x < m32 → y < m32 → z < m32 → f1 x y z ≡ digitwise 32 digit_f x y z
f1_digits =
    digitwise_lem (λ n. f1) digit_f
      (λ n x y z.
        rw
          (
            (xor_halves z (bit_and x (bit_xor y z))).0,
            (and_halves x (bit_xor y z)).0,
            (xor_halves y z).0,
          )
          refl)
      (λ n x y z.
        rw
          (
            (xor_halves z (bit_and x (bit_xor y z))).1,
            (and_halves x (bit_xor y z)).1,
            (xor_halves y z).1,
          )
          (on_three (λ a b c. differ c (min a (differ b c))) digit_f
            ((refl, refl, refl, refl), (refl, refl, refl, refl)) (x % 2) (y % 2) (z % 2)
            (omega arith) (omega arith) (omega arith)))
      refl 32

pub f2_digits : (x y z : ℕ) → x < m32 → y < m32 → z < m32 → f2 x y z ≡ digitwise 32 digit_g x y z
f2_digits =
    digitwise_lem (λ n. f2) digit_g
      (λ n x y z.
        rw
          (
            (xor_halves y (bit_and z (bit_xor x y))).0,
            (and_halves z (bit_xor x y)).0,
            (xor_halves x y).0,
          )
          refl)
      (λ n x y z.
        rw
          (
            (xor_halves y (bit_and z (bit_xor x y))).1,
            (and_halves z (bit_xor x y)).1,
            (xor_halves x y).1,
          )
          (on_three (λ a b c. differ b (min c (differ a b))) digit_g
            ((refl, refl, refl, refl), (refl, refl, refl, refl)) (x % 2) (y % 2) (z % 2)
            (omega arith) (omega arith) (omega arith)))
      refl 32

pub f3_digits : (x y z : ℕ) → x < m32 → y < m32 → z < m32 → f3 x y z ≡ digitwise 32 digit_h x y z
f3_digits =
    digitwise_lem (λ n. f3) digit_h
      (λ n x y z. rw ((xor_halves (bit_xor x y) z).0, (xor_halves x y).0) refl)
      (λ n x y z.
        rw ((xor_halves (bit_xor x y) z).1, (xor_halves x y).1)
          (on_three (λ a b c. differ (differ a b) c) digit_h
            ((refl, refl, refl, refl), (refl, refl, refl, refl)) (x % 2) (y % 2) (z % 2)
            (omega arith) (omega arith) (omega arith)))
      refl 32

f4_of : ℕ → ℕ → ℕ → ℕ → ℕ
f4_of n x y z = bit_xor y (bit_or x (bit_xor z (ones n)))

pub f4_digits : (x y z : ℕ) → x < m32 → y < m32 → z < m32 → f4 x y z ≡ digitwise 32 digit_i x y z
unfolding f4_of
f4_digits x y z h k l =
    ap (λ c. bit_xor y (bit_or x (bit_xor z c))) (sym ones_32)
    ∙ digitwise_lem f4_of digit_i
        (λ n x y z.
          rw
            (
              (xor_halves y (bit_or x (bit_xor z (ones (suc n))))).0,
              (or_halves x (bit_xor z (ones (suc n)))).0,
              (xor_halves z (ones (suc n))).0,
              (ones_half n).0,
            )
            refl)
        (λ n x y z.
          rw
            (
              (xor_halves y (bit_or x (bit_xor z (ones (suc n))))).1,
              (or_halves x (bit_xor z (ones (suc n)))).1,
              (xor_halves z (ones (suc n))).1,
              (ones_half n).1,
            )
            (on_three (λ a b c. differ b (max a (differ c 1))) digit_i
              ((refl, refl, refl, refl), (refl, refl, refl, refl)) (x % 2) (y % 2) (z % 2)
              (omega arith) (omega arith) (omega arith)))
        (unfold ones in refl) 32 x y z h k l
