-- ===== src/Prelude/Bits.antt =====
-- `|` of numbers without a common digit is their sum.
use Prim.Native.Nat.{
  ℕ, zero, suc, ◌+◌, ◌*◌, ◌/◌, ◌^◌, ◌≤◌, ◌<◌, max, digits, bit_or, bit_or-bitwise,
}
use mathlib.Core.Path.{◌≡◌, refl, ◌∙◌}
use native.Mathlib.Omega.{arith}

abbrev or_digits : ℕ → ℕ → ℕ → ℕ
or_digits n a b = digits (λ x. x) max n a b

abbrev pub shifted : ℕ → ℕ → ℕ
shifted zero h = h
shifted (suc k) h = 2 * shifted k h

or_digits-zero : (n a : ℕ) → a ≤ n → or_digits n a 0 ≡ a
or_digits-zero zero zero h = refl
or_digits-zero zero (suc a) h = elim h [ ]
or_digits-zero (suc n) zero h = refl
or_digits-zero (suc n) (suc a) h = rw (or_digits-zero n (suc a / 2) (omega arith)) (omega arith)

or_digits-shifted :
    (k n h l a : ℕ) → shifted k h ≡ a → a ≤ n → l < shifted k 1 → or_digits n a l ≡ a + l
or_digits-shifted zero n h zero a e fits lt = rw (or_digits-zero n a fits) (omega arith)
or_digits-shifted zero n h (suc l) a e fits lt = absurd (omega arith)
or_digits-shifted (suc k) zero h l zero e fits lt = omega arith
or_digits-shifted (suc k) zero h l (suc a) e fits lt = elim fits [ ]
or_digits-shifted (suc k) (suc n) h l zero e fits lt = omega arith
or_digits-shifted (suc k) (suc n) h l (suc a) e fits lt =
    rw (or_digits-shifted k n h (l / 2) (suc a / 2) (omega arith) (omega arith) (omega arith))
      (omega arith)

pub bit_or-shifted : (k h l : ℕ) → l < shifted k 1 → bit_or (shifted k h) l ≡ shifted k h + l
bit_or-shifted k h l lt =
    bit_or-bitwise (shifted k h) l
    ∙ or_digits-shifted k (shifted k h) h l (shifted k h) refl (omega arith) lt

pub bit_or_8 : (h l : ℕ) → l < 256 → bit_or (h * 2 ^ 8) l ≡ h * 256 + l
bit_or_8 h l lt =
    let e : h * 2 ^ 8 ≡ shifted 8 h = omega arith in rw e (bit_or-shifted 8 h l lt ∙ omega arith)

pub bit_or_16 : (h l : ℕ) → l < 65536 → bit_or (h * 2 ^ 16) l ≡ h * 65536 + l
bit_or_16 h l lt =
    let e : h * 2 ^ 16 ≡ shifted 16 h = omega arith in rw e (bit_or-shifted 16 h l lt ∙ omega arith)
