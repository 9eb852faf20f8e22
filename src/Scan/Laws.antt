-- ===== src/Scan/Laws.antt =====
-- What is left behind a skipped part, and that a number that was printed is read back.
use fetchmail.Prelude.{
  ℕ, zero, suc, ◌+◌, ◌/◌, ◌%◌, ◌<◌, ◌≡◌, refl, ap, ◌∙◌, inl, inr, Bool, true, false, some, [], ◌∷◌,
  ◌++◌, arith, ltb, ltb→lt, Bool-cases, Bytes, peek, All, is_space,
}
use fetchmail.Scan.{
  is_digit, skip_while, take_while, digits_value, signed, u64, strtoul, decimal_loop, decimal,
}

module _ (p : ℕ → Bool) where
  pub take_while-skip_while : (s : Bytes) → take_while p s ++ skip_while p s ≡ s
  unfolding take_while skip_while
  take_while-skip_while [] = refl
  take_while-skip_while (c ∷ s) = elim (Bool-cases (p c)) [
    | inl h ↦ rw h (ap (◌∷◌ c) (take_while-skip_while s))
    | inr h ↦ rw h refl
  ]

  pub peek-skip_while : (s : Bytes) → p 0 ≡ false → p (peek (skip_while p s)) ≡ false
  unfolding skip_while
  peek-skip_while [] z = z
  peek-skip_while (c ∷ s) z = elim (Bool-cases (p c)) [
    | inl h ↦ rw h (peek-skip_while s z)
    | inr h ↦ rw h h
  ]

  -- A part all of whose bytes are in the set.
  pub skip_while-append :
      (w t : Bytes)
      → All (λ c. p c ≡ true) w
      → p (peek t) ≡ false
      → (take_while p (w ++ t) ≡ w) × (skip_while p (w ++ t) ≡ t)
  unfolding take_while skip_while
  skip_while-append [] [] a h = (refl, refl)
  skip_while-append [] (c ∷ t) a h = rw h (refl, refl)
  skip_while-append (c ∷ w) t (pc, a) h =
      let (x, y) = skip_while-append w t a h in rw (pc, x, y) (refl, refl)

pub is_digit_lem : (d : ℕ) → d < 10 → is_digit (b'0' + d) ≡ true
unfolding is_digit
is_digit_lem d lt = ground arith

-- Of the digits that `decimal_loop` puts before others, the value is that of the number.
digits_value-decimal_loop :
    (fuel n : ℕ) (acc : Bytes)
    → n < fuel
    → digits_value 0 (decimal_loop fuel n acc) ≡ digits_value n acc
unfolding digits_value decimal_loop
digits_value-decimal_loop zero n acc lt = elim lt [ ]
digits_value-decimal_loop (suc fuel) n acc lt = elim (Bool-cases (ltb n 10)) [
  | inl small ↦
      rw (small, digits_value)
        (rw (is_digit_lem n (omega (arith, ltb→lt n 10)))
          (ap (λ m. digits_value m acc) (omega arith)))
  | inr large ↦
      rw
        (
          large,
          digits_value-decimal_loop fuel (n / 10) ((b'0' + n % 10) ∷ acc) (ground arith),
          digits_value,
        )
        (rw (is_digit_lem (n % 10) (omega arith)) (ap (λ m. digits_value m acc) (omega arith)))
]

skip_while-decimal_loop :
    (fuel n : ℕ) (acc : Bytes)
    → n < fuel
    → (skip_while is_digit (decimal_loop fuel n acc) ≡ skip_while is_digit acc)
      × (is_digit (peek (decimal_loop fuel n acc)) ≡ true)
unfolding decimal_loop skip_while
skip_while-decimal_loop zero n acc lt = elim lt [ ]
skip_while-decimal_loop (suc fuel) n acc lt = elim (Bool-cases (ltb n 10)) [
  | inl small ↦ let d = is_digit_lem n (omega (arith, ltb→lt n 10)) in rw small (rw d (refl, refl))
  | inr large ↦
      let d = is_digit_lem (n % 10) (omega arith) in
      let (skipped, first) =
        skip_while-decimal_loop fuel (n / 10) ((b'0' + n % 10) ∷ acc) (ground arith) in
      rw large (skipped ∙ rw (skip_while, d) refl, first)
]

-- `decimal_loop` only puts digits before what it is given.
decimal_loop-append :
    (fuel n : ℕ) (acc t : Bytes) → decimal_loop fuel n acc ++ t ≡ decimal_loop fuel n (acc ++ t)
unfolding decimal_loop
decimal_loop-append zero n acc t = refl
decimal_loop-append (suc fuel) n acc t = elim (Bool-cases (ltb n 10)) [
  | inl small ↦ rw small refl
  | inr large ↦ rw large (decimal_loop-append fuel (n / 10) ((b'0' + n % 10) ∷ acc) t)
]

digits_value_stop : (n : ℕ) (t : Bytes) → is_digit (peek t) ≡ false → digits_value n t ≡ n
unfolding digits_value
digits_value_stop n [] stop = refl
digits_value_stop n (c ∷ t) stop = rw stop refl

pub skip_while_stop : (p : ℕ → Bool) (t : Bytes) → p (peek t) ≡ false → skip_while p t ≡ t
unfolding skip_while
skip_while_stop p [] stop = refl
skip_while_stop p (c ∷ t) stop = rw stop refl

-- No digit is white space or a sign.
pub signed_digit : (s : Bytes) → is_digit (peek s) ≡ true → signed s ≡ (false, s)
unfolding signed is_digit is_space
signed_digit s d = rw (skip_while_stop is_space s (ground arith)) (ground arith)

strtoul_digits :
    (s t : Bytes) (v : ℕ)
    → is_digit (peek s) ≡ true
    → digits_value 0 s ≡ v
    → v < u64
    → skip_while is_digit s ≡ t
    → strtoul s ≡ some (v, false, t)
unfolding strtoul
strtoul_digits s t v d value lt skipped =
    rw (signed_digit s d) (rw (d, value, skipped) (ground arith))

decimal-append : (n : ℕ) (t : Bytes) → decimal n ++ t ≡ decimal_loop (suc n) n t
unfolding decimal
decimal-append n t = decimal_loop-append (suc n) n [] t

-- A printed number starts with a digit.
pub peek-decimal : (n : ℕ) (t : Bytes) → is_digit (peek (decimal n ++ t)) ≡ true
peek-decimal n t = rw (decimal-append n t) (skip_while-decimal_loop (suc n) n t (omega arith)).1

-- A number that was printed, before something else, is read back.
pub strtoul-decimal :
    (n : ℕ) (t : Bytes)
    → n < u64
    → is_digit (peek t) ≡ false
    → strtoul (decimal n ++ t) ≡ some (n, false, t)
strtoul-decimal n t lt stop =
    let (skipped, first) = skip_while-decimal_loop (suc n) n t (omega arith) in
    let value = digits_value-decimal_loop (suc n) n t (omega arith) in
    rw (decimal-append n t) (
      strtoul_digits (decimal_loop (suc n) n t) t n first (value ∙ digits_value_stop n t stop) lt
        (skipped ∙ skip_while_stop is_digit t stop))
