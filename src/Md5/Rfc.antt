-- ===== src/Md5/Rfc.antt =====
-- The transformation of RFC 1321, section 3.4, and that MD5Transform computes it.
use fetchmail.Prelude.{
  shifted, bit_or-shifted, ℕ, zero, suc, ◌+◌, ◌-◌, ◌*◌, ◌/◌, ◌%◌, ◌^◌, ◌<◌, ◌≡◌, refl, ap, ◌∙◌,
  List, [], ◌∷◌, arith, get_or, All,
}
use fetchmail.Md5.{
  m32, Quad, f1, f2, f3, f4, rotate, md5_step, md5_steps, steps_1, steps_2, steps_3, steps_4,
  md5_transform,
}
use fetchmail.Md5.Bits.{
  digitwise, digit_f, digit_g, digit_h, digit_i, f1_digits, f2_digits, f3_digits, f4_digits,
}

-- A circular shift of 32 bits to the left.
abbrev pub circular : ℕ → ℕ → ℕ
circular v s = (v * 2 ^ s) % 2 ^ 32 + v / 2 ^ (32 - s)

-- `a = b + ((a + F(b,c,d) + X[k] + T[i]) <<< s)`, and then the four words change their roles.
abbrev pub rfc_step : (ℕ → ℕ → ℕ → ℕ) → Quad → ℕ → ℕ → ℕ → Quad
rfc_step g q word k s = record {
  w = q.z;
  x = (q.x + circular ((q.w + digitwise 32 g q.x q.y q.z + word + k) % 2 ^ 32) s) % 2 ^ 32;
  y = q.x;
  z = q.y;
}

-- The table T of the RFC.
abbrev pub table : List ℕ
table =
    0xd76aa478 ∷ 0xe8c7b756 ∷ 0x242070db ∷ 0xc1bdceee ∷ 0xf57c0faf ∷ 0x4787c62a ∷ 0xa8304613
    ∷ 0xfd469501 ∷ 0x698098d8 ∷ 0x8b44f7af ∷ 0xffff5bb1 ∷ 0x895cd7be ∷ 0x6b901122 ∷ 0xfd987193
    ∷ 0xa679438e ∷ 0x49b40821 ∷ 0xf61e2562 ∷ 0xc040b340 ∷ 0x265e5a51 ∷ 0xe9b6c7aa ∷ 0xd62f105d
    ∷ 0x02441453 ∷ 0xd8a1e681 ∷ 0xe7d3fbc8 ∷ 0x21e1cde6 ∷ 0xc33707d6 ∷ 0xf4d50d87 ∷ 0x455a14ed
    ∷ 0xa9e3e905 ∷ 0xfcefa3f8 ∷ 0x676f02d9 ∷ 0x8d2a4c8a ∷ 0xfffa3942 ∷ 0x8771f681 ∷ 0x6d9d6122
    ∷ 0xfde5380c ∷ 0xa4beea44 ∷ 0x4bdecfa9 ∷ 0xf6bb4b60 ∷ 0xbebfbc70 ∷ 0x289b7ec6 ∷ 0xeaa127fa
    ∷ 0xd4ef3085 ∷ 0x04881d05 ∷ 0xd9d4d039 ∷ 0xe6db99e5 ∷ 0x1fa27cf8 ∷ 0xc4ac5665 ∷ 0xf4292244
    ∷ 0x432aff97 ∷ 0xab9423a7 ∷ 0xfc93a039 ∷ 0x655b59c3 ∷ 0x8f0ccc92 ∷ 0xffeff47d ∷ 0x85845dd1
    ∷ 0x6fa87e4f ∷ 0xfe2ce6e0 ∷ 0xa3014314 ∷ 0x4e0811a1 ∷ 0xf7537e82 ∷ 0xbd3af235 ∷ 0x2ad7d2bb
    ∷ 0xeb86d391 ∷ []

-- A round of 16 steps: step `i` takes the word `(at + by * i) % 16` and the constant `from + i`. Their
-- distances come in turns of four. `n` steps are left.
abbrev pub rfc_round : (ℕ → ℕ → ℕ → ℕ) → ℕ → ℕ → ℕ → List ℕ → List ℕ → ℕ → Quad → Quad
rfc_round g at by from distances words zero q = q
rfc_round g at by from distances words (suc n) q =
    let i = 15 - n in
    rfc_round g at by from distances words n (
      rfc_step g q (get_or words ((at + by * i) % 16) 0) (get_or table (from + i) 0)
        (get_or distances (i % 4) 0))

-- The four rounds, and the sum with the words before them.
abbrev pub rfc_transform : Quad → List ℕ → Quad
rfc_transform q words =
    let r_1 = rfc_round digit_f 0 1 0 (7 ∷ 12 ∷ 17 ∷ 22 ∷ []) words 16 q in
    let r_2 = rfc_round digit_g 1 5 16 (5 ∷ 9 ∷ 14 ∷ 20 ∷ []) words 16 r_1 in
    let r_3 = rfc_round digit_h 5 3 32 (4 ∷ 11 ∷ 16 ∷ 23 ∷ []) words 16 r_2 in
    let r_4 = rfc_round digit_i 0 7 48 (6 ∷ 10 ∷ 15 ∷ 21 ∷ []) words 16 r_3 in
    record {
      w = (q.w + r_4.w) % 2 ^ 32;
      x = (q.x + r_4.x) % 2 ^ 32;
      y = (q.y + r_4.y) % 2 ^ 32;
      z = (q.z + r_4.z) % 2 ^ 32;
    }

-- Numbers of 32 bits.
pub record AreWords (q : Quad) : Type 0 where
  pub w : q.w < m32
  pub x : q.x < m32
  pub y : q.y < m32
  pub z : q.z < m32

-- The distances by which `MD5STEP` shifts as it should.
abbrev IsDistance : ℕ → Type 0
IsDistance s = (v : ℕ) → v < m32 → rotate v s ≡ circular v s

rotate_lem :
    (s h v : ℕ)
    → (v * 2 ^ s) % m32 ≡ shifted s h
    → v / 2 ^ (32 - s) < shifted s 1
    → rotate v s ≡ circular v s
rotate_lem s h v e lt = rw e (bit_or-shifted s h (v / 2 ^ (32 - s)) lt)

IsDistance-4 : IsDistance 4
IsDistance-4 v lt = rotate_lem 4 (v % 2 ^ 28) v (omega arith) (omega arith)

IsDistance-5 : IsDistance 5
IsDistance-5 v lt = rotate_lem 5 (v % 2 ^ 27) v (omega arith) (omega arith)

IsDistance-6 : IsDistance 6
IsDistance-6 v lt = rotate_lem 6 (v % 2 ^ 26) v (omega arith) (omega arith)

IsDistance-7 : IsDistance 7
IsDistance-7 v lt = rotate_lem 7 (v % 2 ^ 25) v (omega arith) (omega arith)

IsDistance-9 : IsDistance 9
IsDistance-9 v lt = rotate_lem 9 (v % 2 ^ 23) v (omega arith) (omega arith)

IsDistance-10 : IsDistance 10
IsDistance-10 v lt = rotate_lem 10 (v % 2 ^ 22) v (omega arith) (omega arith)

IsDistance-11 : IsDistance 11
IsDistance-11 v lt = rotate_lem 11 (v % 2 ^ 21) v (omega arith) (omega arith)

IsDistance-12 : IsDistance 12
IsDistance-12 v lt = rotate_lem 12 (v % 2 ^ 20) v (omega arith) (omega arith)

IsDistance-14 : IsDistance 14
IsDistance-14 v lt = rotate_lem 14 (v % 2 ^ 18) v (omega arith) (omega arith)

IsDistance-15 : IsDistance 15
IsDistance-15 v lt = rotate_lem 15 (v % 2 ^ 17) v (omega arith) (omega arith)

IsDistance-16 : IsDistance 16
IsDistance-16 v lt = rotate_lem 16 (v % 2 ^ 16) v (omega arith) (omega arith)

IsDistance-17 : IsDistance 17
IsDistance-17 v lt = rotate_lem 17 (v % 2 ^ 15) v (omega arith) (omega arith)

IsDistance-20 : IsDistance 20
IsDistance-20 v lt = rotate_lem 20 (v % 2 ^ 12) v (omega arith) (omega arith)

IsDistance-21 : IsDistance 21
IsDistance-21 v lt = rotate_lem 21 (v % 2 ^ 11) v (omega arith) (omega arith)

IsDistance-22 : IsDistance 22
IsDistance-22 v lt = rotate_lem 22 (v % 2 ^ 10) v (omega arith) (omega arith)

IsDistance-23 : IsDistance 23
IsDistance-23 v lt = rotate_lem 23 (v % 2 ^ 9) v (omega arith) (omega arith)

-- The steps of the RFC, with their words, constants and distances.
abbrev listed : (ℕ → ℕ → ℕ → ℕ) → List ℕ → List (ℕ × ℕ × ℕ) → Quad → Quad
listed g words [] q = q
listed g words ((i, k, s) ∷ rows) q = listed g words rows (rfc_step g q (get_or words i 0) k s)

IsDigitwise : (ℕ → ℕ → ℕ → ℕ) → (ℕ → ℕ → ℕ → ℕ) → Type 0
IsDigitwise f g = (x y z : ℕ) → x < m32 → y < m32 → z < m32 → f x y z ≡ digitwise 32 g x y z

AreWords-rfc_step :
    (g : ℕ → ℕ → ℕ → ℕ) (q : Quad) (word k s : ℕ) → AreWords q → AreWords (rfc_step g q word k s)
AreWords-rfc_step g q word k s v = record { w = v.z; x = omega arith; y = v.x; z = v.y }

md5_step-rfc_step :
    (f g : ℕ → ℕ → ℕ → ℕ) (q : Quad) (word k s : ℕ)
    → IsDigitwise f g
    → IsDistance s
    → AreWords q
    → md5_step f q ((word + k) % m32) s ≡ rfc_step g q word k s
unfolding md5_step IsDigitwise
md5_step-rfc_step f g q word k s same distance v =
    let d = digitwise 32 g q.x q.y q.z in
    let value = same q.x q.y q.z v.x v.y v.z in
    let sum : (q.w + f q.x q.y q.z + (word + k) % m32) % m32 ≡ (q.w + d + word + k) % m32 =
      rw value (omega arith) in
    let turned : rotate ((q.w + f q.x q.y q.z + (word + k) % m32) % m32) s
        ≡ circular ((q.w + d + word + k) % m32) s =
      ap (λ r. rotate r s) sum ∙ distance ((q.w + d + word + k) % m32) (omega arith) in
    let whole : (rotate ((q.w + f q.x q.y q.z + (word + k) % m32) % m32) s + q.x) % m32
        ≡ (q.x + circular ((q.w + d + word + k) % m32) s) % m32 =
      ap (λ r. (r + q.x) % m32) turned
      ∙ ap (λ r. r % m32) (add_swap (circular ((q.w + d + word + k) % m32) s) q.x) in
    ap (λ r. record { w = q.z; x = r; y = q.x; z = q.y }) whole
  where
    add_swap : (a b : ℕ) → a + b ≡ b + a
    add_swap a b = omega arith

-- Steps with the same rows.
md5_steps-listed :
    (f g : ℕ → ℕ → ℕ → ℕ) (words : List ℕ) (rows : List (ℕ × ℕ × ℕ)) (q : Quad)
    → IsDigitwise f g
    → All (λ row. IsDistance row.2) rows
    → AreWords q
    → (md5_steps f words rows q ≡ listed g words rows q) × AreWords (listed g words rows q)
unfolding md5_steps
md5_steps-listed f g words [] q same distances v = (refl, v)
md5_steps-listed f g words ((i, k, s) ∷ rows) q same (distance, distances) v =
    let one = md5_step-rfc_step f g q (get_or words i 0) k s same distance v in
    let (rest, w) =
      md5_steps-listed f g words rows (rfc_step g q (get_or words i 0) k s) same distances
        (AreWords-rfc_step g q (get_or words i 0) k s v) in
    (ap (md5_steps f words rows) one ∙ rest, w)

round_1 :
    (words : List ℕ) (q : Quad)
    → AreWords q
    → (md5_steps f1 words steps_1 q ≡ rfc_round digit_f 0 1 0 (7 ∷ 12 ∷ 17 ∷ 22 ∷ []) words 16 q)
      × AreWords (rfc_round digit_f 0 1 0 (7 ∷ 12 ∷ 17 ∷ 22 ∷ []) words 16 q)
round_1 words q = md5_steps-listed f1 digit_f words steps_1 q (unfold IsDigitwise in f1_digits) (
  IsDistance-7,
  (
    IsDistance-12,
    (
      IsDistance-17,
      (
        IsDistance-22,
        (
          IsDistance-7,
          (
            IsDistance-12,
            (
              IsDistance-17,
              (
                IsDistance-22,
                (
                  IsDistance-7,
                  (
                    IsDistance-12,
                    (
                      IsDistance-17,
                      (
                        IsDistance-22,
                        (IsDistance-7, (IsDistance-12, (IsDistance-17, (IsDistance-22, tt)))),
                      ),
                    ),
                  ),
                ),
              ),
            ),
          ),
        ),
      ),
    ),
  ),
)

round_2 :
    (words : List ℕ) (q : Quad)
    → AreWords q
    → (md5_steps f2 words steps_2 q ≡ rfc_round digit_g 1 5 16 (5 ∷ 9 ∷ 14 ∷ 20 ∷ []) words 16 q)
      × AreWords (rfc_round digit_g 1 5 16 (5 ∷ 9 ∷ 14 ∷ 20 ∷ []) words 16 q)
round_2 words q = md5_steps-listed f2 digit_g words steps_2 q (unfold IsDigitwise in f2_digits) (
  IsDistance-5,
  (
    IsDistance-9,
    (
      IsDistance-14,
      (
        IsDistance-20,
        (
          IsDistance-5,
          (
            IsDistance-9,
            (
              IsDistance-14,
              (
                IsDistance-20,
                (
                  IsDistance-5,
                  (
                    IsDistance-9,
                    (
                      IsDistance-14,
                      (
                        IsDistance-20,
                        (IsDistance-5, (IsDistance-9, (IsDistance-14, (IsDistance-20, tt)))),
                      ),
                    ),
                  ),
                ),
              ),
            ),
          ),
        ),
      ),
    ),
  ),
)

round_3 :
    (words : List ℕ) (q : Quad)
    → AreWords q
    → (md5_steps f3 words steps_3 q ≡ rfc_round digit_h 5 3 32 (4 ∷ 11 ∷ 16 ∷ 23 ∷ []) words 16 q)
      × AreWords (rfc_round digit_h 5 3 32 (4 ∷ 11 ∷ 16 ∷ 23 ∷ []) words 16 q)
round_3 words q = md5_steps-listed f3 digit_h words steps_3 q (unfold IsDigitwise in f3_digits) (
  IsDistance-4,
  (
    IsDistance-11,
    (
      IsDistance-16,
      (
        IsDistance-23,
        (
          IsDistance-4,
          (
            IsDistance-11,
            (
              IsDistance-16,
              (
                IsDistance-23,
                (
                  IsDistance-4,
                  (
                    IsDistance-11,
                    (
                      IsDistance-16,
                      (
                        IsDistance-23,
                        (IsDistance-4, (IsDistance-11, (IsDistance-16, (IsDistance-23, tt)))),
                      ),
                    ),
                  ),
                ),
              ),
            ),
          ),
        ),
      ),
    ),
  ),
)

round_4 :
    (words : List ℕ) (q : Quad)
    → AreWords q
    → (md5_steps f4 words steps_4 q ≡ rfc_round digit_i 0 7 48 (6 ∷ 10 ∷ 15 ∷ 21 ∷ []) words 16 q)
      × AreWords (rfc_round digit_i 0 7 48 (6 ∷ 10 ∷ 15 ∷ 21 ∷ []) words 16 q)
round_4 words q = md5_steps-listed f4 digit_i words steps_4 q (unfold IsDigitwise in f4_digits) (
  IsDistance-6,
  (
    IsDistance-10,
    (
      IsDistance-15,
      (
        IsDistance-21,
        (
          IsDistance-6,
          (
            IsDistance-10,
            (
              IsDistance-15,
              (
                IsDistance-21,
                (
                  IsDistance-6,
                  (
                    IsDistance-10,
                    (
                      IsDistance-15,
                      (
                        IsDistance-21,
                        (IsDistance-6, (IsDistance-10, (IsDistance-15, (IsDistance-21, tt)))),
                      ),
                    ),
                  ),
                ),
              ),
            ),
          ),
        ),
      ),
    ),
  ),
)

-- The sum with the words before the rounds.
added : Quad → Quad → Quad
added q r = record {
  w = (q.w + r.w) % m32;
  x = (q.x + r.x) % m32;
  y = (q.y + r.y) % m32;
  z = (q.z + r.z) % m32;
}

AreWords-added : (q r : Quad) → AreWords (added q r)
unfolding added
AreWords-added q r = record { w = omega arith; x = omega arith; y = omega arith; z = omega arith }

rounds :
    (words : List ℕ) (q r_1 r_2 r_3 r_4 : Quad)
    → md5_steps f1 words steps_1 q ≡ r_1
    → md5_steps f2 words steps_2 r_1 ≡ r_2
    → md5_steps f3 words steps_3 r_2 ≡ r_3
    → md5_steps f4 words steps_4 r_3 ≡ r_4
    → md5_transform q words ≡ added q r_4
unfolding md5_transform added
rounds words q r_1 r_2 r_3 r_4 e_1 e_2 e_3 e_4 = ap (added q) (
    ap (λ r. md5_steps f4 words steps_4 (md5_steps f3 words steps_3 (md5_steps f2 words steps_2 r)))
      e_1
    ∙ ap (λ r. md5_steps f4 words steps_4 (md5_steps f3 words steps_3 r)) e_2
    ∙ ap (md5_steps f4 words steps_4) e_3
    ∙ e_4)

-- `MD5Transform` is the transformation of the RFC.
pub md5_transform-rfc_transform :
    (q : Quad) (words : List ℕ)
    → AreWords q
    → (md5_transform q words ≡ rfc_transform q words) × AreWords (rfc_transform q words)
unfolding added
md5_transform-rfc_transform q words v =
    let (e_1, v_1) = round_1 words q v in
    let (e_2, v_2) = round_2 words _ v_1 in
    let (e_3, v_3) = round_3 words _ v_2 in
    let (e_4, v_4) = round_4 words _ v_3 in
    (rounds words q _ _ _ _ e_1 e_2 e_3 e_4, AreWords-added q _)
