-- ===== src/Base64/RoundTrip.antt =====
-- Decoding what `to64frombits` wrote.
use fetchmail.Prelude.{
  ℕ, ◌+◌, ◌*◌, ◌/◌, ◌%◌, ◌≤◌, ◌<◌, bit_and, bit_or, ◌≡◌, refl, ◌∙◌, ◌≢◌, ◌⊎◌, false, Option, some,
  [], ◌∷◌, ◌++◌, append_assoc, append-nil, arith, ◌==◌, length, Bytes, peek, All, IsByte,
}
use fetchmail.Base64.{
  skip_plus, from64tobits, decode_loop, again, peek, length, Bytes, put, to64frombits, digit, group,
}
use fetchmail.Base64.Bits.{
  and_low6, and_low2, and_low4, and_f0, and_c0, or_low2, or_low4, or_low6, decode64-digit, digit_ne,
}

-- The four six-bit values of three bytes.
top : ℕ → ℕ
top a = a / 4

second : ℕ → ℕ → ℕ
second a b = a % 4 * 16 + b / 16

third : ℕ → ℕ → ℕ
third b c = b % 16 * 4 + c / 64

code_second : (a b : ℕ) → a < 256 → b < 256 → bit_or (bit_and (a * 16) 0x30) (b / 16) ≡ second a b
unfolding second
code_second a b h k = rw (and_low2 a h) (or_low4 (a % 4) (b / 16) (omega arith) (omega arith))

code_third : (b c : ℕ) → b < 256 → c < 256 → bit_or (bit_and (b * 4) 0x3c) (c / 64) ≡ third b c
unfolding third
code_third b c h k = rw (and_low4 b h) (or_low2 (b % 16) (c / 64) (omega arith) (omega arith))

-- The decoder's three bytes from six-bit values.
byte_first : (v w : ℕ) → v < 64 → w < 64 → bit_or (v * 4) (w / 16) ≡ v * 4 + w / 16
byte_first v w h k = or_low2 v (w / 16) h (omega arith)

byte_second :
    (v w : ℕ) → v < 64 → w < 64 → bit_or (bit_and (v * 16) 0xf0) (w / 4) ≡ v % 16 * 16 + w / 4
byte_second v w h k = rw (and_f0 v h) (or_low4 (v % 16) (w / 4) (omega arith) (omega arith))

byte_third : (v w : ℕ) → v < 64 → w < 64 → bit_or (bit_and (v * 64) 0xc0) w ≡ v % 4 * 64 + w
byte_third v w h k = rw (and_c0 v h) (or_low6 (v % 4) w (omega arith) k)

group-digits :
    (v w x y : ℕ)
    → v < 64
    → w < 64
    → x < 64
    → y < 64
    → group (digit v) (digit w) (digit x) (digit y)
      ≡ some ((v * 4 + w / 16) ∷ (w % 16 * 16 + x / 4) ∷ (x % 4 * 64 + y) ∷ [])
unfolding group
group-digits v w x y hv hw hx hy = rw (
  decode64-digit v hv,
  decode64-digit w hw,
  (digit_ne x hx).0,
  decode64-digit x hx,
  (digit_ne y hy).0,
  decode64-digit y hy,
  byte_first v w hv hw,
  byte_second w x hw hx,
  byte_third x y hx hy,
)

group-pad_one :
    (v w x : ℕ)
    → v < 64
    → w < 64
    → x < 64
    → group (digit v) (digit w) (digit x) b'='
      ≡ some ((v * 4 + w / 16) ∷ (w % 16 * 16 + x / 4) ∷ [])
unfolding group
group-pad_one v w x hv hw hx = rw (
  decode64-digit v hv,
  decode64-digit w hw,
  (digit_ne x hx).0,
  decode64-digit x hx,
  byte_first v w hv hw,
  byte_second w x hw hx,
)

group-pad_two :
    (v w : ℕ) → v < 64 → w < 64 → group (digit v) (digit w) b'=' b'=' ≡ some ((v * 4 + w / 16) ∷ [])
unfolding group
group-pad_two v w hv hw = rw (decode64-digit v hv, decode64-digit w hw, byte_first v w hv hw)

join_three :
    (a b c : ℕ)
    → a < 256
    → b < 256
    → c < 256
    → (top a * 4 + second a b / 16 ≡ a)
      × (second a b % 16 * 16 + third b c / 4 ≡ b)
      × (third b c % 4 * 64 + c % 64 ≡ c)
      × (top a < 64)
      × (second a b < 64)
      × (third b c < 64)
unfolding top second third
join_three a b c ha hb hc = omega arith

group_three :
    (a b c : ℕ)
    → a < 256
    → b < 256
    → c < 256
    → group (digit (top a)) (digit (second a b)) (digit (third b c)) (digit (c % 64))
      ≡ some (a ∷ b ∷ c ∷ [])
group_three a b c ha hb hc =
    let (pa, pb, pc, ht, hs, h3) = join_three a b c ha hb hc in
    group-digits (top a) (second a b) (third b c) (c % 64) ht hs h3 (omega arith) ∙ rw (pa, pb, pc)

-- The bytes fit a buffer of `maxlen`, where 0 stands for no limit.
abbrev pub Fits : ℕ → ℕ → Type 0
Fits maxlen n = (maxlen ≡ 0) ⊎ (n ≤ maxlen)

put-Fits :
    (maxlen : ℕ) (bs : Bytes) (len : ℕ) (out : Bytes)
    → Fits maxlen (len + length bs)
    → put maxlen bs len out ≡ (out ++ bs, some (len + length bs))
unfolding put
put-Fits maxlen [] len out f = ground (arith, append-nil out)
put-Fits maxlen (b ∷ bs) len out f =
    ground (arith, put-Fits maxlen bs (len + 1) (out ++ b ∷ []), append_assoc out (b ∷ []) bs)

-- What the encoder writes first: a digit of the table.
peek-to64frombits :
    (xs : Bytes) → xs ≢ [] → All IsByte xs → (i : ℕ) × (i < 64) × (peek (to64frombits xs) ≡ digit i)
unfolding to64frombits
peek-to64frombits [] h p = absurd (h refl)
peek-to64frombits (a ∷ []) h p = (a / 4, omega arith, refl)
peek-to64frombits (a ∷ b ∷ []) h p = (a / 4, omega arith, refl)
peek-to64frombits (a ∷ b ∷ c ∷ r) h p = (a / 4, omega arith, refl)

-- The loop goes on behind a full group exactly if the encoder has more to write.
again_more :
    (d4 : ℕ) (xs : Bytes) (k : ℕ → Bytes → Bytes × Option ℕ) (len : ℕ) (out : Bytes)
    → xs ≢ []
    → All IsByte xs
    → d4 < 64
    → again (digit d4) (to64frombits xs) k (out, some len) ≡ k len out
unfolding again
again_more d4 xs k len out h p hd =
    let (i, lt, e) = peek-to64frombits xs h p in
    rw (e, (digit_ne i lt).2, (digit_ne i lt).1, (digit_ne d4 hd).0)

again_done :
    (d4 : ℕ) (k : ℕ → Bytes → Bytes × Option ℕ) (len : ℕ) (out : Bytes)
    → again d4 [] k (out, some len) ≡ (out, some len)
unfolding again
again_done d4 k len out = refl

decode_loop_step :
    (maxlen d1 d2 d3 d4 : ℕ) (rest : Bytes) (len : ℕ) (out bs : Bytes)
    → group d1 d2 d3 d4 ≡ some bs
    → Fits maxlen (len + length bs)
    → decode_loop maxlen (d1 ∷ d2 ∷ d3 ∷ d4 ∷ rest) len out
      ≡ again d4 rest (decode_loop maxlen rest) (out ++ bs, some (len + length bs))
unfolding decode_loop
decode_loop_step maxlen d1 d2 d3 d4 rest len out bs e f =
    rw (e, decode_loop) (rw (put-Fits maxlen bs len out f))

-- A full group of the encoder's output.
decode_three :
    (maxlen a b c : ℕ) (r : Bytes) (len : ℕ) (out : Bytes)
    → IsByte a
    → IsByte b
    → IsByte c
    → Fits maxlen (len + 3)
    → decode_loop maxlen (to64frombits (a ∷ b ∷ c ∷ r)) len out
      ≡ again
          (digit (c % 64))
          (to64frombits r)
          (decode_loop maxlen (to64frombits r))
          (out ++ a ∷ b ∷ c ∷ [], some (len + 3))
unfolding to64frombits
decode_three maxlen a b c r len out pa pb pc f =
    rw (code_second a b pa pb, code_third b c pb pc, and_low6 c pc)
      (decode_loop_step maxlen (digit (a / 4)) (digit (second a b)) (digit (third b c))
        (digit (c % 64)) (to64frombits r) len out (a ∷ b ∷ c ∷ [])
        (unfold top in group_three a b c pa pb pc) f)

decode_two :
    (maxlen a b len : ℕ) (out : Bytes)
    → IsByte a
    → IsByte b
    → Fits maxlen (len + 2)
    → decode_loop maxlen (to64frombits (a ∷ b ∷ [])) len out ≡ (out ++ a ∷ b ∷ [], some (len + 2))
unfolding to64frombits top second third
decode_two maxlen a b len out pa pb f =
    let (ea, eb, _, ht, hs, h3) = join_three a b 0 pa pb (omega arith) in
    let ec : bit_and (b * 4) 0x3c ≡ third b 0 = rw (and_low4 b pb) (omega arith) in
    rw (code_second a b pa pb, ec)
      (decode_loop_step maxlen (digit (a / 4)) (digit (second a b)) (digit (third b 0)) b'=' [] len
          out (a ∷ b ∷ []) (group-pad_one _ _ _ ht hs h3 ∙ rw (ea, eb)) f
        ∙ again_done b'=' _ _ _)

decode_one :
    (maxlen a len : ℕ) (out : Bytes)
    → IsByte a
    → Fits maxlen (len + 1)
    → decode_loop maxlen (to64frombits (a ∷ [])) len out ≡ (out ++ a ∷ [], some (len + 1))
unfolding to64frombits top second
decode_one maxlen a len out pa f =
    let (ea, _, _, ht, hs, _) = join_three a 0 0 pa (omega arith) (omega arith) in
    let eb : bit_and (a * 16) 0x30 ≡ second a 0 = rw (and_low2 a pa) (omega arith) in
    rw eb (
      decode_loop_step maxlen (digit (a / 4)) (digit (second a 0)) b'=' b'=' [] len out (a ∷ [])
        (group-pad_two _ _ ht hs ∙ rw ea) f
      ∙ again_done b'=' _ _ _)

decode_loop-to64frombits :
    (xs : Bytes) (maxlen len : ℕ) (out : Bytes)
    → xs ≢ []
    → All IsByte xs
    → Fits maxlen (len + length xs)
    → decode_loop maxlen (to64frombits xs) len out ≡ (out ++ xs, some (len + length xs))
decode_loop-to64frombits [] maxlen len out h p f = absurd (h refl)
decode_loop-to64frombits (a ∷ []) maxlen len out h (pa, _) f = decode_one maxlen a len out pa f
decode_loop-to64frombits (a ∷ b ∷ []) maxlen len out h (pa, (pb, _)) f =
    decode_two maxlen a b len out pa pb f
decode_loop-to64frombits (a ∷ b ∷ c ∷ []) maxlen len out h (pa, (pb, (pc, _))) f =
    decode_three maxlen a b c [] len out pa pb pc f ∙ unfold to64frombits in again_done _ _ _ _
decode_loop-to64frombits (a ∷ b ∷ c ∷ d ∷ r) maxlen len out h (pa, (pb, (pc, p))) f =
    decode_three maxlen a b c (d ∷ r) len out pa pb pc (ground arith)
    ∙ again_more (c % 64) (d ∷ r) _ _ _ (cc) p (omega arith)
    ∙ decode_loop-to64frombits (d ∷ r) maxlen (len + 3) (out ++ a ∷ b ∷ c ∷ []) (cc) p
        (ground arith)
    ∙ ground (arith, append_assoc out (a ∷ b ∷ c ∷ []) (d ∷ r))

skip_plus_ne : (x y : ℕ) (s : Bytes) → (y == b' ') ≡ false → skip_plus (x ∷ y ∷ s) ≡ x ∷ y ∷ s
unfolding skip_plus
skip_plus_ne x y s h = ground arith

second_lt : (a b : ℕ) → IsByte a → IsByte b → second a b < 64
unfolding second
second_lt a b h k = omega arith

skip_plus-to64frombits :
    (xs : Bytes) → xs ≢ [] → All IsByte xs → skip_plus (to64frombits xs) ≡ to64frombits xs
unfolding to64frombits
skip_plus-to64frombits [] h p = absurd (h refl)
skip_plus-to64frombits (a ∷ []) h (pa, _) =
    rw (and_low2 a pa) (skip_plus_ne _ _ _ (digit_ne (a % 4 * 16) (omega arith)).3)
skip_plus-to64frombits (a ∷ b ∷ []) h (pa, (pb, _)) =
    rw (code_second a b pa pb) (skip_plus_ne _ _ _ (digit_ne (second a b) (second_lt a b pa pb)).3)
skip_plus-to64frombits (a ∷ b ∷ c ∷ r) h (pa, (pb, _)) =
    rw (code_second a b pa pb) (skip_plus_ne _ _ _ (digit_ne (second a b) (second_lt a b pa pb)).3)

-- `from64tobits` gives back every non-empty block of bytes that `to64frombits` encoded, and
-- returns their number, if `maxlen` is 0 or at least that number.
pub from64tobits-to64frombits :
    (xs : Bytes) (maxlen : ℕ)
    → xs ≢ []
    → All IsByte xs
    → (maxlen ≡ 0) ⊎ (length xs ≤ maxlen)
    → from64tobits (to64frombits xs) maxlen ≡ (xs, some (length xs))
unfolding from64tobits
from64tobits-to64frombits xs maxlen h p f =
    let (i, lt, e) = peek-to64frombits xs h p in
    rw (skip_plus-to64frombits xs h p, e, (digit_ne i lt).1)
      (decode_loop-to64frombits xs maxlen 0 [] h p (ground arith) ∙ ground arith)

-- The encoder writes four characters for each three bytes begun.
pub length-to64frombits : (xs : Bytes) → length (to64frombits xs) ≡ (length xs + 2) / 3 * 4
unfolding to64frombits
length-to64frombits [] = refl
length-to64frombits (a ∷ []) = refl
length-to64frombits (a ∷ b ∷ []) = refl
length-to64frombits (a ∷ b ∷ c ∷ r) = omega (arith, length-to64frombits r)
