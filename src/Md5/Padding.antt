-- ===== src/Md5/Padding.antt =====
-- `MD5Final` against the padding of RFC 1321.
use fetchmail.Prelude.{
  List, ℕ, zero, suc, ◌+◌, ◌-◌, ◌*◌, ◌/◌, ◌%◌, ◌^◌, [], ◌∷◌, ◌++◌, length, take, drop, replicate,
  Bytes,
}
use fetchmail.Md5.Rfc.{rfc_transform}
use fetchmail.Md5.{m32, Quad, count, store}

abbrev four : ℕ → ℕ
four zero = 0
four (suc n) = suc (suc (suc (suc (four n))))

-- The zeros behind the first byte of the padding, where `t` bytes are in the buffer.
abbrev pub zeros : ℕ → ℕ
zeros t = (119 - t) % 64

-- What `MD5Final` appends.
abbrev pub padding : ℕ → ℕ → Bytes
padding lo hi = 0x80 ∷ replicate (zeros (count lo)) 0 ++ (store lo ++ store hi)

-- The words of a block, the low-order byte of each first.
abbrev pub little_endian : Bytes → List ℕ
little_endian (a ∷ b ∷ c ∷ d ∷ s) = (a + b * 2 ^ 8 + c * 2 ^ 16 + d * 2 ^ 24) ∷ little_endian s
little_endian _ = []

-- The transformations of RFC 1321 of the `n` blocks of a message, from the words `q`.
abbrev pub blocks : ℕ → Bytes → Quad → Quad
blocks zero s q = q
blocks (suc n) s q = blocks n (drop 64 s) (rfc_transform q (little_endian (take 64 s)))

-- The message with the padding of RFC 1321: a bit 1, zeros up to 56 modulo 64 bytes, and the
-- length of the message in bits as a number of 64 bits.
abbrev pub padded : Bytes → Bytes
padded s = s ++ padding (length s * 8 % m32) (length s * 8 / m32)

abbrev pub start : Quad
start = record { w = 0x67452301; x = 0xefcdab89; y = 0x98badcfe; z = 0x10325476 }
