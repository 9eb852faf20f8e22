-- ===== src/Sdump.antt =====
-- sdump.c: a printable form of a byte string.
use fetchmail.Prelude.{
  ℕ, ◌+◌, ◌-◌, ◌/◌, ◌%◌, ◌≡◌, refl, Bool, ◌&&◌, [], ◌∷◌, arith, ltb, leb, if◌then◌else◌, length,
  Bytes,
}

-- `isprint` in the C locale.
unfoldable pub is_print : ℕ → Bool
is_print c = leb 32 c && leb c 126

-- A digit of `%02X`.
unfoldable pub hex : ℕ → ℕ
hex d = if ltb d 10 then b'0' + d else b'A' + (d - 10)

-- `outlen`: the first loop of `sdump`.
unfoldable pub outlen : Bytes → ℕ
unfolding is_print
outlen [] = 0
outlen (c ∷ s) = (if is_print c then 1 else 4) + outlen s

-- `sdump`: the string in the buffer.
unfoldable pub sdump : Bytes → Bytes
unfolding is_print hex
sdump [] = []
sdump (c ∷ s) =
    let rest = sdump s in
    if is_print c then c ∷ rest else b'\\' ∷ b'x' ∷ hex (c / 16) ∷ hex (c % 16) ∷ rest

-- The memory that `sdump` asks for, but for the NUL, is what it writes.
pub length-sdump : (s : Bytes) → length (sdump s) ≡ outlen s
unfolding sdump outlen
length-sdump [] = refl
length-sdump (c ∷ s) = ground (arith, length-sdump s)
