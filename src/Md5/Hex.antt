-- ===== src/Md5/Hex.antt =====
-- md5ify.c: the digest in hexadecimal digits.
use fetchmail.Prelude.{ℕ, ◌+◌, ◌-◌, ◌/◌, ◌%◌, [], ◌∷◌, ltb, if◌then◌else◌, Bytes}
use fetchmail.Md5.{md5_init, md5_update, md5_final}

-- A digit of `%02x`.
unfoldable pub hex_lower : ℕ → ℕ
hex_lower d = if ltb d 10 then b'0' + d else b'a' + (d - 10)

unfoldable pub ascii_digest : Bytes → Bytes
unfolding hex_lower
ascii_digest [] = []
ascii_digest (c ∷ s) = hex_lower (c / 16) ∷ hex_lower (c % 16) ∷ ascii_digest s

-- `MD5Digest`, with what stands in the buffer of the fresh context.
unfoldable pub md5_digest : Bytes → Bytes → Bytes
unfolding ascii_digest md5_final md5_update md5_init
md5_digest junk s = ascii_digest (md5_final (md5_update (md5_init junk) s))
