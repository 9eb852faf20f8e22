-- ===== src/Base64.antt =====
-- base64.c: `to64frombits` and `from64tobits`.
pub mod Bits
pub mod RoundTrip
pub mod Length
pub mod Bounds
use fetchmail.Prelude.{
  ◌>>=◌, ℕ, zero, suc, ◌+◌, ◌*◌, ◌/◌, ◌≡◌, refl, Bool, true, false, not, ◌&&◌, ◌||◌, Option, none,
  some, List, [], ◌∷◌, ◌++◌, bit_and, bit_or, Bytes, codes, peek, ◌==◌, ltb, leb, if◌then◌else◌,
  get_or, replicate, length,
}

-- `base64digits`.
abbrev pub base64digits : Bytes
base64digits = codes "ABCDEFGHIJKLMNOPQRSTUVWXYZabcdefghijklmnopqrstuvwxyz0123456789+/"

-- The entries lo, lo + 1, … of a table, n of them.
abbrev run : ℕ → ℕ → List (Option ℕ)
run lo zero = []
run lo (suc n) = some lo ∷ run (lo + 1) n

abbrev bad : ℕ → List (Option ℕ)
bad n = replicate n none

-- `base64val`, with `none` for BAD.
abbrev pub base64val : List (Option ℕ)
base64val =
    bad 43
    ++ some 62
      ∷ (bad 3 ++ some 63 ∷ (run 52 10 ++ (bad 7 ++ (run 0 26 ++ (bad 6 ++ (run 26 26 ++ bad 5))))))

-- `DECODE64`, at an `unsigned char`.
unfoldable pub decode64 : ℕ → Option ℕ
decode64 c = if ltb c 128 then get_or base64val c none else none

-- `base64digits[i]`, for i below 64.
unfoldable pub digit : ℕ → ℕ
digit i = get_or base64digits i 0

-- `to64frombits`: the characters written before the NUL. The loop takes three bytes a round.
unfoldable pub to64frombits : Bytes → Bytes
to64frombits [] = []
to64frombits (a ∷ []) = digit (a / 4) ∷ digit (bit_and (a * 16) 0x30) ∷ b'=' ∷ b'=' ∷ []
to64frombits (a ∷ b ∷ []) =
    digit (a / 4)
    ∷ digit (bit_or (bit_and (a * 16) 0x30) (b / 16))
    ∷ digit (bit_and (b * 4) 0x3c)
    ∷ b'='
    ∷ []
to64frombits (a ∷ b ∷ c ∷ rest) =
    digit (a / 4)
    ∷ digit (bit_or (bit_and (a * 16) 0x30) (b / 16))
    ∷ digit (bit_or (bit_and (b * 4) 0x3c) (c / 64))
    ∷ digit (bit_and c 0x3f)
    ∷ to64frombits rest

-- The one to three bytes that a group of four digits stands for; `none` for a BAD digit.
unfoldable pub group : ℕ → ℕ → ℕ → ℕ → Option Bytes
unfolding decode64
group d1 d2 d3 d4 = do
  v1 ← decode64 d1
  v2 ← decode64 d2
  v3 ← if d3 == b'=' then some 0 else decode64 d3
  v4 ← if d4 == b'=' then some 0 else decode64 d4
  let first = bit_or (v1 * 4) (v2 / 16)
  let second = bit_or (bit_and (v2 * 16) 0xf0) (v3 / 4)
  let third = bit_or (bit_and (v3 * 64) 0xc0) v4
  some (
      if d3 == b'='
      then first ∷ []
      else if d4 == b'='
      then first ∷ second ∷ []
      else first ∷ second ∷ third ∷ [])

-- What was written, and the return value, with `none` for -1.
abbrev pub Decoded : Type 0
Decoded = Bytes × Option ℕ

-- `++len; if (maxlen && len > maxlen) return(-1); *out++ = …`, for each byte of a group.
unfoldable pub put : ℕ → Bytes → ℕ → Bytes → Decoded
put maxlen [] len out = (out, some len)
put maxlen (b ∷ bs) len out =
    if not (maxlen == 0) && ltb maxlen (len + 1)
    then (out, none)
    else put maxlen bs (len + 1) (out ++ b ∷ [])

-- The test of the loop, `*in && *in != '\r' && digit4 != '='`, and the next round `k`.
unfoldable pub again : ℕ → Bytes → (ℕ → Bytes → Decoded) → Decoded → Decoded
again d4 rest k (out, none) = (out, none)
again d4 rest k (out, some len) =
    if not (peek rest == 0) && not (peek rest == b'\r') && not (d4 == b'=')
    then k len out
    else (out, some len)

-- The loop. A string that ends within a group has its NUL read as a BAD digit.
unfoldable pub decode_loop : ℕ → Bytes → ℕ → Bytes → Decoded
decode_loop maxlen (d1 ∷ d2 ∷ d3 ∷ d4 ∷ rest) len out = elim (group d1 d2 d3 d4) [
  | none ↦ (out, none)
  | some bs ↦ again d4 rest (decode_loop maxlen rest) (put maxlen bs len out)
]
decode_loop maxlen _ len out = (out, none)

-- `if (in[0] == '+' && in[1] == ' ') in += 2;`
unfoldable pub skip_plus : Bytes → Bytes
skip_plus (x ∷ y ∷ s) = if x == b'+' && y == b' ' then s else x ∷ y ∷ s
skip_plus s = s

-- `from64tobits`.
unfoldable pub from64tobits : Bytes → ℕ → Decoded
unfolding decode_loop skip_plus group put again
from64tobits s maxlen =
    let t = skip_plus s in if peek t == b'\r' then ([], some 0) else decode_loop maxlen t 0 []
