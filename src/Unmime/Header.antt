-- ===== src/Unmime/Header.antt =====
-- unmime.c: `UnMimeHeader`, the decoding of RFC 2047 headers. The source decodes in the buffer
-- of the input; here the input from `p_in` on and the output up to `p_out` are two strings. The
-- byte behind the NUL, which the source can read, is taken to be NUL too.
use fetchmail.Prelude.{
  ℕ, zero, suc, ◌*◌, Bool, true, false, ◌&&◌, Option, none, some, [], ◌∷◌, ◌++◌, ltb, ◌==◌,
  if◌then◌else◌, ◌>>=◌, length, Bytes, peek, next, is_space, to_lower,
}
use fetchmail.Base64.{from64tobits}
use fetchmail.Unmime.Quoted.{qp_char, strchr}

-- `strstr` for a string of two bytes: what stands before it, and behind it.
unfoldable pub strstr : ℕ → ℕ → Bytes → Option (Bytes × Bytes)
strstr a b [] = none
strstr a b (x ∷ s) =
    if x == a && peek s == b
    then some ([], next s)
    else do (before, after) ← strstr a b s; some (x ∷ before, after)

-- The loop for `enc == 'q'`, up to the end of the coded text. What stands behind it is `?` or
-- NUL, and no hexadecimal digit.
unfoldable pub decode_q : Bytes → Bytes
decode_q (c ∷ d ∷ e ∷ s) =
    let jump = decode_q s in
    let step = decode_q (d ∷ e ∷ s) in
    if c == b'='
    then elim (qp_char d e) [ none ↦ c ∷ step | some b ↦ b ∷ jump ]
    else if c == b'_'
    then 0x20 ∷ step
    else c ∷ step
decode_q (c ∷ s) = (if c == b'_' then 0x20 else c) ∷ decode_q s
decode_q [] = []

-- The branch for `enc == 'b'`: the delimiter is made a CR for the time of the call, and
-- `if (decoded_count > 0) p_out += decoded_count`.
unfoldable pub decode_b : Bytes → Bytes
unfolding from64tobits
decode_b [] = []
decode_b (c ∷ s) =
    let d = from64tobits ((c ∷ s) ++ b'\r' ∷ []) 0 in
    elim (d.1) [ none ↦ [] | some n ↦ (if ltb 0 n then d.0 else []) ]

unfoldable pub decode : ℕ → Bytes → Bytes
unfolding decode_q decode_b qp_char
decode enc s = if enc == b'q' then decode_q s else if enc == b'b' then decode_b s else s

pub data State : Type 0 where
  copy_plain skip_mimeinit copy_mime : State

unfoldable pub all_space : Bytes → Bool
unfolding is_space
all_space [] = true
all_space (c ∷ s) = is_space c && all_space s

-- The coded text at `p_in`, and what stands behind its `?=`.
unfoldable pub coded : Bytes → Bytes × Bytes
unfolding strstr
coded p_in = elim (strstr b'?' b'=' p_in) [ none ↦ (p_in, []) | some found ↦ found ]

-- Where to go on behind a coded text: white space before another one is dropped.
unfoldable pub resume : Bytes → State × Bytes
unfolding strstr all_space
resume p_in = elim (strstr b'=' b'?' p_in) [
  | none ↦ (copy_plain, p_in)
  | some (space, after) ↦ if all_space space then (skip_mimeinit, after) else (copy_plain, p_in)
]

-- The loop; `none` is the end of the fuel.
unfoldable pub header_loop : ℕ → State → ℕ → Bytes → Bytes → Option Bytes
header_loop zero state enc p_in out = none
header_loop (suc fuel) copy_plain enc p_in out = elim (peek p_in == 0) [
  | true ↦ some out
  | false ↦ elim (strstr b'=' b'?' p_in) [
    | none ↦ header_loop fuel copy_plain enc [] (out ++ p_in)
    | some (before, after) ↦ header_loop fuel skip_mimeinit enc after (out ++ before)
  ]
]
header_loop (suc fuel) skip_mimeinit enc p_in out = elim (peek p_in == 0) [
  | true ↦ some out
  | false ↦ elim (strchr b'?' p_in) [
    | none ↦ header_loop fuel copy_plain enc p_in out
    | some (charset, p) ↦ elim (peek (next (next p)) == b'?') [
      | true ↦ header_loop fuel copy_mime (to_lower (peek (next p))) (next (next (next p))) out
      | false ↦ header_loop fuel copy_plain enc p_in out
    ]
  ]
]
header_loop (suc fuel) copy_mime enc p_in out = elim (peek p_in == 0) [
  | true ↦ some out
  | false ↦
      let (text, behind) = coded p_in in
      let (state, rest) = resume behind in header_loop fuel state enc rest (out ++ decode enc text)
]

-- `UnMimeHeader`. A round that eats nothing is followed by one that does, so that the fuel is
-- enough.
unfoldable pub unmime_header : Bytes → Option Bytes
unfolding header_loop strstr strchr coded resume decode to_lower
unmime_header hdr = elim (strstr b'=' b'?' hdr) [
  | none ↦ some hdr
  | some _ ↦ header_loop (suc (2 * length hdr)) copy_plain 0 hdr []
]
