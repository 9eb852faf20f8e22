-- ===== src/Rfc2047e.antt =====
-- rfc2047e.c: the encoding of header text as RFC 2047 encoded words.
use fetchmail.Prelude.{
  ℕ, zero, suc, ◌+◌, ◌-◌, ◌*◌, ◌/◌, ◌%◌, ◌^◌, ◌≤◌, ◌<◌, bit_and, bit_or, bit_xor, ◌≡◌, refl, sym,
  ap, ◌∙◌, ◌≢◌, ◌↔◌, ◌⊎◌, inl, inr, Bool, true, false, not, ◌&&◌, ◌||◌, Option, none, some, List,
  [], ◌∷◌, ◌++◌, map, append_assoc, append-nil, arith, ltb, leb, ◌==◌, if◌then◌else◌, ltb→lt,
  lt→ltb, leb→le, ==_iff, tests, Bool-cases, Option-cases, ◌>>=◌, length, get_elem?, set,
  length-append, length-set, get_or, take, drop, replicate, length-replicate, length-map,
  take-append-drop, length-take, length-drop, get_elem?-set_self, get_elem?-set_ne, Bytes, codes,
  peek, next, All, All-append, IsByte, contains, is_space, to_lower, str_eq, str_case_eq,
  has_case_prefix, starts_with, str_eq_sound, str_eq_refl, every, every_lem,
}
use mathlib.Core.List.{flatten}
pub mod RoundTrip

-- `noenc`, `encchars` and `ws`.
abbrev pub noenc : Bytes
noenc =
    codes
      "!\"#$%&'()*+,-./0123456789:;<=>?@ABCDEFGHIJKLMNOPQRSTUVWXYZ[\\]^_`abcdefghijklmnopqrstuvwxyz{|}~"

abbrev pub encchars : Bytes
encchars =
    codes
      "!\"#$%&'*+,-./0123456789:;<>@ABCDEFGHIJKLMNOPQRSTUVWXYZ[\\]^`abcdefghijklmnopqrstuvwxyz{|}~"

-- A digit of `%02X`.
unfoldable pub hex_digit : ℕ → ℕ
hex_digit n = if ltb n 10 then n + b'0' else n - 10 + b'A'

-- What the body of the loop writes for `*u`.
unfoldable pub encode_char : ℕ → Bytes
unfolding contains hex_digit
encode_char c =
    if c == b' '
    then b'_' ∷ []
    else if contains encchars c
    then c ∷ []
    else b'=' ∷ hex_digit (c / 16) ∷ hex_digit (c % 16) ∷ []

-- `charset` and `?Q?`, behind `=?`.
abbrev pub intro : Bytes → Bytes
intro charset = charset ++ codes "?Q?"

-- What is written from `t` on, where `col` is `t - v`: the characters, a new encoded word
-- wherever the column has come to 69, and the closing `?=`.
unfoldable pub encode_chars : Bytes → ℕ → Bytes → Bytes
unfolding encode_char
encode_chars charset col [] = codes "?="
encode_chars charset col (c ∷ u) =
    let new = leb 69 col in
    let at = if new then length charset + 5 else col in
    let rest = encode_char c ++ encode_chars charset (at + length (encode_char c)) u in
    if new then codes "?=\r\n=?" ++ (intro charset ++ rest) else rest

-- `encode_words`.
unfoldable pub encode_words : List Bytes → Bytes → Bytes
unfolding encode_chars flatten
encode_words words charset =
    codes "=?" ++ (intro charset ++ encode_chars charset (length charset + 5) (flatten words))
