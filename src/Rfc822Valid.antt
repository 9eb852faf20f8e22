-- ===== src/Rfc822Valid.antt =====
-- rfc822valid.c: the recogniser of message identifiers. A `unsigned char const **x` that a
-- function advances is the string behind it; `none` is the return value 0, after which no caller
-- looks at the pointer.
pub mod Grammar
pub mod Decides
use fetchmail.Prelude.{
  ℕ, zero, suc, ◌+◌, ◌-◌, ◌*◌, ◌/◌, ◌%◌, ◌^◌, ◌≤◌, ◌<◌, bit_and, bit_or, bit_xor, ◌≡◌, refl, sym,
  ap, ◌∙◌, ◌≢◌, ◌↔◌, ◌⊎◌, inl, inr, Bool, true, false, not, ◌&&◌, ◌||◌, Option, none, some, List,
  [], ◌∷◌, ◌++◌, map, append_assoc, append-nil, arith, ltb, leb, ◌==◌, if◌then◌else◌, ltb→lt,
  lt→ltb, leb→le, ==_iff, tests, Bool-cases, Option-cases, ◌>>=◌, length, get_elem?, set,
  length-append, length-set, get_or, take, drop, replicate, length-replicate, length-map,
  take-append-drop, length-take, length-drop, get_elem?-set_self, get_elem?-set_ne, Bytes, codes,
  peek, next, All, All-append, IsByte, contains, is_space, to_lower, str_eq, str_case_eq,
  has_case_prefix, str_eq_sound, str_eq_refl, every, every_lem,
}

-- `atomchar`.
abbrev pub atomchar : Bytes
atomchar = codes "!#$%&'*+-/0123456789=?ABCDEFGHIJKLMNOPQRSTUVWXYZ^_`abcdefghijklmnopqrstuvwxyz{|}~"

-- What `quotedpair` asks of the byte behind the backslash.
unfoldable pub quotedpair : ℕ → Bool
quotedpair d = not (ltb 127 d || d == 0)

-- The loop of `quotedstring` and of `domain_literal`, which stands behind the opening byte and
-- ends at `close`; `bad` are the bytes that end it with 0. A backslash is a `quotedpair`.
unfoldable pub delimited : ℕ → (ℕ → Bool) → Bytes → Option Bytes
delimited close bad [] = none
delimited close bad (c ∷ []) = if c == close then some [] else none
delimited close bad (c ∷ d ∷ s) =
    let after_pair = delimited close bad s in
    let after_char = delimited close bad (d ∷ s) in
    if c == close
    then some (d ∷ s)
    else if c == b'\\'
    then (if quotedpair d then after_pair else none)
    else if bad c
    then none
    else after_char

-- `case '\r': case '\0': return 0;` and `>= 128`.
abbrev pub bad_quoted : ℕ → Bool
bad_quoted c = c == b'\r' || c == 0 || leb 128 c

-- `case '\0': case '\r': case '[': return 0;` and `> 127`.
abbrev pub bad_literal : ℕ → Bool
bad_literal c = c == 0 || c == b'\r' || c == b'[' || ltb 127 c

unfoldable pub quotedstring : Bytes → Option Bytes
unfolding delimited quotedpair
quotedstring [] = none
quotedstring (c ∷ s) = if not (c == b'"') then none else delimited b'"' bad_quoted s

unfoldable pub domain_literal : Bytes → Option Bytes
unfolding delimited quotedpair
domain_literal [] = none
domain_literal (c ∷ s) = if not (c == b'[') then none else delimited b']' bad_literal s

-- `*x += strspn(*x, atomchar)`.
unfoldable pub skip_atomchar : Bytes → Bytes
skip_atomchar [] = []
skip_atomchar (c ∷ s) = if contains atomchar c then skip_atomchar s else c ∷ s

-- `strchr` finds the NUL too, so that at the end of the string `atom` returns 1.
unfoldable pub atom : Bytes → Option Bytes
unfolding skip_atomchar contains
atom s = if peek s == 0 || contains atomchar (peek s) then some (skip_atomchar s) else none

unfoldable pub word : Bytes → Option Bytes
unfolding quotedstring atom
word s = if peek s == b'"' then quotedstring s else atom s

unfoldable pub subdomain : Bytes → Option Bytes
unfolding domain_literal atom
subdomain s = if peek s == b'[' then domain_literal s else atom s

-- A loop `for(;;)` of `rfc822_valid_msgid`: items with `.` between them, up to the byte `end`.
unfoldable pub dotted : (Bytes → Option Bytes) → ℕ → ℕ → Bytes → Option Bytes
dotted item end zero s = none
dotted item end (suc fuel) s = elim (item s) [
  | none ↦ none
  | some r ↦
      let more = dotted item end fuel (next r) in
      if peek r == b'.' then more else if peek r == end then some r else none
]

abbrev pub is_some {ℓ} : {A : Type ℓ} → Option A → Bool
is_some none = false
is_some (some a) = true

-- Each round but the last eats a `.`, so that the length of the string is fuel enough.
unfoldable pub rfc822_valid_msgid : Bytes → Bool
unfolding dotted word subdomain
rfc822_valid_msgid s =
    if not (peek s == b'<')
    then false
    else is_some
        do r ← dotted word b'@' (length s) (next s); dotted subdomain b'>' (length r) (next r)
