-- ===== src/Rfc2047e/RoundTrip.antt =====
-- `UnMimeHeader` decodes what `encode_words` wrote.
use fetchmail.Prelude.{
  ℕ, zero, suc, ◌+◌, ◌*◌, ◌/◌, ◌%◌, ◌≤◌, ◌<◌, ◌≡◌, refl, sym, ap, ◌∙◌, ◌≢◌, inl, inr, Bool, true,
  false, not, ◌&&◌, ◌||◌, Option, none, some, List, [], ◌∷◌, ◌++◌, append_assoc, append-nil, arith,
  leb, ◌==◌, if◌then◌else◌, ==_iff, Bool-cases, length, length-append, Bytes, codes, peek, All,
  All-append, Lacks, NoNul, ==_ne, IsByte, contains, to_lower, every, every_lem,
}
use mathlib.Core.List.{flatten}
use fetchmail.Unmime.Quoted.{qp_char, strchr}
use fetchmail.Unmime.Header.{
  strstr, decode_q, decode, State, copy_plain, skip_mimeinit, copy_mime, coded, resume, header_loop,
  unmime_header,
}
use fetchmail.Rfc2047e.{encchars, hex_digit, encode_char, intro, encode_chars, encode_words}

strstr_skip : (a b : ℕ) (w r : Bytes) → Lacks a w → strstr a b (w ++ a ∷ b ∷ r) ≡ some (w, r)
unfolding strstr
strstr_skip a b [] r l = rw ((==_iff a a).1 refl, (==_iff b b).1 refl)
strstr_skip a b (x ∷ w) r (n, l) = rw (==_ne x a n, strstr_skip a b w r l)

pub strchr_skip : (c : ℕ) (w r : Bytes) → Lacks c w → strchr c (w ++ c ∷ r) ≡ some (w, c ∷ r)
unfolding strchr
strchr_skip c [] r l = rw ((==_iff c c).1 refl)
strchr_skip c (x ∷ w) r (n, l) = rw (==_ne x c n, strchr_skip c w r l)

-- The characters that are written as they are.
plain_test : ℕ → Bool
plain_test c = not (contains encchars c) || (not (c == b'=') && not (c == b'_') && not (c == b'?'))

plain_test_sound :
    (c : ℕ)
    → plain_test c ≡ true
    → contains encchars c ≡ true
    → (c ≢ b'=') × (c ≢ b'_') × (c ≢ b'?')
unfolding plain_test
plain_test_sound c h e = ground (arith, rw e at h)

encchars_plain :
    (c : ℕ) → c < 256 → contains encchars c ≡ true → (c ≢ b'=') × (c ≢ b'_') × (c ≢ b'?')
unfolding every plain_test contains
encchars_plain c lt e = plain_test_sound c (every_lem plain_test 256 refl c lt) e

hex_test : ℕ → Bool
hex_test c =
    elim (qp_char (hex_digit (c / 16)) (hex_digit (c % 16))) [ none ↦ false | some v ↦ v == c ]
    && not (hex_digit (c / 16) == b'?')
    && not (hex_digit (c % 16) == b'?')

hex_test_sound :
    (c : ℕ)
    → hex_test c ≡ true
    → (qp_char (hex_digit (c / 16)) (hex_digit (c % 16)) ≡ some c)
      × (hex_digit (c / 16) ≢ b'?')
      × (hex_digit (c % 16) ≢ b'?')
unfolding hex_test
hex_test_sound c h = ground arith

hex_lem :
    (c : ℕ)
    → c < 256
    → (qp_char (hex_digit (c / 16)) (hex_digit (c % 16)) ≡ some c)
      × (hex_digit (c / 16) ≢ b'?')
      × (hex_digit (c % 16) ≢ b'?')
unfolding every hex_test qp_char hex_digit
hex_lem c lt = hex_test_sound c (every_lem hex_test 256 refl c lt)

decode_q_plain :
    (c : ℕ) (r : Bytes) → c ≢ b'=' → decode_q (c ∷ r) ≡ (if c == b'_' then 0x20 else c) ∷ decode_q r
unfolding decode_q
decode_q_plain c [] n = refl
decode_q_plain c (d ∷ []) n = refl
decode_q_plain c (d ∷ e ∷ r) n = rw (==_ne c b'=' n) (if_cons (c == b'_') c (decode_q (d ∷ e ∷ r)))
  where
    if_cons :
        (b : Bool) (c : ℕ) (s : Bytes)
        → (if b then 0x20 ∷ s else c ∷ s) ≡ (if b then 0x20 else c) ∷ s
    if_cons true c s = refl
    if_cons false c s = refl

decode_q_byte :
    (a b v : ℕ) (r : Bytes) → qp_char a b ≡ some v → decode_q (b'=' ∷ a ∷ b ∷ r) ≡ v ∷ decode_q r
unfolding decode_q
decode_q_byte a b v r e = rw (e, decode_q)

-- One character of the text.
decode_q-encode_char :
    (c : ℕ) (r : Bytes) → c < 256 → decode_q (encode_char c ++ r) ≡ c ∷ decode_q r
unfolding encode_char
decode_q-encode_char c r lt = elim (Bool-cases (c == b' ')) [
  | inl e ↦
      rw e
        (decode_q_plain b'_' r (omega arith) ∙ ap (λ x. x ∷ decode_q r) (sym ((==_iff c b' ').0 e)))
  | inr e ↦ elim (Bool-cases (contains encchars c)) [
    | inl e' ↦
        let (n, n', _) = encchars_plain c lt e' in
        rw (e, e') (decode_q_plain c r n ∙ rw (==_ne c b'_' n'))
    | inr e' ↦ rw (e, e') (decode_q_byte _ _ c r (hex_lem c lt).0)
  ]
]

encode_char-Lacks : (c : ℕ) → c < 256 → Lacks b'?' (encode_char c)
unfolding encode_char
encode_char-Lacks c lt = elim (Bool-cases (c == b' ')) [
  | inl e ↦ rw e (omega arith)
  | inr e ↦ elim (Bool-cases (contains encchars c)) [
    | inl e' ↦ rw (e, e') ((encchars_plain c lt e').2, tt)
    | inr e' ↦ rw (e, e') (omega arith, ((hex_lem c lt).1, ((hex_lem c lt).2, tt)))
  ]
]

contains_ne_zero : (c : ℕ) → contains encchars c ≡ true → c ≢ 0
unfolding contains
contains_ne_zero c h e = cc (rw e at h)

hex_digit_ne : (n : ℕ) → hex_digit n ≢ 0
unfolding hex_digit
hex_digit_ne n = ground arith

encode_char-NoNul : (c : ℕ) → NoNul (encode_char c)
unfolding encode_char
encode_char-NoNul c = elim (Bool-cases (c == b' ')) [
  | inl e ↦ rw e (omega arith)
  | inr e ↦ elim (Bool-cases (contains encchars c)) [
    | inl e' ↦ rw (e, e') (contains_ne_zero c e', tt)
    | inr e' ↦ rw (e, e') (omega arith, (hex_digit_ne _, (hex_digit_ne _, tt)))
  ]
]

peek_ne : (w : Bytes) (x : ℕ) (r : Bytes) → NoNul w → x ≢ 0 → (peek (w ++ x ∷ r) == 0) ≡ false
peek_ne [] x r l n = ==_ne x 0 n
peek_ne (c ∷ w) x r (n', l) n = ==_ne c 0 n'

go_on : ℕ → ℕ → Bytes → State × Bytes → Option Bytes
go_on fuel enc out (state, rest) = header_loop fuel state enc rest out

mime_step :
    (fuel : ℕ) (w r out : Bytes) {state : State} {rest : Bytes}
    → Lacks b'?' w
    → NoNul w
    → resume r ≡ (state, rest)
    → header_loop (suc fuel) copy_mime b'q' (w ++ b'?' ∷ b'=' ∷ r) out
      ≡ header_loop fuel state b'q' rest (out ++ decode_q w)
unfolding header_loop coded decode
mime_step fuel w r out l n e =
    rw (peek_ne w b'?' (b'=' ∷ r) n (omega arith), header_loop)
      (rw (strstr_skip b'?' b'=' w r l, coded) (rw (e, header_loop)))

skip_step :
    (fuel enc : ℕ) (charset r out : Bytes)
    → Lacks b'?' charset
    → NoNul charset
    → header_loop (suc fuel) skip_mimeinit enc (charset ++ b'?' ∷ b'Q' ∷ b'?' ∷ r) out
      ≡ header_loop fuel copy_mime b'q' r out
unfolding header_loop to_lower
skip_step fuel enc charset r out l n =
    rw (peek_ne charset b'?' (b'Q' ∷ b'?' ∷ r) n (omega arith), header_loop)
      (rw (strchr_skip b'?' charset (b'Q' ∷ b'?' ∷ r) l, header_loop))

-- A coded text `pre` that stands for `d`, whatever follows.
record Codes (pre d : Bytes) : Type 0 where
  lacks : Lacks b'?' pre
  no_nul : NoNul pre
  decodes : (r : Bytes) → decode_q (pre ++ r) ≡ d ++ decode_q r

Codes-nil : Codes [] []
Codes-nil = record { lacks = tt; no_nul = tt; decodes = λ r. refl }

Codes-concat :
    {pre d : Bytes} (c : ℕ) → c < 256 → Codes pre d → Codes (pre ++ encode_char c) (d ++ c ∷ [])
Codes-concat {pre} {d} c lt k = record {
  lacks = All-append _ pre (encode_char c) k.lacks (encode_char-Lacks c lt);
  no_nul = All-append _ pre (encode_char c) k.no_nul (encode_char-NoNul c);
  decodes = λ r. rw append_assoc (
      k.decodes (encode_char c ++ r)
      ∙ rw (decode_q-encode_char c r lt) (sym (append_assoc d (c ∷ []) (decode_q r))));
}

Codes-decode_q : {pre d : Bytes} → Codes pre d → decode_q pre ≡ d
Codes-decode_q {pre} {d} k =
    ap decode_q (sym (append-nil pre)) ∙ k.decodes [] ∙ unfold decode_q in append-nil d

resume-nil : resume [] ≡ (copy_plain, [])
unfolding resume
resume-nil = refl

end_step : (fuel enc : ℕ) (out : Bytes) → header_loop (suc fuel) copy_plain enc [] out ≡ some out
unfolding header_loop
end_step fuel enc out = refl

last_step :
    (fuel : ℕ) (pre d out : Bytes)
    → Codes pre d
    → header_loop (suc (suc fuel)) copy_mime b'q' (pre ++ b'?' ∷ b'=' ∷ []) out ≡ some (out ++ d)
last_step fuel pre d out k =
    mime_step (suc fuel) pre [] out k.lacks k.no_nul resume-nil
    ∙ end_step fuel b'q' (out ++ decode_q pre)
    ∙ ap (λ x. some (out ++ x)) (Codes-decode_q k)

module _ (charset : Bytes) (lacks : Lacks b'?' charset) (no_nul : NoNul charset) where
  encode_more :
      (col c : ℕ) (u : Bytes)
      → leb 69 col ≡ false
      → encode_chars charset col (c ∷ u)
        ≡ encode_char c ++ encode_chars charset (col + length (encode_char c)) u
  unfolding encode_chars
  encode_more col c u e = rw (e, if◌then◌else◌)

  -- The text that follows when a new encoded word is begun for `c`.
  abbrev new_word : ℕ → Bytes → Bytes
  new_word c u =
      encode_char c ++ encode_chars charset (length charset + 5 + length (encode_char c)) u

  encode_new :
      (col c : ℕ) (u : Bytes)
      → leb 69 col ≡ true
      → encode_chars charset col (c ∷ u)
        ≡ b'?' ∷ b'=' ∷ b'\r' ∷ b'\n' ∷ b'=' ∷ b'?' ∷ (charset ++ b'?' ∷ b'Q' ∷ b'?' ∷ new_word c u)
  unfolding encode_chars
  encode_new col c u e = rw (e, if◌then◌else◌) (rw append_assoc)

  resume_new : (s : Bytes) → resume (b'\r' ∷ b'\n' ∷ b'=' ∷ b'?' ∷ s) ≡ (skip_mimeinit, s)
  unfolding resume
  resume_new s = refl

  encode_nil : (col : ℕ) → encode_chars charset col [] ≡ b'?' ∷ b'=' ∷ []
  unfolding encode_chars
  encode_nil col = refl

  loop-encode_chars :
      (u : Bytes) (fuel col : ℕ) (pre d out : Bytes)
      → All IsByte u
      → 2 + 2 * length u ≤ fuel
      → Codes pre d
      → header_loop fuel copy_mime b'q' (pre ++ encode_chars charset col u) out
        ≡ some (out ++ (d ++ u))
  loop-encode_chars u zero col pre d out a le k = absurd (omega arith)
  loop-encode_chars u (suc zero) col pre d out a le k = absurd (omega arith)
  loop-encode_chars [] (suc (suc fuel)) col pre d out a le k =
      rw (append-nil, encode_nil col) (last_step fuel pre d out k)
  loop-encode_chars (c ∷ u) (suc (suc fuel)) col pre d out (lt, a) le k =
      elim (Bool-cases (leb 69 col)) [
        | inl full ↦ rw (encode_new col c u full) (
            mime_step (suc fuel) pre _ out k.lacks k.no_nul (resume_new _)
            ∙ skip_step fuel b'q' charset (new_word c u) (out ++ decode_q pre) lacks no_nul
            ∙ loop-encode_chars u fuel _ (encode_char c) (c ∷ []) (out ++ decode_q pre) a
                (omega arith) (Codes-concat c lt Codes-nil)
            ∙ rw (Codes-decode_q k, append_assoc))
        | inr room ↦
            rw (encode_more col c u room, ← append_assoc)
              (loop-encode_chars u (suc (suc fuel)) _ (pre ++ encode_char c) (d ++ c ∷ []) out a
                  (omega arith) (Codes-concat c lt k)
                ∙ rw append_assoc)
      ]

  plain_step :
      (fuel enc : ℕ) (r out : Bytes)
      → header_loop (suc fuel) copy_plain enc (b'=' ∷ b'?' ∷ r) out
        ≡ header_loop fuel skip_mimeinit enc r (out ++ [])
  unfolding header_loop strstr
  plain_step fuel enc r out = refl

  length-encode_char : (c : ℕ) → 0 < length (encode_char c)
  unfolding encode_char
  length-encode_char c = ground arith

  length-encode_chars : (u : Bytes) (col : ℕ) → length u + 2 ≤ length (encode_chars charset col u)
  length-encode_chars [] col = unfold encode_chars in omega arith
  length-encode_chars (c ∷ u) col = elim (Bool-cases (leb 69 col)) [
    | inr e ↦ rw (encode_more col c u e) (
        omega (
          arith,
          length-encode_chars u (col + length (encode_char c)),
          length-encode_char c,
          length-append (encode_char c) (encode_chars charset (col + length (encode_char c)) u),
        ))
    | inl e ↦
        let rest = encode_chars charset (length charset + 5 + length (encode_char c)) u in
        rw (encode_new col c u e) (
          omega (
            arith,
            length-encode_chars u (length charset + 5 + length (encode_char c)),
            length-append charset (b'?' ∷ b'Q' ∷ b'?' ∷ new_word c u),
            length-append (encode_char c) rest,
          ))
  ]

unmime_header_coded :
    (s : Bytes) (fuel : ℕ)
    → 2 * suc (suc (length s)) ≡ fuel
    → unmime_header (b'=' ∷ b'?' ∷ s) ≡ header_loop fuel skip_mimeinit 0 s []
unfolding unmime_header
unmime_header_coded s fuel e = ap (λ f. header_loop f skip_mimeinit 0 s []) e

-- `UnMimeHeader` gives back the text of the words that `encode_words` encoded, each character of
-- them an `unsigned char`, wherever the encoder began a new encoded word, for every charset name
-- with no `?` and no NUL.
pub unmime_header-encode_words :
    (words : List Bytes) (charset : Bytes)
    → All IsByte (flatten words)
    → All (λ c. c ≢ b'?') charset
    → All (λ c. c ≢ 0) charset
    → unmime_header (encode_words words charset) ≡ some (flatten words)
unfolding encode_words
unmime_header-encode_words words charset a lacks no_nul =
    let text = encode_chars charset (length charset + 5) (flatten words) in
    let size = length (intro charset ++ text) in
    unmime_header_coded (intro charset ++ text) (suc (2 * size + 3)) (omega arith)
    ∙ ap (λ s. header_loop (suc (2 * size + 3)) skip_mimeinit 0 s [])
        (append_assoc charset (codes "?Q?") text)
    ∙ skip_step (2 * size + 3) 0 charset text [] lacks no_nul
    ∙ loop-encode_chars charset lacks no_nul (flatten words) (2 * size + 3) _ [] [] [] a
        (omega (
          arith,
          length-encode_chars charset lacks no_nul (flatten words) (length charset + 5),
          length-append (intro charset) text,
        ))
        Codes-nil
