-- ===== src/Unmime/QuotedLaws.antt =====
-- What `DoOneQPLine` computes.
use fetchmail.Prelude.{
  some_injective, ◌-◌, ltb, ◌*◌, leb, ◌+◌, ℕ, zero, suc, ◌≤◌, ◌<◌, ◌≡◌, refl, sym, ap, ◌∙◌, ◌≢◌,
  ◌⊎◌, inl, inr, Bool, true, false, not, ◌&&◌, ◌||◌, none, some, [], ◌∷◌, ◌++◌, append_assoc,
  append-nil, arith, ◌==◌, if◌then◌else◌, ==_iff, Bool-cases, Option-cases, ◌>>=◌, length,
  length-append, Bytes, codes, peek, next, All, NoNul, starts_with,
}
use fetchmail.Unmime.Quoted.{
  unhex, qp_char, strchr, skip_eol, qp_loop, Line, finish, do_one_qp_line,
}

-- A hexadecimal digit and its value.
abbrev pub IsHexDigit : ℕ → ℕ → Type 0
IsHexDigit c v =
    ((v < 10) × (c ≡ b'0' + v))
    ⊎ (((10 ≤ v) × (v < 16)) × ((c ≡ b'A' + (v - 10)) ⊎ (c ≡ b'a' + (v - 10))))

-- Two of them, and the byte that they stand for.
abbrev pub IsHexPair : ℕ → ℕ → ℕ → Type 0
IsHexPair a b v =
    (high : ℕ) × (low : ℕ) × IsHexDigit a high × IsHexDigit b low × (v ≡ 16 * high + low)

-- Quoted-printable data, the bytes that they stand for, and whether a soft line break was met. White
-- space at the end of a line stands for itself, and so does an `=` that is followed by neither two
-- hexadecimal digits nor the end of the line.
pub data Decodes : Bytes → Bytes → Bool → Type 0 where
  done : Decodes [] [] false
  plain : {c : ℕ} {s t : Bytes} {r : Bool} → c ≢ b'=' → Decodes s t r → Decodes (c ∷ s) (c ∷ t) r
  byte :
      {a b v : ℕ} {s t : Bytes} {r : Bool}
      → a ≢ b'\r'
      → a ≢ b'\n'
      → IsHexPair a b v
      → Decodes s t r
      → Decodes (b'=' ∷ a ∷ b ∷ s) (v ∷ t) r
  bad :
      {a : ℕ} {s t : Bytes} {r : Bool}
      → a ≢ b'\r'
      → a ≢ b'\n'
      → ((v : ℕ) → ¬ IsHexPair a (peek s) v)
      → Decodes (a ∷ s) t r
      → Decodes (b'=' ∷ a ∷ s) (b'=' ∷ t) r
  soft_end : Decodes (b'=' ∷ []) [] true
  soft_lf : {s t : Bytes} {r : Bool} → Decodes s t r → Decodes (b'=' ∷ b'\n' ∷ s) t true
  soft_crlf : {s t : Bytes} {r : Bool} → Decodes s t r → Decodes (b'=' ∷ b'\r' ∷ b'\n' ∷ s) t true
  soft_cr :
      {s t : Bytes} {r : Bool} → peek s ≢ b'\n' → Decodes s t r → Decodes (b'=' ∷ b'\r' ∷ s) t true

unhex-IsHexDigit : (c : ℕ) → unhex c < 16 → IsHexDigit c (unhex c)
unfolding unhex
unhex-IsHexDigit c lt = elim (Bool-cases (leb b'0' c && leb c b'9')) [
  | inl digit ↦ rw digit (inl (ground arith, ground arith))
  | inr no_digit ↦ elim (Bool-cases (leb b'A' c && leb c b'F')) [
    | inl upper ↦ rw (no_digit, upper) (inr ((ground arith, ground arith), inl (ground arith)))
    | inr no_upper ↦ elim (Bool-cases (leb b'a' c && leb c b'f')) [
      | inl lower ↦
          rw (no_digit, no_upper, lower) (inr ((ground arith, ground arith), inr (ground arith)))
      | inr nothing ↦ absurd (let le = rw (no_digit, no_upper, nothing) at lt in omega (arith, le))
    ]
  ]
]

unhex_lem : (c v : ℕ) → IsHexDigit c v → unhex c ≡ v
unfolding unhex
unhex_lem c v (inl h) = ground arith
unhex_lem c v (inr (h, inl k)) = ground arith
unhex_lem c v (inr (h, inr k)) = ground arith

IsHexDigit-lt : (c v : ℕ) → IsHexDigit c v → v < 16
IsHexDigit-lt c v (inl h) = omega arith
IsHexDigit-lt c v (inr (h, k)) = omega arith

qp_char-IsHexPair : (a b v : ℕ) → qp_char a b ≡ some v → IsHexPair a b v
unfolding qp_char
qp_char-IsHexPair a b v e = elim (Bool-cases (ltb 15 (unhex a) || ltb 15 (unhex b))) [
  | inl none_there ↦ absurd (let no = rw none_there at e in cc)
  | inr both ↦
      let value = rw both at e in
      (
        unhex a,
        unhex b,
        unhex-IsHexDigit a (ground arith),
        unhex-IsHexDigit b (ground arith),
        sym (some_injective (16 * unhex a + unhex b) v value),
      )
]

qp_char-none : (a b : ℕ) → qp_char a b ≡ none → (v : ℕ) → ¬ IsHexPair a b v
unfolding qp_char
qp_char-none a b e v (high, low, is_high, is_low, same) =
    let first = unhex_lem a high is_high in
    let second = unhex_lem b low is_low in
    let both : (ltb 15 (unhex a) || ltb 15 (unhex b)) ≡ false =
      rw (first, second)
        (ground (arith, IsHexDigit-lt a high is_high, IsHexDigit-lt b low is_low)) in
    let no = rw both at e in cc

-- Decoding never makes the data longer, so that it can be done in the same buffer.
pub Decodes-length : {s t : Bytes} {r : Bool} → Decodes s t r → length t ≤ length s
Decodes-length done = omega arith
Decodes-length (plain ne d) = omega (arith, Decodes-length d)
Decodes-length (byte n m e d) = omega (arith, Decodes-length d)
Decodes-length (bad n m e d) = omega (arith, Decodes-length d)
Decodes-length soft_end = omega arith
Decodes-length (soft_lf d) = omega (arith, Decodes-length d)
Decodes-length (soft_crlf d) = omega (arith, Decodes-length d)
Decodes-length (soft_cr n d) = omega (arith, Decodes-length d)

Decodes-append :
    (w : Bytes) {s t : Bytes} {r : Bool}
    → All (λ c. c ≢ b'=') w
    → Decodes s t r
    → Decodes (w ++ s) (w ++ t) r
Decodes-append [] a d = d
Decodes-append (c ∷ w) (n, a) d = plain n (Decodes-append w a d)

strchr_here : (c x : ℕ) (s : Bytes) → x ≡ c → strchr c (x ∷ s) ≡ some ([], x ∷ s)
unfolding strchr
strchr_here c x s e = rw ((==_iff x c).1 e)

strchr_there :
    (c x : ℕ) (s : Bytes)
    → (x == c) ≡ false
    → strchr c (x ∷ s) ≡ (strchr c s >>= λ p. some (x ∷ p.0, p.1))
unfolding strchr
strchr_there c x s e = rw e

-- Where `strchr` finds the byte, and what it means that it does not.
pub data Found (c : ℕ) (s : Bytes) : Type 0 where
  absent : strchr c s ≡ none → All (λ x. x ≢ c) s → Found c s
  present :
      (before after : Bytes)
      → strchr c s ≡ some (before, c ∷ after)
      → s ≡ before ++ c ∷ after
      → All (λ x. x ≢ c) before
      → Found c s

pub strchr_cases : (c : ℕ) (s : Bytes) → Found c s
strchr_cases c [] = absent (unfold strchr in refl) tt
strchr_cases c (x ∷ s) = elim (Bool-cases (x == c)) [
  | inl e ↦
      let same = (==_iff x c).0 e in present [] s (strchr_here c x s same ∙ rw same) (rw same) tt
  | inr e ↦ elim (strchr_cases c s) [
    | absent n a ↦ absent (strchr_there c x s e ∙ rw n) ((λ y. cc (sym e ∙ (==_iff x c).1 y)), a)
    | present before after q p a ↦
        present (x ∷ before) after (strchr_there c x s e ∙ rw q) (ap (◌∷◌ x) p)
          ((λ y. cc (sym e ∙ (==_iff x c).1 y)), a)
  ]
]

module _ (fuel : ℕ) (p_in out : Bytes) (ret : Bool) where
  qp_loop_end : p_in ≡ [] → qp_loop (suc fuel) p_in out ret ≡ some (out, ret)
  unfolding qp_loop
  qp_loop_end e = rw e

  module _ (more : (peek p_in == 0) ≡ false) where
    qp_loop_plain :
        strchr b'=' p_in ≡ none
        → qp_loop (suc fuel) p_in out ret ≡ qp_loop fuel [] (out ++ p_in) ret
    unfolding qp_loop
    qp_loop_plain e = rw (more, qp_loop) (rw (e, qp_loop))

    module _ (before s : Bytes) (here : strchr b'=' p_in ≡ some (before, b'=' ∷ s)) where
      qp_loop_soft :
          (peek s == 0 || peek s == b'\r' || peek s == b'\n') ≡ true
          → qp_loop (suc fuel) p_in out ret ≡ qp_loop fuel (skip_eol s) (out ++ before) true
      unfolding qp_loop
      qp_loop_soft e = rw (more, qp_loop) (rw (here, qp_loop) (rw (e, qp_loop)))

      module _ (hard : (peek s == 0 || peek s == b'\r' || peek s == b'\n') ≡ false) where
        qp_loop_byte :
            (v : ℕ)
            → qp_char (peek s) (peek (next s)) ≡ some v
            → qp_loop (suc fuel) p_in out ret
              ≡ qp_loop fuel (next (next s)) (out ++ (before ++ v ∷ [])) ret
        unfolding qp_loop
        qp_loop_byte v e =
            rw (more, qp_loop) (rw (here, qp_loop) (rw (hard, qp_loop) (rw (e, qp_loop))))

        qp_loop_bad :
            qp_char (peek s) (peek (next s)) ≡ none
            → qp_loop (suc fuel) p_in out ret ≡ qp_loop fuel s (out ++ (before ++ b'=' ∷ [])) ret
        unfolding qp_loop
        qp_loop_bad e =
            rw (more, qp_loop) (rw (here, qp_loop) (rw (hard, qp_loop) (rw (e, qp_loop))))

Decodes-nil : {t : Bytes} {r : Bool} → Decodes [] t r → t ≡ []
Decodes-nil done = refl

Decodes_all : (s : Bytes) → All (λ c. c ≢ b'=') s → Decodes s s false
Decodes_all [] a = done
Decodes_all (c ∷ s) (n, a) = plain n (Decodes_all s a)

-- The end of a line behind `=`.
skip_eol_cr : (s : Bytes) → peek s ≢ b'\n' → skip_eol (b'\r' ∷ s) ≡ s
unfolding skip_eol
skip_eol_cr s n = ground arith

skip_eol_crlf : (s : Bytes) → skip_eol (b'\r' ∷ b'\n' ∷ s) ≡ s
unfolding skip_eol
skip_eol_crlf s = refl

skip_eol_lf : (s : Bytes) → skip_eol (b'\n' ∷ s) ≡ s
unfolding skip_eol
skip_eol_lf s = refl

soft_cr-Decodes :
    (s : Bytes) {t : Bytes} {r : Bool}
    → Decodes (skip_eol (b'\r' ∷ s)) t r
    → Decodes (b'=' ∷ b'\r' ∷ s) t true
soft_cr-Decodes [] d = soft_cr (λ e. absurd (omega arith)) (rw (skip_eol_cr [] (omega arith)) at d)
soft_cr-Decodes (c ∷ s) {t} {r} d = elim (Bool-cases (c == b'\n')) [
  | inl e ↦ at_lf c s ((==_iff c b'\n').0 e) d
  | inr e ↦
      let n : c ≢ b'\n' = λ y. cc (sym e ∙ (==_iff c b'\n').1 y) in
      soft_cr n (rw (skip_eol_cr (c ∷ s) n) at d)
]
  where
    at_lf :
        (c : ℕ) (s : Bytes)
        → c ≡ b'\n'
        → Decodes (skip_eol (b'\r' ∷ c ∷ s)) t r
        → Decodes (b'=' ∷ b'\r' ∷ c ∷ s) t true
    at_lf c s e d = rw e (soft_crlf (rw (skip_eol_crlf s) at (rw e at d)))

soft_first :
    (c : ℕ) → c ≢ 0 → (c == 0 || c == b'\r' || c == b'\n') ≡ true → (c ≡ b'\r') ⊎ (c ≡ b'\n')
soft_first c n e = ground arith

soft_lf-Decodes :
    (s : Bytes) (t : Bytes) (r : Bool)
    → Decodes (skip_eol (b'\n' ∷ s)) t r
    → Decodes (b'=' ∷ b'\n' ∷ s) t true
soft_lf-Decodes s t r d = soft_lf (rw (skip_eol_lf s) at d)

soft-Decodes :
    (s : Bytes) {t : Bytes} {r : Bool}
    → NoNul s
    → (peek s == 0 || peek s == b'\r' || peek s == b'\n') ≡ true
    → Decodes (skip_eol s) t r
    → Decodes (b'=' ∷ s) t true
soft-Decodes [] {t} {r} a e d =
    let nil : Decodes [] t r = unfold skip_eol in d in rw (Decodes-nil nil) soft_end
soft-Decodes (c ∷ s) {t} {r} (n, a) e d = elim (soft_first c n e) [
  | inl cr ↦ rw cr (soft_cr-Decodes s (rw cr at d))
  | inr lf ↦ rw lf (soft_lf-Decodes s t r (rw lf at d))
]

NoNul-append : (w s : Bytes) → NoNul (w ++ s) → NoNul s
NoNul-append [] s a = a
NoNul-append (c ∷ w) s (_, a) = NoNul-append w s a

-- The data left at `p_in` is decoded to what is written from now on.
abbrev Run : ℕ → Bytes → Bytes → Bool → Type 0
Run fuel s out ret =
    (t : Bytes) × (r : Bool) × (qp_loop fuel s out ret ≡ some (out ++ t, ret || r)) × Decodes s t r

or_true : (b : Bool) → b || true ≡ true
or_true true = refl
or_true false = refl

or_false : (b : Bool) → b || false ≡ b
or_false true = refl
or_false false = refl

module _ (fuel : ℕ) (p_in out : Bytes) (ret : Bool) (before s : Bytes)
    (plain_before : All (λ x. x ≢ b'=') before) (spells : p_in ≡ before ++ b'=' ∷ s) where
  Run-soft :
      qp_loop (suc fuel) p_in out ret ≡ qp_loop fuel (skip_eol s) (out ++ before) true
      → NoNul s
      → (peek s == 0 || peek s == b'\r' || peek s == b'\n') ≡ true
      → Run fuel (skip_eol s) (out ++ before) true
      → Run (suc fuel) p_in out ret
  Run-soft step a e (t, r, run, d) = (
    before ++ t,
    true,
    step ∙ run ∙ rw (or_true ret, append_assoc),
    rw spells (Decodes-append before plain_before (soft-Decodes s a e d)),
  )

  -- One byte `v` is written for `=` and what is read behind it.
  Run-one :
      (v : ℕ) (rest : Bytes)
      → qp_loop (suc fuel) p_in out ret ≡ qp_loop fuel rest (out ++ (before ++ v ∷ [])) ret
      → ((t : Bytes) (r : Bool) → Decodes rest t r → Decodes (b'=' ∷ s) (v ∷ t) r)
      → Run fuel rest (out ++ (before ++ v ∷ [])) ret
      → Run (suc fuel) p_in out ret
  Run-one v rest step hv (t, r, run, d) = (
    before ++ v ∷ t,
    r,
    step ∙ run ∙ simp append_assoc,
    rw spells (Decodes-append before plain_before (hv t r d)),
  )

byte-Decodes :
    (s : Bytes) (v : ℕ)
    → (peek s == 0 || peek s == b'\r' || peek s == b'\n') ≡ false
    → qp_char (peek s) (peek (next s)) ≡ some v
    → (t : Bytes) (r : Bool) → Decodes (next (next s)) t r
    → Decodes (b'=' ∷ s) (v ∷ t) r
byte-Decodes [] v h e t r d = cc
byte-Decodes (a ∷ []) v h e t r d = unfold qp_char unhex in ground (arith, e)
byte-Decodes (a ∷ b ∷ s) v h e t r d =
    byte (ground arith) (ground arith) (qp_char-IsHexPair a b v e) d

bad-Decodes :
    (s : Bytes)
    → (peek s == 0 || peek s == b'\r' || peek s == b'\n') ≡ false
    → qp_char (peek s) (peek (next s)) ≡ none
    → (t : Bytes) (r : Bool) → Decodes s t r
    → Decodes (b'=' ∷ s) (b'=' ∷ t) r
bad-Decodes [] h e t r d = cc
bad-Decodes (a ∷ s) h e t r d = bad (ground arith) (ground arith) (qp_char-none a (peek s) e) d

NoNul-next : (s : Bytes) → NoNul s → NoNul (next s)
NoNul-next [] a = tt
NoNul-next (c ∷ s) (_, a) = a

length-next : (s : Bytes) → length (next s) ≤ length s
length-next [] = omega arith
length-next (c ∷ s) = omega arith

skip_eol-NoNul : (s : Bytes) → NoNul s → NoNul (skip_eol s)
unfolding skip_eol
skip_eol-NoNul s a = ground (arith, NoNul-next s a, NoNul-next (next s) (NoNul-next s a))

length-skip_eol : (s : Bytes) → length (skip_eol s) ≤ length s
unfolding skip_eol
length-skip_eol s = ground (arith, length-next s, length-next (next s))

peek_of_NoNul : (c : ℕ) → c ≢ 0 → (c == 0) ≡ false
peek_of_NoNul c n = ground arith

Decodes-nil_flag : {t : Bytes} {r : Bool} → Decodes [] t r → r ≡ false
Decodes-nil_flag done = refl

Run-absent :
    (fuel : ℕ) (s out : Bytes) (ret : Bool)
    → qp_loop (suc fuel) s out ret ≡ qp_loop fuel [] (out ++ s) ret
    → All (λ x. x ≢ b'=') s
    → Run fuel [] (out ++ s) ret
    → Run (suc fuel) s out ret
Run-absent fuel s out ret step a (t, r, run, d) =
    (s, false, step ∙ run ∙ rw (Decodes-nil d, Decodes-nil_flag d, append-nil), Decodes_all s a)

module _ (fuel : ℕ) (p_in out : Bytes) (ret : Bool) (more : (peek p_in == 0) ≡ false)
    (ih : (s o : Bytes) (b : Bool) → NoNul s → length s < fuel → Run fuel s o b) where
  Run-present :
      (before s : Bytes)
      → strchr b'=' p_in ≡ some (before, b'=' ∷ s)
      → p_in ≡ before ++ b'=' ∷ s
      → All (λ x. x ≢ b'=') before
      → NoNul s
      → length s < fuel
      → Run (suc fuel) p_in out ret
  Run-present before s e p al a lt =
      elim (Bool-cases (peek s == 0 || peek s == b'\r' || peek s == b'\n')) [
        | inl soft ↦
            Run-soft fuel p_in out ret before s al p
              (qp_loop_soft fuel p_in out ret more before s e soft) a soft
              (ih (skip_eol s) _ true (skip_eol-NoNul s a) (omega (arith, length-skip_eol s)))
        | inr hard ↦ elim (Option-cases (qp_char (peek s) (peek (next s)))) [
          | inl q ↦
              Run-one fuel p_in out ret before s al p b'=' s
                (qp_loop_bad fuel p_in out ret more before s e hard q) (bad-Decodes s hard q)
                (ih s _ ret a lt)
          | inr (v, q) ↦
              Run-one fuel p_in out ret before s al p v (next (next s))
                (qp_loop_byte fuel p_in out ret more before s e hard v q) (byte-Decodes s v hard q)
                (ih (next (next s)) _ ret (NoNul-next (next s) (NoNul-next s a))
                  (omega (arith, length-next s, length-next (next s))))
        ]
      ]

NoNul-path : (s u : Bytes) → s ≡ u → NoNul s → NoNul u
NoNul-path s u p a = rw (sym p) a

qp_loop-Decodes :
    (fuel : ℕ) (s out : Bytes) (ret : Bool) → NoNul s → length s < fuel → Run fuel s out ret
qp_loop-Decodes zero s out ret a lt = absurd (omega arith)
qp_loop-Decodes (suc fuel) [] out ret a lt =
    ([], false, qp_loop_end fuel [] out ret refl ∙ rw (append-nil, or_false ret), done)
qp_loop-Decodes (suc fuel) (c ∷ s) out ret (n, a) lt =
    let more = peek_of_NoNul c n in
    elim (strchr_cases b'=' (c ∷ s)) [
      | absent e al ↦
          Run-absent fuel (c ∷ s) out ret (qp_loop_plain fuel (c ∷ s) out ret more e) al
            (qp_loop-Decodes fuel [] (out ++ c ∷ s) ret tt (omega arith))
      | present before after e p al ↦
          let whole = NoNul-path (c ∷ s) (before ++ b'=' ∷ after) p (n, a) in
          let clean : NoNul after = (NoNul-append before (b'=' ∷ after) whole).1 in
          Run-present fuel (c ∷ s) out ret more (qp_loop-Decodes fuel) before after e p al clean
            (omega (arith, ap length p, length-append before (b'=' ∷ after)))
    ]

-- The line that the decoder starts from: without the dot that was stuffed, behind a soft line
-- break in a dot-terminated message.
abbrev pub unstuffed : Bytes → Bool → Bool → Bytes
unstuffed buf delimited issoftline =
    if delimited && issoftline && starts_with (codes "..") buf then next buf else buf

unstuffed-NoNul :
    (buf : Bytes) (delimited issoftline : Bool)
    → NoNul buf
    → NoNul (unstuffed buf delimited issoftline)
unstuffed-NoNul buf delimited issoftline a = ground (arith, NoNul-next buf a)

length-unstuffed :
    (buf : Bytes) (delimited issoftline : Bool)
    → length (unstuffed buf delimited issoftline) ≤ length buf
length-unstuffed buf delimited issoftline = ground (arith, length-next buf)

-- Outside its special case, for a line without a NUL, `DoOneQPLine` ends and leaves in the buffer what
-- its line stands for, which is no longer than the line: two hexadecimal digits behind an `=` stand for
-- the byte with their value, an `=` before the end of a line is a soft line break and stands for
-- nothing, and all else stands for itself, white space at the end of a line too. It advances `*bufp`
-- to the end of that, and returns whether a soft line break was met.
pub do_one_qp_line-Decodes :
    (buf : Bytes) (delimited issoftline : Bool)
    → NoNul buf
    → (delimited && not issoftline && starts_with (codes "=2E\r\n") buf) ≡ false
    → (l : Line) × (do_one_qp_line buf delimited issoftline ≡ some l)
      × Decodes (unstuffed buf delimited issoftline) l.text l.soft
      × (l.advance ≡ length l.text)
      × (length l.text ≤ length buf)
unfolding do_one_qp_line
do_one_qp_line-Decodes buf delimited issoftline a h =
    let p_in = unstuffed buf delimited issoftline in
    let (t, r, run, d) =
      qp_loop-Decodes (suc (length p_in)) p_in [] false (unstuffed-NoNul buf delimited issoftline a)
        (omega arith) in
    (
      record { text = t; advance = length t; soft = r },
      rw h (ap finish run),
      d,
      refl,
      omega (arith, Decodes-length d, length-unstuffed buf delimited issoftline),
    )
