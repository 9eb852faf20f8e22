-- ===== src/Unmime/HeaderBounds.antt =====
-- `UnMimeHeader` ends, and its output fits the buffer of its input.
use fetchmail.Prelude.{
  ℕ, zero, suc, ◌+◌, ◌*◌, ◌≤◌, ◌<◌, ◌≡◌, refl, ap, ◌∙◌, inl, inr, Bool, true, false, ◌&&◌, none,
  some, [], ◌∷◌, ◌++◌, arith, ◌==◌, Bool-cases, ◌>>=◌, length, length-append, Bytes, peek, next,
  to_lower,
}
use fetchmail.Base64.Length.{length-from64tobits}
use fetchmail.Unmime.Quoted.{strchr}
use fetchmail.Unmime.QuotedLaws.{absent, present, strchr_cases}
use fetchmail.Unmime.Header.{
  strstr, decode_q, decode_b, decode, State, copy_plain, skip_mimeinit, copy_mime, coded, resume,
  header_loop, unmime_header,
}

length-next : (s : Bytes) → length (next s) ≤ length s
length-next [] = omega arith
length-next (c ∷ s) = omega arith

strstr_here :
    (a b x : ℕ) (s : Bytes)
    → (x == a && peek s == b) ≡ true
    → strstr a b (x ∷ s) ≡ some ([], next s)
unfolding strstr
strstr_here a b x s h = rw h

strstr_there :
    (a b x : ℕ) (s : Bytes)
    → (x == a && peek s == b) ≡ false
    → strstr a b (x ∷ s) ≡ (strstr a b s >>= λ p. some (x ∷ p.0, p.1))
unfolding strstr
strstr_there a b x s h = rw h

-- The two outcomes of a search, and the lengths where it succeeds.
data Searched (a b : ℕ) (s : Bytes) : Type 0 where
  missing : strstr a b s ≡ none → Searched a b s
  found :
      (before after : Bytes)
      → strstr a b s ≡ some (before, after)
      → length before + 2 + length after ≤ length s
      → Searched a b s

two_bytes :
    (s : Bytes) (b : ℕ) → (0 == b) ≡ false → (peek s == b) ≡ true → 1 + length (next s) ≤ length s
two_bytes [] b n e = cc
two_bytes (c ∷ s) b n e = omega arith

both : (p q : Bool) → (p && q) ≡ true → q ≡ true
both true q h = h
both false q h = cc

strstr_cases : (a b : ℕ) (s : Bytes) → (0 == b) ≡ false → Searched a b s
strstr_cases a b [] n = missing (unfold strstr in refl)
strstr_cases a b (x ∷ s) n = elim (Bool-cases (x == a && peek s == b)) [
  | inl e ↦ found [] (next s) (strstr_here a b x s e) (omega (arith, two_bytes s b n (both _ _ e)))
  | inr e ↦ elim (strstr_cases a b s n) [
    | missing q ↦ missing (strstr_there a b x s e ∙ rw q)
    | found before after q le ↦
        found (x ∷ before) after (strstr_there a b x s e ∙ rw q) (omega arith)
  ]
]

length-decode_q : (s : Bytes) → length (decode_q s) ≤ length s
unfolding decode_q
length-decode_q [] = omega arith
length-decode_q (c ∷ []) = omega arith
length-decode_q (c ∷ d ∷ []) = omega arith
length-decode_q (c ∷ d ∷ e ∷ s) = ground (arith, length-decode_q s, length-decode_q (d ∷ e ∷ s))

length-decode_b : (s : Bytes) → length (decode_b s) ≤ length s
unfolding decode_b
length-decode_b [] = omega arith
length-decode_b (c ∷ s) =
    ground (arith, length-from64tobits ((c ∷ s) ++ b'\r' ∷ []), length-append s (b'\r' ∷ []))

length-decode : (enc : ℕ) (s : Bytes) → length (decode enc s) ≤ length s
unfolding decode
length-decode enc s = ground (arith, length-decode_q s, length-decode_b s)

-- A coded text takes a byte at least, and its delimiter if there is one.
coded-length :
    (c : ℕ) (s : Bytes)
    → (length (coded (c ∷ s)).0 + length (coded (c ∷ s)).1 ≤ suc (length s))
      × (length (coded (c ∷ s)).1 ≤ length s)
unfolding coded
coded-length c s = elim (strstr_cases b'?' b'=' (c ∷ s) refl) [
  | missing q ↦ rw (q, coded) (omega arith)
  | found before after q le ↦ rw (q, coded) (omega arith)
]

-- The rounds that are left, at most, as a function of the state.
abbrev weight : State → ℕ → ℕ
weight skip_mimeinit n = 2 * n + 1
weight _ n = 2 * n

resume-weight :
    (s : Bytes)
    → (length (resume s).1 ≤ length s) × (weight (resume s).0 (length (resume s).1) ≤ 2 * length s)
unfolding resume
resume-weight s = elim (strstr_cases b'=' b'?' s refl) [
  | missing q ↦ rw (q, resume) (omega arith)
  | found before after q le ↦ rw (q, resume) (ground arith)
]

-- The loop ends, and what it writes fits the room of what it has still to read.
abbrev Fits : ℕ → State → ℕ → Bytes → Bytes → Type 0
Fits fuel state enc p_in out =
    (t : Bytes) × (header_loop fuel state enc p_in out ≡ some t)
    × (length t ≤ length out + length p_in)

-- One round leads to another that fits.
Fits-round :
    (fuel : ℕ) (state state' : State) (enc enc' : ℕ) (p_in p_in' out out' : Bytes)
    → header_loop (suc fuel) state enc p_in out ≡ header_loop fuel state' enc' p_in' out'
    → length out' + length p_in' ≤ length out + length p_in
    → Fits fuel state' enc' p_in' out'
    → Fits (suc fuel) state enc p_in out
Fits-round fuel state state' enc enc' p_in p_in' out out' e le (t, run, short) =
    (t, e ∙ run, omega arith)

Fits-end :
    (fuel : ℕ) (state : State) (enc : ℕ) (p_in out : Bytes)
    → (peek p_in == 0) ≡ true
    → Fits (suc fuel) state enc p_in out
unfolding header_loop
Fits-end fuel copy_plain enc p_in out e = (out, rw (e, header_loop), omega arith)
Fits-end fuel skip_mimeinit enc p_in out e = (out, rw (e, header_loop), omega arith)
Fits-end fuel copy_mime enc p_in out e = (out, rw (e, header_loop), omega arith)

module _ (fuel enc c : ℕ) (s out : Bytes) (more : (c == 0) ≡ false) where
  plain_missing :
      strstr b'=' b'?' (c ∷ s) ≡ none
      → header_loop (suc fuel) copy_plain enc (c ∷ s) out
        ≡ header_loop fuel copy_plain enc [] (out ++ c ∷ s)
  unfolding header_loop
  plain_missing e = rw (more, header_loop) (rw (e, header_loop))

  plain_found :
      (before after : Bytes)
      → strstr b'=' b'?' (c ∷ s) ≡ some (before, after)
      → header_loop (suc fuel) copy_plain enc (c ∷ s) out
        ≡ header_loop fuel skip_mimeinit enc after (out ++ before)
  unfolding header_loop
  plain_found before after e = rw (more, header_loop) (rw (e, header_loop))

  skip_missing :
      strchr b'?' (c ∷ s) ≡ none
      → header_loop (suc fuel) skip_mimeinit enc (c ∷ s) out
        ≡ header_loop fuel copy_plain enc (c ∷ s) out
  unfolding header_loop
  skip_missing e = rw (more, header_loop) (rw (e, header_loop))

  skip_bad :
      (before after : Bytes)
      → strchr b'?' (c ∷ s) ≡ some (before, b'?' ∷ after)
      → (peek (next after) == b'?') ≡ false
      → header_loop (suc fuel) skip_mimeinit enc (c ∷ s) out
        ≡ header_loop fuel copy_plain enc (c ∷ s) out
  unfolding header_loop
  skip_bad before after e b = rw (more, header_loop) (rw (e, header_loop) (rw (b, header_loop)))

  skip_found :
      (before after : Bytes)
      → strchr b'?' (c ∷ s) ≡ some (before, b'?' ∷ after)
      → (peek (next after) == b'?') ≡ true
      → header_loop (suc fuel) skip_mimeinit enc (c ∷ s) out
        ≡ header_loop fuel copy_mime (to_lower (peek after)) (next (next after)) out
  unfolding header_loop
  skip_found before after e b = rw (more, header_loop) (rw (e, header_loop) (rw (b, header_loop)))

  mime_round :
      header_loop (suc fuel) copy_mime enc (c ∷ s) out
      ≡ header_loop fuel
          (resume (coded (c ∷ s)).1).0
          enc
          (resume (coded (c ∷ s)).1).1
          (out ++ decode enc (coded (c ∷ s)).0)
  unfolding header_loop
  mime_round = rw (more, header_loop)

-- The induction hypothesis of the loop.
abbrev Below : ℕ → Type 0
Below fuel =
    (state : State) (enc : ℕ) (p_in out : Bytes)
    → weight state (length p_in) < fuel
    → Fits fuel state enc p_in out

module _ (fuel enc c : ℕ) (s out : Bytes) (more : (c == 0) ≡ false) (ih : Below fuel) where
  Fits-copy_plain :
      weight copy_plain (suc (length s)) < suc fuel → Fits (suc fuel) copy_plain enc (c ∷ s) out
  Fits-copy_plain lt = elim (strstr_cases b'=' b'?' (c ∷ s) refl) [
    | missing q ↦
        Fits-round fuel copy_plain copy_plain enc enc (c ∷ s) [] out (out ++ c ∷ s)
          (plain_missing fuel enc c s out more q) (omega (arith, length-append out (c ∷ s)))
          (ih copy_plain enc [] (out ++ c ∷ s) (omega arith))
    | found before after q le ↦
        Fits-round fuel copy_plain skip_mimeinit enc enc (c ∷ s) after out (out ++ before)
          (plain_found fuel enc c s out more before after q)
          (omega (arith, length-append out before))
          (ih skip_mimeinit enc after (out ++ before) (omega arith))
  ]

  Fits-back :
      weight skip_mimeinit (suc (length s)) < suc fuel
      → header_loop (suc fuel) skip_mimeinit enc (c ∷ s) out
        ≡ header_loop fuel copy_plain enc (c ∷ s) out
      → Fits (suc fuel) skip_mimeinit enc (c ∷ s) out
  Fits-back lt e =
      Fits-round fuel skip_mimeinit copy_plain enc enc (c ∷ s) (c ∷ s) out out e (omega arith)
        (ih copy_plain enc (c ∷ s) out (omega arith))

  Fits-skip_mimeinit :
      weight skip_mimeinit (suc (length s)) < suc fuel
      → Fits (suc fuel) skip_mimeinit enc (c ∷ s) out
  Fits-skip_mimeinit lt = elim (strchr_cases b'?' (c ∷ s)) [
    | absent q _ ↦ Fits-back lt (skip_missing fuel enc c s out more q)
    | present before after q p _ ↦ elim (Bool-cases (peek (next after) == b'?')) [
      | inr bad ↦ Fits-back lt (skip_bad fuel enc c s out more before after q bad)
      | inl good ↦
          let shorter : length (next (next after)) ≤ length s = omega (
            arith,
            length-next after,
            length-next (next after),
            ap length p,
            length-append before (b'?' ∷ after),
          ) in
          Fits-round fuel skip_mimeinit copy_mime enc (to_lower (peek after)) (c ∷ s)
            (next (next after)) out out (skip_found fuel enc c s out more before after q good)
            (omega arith)
            (ih copy_mime (to_lower (peek after)) (next (next after)) out (omega arith))
    ]
  ]

  Fits-copy_mime :
      weight copy_mime (suc (length s)) < suc fuel → Fits (suc fuel) copy_mime enc (c ∷ s) out
  Fits-copy_mime lt =
      let split = coded (c ∷ s) in
      let then_at = resume split.1 in
      let text = decode enc split.0 in
      Fits-round fuel copy_mime then_at.0 enc enc (c ∷ s) then_at.1 out (out ++ text)
        (mime_round fuel enc c s out more)
        (omega (
          arith,
          coded-length c s,
          resume-weight split.1,
          length-decode enc split.0,
          length-append out text,
        ))
        (ih then_at.0 enc then_at.1 (out ++ text)
          (omega (arith, coded-length c s, resume-weight split.1)))

  Fits-state :
      (state : State)
      → weight state (suc (length s)) < suc fuel
      → Fits (suc fuel) state enc (c ∷ s) out
  Fits-state copy_plain lt = Fits-copy_plain lt
  Fits-state skip_mimeinit lt = Fits-skip_mimeinit lt
  Fits-state copy_mime lt = Fits-copy_mime lt

header_loop-Fits : (fuel : ℕ) → Below fuel
header_loop-Fits zero state enc p_in out lt = absurd (omega arith)
header_loop-Fits (suc fuel) state enc [] out lt = Fits-end fuel state enc [] out refl
header_loop-Fits (suc fuel) state enc (c ∷ s) out lt = elim (Bool-cases (c == 0)) [
  | inl stop ↦ Fits-end fuel state enc (c ∷ s) out stop
  | inr more ↦ Fits-state fuel enc c s out more (header_loop-Fits fuel) state lt
]

-- `UnMimeHeader` ends on every header, its output is no longer than the header, so that it can be
-- written to the buffer of the input, and a header without `=?` is left as it is.
pub unmime_header_fits :
    (hdr : Bytes)
    → (t : Bytes) × (unmime_header hdr ≡ some t)
      × (length t ≤ length hdr)
      × (strstr b'=' b'?' hdr ≡ none → t ≡ hdr)
unfolding unmime_header
unmime_header_fits hdr = elim (strstr_cases b'=' b'?' hdr refl) [
  | missing q ↦ (hdr, rw (q, unmime_header), omega arith, λ _. refl)
  | found before after q le ↦
      let (t, run, short) =
        header_loop-Fits (suc (2 * length hdr)) copy_plain 0 hdr [] (omega arith) in
      (t, rw (q, unmime_header) run, omega arith, λ e. cc)
]
