-- ===== src/Smtp/Replies.antt =====
-- What a reply of an SMTP server is, and how it is read.
use fetchmail.Prelude.{
  and_parts, ℕ, ◌≤◌, ◌≡◌, refl, sym, ◌∙◌, ◌≢◌, ◌↔◌, ◌⊎◌, inl, inr, Bool, true, false, ◌&&◌, ◌||◌,
  List, [], ◌∷◌, arith, leb, ◌==◌, leb→le, ==_iff, Bool-cases, length, drop, Bytes, codes, peek,
  contains,
}
use mathlib.Core.Path.{subst}
use fetchmail.Scan.{is_digit}
use fetchmail.Transact.{line, closed, idle_timeout, Read}
use fetchmail.Smtp.{
  sm_ok, sm_error, sm_unrecoverable, reply_of, separator, well_formed, positive, reply_loop,
  smtp_ok,
}

-- The line of a code that says that another one follows, and one that ends the reply.
abbrev pub IsContinuation : Bytes → Type 0
IsContinuation reply = (3 ≤ length reply) × (separator reply ≡ b'-')

abbrev pub IsFinal : Bytes → Type 0
IsFinal reply = (3 ≤ length reply) × ((separator reply ≡ b' ') ⊎ (separator reply ≡ 0))

-- The three digits of a line that say that the command was done.
abbrev pub IsPositive : Bytes → Type 0
IsPositive reply =
    (b'1' ≤ peek reply)
    × (peek reply ≤ b'3')
    × ((b'0' ≤ peek (drop 1 reply)) × (peek (drop 1 reply) ≤ b'9'))
    × ((b'0' ≤ peek (drop 2 reply)) × (peek (drop 2 reply) ≤ b'9'))

-- A status, and the replies that have it: the lines that are read, and what is left.
pub data Reply : ℕ → List Read → List Read → Type 0 where
  accepted :
      (s : Bytes) (rest : List Read)
      → IsFinal (reply_of s)
      → IsPositive (reply_of s)
      → Reply sm_ok (line s ∷ rest) rest
  refused :
      (s : Bytes) (rest : List Read)
      → IsFinal (reply_of s)
      → ¬ IsPositive (reply_of s)
      → Reply sm_error (line s ∷ rest) rest
  continued :
      (status : ℕ) (s : Bytes) (more rest : List Read)
      → IsContinuation (reply_of s)
      → Reply status more rest
      → Reply status (line s ∷ more) rest

well_formed-cases :
    (reply : Bytes) → well_formed reply ≡ true → IsContinuation reply ⊎ IsFinal reply
unfolding well_formed
well_formed-cases reply well =
    let (long, sep) =
      and_parts (leb 3 (length reply))
        (separator reply == b' ' || separator reply == b'-' || separator reply == 0) well in
    let le = leb→le 3 (length reply) long in
    elim (Bool-cases (separator reply == b'-')) [
      | inl dash ↦ inl (le, (==_iff (separator reply) b'-').0 dash)
      | inr other ↦ inr (le, blank_or_end (separator reply) sep other)
    ]
  where
    blank_or_end :
        (n : ℕ)
        → (n == b' ' || n == b'-' || n == 0) ≡ true
        → (n == b'-') ≡ false
        → (n ≡ b' ') ⊎ (n ≡ 0)
    blank_or_end n h k = ground arith

final_tests :
    (reply : Bytes)
    → IsFinal reply
    → (well_formed reply ≡ true) × ((separator reply == b'-') ≡ false)
unfolding well_formed
final_tests reply (le, sep) = (ground arith, ground arith)

-- The test on the digits of a line that ends the reply.
digits_iff :
    (a b c s : ℕ)
    → (s ≡ b' ') ⊎ (s ≡ 0)
    → ((contains (codes "123") a && is_digit b && is_digit c && (s == b' ' || s == 0)) ≡ true)
      ↔ ((b'1' ≤ a) × (a ≤ b'3') × ((b'0' ≤ b) × (b ≤ b'9')) × ((b'0' ≤ c) × (c ≤ b'9')))
unfolding contains is_digit
digits_iff a b c s sep = (
  λ h. (ground arith, ground arith, (ground arith, ground arith), (ground arith, ground arith)),
  λ h. ground arith,
)

positive_iff : (reply : Bytes) → IsFinal reply → (positive reply ≡ true) ↔ IsPositive reply
unfolding positive
positive_iff reply (le, sep) =
    digits_iff (peek reply) (peek (drop 1 reply)) (peek (drop 2 reply)) (separator reply) sep

not_positive : (reply : Bytes) → IsFinal reply → (positive reply ≡ false) ↔ ¬ IsPositive reply
not_positive reply final = (
  λ e p. cc (sym e ∙ (positive_iff reply final).1 p),
  λ no. elim (Bool-cases (positive reply)) [
    | inl pos ↦ absurd (no ((positive_iff reply final).0 pos))
    | inr neg ↦ neg
  ],
)

last_false : (a b c d : Bool) → d ≡ false → (a && b && c && d) ≡ false
last_false true true true d h = h
last_false true true false d h = refl
last_false true false c d h = refl
last_false false b c d h = refl

continuation_tests :
    (reply : Bytes)
    → IsContinuation reply
    → (well_formed reply ≡ true) × (positive reply ≡ false) × ((separator reply == b'-') ≡ true)
unfolding well_formed positive
continuation_tests reply (le, sep) = (
  ground arith,
  last_false (contains (codes "123") (peek reply)) (is_digit (peek (drop 1 reply)))
      (is_digit (peek (drop 2 reply))) (separator reply == b' ' || separator reply == 0)
      (ground arith),
  ground arith,
)

-- What a reply says is found, and what it has is read.
reply_loop_complete :
    (status : ℕ) (input rest : List Read)
    → Reply status input rest
    → (response : Bytes)
    → ((reply_loop input response).0 ≡ status) × ((reply_loop input response).2 ≡ rest)
unfolding reply_loop
reply_loop_complete _ _ _ (accepted s rest final pos) response =
    let (well, dash) = final_tests (reply_of s) final in
    rw (reply_loop, well) (rw ((positive_iff (reply_of s) final).1 pos) (refl, refl))
reply_loop_complete _ _ _ (refused s rest final neg) response =
    let (well, dash) = final_tests (reply_of s) final in
    rw (reply_loop, well) (rw ((not_positive (reply_of s) final).1 neg) (rw dash (refl, refl)))
reply_loop_complete _ _ _ (continued status s more rest cont reply) response =
    let (well, neg, dash) = continuation_tests (reply_of s) cont in
    rw (reply_loop, well) (rw neg (rw dash (reply_loop_complete status more rest reply _)))

-- What is found is what a reply says.
reply_loop_sound :
    (input : List Read) (response : Bytes)
    → (reply_loop input response).0 ≢ sm_unrecoverable
    → Reply (reply_loop input response).0 input (reply_loop input response).2
unfolding reply_loop
reply_loop_sound [] response = λ ne. absurd (ne refl)
reply_loop_sound (closed ∷ rs) response = λ ne. absurd (ne refl)
reply_loop_sound (idle_timeout ∷ rs) response = λ ne. absurd (ne refl)
reply_loop_sound (line s ∷ rs) response = elim (Bool-cases (well_formed (reply_of s))) [
  | inr ill ↦ rw (reply_loop, ill) (λ ne. absurd (ne refl))
  | inl well ↦ elim (well_formed-cases (reply_of s) well) [
    | inl cont ↦
        let (same, neg, dash) = continuation_tests (reply_of s) cont in
        rw (reply_loop, well)
          (rw neg (rw dash (λ ne. continued _ s rs _ cont (reply_loop_sound rs _ ne))))
    | inr final ↦
        let (same, dash) = final_tests (reply_of s) final in
        elim (Bool-cases (positive (reply_of s))) [
          | inl pos ↦
              rw (reply_loop, well)
                (rw pos (λ ne. accepted s rs final ((positive_iff (reply_of s) final).0 pos)))
          | inr neg ↦
              rw (reply_loop, well)
                (rw neg
                  (rw dash (λ ne. refused s rs final ((not_positive (reply_of s) final).0 neg))))
        ]
  ]
]

-- `SMTP_ok` returns a status other than SM_UNRECOVERABLE exactly where the input begins with a reply
-- that has this status, and has then read that reply and no more: any number of lines of at least three
-- bytes with a dash behind them, and a line with a space or nothing behind its first three bytes. The
-- status is SM_OK if these are a digit from 1 to 3 and two digits, and SM_ERROR otherwise. No line but
-- the last one has a say.
pub smtp_ok_iff :
    (input rest : List Read) (status : ℕ)
    → status ≢ sm_unrecoverable
    → (((smtp_ok input).0 ≡ status) × ((smtp_ok input).2 ≡ rest)) ↔ Reply status input rest
unfolding smtp_ok
smtp_ok_iff input rest status ne = (
  λ h.
      subst (λ n. Reply n input rest) h.0
        (subst (λ l. Reply (reply_loop input []).0 input l) h.1
          (reply_loop_sound input [] (λ e. ne (sym h.0 ∙ e)))),
  λ r. reply_loop_complete status input rest r [],
)
