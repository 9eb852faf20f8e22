-- ===== src/Imap/Tagged.antt =====
-- An answer ends with its tagged line.
use fetchmail.Prelude.{
  ℕ, zero, suc, ◌-◌, ◌<◌, ◌≡◌, refl, sym, ap, ◌∙◌, ◌≢◌, inl, inr, Bool, true, false, not, ◌&&◌,
  Option, none, some, List, [], ◌∷◌, ◌++◌, append_assoc, arith, ◌==◌, if◌then◌else◌, ==_iff,
  Bool-cases, Option-cases, and_parts, ◌>>=◌, length, Bytes, codes, peek, next, All, All-append,
  ==_ne, is_space, has_case_prefix, starts_with,
}
use fetchmail.Transact.{
  line, closed, idle_timeout, stage_getauth, stage_getsizes, ps_success, ps_idletimeout, stage_idle,
  Read, received,
}
use fetchmail.Imap.{
  skip_while, judge_tagged, Imap, Setting, imap_untagged_response, Round, returns, goes_on,
  idle_round, untagged_round, round, Answer, line_of, find_space, finish_response, imap_response,
  ps_untagged, ok_loop, imap_ok,
}
use fetchmail.Imap.Counts.{IsCounted, Round-cases, response-IsCounted}

-- The tag of a command: not empty, and no line that begins with a star begins with it.
pub record IsTag (tag : Bytes) : Type 0 where
  pub not_empty : peek tag ≢ 0
  pub no_star : peek tag ≢ b'*'

abbrev pub NotTagged : Bytes → Read → Type 0
NotTagged tag r = starts_with tag (line_of r) ≡ false

-- What was read is `pre`, with no tagged line.
abbrev pub Skips : Bytes → List Read → List Read → Type 0
Skips tag input rest = (pre : List Read) × (input ≡ pre ++ rest) × All (NotTagged tag) pre

-- What was read ends with the first tagged line.
abbrev pub ReachesTag : Bytes → List Read → List Read → Type 0
ReachesTag tag input rest =
    (r : Read) × Skips tag input (r ∷ rest) × (starts_with tag (line_of r) ≡ true)

Skips-cons :
    (tag : Bytes) (r : Read) (input rest : List Read)
    → NotTagged tag r
    → Skips tag input rest
    → Skips tag (r ∷ input) rest
Skips-cons tag r input rest n (pre, e, a) = (r ∷ pre, ap (◌∷◌ r) e, (n, a))

-- The code with which a round returns; of no interest where it goes on.
abbrev code_of : Round → ℕ
code_of (returns a s) = a.0
code_of (goes_on s) = ps_idletimeout

idle_round-code :
    (e : Setting) (s : Imap) (left : ℕ) → code_of (idle_round e s left) ≡ ps_idletimeout
unfolding idle_round
idle_round-code e s left = elim (Bool-cases (s.stage == stage_idle)) [
  | inr other ↦ rw other refl
  | inl idle ↦ elim (Bool-cases (e.idle_timeout - e.elapsed left == 0)) [
    | inl over ↦ rw (idle, over) refl
    | inr lasts ↦ rw (idle, lasts) refl
  ]
]

untagged_code :
    (ok : ℕ) (y : Bool) (now : Imap) (buf : Bytes) (on : Round)
    → code_of on ≢ ps_success
    → code_of (
        if ok == ps_untagged
        then (if y then returns (ok, some buf) now else on)
        else if not (ok == ps_success)
        then returns (ok, none) now
        else on)
      ≢ ps_success
untagged_code ok y now buf on ne = elim (Bool-cases (ok == ps_untagged)) [
  | inl u ↦ rw u (elim (Bool-cases y) [ inl h ↦ rw h (λ e. ground arith) | inr h ↦ rw h ne ])
  | inr u ↦
      rw u (elim (Bool-cases (ok == ps_success)) [
        | inl h ↦ rw h ne
        | inr h ↦ rw h (λ e. ground arith)
      ])
]

untagged_round-code :
    (e : Setting) (wanted : Bool) (s : Imap) (buf : Bytes) (left : ℕ)
    → code_of (untagged_round e wanted s buf left) ≢ ps_success
unfolding untagged_round
untagged_round-code e wanted s buf left =
    let (ok, now) = imap_untagged_response e s buf in
    untagged_code ok (wanted && not (now.stage == stage_idle) && not (peek e.tag == 0)) now buf
      (idle_round e now left) (λ h. let c = idle_round-code e now left in omega arith)

not-true : (b : Bool) → not b ≡ true → b ≡ false
not-true true h = cc
not-true false h = refl

-- The loop is left at the tag, if there is one.
tag_found : (tag : ℕ) (b : Bool) → tag ≢ 0 → (not (tag == 0) && not b) ≡ false → b ≡ true
tag_found tag true ne h = refl
tag_found tag false ne h = absurd (let there = rw (==_ne tag 0 ne) at h in cc)

-- A round does not return with success, and with PS_UNTAGGED for a line with a star only.
round-code :
    (e : Setting) (wanted : Bool) (s : Imap) (buf : Bytes) (left : ℕ)
    → (code_of (round e wanted s buf left) ≢ ps_success)
      × (code_of (round e wanted s buf left) ≡ ps_untagged → peek buf ≡ b'*')
unfolding round
round-code e wanted s buf left = elim (Bool-cases (peek buf == b'*' && peek (next buf) == b' ')) [
  | inl star ↦ rw star (
    untagged_round-code e wanted s buf left,
    λ h. (==_iff (peek buf) b'*').0 (and_parts _ _ star).0,
  )
  | inr other ↦
      let c = idle_round-code e s left in rw other (λ h. omega arith, λ h. absurd (omega arith))
]

star_NotTagged : (tag buf : Bytes) → IsTag tag → peek buf ≡ b'*' → starts_with tag buf ≡ false
unfolding starts_with
star_NotTagged [] buf v star = absurd (v.not_empty refl)
star_NotTagged (t ∷ tag) [] v star = absurd (omega arith)
star_NotTagged (t ∷ tag) (c ∷ buf) v star = rw (==_ne t c (λ h. v.no_star (h ∙ star))) refl

-- How a call of `imap_response` ends.
abbrev Ends : Bytes → List Read → Option (Answer × Imap × List Read) → Type 0
Ends tag input none =
    (r : Read) × (rest : List Read) × Skips tag input (r ∷ rest)
    × (starts_with tag (line_of r) ≡ true)
    × (find_space (line_of r) ≡ none)
Ends tag input (some (a, s, rest)) =
    (a.0 ≡ ps_success → ReachesTag tag input rest)
    × (a.0 ≡ ps_untagged → Skips tag input rest × (length rest < length input))

-- Reading on from a line that is not tagged.
Ends-cons :
    (tag : Bytes) (r : Read) (input : List Read) (o : Option (Answer × Imap × List Read))
    → NotTagged tag r
    → Ends tag input o
    → Ends tag (r ∷ input) o
Ends-cons tag r input none n (x, rest, skips, tagged, behind) =
    (x, rest, Skips-cons tag r input (x ∷ rest) n skips, tagged, behind)
Ends-cons tag r input (some (a, s, rest)) n (ok, more) = (
  λ h. let (x, skips, tagged) = ok h in (x, Skips-cons tag r input (x ∷ rest) n skips, tagged),
  λ h. let (skips, lt) = more h in (Skips-cons tag r input rest n skips, omega arith),
)

received_code : (r : Read) → (received r).0 ≢ ps_untagged
unfolding received
received_code (line s) h = omega arith
received_code closed h = omega arith
received_code idle_timeout h = omega arith

judge_tagged-code : (stage : ℕ) (cp : Bytes) → (judge_tagged stage cp).0 ≢ ps_untagged
unfolding judge_tagged
judge_tagged-code stage cp = elim (Bool-cases (has_case_prefix (codes "OK") cp)) [
  | inl a ↦ rw a (λ h. omega arith)
  | inr a ↦ elim (Bool-cases (has_case_prefix (codes "BAD") cp)) [
    | inl b ↦ rw (a, b) (λ h. omega arith)
    | inr b ↦ elim (Bool-cases (has_case_prefix (codes "NO") cp)) [
      | inr c ↦ rw (a, b, c) (λ h. omega arith)
      | inl c ↦
          rw (a, b, c)
            (elim (Bool-cases (stage == stage_getauth)) [
              | inl d ↦ rw d (λ h. omega arith)
              | inr d ↦ rw d (elim (Bool-cases (stage == stage_getsizes)) [
                | inl g ↦ rw g (λ h. omega arith)
                | inr g ↦ rw g (λ h. omega arith)
              ])
            ])
    ]
  ]
]

-- The line with the tag.
finish-Ends :
    (e : Setting) (s : Imap) (r : Read) (rs : List Read)
    → IsTag e.tag
    → starts_with e.tag (line_of r) ≡ true
    → Ends e.tag (r ∷ rs) (do a ← finish_response e s (line_of r); some (a, s, rs))
unfolding finish_response
finish-Ends e s r rs v tagged =
    let there = ==_ne (peek e.tag) 0 v.not_empty in
    elim (Option-cases (find_space (line_of r))) [
      | inl behind ↦ rw (finish_response, there) (rw behind (r, rs, ([], refl, tt), tagged, behind))
      | inr (cp, space) ↦
          rw (finish_response, there)
            (rw space (
              λ h. (r, ([], refl, tt), tagged),
              λ h. absurd (judge_tagged-code s.stage (skip_while is_space cp) h),
            ))
    ]

response-Ends :
    (e : Setting) (wanted : Bool) (s : Imap) (input : List Read)
    → IsTag e.tag
    → Ends e.tag input (imap_response e wanted s input)
unfolding imap_response
response-Ends e wanted s [] v = (λ h. absurd (omega arith), λ h. absurd (omega arith))
response-Ends e wanted s (r ∷ rs) v = elim (Bool-cases ((received r).0 == ps_success)) [
  | inr failed ↦
      rw (imap_response, failed) (λ h. absurd (ground arith), λ h. absurd (received_code r h))
  | inl read ↦
      let (no_success, star) = round-code e wanted s (line_of r) (length rs) in
      elim (Round-cases (round e wanted s (line_of r) (length rs))) [
        | inl (a, now, back) ↦
            rw (imap_response, read)
              (rw back (
                λ h. absurd (no_success (ap code_of back ∙ h)),
                λ h. (
                  (
                    r ∷ [],
                    refl,
                    (star_NotTagged e.tag (line_of r) v (star (ap code_of back ∙ h)), tt),
                  ),
                  omega arith,
                ),
              ))
        | inr (now, on) ↦
            rw (imap_response, read)
              (rw on
                (elim (Bool-cases (not (peek e.tag == 0) && not (starts_with e.tag (line_of r)))) [
                  | inl more ↦ rw more (
                      Ends-cons e.tag r rs _ (not-true _ (and_parts _ _ more).1)
                        (response-Ends e wanted now rs v))
                  | inr over ↦
                      rw over (finish-Ends e now r rs v (tag_found (peek e.tag) _ v.not_empty over))
                ]))
      ]
]

-- How `imap_ok` ends. It does not end where it would leave a line: behind a tag without white space.
abbrev pub Answers : Setting → List Read → Option (Answer × Imap × List Read) → Type 0
Answers e input none =
    (r : Read) × (rest : List Read) × Skips e.tag input (r ∷ rest)
    × (starts_with e.tag (line_of r) ≡ true)
    × (find_space (line_of r) ≡ none)
Answers e input (some (a, s, rest)) =
    IsCounted s × (a.0 ≢ ps_untagged) × (a.0 ≡ ps_success → ReachesTag e.tag input rest)

Skips-append : (tag : Bytes) (a b c : List Read) → Skips tag a b → Skips tag b c → Skips tag a c
Skips-append tag a b c (pre, e, n) (pre', e', n') = (
  pre ++ pre',
  e ∙ ap (λ l. pre ++ l) e' ∙ sym (append_assoc pre pre' c),
  All-append (NotTagged tag) pre pre' n n',
)

Answers-skip :
    (e : Setting) (input rest : List Read) (o : Option (Answer × Imap × List Read))
    → Skips e.tag input rest
    → Answers e rest o
    → Answers e input o
Answers-skip e input rest none skips (r, left, more, tagged, behind) =
    (r, left, Skips-append e.tag input rest (r ∷ left) skips more, tagged, behind)
Answers-skip e input rest (some (a, s, left)) skips (v, n, reach) = (
  v,
  n,
  λ h.
      let (r, more, tagged) = reach h in
      (r, Skips-append e.tag input rest (r ∷ left) skips more, tagged),
)

ok_loop-Answers :
    (fuel : ℕ) (e : Setting) (wanted : Bool) (s : Imap) (input : List Read)
    → IsTag e.tag
    → IsCounted s
    → length input < fuel
    → Answers e input (ok_loop fuel e wanted s input)
unfolding ok_loop
ok_loop-Answers zero e wanted s input v c lt = elim lt [ ]
ok_loop-Answers (suc fuel) e wanted s input v c lt =
    let counted = response-IsCounted e wanted s input c in
    let ends = response-Ends e wanted s input v in
    elim (Option-cases (imap_response e wanted s input)) [
      | inl behind ↦ rw (ok_loop, behind) (rw behind at ends)
      | inr ((a, now, rest), there) ↦
          let now_counted : IsCounted now = rw there at counted in
          let (success, again) = rw there at ends in
          rw (ok_loop, there, ◌>>=◌)
            (elim (Bool-cases (a.0 == ps_untagged)) [
              | inr over ↦ rw over (now_counted, λ h. ground arith, success)
              | inl more ↦
                  let (skips, less) = again ((==_iff a.0 ps_untagged).0 more) in
                  rw more (
                    Answers-skip e input rest _ skips
                      (ok_loop-Answers fuel e wanted now rest v now_counted (omega arith)))
            ])
    ]

-- `imap_ok` comes to an end on whatever the server sends, for a tag that is not empty and does not
-- begin with a star. It never returns PS_UNTAGGED. If it returns success, then what it read ends with
-- the first line that begins with the tag, and nothing behind that line was read. The invariant of
-- the counts is kept: the number of messages is at most INT_MAX/sizeof(int), that of the recent ones
-- is what came since the last poll, and the capabilities fit their buffer. The only exception is a
-- first line that begins with the tag and has no white space: the loop that skips the tag leaves it.
pub imap_ok-Answers :
    (e : Setting) (wanted : Bool) (s : Imap) (input : List Read)
    → IsTag e.tag
    → IsCounted s
    → Answers e input (imap_ok e wanted s input)
unfolding imap_ok
imap_ok-Answers e wanted s input v c =
    ok_loop-Answers (suc (length input)) e wanted s input v c (omega arith)
