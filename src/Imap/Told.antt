-- ===== src/Imap/Told.antt =====
-- imap.c: the deletions that a server tells of, and those that are counted.
use fetchmail.Prelude.{
  and_parts, ℕ, zero, suc, ◌+◌, ◌-◌, ◌≡◌, refl, sym, ap, ◌∙◌, inl, inr, Bool, true, false, not,
  ◌&&◌, Option, none, some, List, [], ◌∷◌, ◌++◌, append_assoc, arith, ltb, ◌==◌, if◌then◌else◌,
  Bool-cases, Option-cases, ◌>>=◌, length, drop, Bytes, codes, peek, next, starts_with,
}
use mathlib.Core.Path.{subst}
use fetchmail.Scan.{strstr, strtoul}
use fetchmail.Scan.Substring.{starts_with_iff}
use fetchmail.Transact.{
  Read, line, closed, idle_timeout, received, ps_success, stage_getauth, stage_idle, stage_logout,
  stage_getrange,
}
use fetchmail.Imap.{
  Imap, Setting, Answer, returns, exists, expunge, number_in, on_exists, on_expunge,
  imap_untagged_response, idle_round, untagged_round, round, line_of, finish_response,
  imap_response, ps_untagged, ok_loop, imap_ok, max_count,
}
use fetchmail.Imap.Counts.{left_by, Round-cases}

-- The line has the number of a message behind `* `.
unfoldable names_message : Bytes → Bool
unfolding strtoul
names_message buf = elim (strtoul (drop 2 buf)) [
  | none ↦ false
  | some (u, range, t) ↦ not range && ltb 0 u
]

-- A line tells that a message was deleted.
unfoldable pub tells : Bytes → Bool
unfolding names_message strstr
tells buf =
    peek buf == b'*'
    && peek (next buf) == b' '
    && (not (strstr buf (codes " EXISTS")) && strstr buf (codes " EXPUNGE") && names_message buf)

-- How many lines tell so.
unfoldable pub told : List Read → ℕ
unfolding tells
told [] = 0
told (r ∷ rs) = (if tells (line_of r) then 1 else 0) + told rs

abbrev one_if : Bool → ℕ
one_if b = if b then 1 else 0

-- No message is named behind a word.
no_number :
    (word buf : Bytes)
    → ((rest : Bytes) → names_message (word ++ rest) ≡ false)
    → starts_with word buf ≡ true
    → names_message buf ≡ false
no_number word buf never h = let (rest, e) = (starts_with_iff word buf).0 h in rw e (never rest)

on_exists-told :
    (e : Setting) (s : Imap) (buf : Bytes)
    → (on_exists e s buf).1.actual_deletions ≡ s.actual_deletions
unfolding on_exists exists
on_exists-told e s buf = elim (Option-cases (number_in buf)) [
  | inl nothing ↦ rw (on_exists, nothing) refl
  | inr (u, there) ↦
      rw (on_exists, there)
        (elim (Bool-cases (ltb max_count u)) [
          | inl large ↦ rw large refl
          | inr small ↦ rw small (elim (Bool-cases (s.stage == stage_idle)) [
            | inl idle ↦ rw idle refl
            | inr other ↦ rw other refl
          ])
        ])
]

on_expunge-told :
    (s : Imap) (buf : Bytes)
    → (on_expunge s buf).1.actual_deletions ≡ s.actual_deletions + one_if (names_message buf)
unfolding on_expunge names_message number_in expunge
on_expunge-told s buf = elim (Option-cases (strtoul (drop 2 buf))) [
  | inl nothing ↦ rw (on_expunge, names_message, nothing, ◌>>=◌) (omega arith)
  | inr ((u, range, t), there) ↦
      rw (on_expunge, names_message, there, ◌>>=◌)
        (elim (Bool-cases range) [
          | inl over ↦ rw over (omega arith)
          | inr within ↦ rw within (elim (Bool-cases (ltb 0 u)) [
            | inl positive ↦ rw positive refl
            | inr nought ↦ rw nought (omega arith)
          ])
        ])
]

-- What an untagged line adds to the count.
abbrev adds : Bytes → ℕ
adds buf =
    one_if
      (not (strstr buf (codes " EXISTS")) && strstr buf (codes " EXPUNGE") && names_message buf)

adds_nothing : (buf : Bytes) (n : ℕ) → names_message buf ≡ false → n ≡ n + adds buf
adds_nothing buf n h = ground arith

untagged-told :
    (e : Setting) (s : Imap) (buf : Bytes)
    → (imap_untagged_response e s buf).1.actual_deletions ≡ s.actual_deletions + adds buf
unfolding imap_untagged_response
untagged-told e s buf =
    elim (Bool-cases (s.stage == stage_getauth && starts_with (codes "* CAPABILITY") buf)) [
      | inl a ↦ rw a (
          adds_nothing buf s.actual_deletions (
            no_number (codes "* CAPABILITY") buf (λ r. unfold names_message strtoul in refl)
              (and_parts _ _ a).1))
      | inr a ↦
          elim (Bool-cases (s.stage == stage_getauth && starts_with (codes "* PREAUTH") buf)) [
            | inl b ↦
                rw (a, b)
                  (adds_nothing buf s.actual_deletions (
                    no_number (codes "* PREAUTH") buf (λ r. unfold names_message strtoul in refl)
                      (and_parts _ _ b).1))
            | inr b ↦
                elim (Bool-cases
                  (not (s.stage == stage_logout) && starts_with (codes "* BYE") buf)) [
                    | inl c ↦
                        rw (a, b, c)
                          (adds_nothing buf s.actual_deletions (
                            no_number (codes "* BYE") buf
                              (λ r. unfold names_message strtoul in refl) (and_parts _ _ c).1))
                    | inr c ↦ elim (Bool-cases (strstr buf (codes " EXISTS"))) [
                      | inl d ↦ rw (a, b, c, d) (on_exists-told e s buf ∙ omega arith)
                      | inr d ↦ elim (Bool-cases (strstr buf (codes " EXPUNGE"))) [
                        | inl g ↦ rw (a, b, c, d, g) (on_expunge-told s buf)
                        | inr g ↦
                            rw (a, b, c, d, g)
                              (elim (Bool-cases (
                                s.stage == stage_getrange
                                && not e.check_only
                                && strstr buf (codes "[READ-ONLY]"))) [
                                  | inl h ↦ rw h (omega arith)
                                  | inr h ↦ rw h (omega arith)
                                ])
                      ]
                    ]
                  ]
          ]
    ]

idle-told :
    (e : Setting) (s : Imap) (left : ℕ)
    → (left_by (idle_round e s left)).actual_deletions ≡ s.actual_deletions
unfolding idle_round
idle-told e s left = elim (Bool-cases (s.stage == stage_idle)) [
  | inr other ↦ rw other refl
  | inl idle ↦ elim (Bool-cases (e.idle_timeout - e.elapsed left == 0)) [
    | inl over ↦ rw (idle, over) refl
    | inr lasts ↦ rw (idle, lasts) refl
  ]
]

untagged_round-told :
    (e : Setting) (wanted : Bool) (s : Imap) (buf : Bytes) (left : ℕ)
    → (left_by (untagged_round e wanted s buf left)).actual_deletions
      ≡ s.actual_deletions + adds buf
unfolding untagged_round
untagged_round-told e wanted s buf left =
    go ((imap_untagged_response e s buf).0 == ps_untagged)
      (wanted
        && not ((imap_untagged_response e s buf).1.stage == stage_idle)
        && not (peek e.tag == 0))
      (not ((imap_untagged_response e s buf).0 == ps_success))
  where
    now : (imap_untagged_response e s buf).1.actual_deletions ≡ s.actual_deletions + adds buf
    now = untagged-told e s buf

    go :
        (x y z : Bool)
        → let r = imap_untagged_response e s buf in
          (left_by (
            if x
            then (if y then returns (r.0, some buf) r.1 else idle_round e r.1 left)
            else if z
            then returns (r.0, none) r.1
            else idle_round e r.1 left)).actual_deletions
          ≡ s.actual_deletions + adds buf
    go true true z = now
    go true false z = idle-told e (imap_untagged_response e s buf).1 left ∙ now
    go false y true = now
    go false y false = idle-told e (imap_untagged_response e s buf).1 left ∙ now

round-told :
    (e : Setting) (wanted : Bool) (s : Imap) (buf : Bytes) (left : ℕ)
    → (left_by (round e wanted s buf left)).actual_deletions
      ≡ s.actual_deletions + one_if (tells buf)
unfolding round tells
round-told e wanted s buf left = elim (Bool-cases (peek buf == b'*' && peek (next buf) == b' ')) [
  | inl star ↦ rw star (untagged_round-told e wanted s buf left)
  | inr other ↦ rw other (idle-told e s left ∙ omega arith)
]

unread_tells : (r : Read) → ((received r).0 == ps_success) ≡ false → tells (line_of r) ≡ false
unfolding received line_of tells
unread_tells (line s) h = absurd (cc)
unread_tells closed h = refl
unread_tells idle_timeout h = refl

-- The count grows by the lines that were read and tell of a deletion.
abbrev pub Counts : ℕ → List Read → Option (Answer × Imap × List Read) → Type 0
Counts before input none = Unit
Counts before input (some (a, now, rest)) =
    (pre : List Read) × (input ≡ pre ++ rest) × (now.actual_deletions ≡ before + told pre)

Counts-one :
    (before : ℕ) (r : Read) (rs : List Read) (a : Answer) (now : Imap)
    → now.actual_deletions ≡ before + one_if (tells (line_of r))
    → Counts before (r ∷ rs) (some (a, now, rs))
unfolding told
Counts-one before r rs a now h = (r ∷ [], refl, h ∙ omega arith)

Counts-cons :
    (before : ℕ) (r : Read) (rs : List Read) (o : Option (Answer × Imap × List Read))
    → Counts (before + one_if (tells (line_of r))) rs o
    → Counts before (r ∷ rs) o
unfolding told
Counts-cons before r rs none h = tt
Counts-cons before r rs (some (a, now, rest)) (pre, e, n) = (r ∷ pre, ap (◌∷◌ r) e, n ∙ omega arith)

told-append : (a b : List Read) → told (a ++ b) ≡ told a + told b
unfolding told
told-append [] b = omega arith
told-append (r ∷ a) b = omega (arith, told-append a b)

Counts-append :
    (before middle : ℕ) (input left : List Read) (o : Option (Answer × Imap × List Read))
    (pre : List Read)
    → input ≡ pre ++ left
    → middle ≡ before + told pre
    → Counts middle left o
    → Counts before input o
Counts-append before middle input left none pre e m h = tt
Counts-append before middle input left (some (a, now, rest)) pre e m (pre', e', n) = (
  pre ++ pre',
  e ∙ ap (λ l. pre ++ l) e' ∙ sym (append_assoc pre pre' rest),
  n ∙ omega (arith, told-append pre pre', m),
)

response-Counts :
    (e : Setting) (wanted : Bool) (s : Imap) (input : List Read)
    → Counts s.actual_deletions input (imap_response e wanted s input)
unfolding imap_response
response-Counts e wanted s [] = ([], refl, unfold told in omega arith)
response-Counts e wanted s (r ∷ rs) = elim (Bool-cases ((received r).0 == ps_success)) [
  | inr failed ↦
      rw (imap_response, failed)
        (Counts-one s.actual_deletions r rs ((received r).0, none) s
          (rw (unread_tells r failed) (omega arith)))
  | inl read ↦
      let counted = round-told e wanted s (line_of r) (length rs) in
      elim (Round-cases (round e wanted s (line_of r) (length rs))) [
        | inl (a, now, back) ↦
            rw (imap_response, read)
              (rw back (Counts-one s.actual_deletions r rs a now (rw back at counted)))
        | inr (now, on) ↦
            let so_far : now.actual_deletions ≡ s.actual_deletions + one_if (tells (line_of r)) =
              rw on at counted in
            rw (imap_response, read)
              (rw on
                (elim (Bool-cases (not (peek e.tag == 0) && not (starts_with e.tag (line_of r)))) [
                  | inl more ↦ rw more (
                      Counts-cons s.actual_deletions r rs _ (
                        subst (λ n. Counts n rs (imap_response e wanted now rs)) so_far
                          (response-Counts e wanted now rs)))
                  | inr over ↦ rw over (elim (Option-cases (finish_response e now (line_of r))) [
                    | inl behind ↦ rw behind tt
                    | inr (a, done) ↦ rw done (Counts-one s.actual_deletions r rs a now so_far)
                  ])
                ]))
      ]
]

ok_loop-Counts :
    (fuel : ℕ) (e : Setting) (wanted : Bool) (s : Imap) (input : List Read)
    → Counts s.actual_deletions input (ok_loop fuel e wanted s input)
unfolding ok_loop
ok_loop-Counts zero e wanted s input = tt
ok_loop-Counts (suc fuel) e wanted s input =
    let counted = response-Counts e wanted s input in
    elim (Option-cases (imap_response e wanted s input)) [
      | inl behind ↦ rw (ok_loop, behind) tt
      | inr ((a, now, rest), there) ↦
          let (pre, split, n) = rw there at counted in
          rw (ok_loop, there, ◌>>=◌)
            (elim (Bool-cases (a.0 == ps_untagged)) [
              | inr over ↦ rw over (pre, split, n)
              | inl more ↦ rw more (
                  Counts-append s.actual_deletions now.actual_deletions input rest _ pre split n
                    (ok_loop-Counts fuel e wanted now rest))
            ])
    ]

-- `imap_ok` counts the lines that tell of a deletion among those that it reads.
pub imap_ok-Counts :
    (e : Setting) (wanted : Bool) (s : Imap) (input : List Read)
    → Counts s.actual_deletions input (imap_ok e wanted s input)
unfolding imap_ok
imap_ok-Counts e wanted s input = ok_loop-Counts (suc (length input)) e wanted s input
