-- ===== src/Imap/Counts.antt =====
-- The counts of messages, whatever the server answers.
use fetchmail.Prelude.{
  ℕ, ◌-◌, ◌≤◌, ◌≡◌, refl, ◌⊎◌, inl, inr, Bool, true, false, not, ◌&&◌, Option, none, some, List, [],
  ◌∷◌, arith, ltb, ◌==◌, if◌then◌else◌, Bool-cases, Option-cases, length, drop, length-take, Bytes,
  codes, peek, next, starts_with,
}
use fetchmail.Transact.{ps_success, stage_idle, Read, received}
use fetchmail.Imap.{
  stage_getrange, strstr, stage_logout, stage_getauth, ps_lockbusy, Imap, Setting, max_count,
  msgbufsize, exists, expunge, number_in, on_exists, on_expunge, imap_untagged_response, Round,
  returns, goes_on, idle_round, untagged_round, round, Answer, line_of, finish_response,
  imap_response, ps_untagged,
}

-- The count is small enough for an array of ints, the number of recent messages is what came since the
-- last poll, and the capabilities fit their buffer.
pub record IsCounted (s : Imap) : Type 0 where
  pub bound : s.count ≤ max_count
  pub recent : s.recentcount ≡ s.count - s.oldcount
  pub fits : length s.capabilities ≤ msgbufsize

exists-IsCounted :
    (e : Setting) (s : Imap) (u : ℕ) → IsCounted s → u ≤ max_count → IsCounted (exists e s u)
unfolding exists
exists-IsCounted e s u v le = elim (Bool-cases (s.stage == stage_idle)) [
  | inl idle ↦ rw idle (record { bound = le; recent = refl; fits = v.fits })
  | inr other ↦ rw other (record { bound = le; recent = refl; fits = v.fits })
]

expunge-IsCounted : (s : Imap) → IsCounted s → IsCounted (expunge s)
unfolding expunge
expunge-IsCounted s v = record { bound = omega (arith, v); recent = refl; fits = v.fits }

on_exists-IsCounted :
    (e : Setting) (s : Imap) (buf : Bytes) → IsCounted s → IsCounted (on_exists e s buf).1
unfolding on_exists
on_exists-IsCounted e s buf v = elim (Option-cases (number_in buf)) [
  | inl bogus ↦ rw (on_exists, bogus) v
  | inr (u, there) ↦ elim (Bool-cases (ltb max_count u)) [
    | inl large ↦ rw (on_exists, there) (rw large v)
    | inr small ↦ rw (on_exists, there) (rw small (exists-IsCounted e s u v (ground arith)))
  ]
]

on_expunge-IsCounted : (s : Imap) (buf : Bytes) → IsCounted s → IsCounted (on_expunge s buf).1
unfolding on_expunge
on_expunge-IsCounted s buf v = elim (Option-cases (number_in buf)) [
  | inl bogus ↦ rw (on_expunge, bogus) v
  | inr (u, there) ↦ elim (Bool-cases (ltb 0 u)) [
    | inl one ↦ rw (on_expunge, there) (rw one (expunge-IsCounted s v))
    | inr zero_there ↦ rw (on_expunge, there) (rw zero_there v)
  ]
]

untagged-IsCounted :
    (e : Setting) (s : Imap) (buf : Bytes)
    → IsCounted s
    → IsCounted (imap_untagged_response e s buf).1
unfolding imap_untagged_response
untagged-IsCounted e s buf v =
    elim (Bool-cases (s.stage == stage_getauth && starts_with (codes "* CAPABILITY") buf)) [
      | inl a ↦ rw a (record {
        bound = v.bound;
        recent = v.recent;
        fits = omega (arith, length-take msgbufsize (drop 12 buf));
      })
      | inr a ↦
          elim (Bool-cases (s.stage == stage_getauth && starts_with (codes "* PREAUTH") buf)) [
            | inl b ↦ rw (a, b) (record { bound = v.bound; recent = v.recent; fits = v.fits })
            | inr b ↦
                elim (Bool-cases
                  (not (s.stage == stage_logout) && starts_with (codes "* BYE") buf)) [
                    | inl c ↦ rw (a, b, c) v
                    | inr c ↦
                        rw (a, b, c)
                          (counting (strstr buf (codes " EXISTS")) (strstr buf (codes " EXPUNGE")) (
                            s.stage == stage_getrange
                            && not e.check_only
                            && strstr buf (codes "[READ-ONLY]")))
                  ]
          ]
    ]
  where
    counting :
        (x y z : Bool)
        → IsCounted
            (if x
              then on_exists e s buf
              else if y
              then on_expunge s buf
              else if z
              then (ps_lockbusy, s)
              else (ps_untagged, s)).1
    counting true y z = on_exists-IsCounted e s buf v
    counting false true z = on_expunge-IsCounted s buf v
    counting false false true = v
    counting false false false = v

-- The variables that a round leaves, however it goes on.
abbrev pub left_by : Round → Imap
left_by (returns a s) = s
left_by (goes_on s) = s

idle-IsCounted :
    (e : Setting) (s : Imap) (left : ℕ) → IsCounted s → IsCounted (left_by (idle_round e s left))
unfolding idle_round
idle-IsCounted e s left v =
    let later : IsCounted (record s { mytimeout = e.idle_timeout - e.elapsed left }) = record {
      bound = v.bound;
      recent = v.recent;
      fits = v.fits;
    } in
    elim (Bool-cases (s.stage == stage_idle)) [
      | inr other ↦ rw other v
      | inl idle ↦ elim (Bool-cases (e.idle_timeout - e.elapsed left == 0)) [
        | inl over ↦ rw (idle, over) later
        | inr lasts ↦ rw (idle, lasts) later
      ]
    ]

untagged_round-IsCounted :
    (e : Setting) (wanted : Bool) (s : Imap) (buf : Bytes) (left : ℕ)
    → IsCounted s
    → IsCounted (left_by (untagged_round e wanted s buf left))
unfolding untagged_round
untagged_round-IsCounted e wanted s buf left v =
    go ((imap_untagged_response e s buf).0 == ps_untagged)
      (wanted
        && not ((imap_untagged_response e s buf).1.stage == stage_idle)
        && not (peek e.tag == 0))
      (not ((imap_untagged_response e s buf).0 == ps_success))
  where
    now : IsCounted (imap_untagged_response e s buf).1
    now = untagged-IsCounted e s buf v

    go :
        (x y z : Bool)
        → let r = imap_untagged_response e s buf in
          IsCounted (
            left_by (
              if x
              then (if y then returns (r.0, some buf) r.1 else idle_round e r.1 left)
              else if z
              then returns (r.0, none) r.1
              else idle_round e r.1 left))
    go true true z = now
    go true false z = idle-IsCounted e (imap_untagged_response e s buf).1 left now
    go false y true = now
    go false y false = idle-IsCounted e (imap_untagged_response e s buf).1 left now

round-IsCounted :
    (e : Setting) (wanted : Bool) (s : Imap) (buf : Bytes) (left : ℕ)
    → IsCounted s
    → IsCounted (left_by (round e wanted s buf left))
unfolding round
round-IsCounted e wanted s buf left v =
    elim (Bool-cases (peek buf == b'*' && peek (next buf) == b' ')) [
      | inl star ↦ rw star (untagged_round-IsCounted e wanted s buf left v)
      | inr other ↦ rw other (idle-IsCounted e s left v)
    ]

pub Round-cases :
    (r : Round) → ((a : Answer) × (s : Imap) × (r ≡ returns a s)) ⊎ ((s : Imap) × (r ≡ goes_on s))
Round-cases (returns a s) = inl (a, s, refl)
Round-cases (goes_on s) = inr (s, refl)

-- What a call leaves, if it did not read behind a line.
abbrev pub Leaves : Option (Answer × Imap × List Read) → Type 0
Leaves none = Unit
Leaves (some (a, s, rest)) = IsCounted s

pub response-IsCounted :
    (e : Setting) (wanted : Bool) (s : Imap) (input : List Read)
    → IsCounted s
    → Leaves (imap_response e wanted s input)
unfolding imap_response
response-IsCounted e wanted s [] v = v
response-IsCounted e wanted s (r ∷ rs) v = elim (Bool-cases ((received r).0 == ps_success)) [
  | inr failed ↦ rw (imap_response, failed) v
  | inl read ↦
      let kept = round-IsCounted e wanted s (line_of r) (length rs) v in
      elim (Round-cases (round e wanted s (line_of r) (length rs))) [
        | inl (a, now, back) ↦ rw (imap_response, read) (rw back (rw back at kept))
        | inr (now, on) ↦
            rw (imap_response, read)
              (rw on
                (elim (Bool-cases (not (peek e.tag == 0) && not (starts_with e.tag (line_of r)))) [
                  | inl more ↦ rw more (response-IsCounted e wanted now rs (rw on at kept))
                  | inr over ↦ rw over (elim (Option-cases (finish_response e now (line_of r))) [
                    | inl behind ↦ rw behind tt
                    | inr (a, done) ↦ rw done (rw on at kept)
                  ])
                ]))
      ]
]
