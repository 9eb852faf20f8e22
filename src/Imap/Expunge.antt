-- ===== src/Imap/Expunge.antt =====
-- imap.c: an EXPUNGE, and the check that as many messages were deleted as were marked.
use fetchmail.Prelude.{
  ◌∙◌, ◌++◌, ℕ, ◌+◌, ◌≡◌, refl, sym, ◌≢◌, inl, inr, Bool, true, false, not, ◌&&◌, Option, none,
  some, List, arith, ltb, ◌==◌, if◌then◌else◌, lt→ltb, ==_iff, Bool-cases, Option-cases, ◌>>=◌,
}
use fetchmail.Transact.{ps_success, ps_socket, ps_error, Read}
use fetchmail.Imap.{Imap, Setting, imap_ok}
use mathlib.Core.Path.{subst}
use fetchmail.Imap.Told.{told, imap_ok-Counts}
use fetchmail.Imap.Counts.{IsCounted}
use fetchmail.Imap.Tagged.{IsTag, Answers, imap_ok-Answers}

-- The variables of the deletions, with those that answers change.
pub record Mailbox : Type 0 where
  pub imap : Imap
  pub deletions : ℕ
  pub expunged : ℕ

-- `internal_expunge`, behind `gen_transact` and its code `ok`.
unfoldable pub after_expunge : ℕ → Mailbox → ℕ × Mailbox
after_expunge ok m =
    if not (ok == ps_success)
    then (ok, m)
    else if ltb 0 m.deletions && not (m.deletions == m.imap.actual_deletions)
    then (ps_error, record m { deletions = 0 })
    else (ps_success, record m { expunged = m.expunged + m.deletions; deletions = 0 })

-- `internal_expunge`; `sent` tells whether the command could be written.
unfoldable pub internal_expunge :
    Setting → Bool → Mailbox → List Read → Option (ℕ × Mailbox × List Read)
unfolding imap_ok after_expunge
internal_expunge e sent m input =
    let s = record m.imap { actual_deletions = 0 } in
    if sent
    then (do
      (a, now, rest) ← imap_ok e true s input
      let (ok, left) = after_expunge a.0 (record m { imap = now })
      some (ok, left, rest))
    else some (ps_socket, record m { imap = s }, input)

-- Among what was read, so many lines tell of a deletion.
abbrev pub Tells : List Read → List Read → ℕ → Type 0
Tells input rest n = (pre : List Read) × (input ≡ pre ++ rest) × (told pre ≡ n)

-- What is left of a mailbox `m` by a code.
pub record Expunges (m : Mailbox) (input : List Read) (ok : ℕ) (n : Mailbox) (rest : List Read)
    : Type 0 where
  pub all_counted : ok ≡ ps_success → (n.expunged ≡ m.expunged + m.deletions) × (n.deletions ≡ 0)
  pub as_expected :
      ok ≡ ps_success
      → m.deletions ≢ 0
      → (n.imap.actual_deletions ≡ m.deletions) × Tells input rest m.deletions
  pub otherwise : ok ≢ ps_success → n.expunged ≡ m.expunged
  pub counts : IsCounted n.imap

no_mismatch : (d a : ℕ) → (ltb 0 d && not (d == a)) ≡ false → d ≢ 0 → a ≡ d
no_mismatch d a h ne = elim (Bool-cases (d == a)) [
  | inl same ↦ sym ((==_iff d a).0 same)
  | inr other ↦ absurd (
      let positive = lt→ltb 0 d (omega arith) in
      let t = rw positive at h in let u = rw other at t in cc)
]

after_expunge-Expunges :
    (ok : ℕ) (m : Mailbox) (now : Imap) (input rest : List Read)
    → IsCounted now
    → Tells input rest now.actual_deletions
    → Expunges m input
        (after_expunge ok (record m { imap = now })).0
        (after_expunge ok (record m { imap = now })).1
        rest
unfolding after_expunge
after_expunge-Expunges ok m now input rest v tells_so = elim (Bool-cases (ok == ps_success)) [
  | inr failed ↦ rw failed (record {
    all_counted = λ h. absurd (ground arith);
    as_expected = λ h. absurd (ground arith);
    otherwise = λ h. refl;
    counts = v;
  })
  | inl fine ↦
      rw fine (elim (Bool-cases (ltb 0 m.deletions && not (m.deletions == now.actual_deletions))) [
        | inl mismatch ↦ rw mismatch (record {
          all_counted = λ h. absurd (omega arith);
          as_expected = λ h. absurd (omega arith);
          otherwise = λ h. refl;
          counts = v;
        })
        | inr same ↦ rw same (record {
          all_counted = λ h. (refl, refl);
          as_expected = λ h ne.
              let equal = no_mismatch m.deletions now.actual_deletions same ne in
              (equal, subst (Tells input rest) equal tells_so);
          otherwise = λ h. absurd (h refl);
          counts = v;
        })
      ])
]

-- How `internal_expunge` ends: it may leave a line as `imap_ok` may.
abbrev pub Ends : Setting → Mailbox → List Read → Option (ℕ × Mailbox × List Read) → Type 0
Ends e m input none = Answers e input none
Ends e m input (some (ok, n, rest)) = Expunges m input ok n rest

-- `internal_expunge` comes to an end on whatever the server sends, for a tag that is not empty and does
-- not begin with a star, unless the first line with the tag has no white space. If it returns
-- success, all the deletions that were open are counted as expunged, none is open, and if there were
-- any, exactly as many of the lines that it read tell of a deletion: they begin with `* ` and a number
-- that is not 0, and hold ` EXPUNGE` and not ` EXISTS`, in capital letters or not. Otherwise the count
-- of the expunged ones stays as it was. The invariant of the counts of messages is kept.
pub internal_expunge-Ends :
    (e : Setting) (sent : Bool) (m : Mailbox) (input : List Read)
    → IsTag e.tag
    → IsCounted m.imap
    → Ends e m input (internal_expunge e sent m input)
unfolding internal_expunge
internal_expunge-Ends e false m input v c = record {
  all_counted = λ h. absurd (omega arith);
  as_expected = λ h. absurd (omega arith);
  otherwise = λ h. refl;
  counts = record { bound = c.bound; recent = c.recent; fits = c.fits };
}
internal_expunge-Ends e true m input v c =
    let s : Imap = record m.imap { actual_deletions = 0 } in
    let answers =
      imap_ok-Answers e true s input v
        (record { bound = c.bound; recent = c.recent; fits = c.fits }) in
    let counts = imap_ok-Counts e true s input in
    elim (Option-cases (imap_ok e true s input)) [
      | inl behind ↦ rw (internal_expunge, behind) (rw behind at answers)
      | inr ((a, now, rest), there) ↦
          let (pre, split, n) = rw there at counts in
          rw (internal_expunge, there)
            (after_expunge-Expunges a.0 m now input rest (rw there at answers).0
              (pre, split, sym (n ∙ omega arith)))
    ]
