-- ===== src/Rfc822Valid/Decides.antt =====
-- `rfc822_valid_msgid` accepts exactly the message identifiers of the grammar.
use fetchmail.Prelude.{
  ℕ, zero, suc, ◌<◌, ◌≡◌, refl, sym, ap, ◌∙◌, ◌↔◌, ◌⊎◌, inl, inr, true, false, Option, none, some,
  [], ◌∷◌, ◌++◌, append_assoc, arith, ◌==◌, if◌then◌else◌, ==_iff, Bool-cases, Option-cases, ◌>>=◌,
  length, length-append, Bytes, peek, next, All, ==_ne, contains,
}
use fetchmail.Rfc822Valid.{
  is_some, atomchar, bad_quoted, bad_literal, quotedstring, domain_literal, skip_atomchar, atom,
  word, subdomain, dotted, rfc822_valid_msgid,
}
use fetchmail.Rfc822Valid.Grammar.{
  Qtext, Dtext, IsAtom, IsWord, IsSubdomain, quoted, literal, Dotted, one, more, MsgId, quoted_iff,
  literal_iff, delimited_sound, delimited_complete,
}

-- `strspn` splits off the atom.
skip_atomchar_sound :
    (s : Bytes) → (w : Bytes) × (s ≡ w ++ skip_atomchar s) × All (λ c. contains atomchar c ≡ true) w
unfolding skip_atomchar
skip_atomchar_sound [] = ([], refl, tt)
skip_atomchar_sound (c ∷ s) = elim (Bool-cases (contains atomchar c)) [
  | inl e ↦ let (w, p, a) = skip_atomchar_sound s in (c ∷ w, rw e (ap (◌∷◌ c) p), (e, a))
  | inr e ↦ ([], rw e, tt)
]

skip_atomchar-append :
    (w r : Bytes)
    → All (λ c. contains atomchar c ≡ true) w
    → contains atomchar (peek r) ≡ false
    → skip_atomchar (w ++ r) ≡ r
unfolding skip_atomchar
skip_atomchar-append [] [] a h = refl
skip_atomchar-append [] (x ∷ r) a h = rw h
skip_atomchar-append (c ∷ w) r (p, a) h = rw p (skip_atomchar-append w r a h)

-- An item is read off the front, or the end of the string is reached.
abbrev Reads : (Bytes → Type 0) → Bytes → Bytes → Type 0
Reads Item s r = ((w : Bytes) × (s ≡ w ++ r) × Item w) ⊎ (peek r ≡ 0)

atom_at : (c : ℕ) (s : Bytes) → contains atomchar c ≡ true → atom (c ∷ s) ≡ some (skip_atomchar s)
unfolding atom skip_atomchar
atom_at c s h = ground (arith, h)

atom_not_at :
    (c : ℕ) (s r : Bytes) → contains atomchar c ≡ false → atom (c ∷ s) ≡ some r → peek r ≡ 0
unfolding atom skip_atomchar
atom_not_at c s r h k = ground (arith, h)

atom_sound : (s r : Bytes) → atom s ≡ some r → Reads IsAtom s r
atom_sound [] r h = inr (unfold atom skip_atomchar in ground arith)
atom_sound (c ∷ s) r h = elim (Bool-cases (contains atomchar c)) [
  | inl e ↦
      let (w, p, a) = skip_atomchar_sound s in
      let q : some (skip_atomchar s) ≡ some r = sym (atom_at c s e) ∙ h in
      inl (c ∷ w, ground arith, (cc, (e, a)))
  | inr e ↦ inr (atom_not_at c s r e h)
]

atom_complete :
    (w r : Bytes) → IsAtom w → contains atomchar (peek r) ≡ false → atom (w ++ r) ≡ some r
atom_complete [] r (ne, _) h = absurd (ne refl)
atom_complete (c ∷ w) r (_, (p, a)) h =
    atom_at c (w ++ r) p ∙ ap some (skip_atomchar-append w r a h)

-- `word` and `subdomain` both look at the first byte for an opening `q`.
module _ (q : ℕ) (bracket : Bytes → Option Bytes) (Item : Bytes → Type 0) (q_ne : (0 == q) ≡ false)
    (of_atom : (w : Bytes) → IsAtom w → Item w)
    (of_bracket : (s r : Bytes)
      → bracket (q ∷ s) ≡ some r
      → (w : Bytes) × (q ∷ s ≡ w ++ r) × Item w) where
  of_atom_Reads : (s r : Bytes) → Reads IsAtom s r → Reads Item s r
  of_atom_Reads s r (inl (w, p, a)) = inl (w, p, of_atom w a)
  of_atom_Reads s r (inr e) = inr e

  of_bracket_Reads : (c : ℕ) (s r : Bytes) → c ≡ q → bracket (c ∷ s) ≡ some r → Reads Item (c ∷ s) r
  of_bracket_Reads c s r e h = rw e (inl (of_bracket s r (rw e at h)))

  item_sound : (s r : Bytes) → (if peek s == q then bracket s else atom s) ≡ some r → Reads Item s r
  item_sound [] r h = of_atom_Reads [] r (atom_sound [] r (rw q_ne at h))
  item_sound (c ∷ s) r h = elim (Bool-cases (c == q)) [
    | inl e ↦ of_bracket_Reads c s r ((==_iff c q).0 e) (rw e at h)
    | inr e ↦ of_atom_Reads (c ∷ s) r (atom_sound (c ∷ s) r (rw e at h))
  ]

quotedstring_sound :
    (s r : Bytes) → quotedstring (b'"' ∷ s) ≡ some r → (w : Bytes) × (b'"' ∷ s ≡ w ++ r) × IsWord w
unfolding quotedstring
quotedstring_sound s r h =
    let q = delimited_sound b'"' bad_quoted Qtext quoted_iff refl s r h in
    (b'"' ∷ q.body, ap (◌∷◌ b'"') q.spells, quoted q.is_body)

domain_literal_sound :
    (s r : Bytes)
    → domain_literal (b'[' ∷ s) ≡ some r
    → (w : Bytes) × (b'[' ∷ s ≡ w ++ r) × IsSubdomain w
unfolding domain_literal
domain_literal_sound s r h =
    let q = delimited_sound b']' bad_literal Dtext literal_iff refl s r h in
    (b'[' ∷ q.body, ap (◌∷◌ b'[') q.spells, literal q.is_body)

word_sound : (s r : Bytes) → word s ≡ some r → Reads IsWord s r
unfolding word
word_sound = item_sound b'"' quotedstring IsWord refl (λ w a. IsWord.plain a) quotedstring_sound

subdomain_sound : (s r : Bytes) → subdomain s ≡ some r → Reads IsSubdomain s r
unfolding subdomain
subdomain_sound =
    item_sound b'[' domain_literal IsSubdomain refl (λ w a. IsSubdomain.plain a)
      domain_literal_sound

-- An atom does not begin with a byte outside `atomchar`.
atom_head :
    (q : ℕ) (w r : Bytes) → contains atomchar q ≡ false → IsAtom w → (peek (w ++ r) == q) ≡ false
atom_head q [] r h (ne, _) = absurd (ne refl)
atom_head q (c ∷ w) r h (_, (p, _)) = ==_ne c q (λ e. false_true (sym (rw e at p) ∙ h))
  where
    false_true : true ≡ false → ⊥
    false_true e = cc

word_complete :
    (w r : Bytes) → IsWord w → contains atomchar (peek r) ≡ false → word (w ++ r) ≡ some r
unfolding word
word_complete w r (IsWord.plain a) h =
    rw (atom_head b'"' w r (unfold contains in refl) a) (atom_complete w r a h)
word_complete _ r (quoted b) h =
    unfold quotedstring in delimited_complete b'"' bad_quoted Qtext quoted_iff refl r b

subdomain_complete :
    (w r : Bytes) → IsSubdomain w → contains atomchar (peek r) ≡ false → subdomain (w ++ r) ≡ some r
unfolding subdomain
subdomain_complete w r (IsSubdomain.plain a) h =
    rw (atom_head b'[' w r (unfold contains in refl) a) (atom_complete w r a h)
subdomain_complete _ r (literal b) h =
    unfold domain_literal in delimited_complete b']' bad_literal Dtext literal_iff refl r b

-- A byte other than NUL at the pointer.
peek-next : (s : Bytes) (c : ℕ) → peek s ≡ c → (0 == c) ≡ false → s ≡ c ∷ next s
peek-next [] c e h = ground arith
peek-next (x ∷ s) c e h = ap (λ y. y ∷ s) e

peek_ne_zero : (s : Bytes) (c : ℕ) → peek s ≡ c → (0 == c) ≡ false → ¬ (peek s ≡ 0)
peek_ne_zero s c e h z = ground arith

-- The loops over items.
module _ (item : Bytes → Option Bytes) (end : ℕ) (Item : Bytes → Type 0)
    (end_ne : (0 == end) ≡ false) (dot_ne_end : (b'.' == end) ≡ false)
    (end_special : contains atomchar end ≡ false)
    (item_sound : (s r : Bytes) → item s ≡ some r → Reads Item s r)
    (item_complete : (w r : Bytes)
      → Item w
      → contains atomchar (peek r) ≡ false
      → item (w ++ r) ≡ some r) where
  dotted_step :
      (fuel : ℕ) (s q : Bytes)
      → item s ≡ some q
      → dotted item end (suc fuel) s ≡ (
          if peek q == b'.'
          then dotted item end fuel (next q)
          else if peek q == end
          then some q
          else none)
  unfolding dotted
  dotted_step fuel s q e = rw (e, dotted)

  dotted-none : (fuel : ℕ) (s : Bytes) → item s ≡ none → dotted item end (suc fuel) s ≡ none
  unfolding dotted
  dotted-none fuel s e = rw (e, dotted)

  -- What one of the loops has read.
  abbrev Loop : Bytes → Bytes → Type 0
  Loop s r = (w : Bytes) × (s ≡ w ++ r) × (peek r ≡ end) × Dotted Item w

  Loop-last :
      (s q r : Bytes)
      → Reads Item s q
      → (if peek q == end then some q else none) ≡ some r
      → Loop s r
  Loop-last s q r (inl (w, p, i)) h = elim (Bool-cases (peek q == end)) [
    | inl e ↦
        let same : some q ≡ some r = rw e at h in
        let at_end = (==_iff (peek q) end).0 e in (w, cc, cc, one i)
    | inr e ↦ cc (rw e at h)
  ]
  Loop-last s q r (inr z) h = cc (rw (z, end_ne) at h)

  Loop-more : (s q r : Bytes) → Reads Item s q → peek q ≡ b'.' → Loop (next q) r → Loop s r
  Loop-more s q r (inl (w, p, i)) e (v, p', at_end, d) = (w ++ b'.' ∷ v, joined, at_end, more i d)
    where
      joined : s ≡ (w ++ b'.' ∷ v) ++ r
      joined = rw append_assoc (p ∙ ap (◌++◌ w) (peek-next q b'.' e refl ∙ ap (◌∷◌ b'.') p'))
  Loop-more s q r (inr z) e l = absurd (peek_ne_zero q b'.' e refl z)

  dotted_sound : (fuel : ℕ) (s r : Bytes) → dotted item end fuel s ≡ some r → Loop s r
  dotted_sound zero s r h = unfold dotted in cc h
  dotted_sound (suc fuel) s r h = elim (Option-cases (item s)) [
    | inl e ↦ cc (dotted-none fuel s e)
    | inr (q, e) ↦
        let h' = sym (dotted_step fuel s q e) ∙ h in
        elim (Bool-cases (peek q == b'.')) [
          | inl dot ↦
              Loop-more s q r (item_sound s q e) ((==_iff (peek q) b'.').0 dot)
                (dotted_sound fuel (next q) r (rw dot at h'))
          | inr other ↦ Loop-last s q r (item_sound s q e) (rw other at h')
        ]
  ]

  dotted_complete :
      (fuel : ℕ) {w : Bytes} (r : Bytes)
      → Dotted Item w
      → length w < fuel
      → peek r ≡ end
      → dotted item end fuel (w ++ r) ≡ some r
  dotted_complete zero r d lt e = absurd (omega arith)
  dotted_complete (suc fuel) r (one {w} i) lt e =
      dotted_step fuel (w ++ r) r (item_complete w r i (rw e end_special))
      ∙ rw (
        e,
        ==_ne end b'.' (λ x. cc (sym dot_ne_end ∙ (==_iff b'.' end).1 (sym x))),
        (==_iff end end).1 refl,
      )
  dotted_complete (suc fuel) r (more {w} {r = v} i d) lt e =
      rw append_assoc (
        dotted_step fuel (w ++ b'.' ∷ (v ++ r)) (b'.' ∷ (v ++ r))
          (item_complete w (b'.' ∷ (v ++ r)) i (unfold contains in refl)))
      ∙ dotted_complete fuel r d (omega (arith, length-append w (b'.' ∷ v))) e

local_part_sound :
    (fuel : ℕ) (s r : Bytes)
    → dotted word b'@' fuel s ≡ some r
    → (w : Bytes) × (s ≡ w ++ r) × (peek r ≡ b'@') × Dotted IsWord w
local_part_sound =
    dotted_sound word b'@' IsWord refl refl (unfold contains in refl) word_sound word_complete

domain_sound :
    (fuel : ℕ) (s r : Bytes)
    → dotted subdomain b'>' fuel s ≡ some r
    → (w : Bytes) × (s ≡ w ++ r) × (peek r ≡ b'>') × Dotted IsSubdomain w
domain_sound =
    dotted_sound subdomain b'>' IsSubdomain refl refl (unfold contains in refl) subdomain_sound
      subdomain_complete

is_some_bind :
    (m : Option Bytes) (f : Bytes → Option Bytes)
    → is_some (m >>= f) ≡ true
    → (r : Bytes) × (m ≡ some r) × (q : Bytes) × (f r ≡ some q)
is_some_bind none f h = cc
is_some_bind (some r) f h = elim (Option-cases (f r)) [
  | inl e ↦ cc (rw e at h)
  | inr (q, e) ↦ (r, refl, q, e)
]

rfc822_valid_msgid_sound : (s : Bytes) → rfc822_valid_msgid s ≡ true → MsgId s
unfolding rfc822_valid_msgid
rfc822_valid_msgid_sound s h = elim (Bool-cases (peek s == b'<')) [
  | inr e ↦ cc (rw e at h)
  | inl e ↦
      let (r, hr, q, hq) = is_some_bind _ _ (rw e at h) in
      let (w, p, at_sign, dw) = local_part_sound _ _ _ hr in
      let (v, p', at_gt, dv) = domain_sound _ _ _ hq in
      record {
        local_part = w;
        domain = v;
        rest = next q;
        spells =
            peek-next s b'<' ((==_iff _ _).0 e) refl
            ∙ ap (◌∷◌ b'<') (
                p
                ∙ ap (◌++◌ w) (
                    peek-next r b'@' at_sign refl
                    ∙ ap (◌∷◌ b'@') (p' ∙ ap (◌++◌ v) (peek-next q b'>' at_gt refl))));
        local_words = dw;
        domain_parts = dv;
      }
]

rfc822_valid_msgid_complete :
    (w v rest : Bytes)
    → Dotted IsWord w
    → Dotted IsSubdomain v
    → rfc822_valid_msgid (b'<' ∷ (w ++ b'@' ∷ (v ++ b'>' ∷ rest))) ≡ true
unfolding rfc822_valid_msgid
rfc822_valid_msgid_complete w v rest dw dv = rw (
  dotted_complete word b'@' IsWord refl refl (unfold contains in refl) word_sound word_complete
      (suc (length (w ++ b'@' ∷ (v ++ b'>' ∷ rest)))) (b'@' ∷ (v ++ b'>' ∷ rest)) dw
      (omega (arith, length-append w (b'@' ∷ (v ++ b'>' ∷ rest)))) refl,
  dotted_complete subdomain b'>' IsSubdomain refl refl (unfold contains in refl) subdomain_sound
      subdomain_complete (suc (length (v ++ b'>' ∷ rest))) (b'>' ∷ rest) dv
      (omega (arith, length-append v (b'>' ∷ rest))) refl,
)

-- `rfc822_valid_msgid` returns 1 exactly for the strings that begin with a message identifier of
-- the grammar in the file's comments: "<", words with "." between them, "@", sub-domains with "."
-- between them, and ">". It looks at nothing behind the ">".
pub rfc822_valid_msgid_iff : (s : Bytes) → (rfc822_valid_msgid s ≡ true) ↔ MsgId s
rfc822_valid_msgid_iff s = (
  rfc822_valid_msgid_sound s,
  λ m.
      rw (m.spells)
        (rfc822_valid_msgid_complete m.local_part m.domain m.rest m.local_words m.domain_parts),
)
