-- ===== src/Rfc822Valid/Grammar.antt =====
-- The grammar in the comments of rfc822valid.c, and the recogniser decides it.
use fetchmail.Prelude.{
  ℕ, ◌<◌, ◌≡◌, refl, sym, ap, ◌∙◌, ◌≢◌, ◌↔◌, inl, inr, Bool, true, false, Option, none, some, [],
  ◌∷◌, ◌++◌, arith, ◌==◌, if◌then◌else◌, ==_iff, Bool-cases, Bytes, All, ==_ne, contains,
}
use fetchmail.Rfc822Valid.{atomchar, quotedpair, delimited, bad_quoted, bad_literal}

-- qtext: CHAR except ", \ and CR. dtext: CHAR except [, ], \ and CR.
abbrev pub Qtext : ℕ → Type 0
Qtext c = (0 < c) × (c < 128) × (c ≢ b'"') × (c ≢ b'\\') × (c ≢ b'\r')

abbrev pub Dtext : ℕ → Type 0
Dtext c = (0 < c) × (c < 128) × (c ≢ b'[') × (c ≢ b']') × (c ≢ b'\\') × (c ≢ b'\r')

-- *(text / quoted-pair) and the closing byte.
pub data Body (close : ℕ) (Text : ℕ → Type 0) : Bytes → Type 0 where
  end : Body close Text (close ∷ [])
  pair : {d : ℕ} {s : Bytes} → 0 < d → d < 128 → Body close Text s → Body close Text (b'\\' ∷ d ∷ s)
  char : {c : ℕ} {s : Bytes} → Text c → Body close Text s → Body close Text (c ∷ s)

-- atom = 1*ATOMCHAR
abbrev pub IsAtom : Bytes → Type 0
IsAtom w = (w ≢ []) × All (λ c. contains atomchar c ≡ true) w

-- word = atom / quoted-string; sub-domain = atom / domain-literal
pub data IsWord : Bytes → Type 0 where
  plain : {w : Bytes} → IsAtom w → IsWord w
  quoted : {b : Bytes} → Body b'"' Qtext b → IsWord (b'"' ∷ b)

pub data IsSubdomain : Bytes → Type 0 where
  plain : {w : Bytes} → IsAtom w → IsSubdomain w
  literal : {b : Bytes} → Body b']' Dtext b → IsSubdomain (b'[' ∷ b)

-- item *("." item)
pub data Dotted (Item : Bytes → Type 0) : Bytes → Type 0 where
  one : {w : Bytes} → Item w → Dotted Item w
  more : {w r : Bytes} → Item w → Dotted Item r → Dotted Item (w ++ b'.' ∷ r)

-- "<" local-part "@" domain ">", and whatever follows.
pub record MsgId (s : Bytes) : Type 0 where
  pub local_part : Bytes
  pub domain : Bytes
  pub rest : Bytes
  pub spells : s ≡ b'<' ∷ (local_part ++ b'@' ∷ (domain ++ b'>' ∷ rest))
  pub local_words : Dotted IsWord local_part
  pub domain_parts : Dotted IsSubdomain domain

-- A body split off the front of a string.
pub record Read (close : ℕ) (Text : ℕ → Type 0) (s r : Bytes) : Type 0 where
  pub body : Bytes
  pub spells : s ≡ body ++ r
  pub is_body : Body close Text body

module _ (close : ℕ) (bad : ℕ → Bool) where
  delimited_close : (s : Bytes) → delimited close bad (close ∷ s) ≡ some s
  unfolding delimited
  delimited_close [] = rw ((==_iff close close).1 refl)
  delimited_close (d ∷ s) = rw ((==_iff close close).1 refl)

  delimited_pair :
      (d : ℕ) (s : Bytes)
      → (b'\\' == close) ≡ false
      → delimited close bad (b'\\' ∷ d ∷ s) ≡ (if quotedpair d then delimited close bad s else none)
  unfolding delimited
  delimited_pair d s h = rw h

  same_none : (b : Bool) → ◌≡◌ {A = Option Bytes} none (if b then none else none)
  same_none true = refl
  same_none false = refl

  delimited_char :
      (c : ℕ) (s : Bytes)
      → (c == close) ≡ false
      → (c == b'\\') ≡ false
      → delimited close bad (c ∷ s) ≡ (if bad c then none else delimited close bad s)
  unfolding delimited
  delimited_char c [] h k = rw h (same_none (bad c))
  delimited_char c (d ∷ s) h k = rw (h, k)

if_some :
    (b : Bool) (o : Option Bytes) (r : Bytes)
    → (if b then o else none) ≡ some r
    → (b ≡ true) × (o ≡ some r)
if_some true o r h = (refl, h)
if_some false o r h = cc

if_not_some :
    (b : Bool) (o : Option Bytes) (r : Bytes)
    → (if b then none else o) ≡ some r
    → (b ≡ false) × (o ≡ some r)
if_not_some false o r h = (refl, h)
if_not_some true o r h = cc

quotedpair_iff : (d : ℕ) → (quotedpair d ≡ true) ↔ ((0 < d) × (d < 128))
unfolding quotedpair
quotedpair_iff d = (λ h. ground arith, λ h. ground arith)

module _ (close : ℕ) (bad : ℕ → Bool) (Text : ℕ → Type 0)
    (text_iff : (c : ℕ) → ((c ≢ close) × (c ≢ b'\\') × (bad c ≡ false)) ↔ Text c)
    (close_ne : (b'\\' == close) ≡ false) where
  Read-close :
      (s r : Bytes) (c : ℕ)
      → c ≡ close
      → delimited close bad (c ∷ s) ≡ some r
      → Read close Text (c ∷ s) r
  Read-close s r c e h =
      let k : some s ≡ some r = sym (delimited_close close bad s) ∙ rw e at h in
      record { body = close ∷ []; spells = cc; is_body = end }

  Read-char : (c : ℕ) (s r : Bytes) → Text c → Read close Text s r → Read close Text (c ∷ s) r
  Read-char c s r t q = record {
    body = c ∷ q.body;
    spells = ap (◌∷◌ c) q.spells;
    is_body = char t q.is_body;
  }

  Read-pair :
      (d : ℕ) (s r : Bytes)
      → quotedpair d ≡ true
      → Read close Text s r
      → Read close Text (b'\\' ∷ d ∷ s) r
  Read-pair d s r t q = record {
    body = b'\\' ∷ d ∷ q.body;
    spells = ap (λ z. b'\\' ∷ d ∷ z) q.spells;
    is_body = pair ((quotedpair_iff d).0 t).0 ((quotedpair_iff d).0 t).1 q.is_body;
  }

  Read-escape :
      (c d : ℕ) (s r : Bytes)
      → c ≡ b'\\'
      → delimited close bad (c ∷ d ∷ s) ≡ some r
      → (delimited close bad s ≡ some r → Read close Text s r)
      → Read close Text (c ∷ d ∷ s) r
  Read-escape c d s r e h rec =
      let at_backslash : delimited close bad (b'\\' ∷ d ∷ s) ≡ some r = rw e at h in
      let (ok, h') = if_some _ _ _ (sym (delimited_pair close bad d s close_ne) ∙ at_backslash) in
      rw e (Read-pair d s r ok (rec h'))

  ne_of_false : (a b : ℕ) → (a == b) ≡ false → a ≢ b
  ne_of_false a b h = ground arith

  pub delimited_sound : (s r : Bytes) → delimited close bad s ≡ some r → Read close Text s r
  delimited_sound [] r h = unfold delimited in cc h
  delimited_sound (c ∷ []) r h = elim (Bool-cases (c == close)) [
    | inl e ↦ Read-close [] r c ((==_iff c close).0 e) h
    | inr e ↦ unfold delimited in cc (rw e at h)
  ]
  delimited_sound (c ∷ d ∷ s) r h = elim (Bool-cases (c == close)) [
    | inl e ↦ Read-close (d ∷ s) r c ((==_iff c close).0 e) h
    | inr e ↦ elim (Bool-cases (c == b'\\')) [
      | inl e' ↦ Read-escape c d s r ((==_iff c b'\\').0 e') h (delimited_sound s r)
      | inr e' ↦
          let (ok, h') = if_not_some _ _ _ (sym (delimited_char close bad c (d ∷ s) e e') ∙ h) in
          Read-char c (d ∷ s) r ((text_iff c).0 (ne_of_false c close e, ne_of_false c b'\\' e', ok))
            (delimited_sound (d ∷ s) r h')
    ]
  ]

  pub delimited_complete :
      {b : Bytes} (r : Bytes) → Body close Text b → delimited close bad (b ++ r) ≡ some r
  delimited_complete r end = delimited_close close bad r
  delimited_complete r (pair {d} {s} lo hi b) =
      delimited_pair close bad d (s ++ r) close_ne
      ∙ rw ((quotedpair_iff d).1 (lo, hi)) (delimited_complete r b)
  delimited_complete r (char {c} {s} t b) =
      let (ne, ne', ok) = (text_iff c).1 t in
      delimited_char close bad c (s ++ r) (==_ne c close ne) (==_ne c b'\\' ne')
      ∙ rw ok (delimited_complete r b)

pub quoted_iff : (c : ℕ) → ((c ≢ b'"') × (c ≢ b'\\') × (bad_quoted c ≡ false)) ↔ Qtext c
quoted_iff c = (λ h. ground arith, λ h. ground arith)

pub literal_iff : (c : ℕ) → ((c ≢ b']') × (c ≢ b'\\') × (bad_literal c ≡ false)) ↔ Dtext c
literal_iff c = (λ h. ground arith, λ h. ground arith)
