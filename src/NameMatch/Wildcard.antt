-- ===== src/NameMatch/Wildcard.antt =====
-- What a certificate name covers.
use fetchmail.Prelude.{
  suc, ◌+◌, ◌-◌, ◌≤◌, ◌≡◌, refl, sym, ◌∙◌, ◌≢◌, ◌⊎◌, inl, inr, true, false, not, ◌&&◌, List, [],
  ◌∷◌, ◌++◌, arith, ltb, leb, ◌==◌, if◌then◌else◌, lt→ltb, leb→le, ==_iff, Bool-cases, length, set,
  length-append, take, drop, take-append-drop, Bytes, peek, next, ==_ne, str_case_eq,
}
use fetchmail.NameMatch.{Lacks, strspn, dom, number_dots, wildcard_ok, skip_front, name_match}

length-case_eq : (a b : Bytes) → str_case_eq a b ≡ true → length a ≡ length b
unfolding str_case_eq
length-case_eq [] [] h = refl
length-case_eq (x ∷ a) (y ∷ b) h = ground (arith, length-case_eq a b)
length-case_eq [] (y ∷ b) h = ground arith
length-case_eq (x ∷ a) [] h = ground arith

strspn_le : (s set : Bytes) → strspn s set ≤ length s
unfolding strspn
strspn_le [] set = omega arith
strspn_le (c ∷ s) set = ground (arith, strspn_le s set)

-- An address of digits and dots.
abbrev pub IsLiteral : Bytes → Type 0
IsLiteral s = strspn s dom ≡ length s

-- The first test never holds for a pattern with a wildcard.
wildcard_ok_lem : (r p2 : Bytes) → wildcard_ok (b'*' ∷ r) p2 ≡ not (strspn p2 dom == length p2)
unfolding wildcard_ok
wildcard_ok_lem r p2 =
    let le : strspn r dom ≢ suc (length r) = λ e. absurd (omega (arith, strspn_le r dom)) in
    let no : (strspn r dom == suc (length r)) ≡ false = ground arith in rw no refl

drop-append {ℓ} : {A : Type ℓ} (x y : List A) → drop (length x) (x ++ y) ≡ y
drop-append [] y = refl
drop-append (c ∷ x) y = drop-append x y

skip_front-append : (p x y : Bytes) → length p ≡ length y → skip_front p (x ++ y) ≡ y
unfolding skip_front
skip_front-append p [] y e = let no : ltb (length p) (length y) ≡ false = ground arith in rw no refl
skip_front-append p (c ∷ x) y e =
    let len : length ((c ∷ x) ++ y) ≡ suc (length x) + length y = length-append (c ∷ x) y in
    let yes : ltb (length p) (length ((c ∷ x) ++ y)) ≡ true = lt→ltb _ _ (omega arith) in
    let at : length ((c ∷ x) ++ y) - length p ≡ length (c ∷ x) = omega arith in
    rw (yes, at) (drop-append (c ∷ x) y)

-- A host name is a match for a pattern with a wildcard if it is no address of digits and dots, nor is
-- what follows the `*` of the pattern, and the host name is one component, without a dot, and then,
-- but for the case of letters, what follows the `*`, which has two dots at least.
pub name_match_wildcard :
    (r x y : Bytes)
    → Lacks b'.' x
    → ¬ IsLiteral (b'.' ∷ r)
    → 2 ≤ number_dots (b'.' ∷ r)
    → ¬ IsLiteral (x ++ y)
    → str_case_eq (b'.' ∷ r) y ≡ true
    → name_match (b'*' ∷ b'.' ∷ r) (x ++ y) ≡ true
unfolding name_match
name_match_wildcard r x y one_component name dots host tail =
    let ok : wildcard_ok (b'*' ∷ b'.' ∷ r) (x ++ y) ≡ true =
      wildcard_ok_lem (b'.' ∷ r) (x ++ y) ∙ rw (==_ne _ _ host) refl in
    let two : leb 2 (number_dots (b'.' ∷ r)) ≡ true = ground arith in
    rw (ok, two, skip_front-append (b'.' ∷ r) x y (length-case_eq (b'.' ∷ r) y tail)) tail

uncovered :
    (p1 p2 : Bytes)
    → (wildcard_ok p1 p2 && (peek p1 == b'*' && peek (next p1) == b'.')) ≡ false
    → name_match p1 p2 ≡ true
    → str_case_eq p1 p2 ≡ true
unfolding name_match
uncovered p1 p2 plain h = ground arith

skip_front-take : (p s : Bytes) → (x : Bytes) × (s ≡ x ++ skip_front p s)
unfolding skip_front
skip_front-take p s = elim (Bool-cases (ltb (length p) (length s))) [
  | inl e ↦ (take (length s - length p) s, rw e (sym (take-append-drop (length s - length p) s)))
  | inr e ↦ ([], rw e refl)
]

-- What a pattern with a wildcard covers.
abbrev pub Covers : Bytes → Bytes → Type 0
Covers p1 p2 =
    (r : Bytes) × (x : Bytes) × (y : Bytes) × (p1 ≡ b'*' ∷ b'.' ∷ r)
    × ¬ IsLiteral p2
    × (p2 ≡ x ++ y)
    × (str_case_eq (b'.' ∷ r) y ≡ true)
    × ((x ≡ []) ⊎ (2 ≤ number_dots (b'.' ∷ r)))

wild_host : (r p2 : Bytes) → wildcard_ok (b'*' ∷ r) p2 ≡ true → ¬ IsLiteral p2
wild_host r p2 h lit =
    let no = sym (wildcard_ok_lem r p2) ∙ h in
    let yes = (==_iff (strspn p2 dom) (length p2)).1 lit in ground (arith)

covered_star :
    (r p2 : Bytes)
    → wildcard_ok (b'*' ∷ b'.' ∷ r) p2 ≡ true
    → name_match (b'*' ∷ b'.' ∷ r) p2 ≡ true
    → Covers (b'*' ∷ b'.' ∷ r) p2
unfolding name_match
covered_star r p2 ok h =
    let tail : str_case_eq (b'.' ∷ r)
          (if leb 2 (number_dots (b'.' ∷ r)) then skip_front (b'.' ∷ r) p2 else p2)
        ≡ true =
      rw ok at h in
    elim (Bool-cases (leb 2 (number_dots (b'.' ∷ r)))) [
      | inl two ↦
          let (x, split) = skip_front-take (b'.' ∷ r) p2 in
          (
            r,
            x,
            skip_front (b'.' ∷ r) p2,
            refl,
            wild_host (b'.' ∷ r) p2 ok,
            split,
            rw two at tail,
            inr (leb→le _ _ two),
          )
      | inr few ↦ (r, [], p2, refl, wild_host (b'.' ∷ r) p2 ok, refl, rw few at tail, inl refl)
    ]

covered :
    (p1 p2 : Bytes)
    → (wildcard_ok p1 p2 && (peek p1 == b'*' && peek (next p1) == b'.')) ≡ true
    → name_match p1 p2 ≡ true
    → Covers p1 p2
covered [] p2 wild h = absurd (ground arith)
covered (a ∷ []) p2 wild h = absurd (ground arith)
covered (a ∷ b ∷ r) p2 wild h =
    let star : a ≡ b'*' = ground arith in
    let dot : b ≡ b'.' = ground arith in
    let ok : wildcard_ok (a ∷ b ∷ r) p2 ≡ true = ground arith in
    let shape : a ∷ b ∷ r ≡ b'*' ∷ b'.' ∷ r = rw (star, dot) refl in
    rw shape (covered_star r p2 (rw shape at ok) (rw shape at h))

-- A pattern that matches is the host name, but for the case of letters, or it starts with `*.`,
-- the host name is no address of digits and dots, and ends in what follows the `*`, but for the
-- case of letters; with less than two dots in that, the host name is nothing but that.
pub name_match_sound :
    (p1 p2 : Bytes) → name_match p1 p2 ≡ true → (str_case_eq p1 p2 ≡ true) ⊎ Covers p1 p2
name_match_sound p1 p2 h =
    elim (Bool-cases (wildcard_ok p1 p2 && (peek p1 == b'*' && peek (next p1) == b'.'))) [
      | inl wild ↦ inr (covered p1 p2 wild h)
      | inr plain ↦ inl (uncovered p1 p2 plain h)
    ]
