-- ===== src/Scan/Substring.antt =====
-- What it means that a prefix or a word is found in a text.
use fetchmail.Prelude.{
  ℕ, ◌≡◌, refl, sym, ap, ◌∙◌, ◌↔◌, ◌⊎◌, inl, inr, Bool, true, false, ◌&&◌, ◌||◌, [], ◌∷◌, ◌++◌,
  ◌==◌, ==_iff, Bool-cases, Bytes, peek, next, starts_with,
}
use fetchmail.Scan.{strstr}

-- A word stands in a text.
abbrev pub Has : Bytes → Bytes → Type 0
Has s w = (a : Bytes) × (b : Bytes) × (s ≡ a ++ w ++ b)

-- A Boolean test decides a property.
abbrev pub Tests : Bool → Type 0 → Type 0
Tests b A = (b ≡ true) ↔ A

pub or_Tests : {A B : Type 0} (a b : Bool) → Tests a A → Tests b B → Tests (a || b) (A ⊎ B)
or_Tests true b (f, g) y = (λ h. inl (f refl), λ s. refl)
or_Tests false b (f, g) y =
    (λ h. inr (y.0 h), λ s. elim s [ inl x ↦ absurd (let no = g x in cc) | inr x ↦ y.1 x ])

pub and_Tests : {A B : Type 0} (a b : Bool) → Tests a A → Tests b B → Tests (a && b) (A × B)
and_Tests true b (f, g) y = (λ h. (f refl, y.0 h), λ s. y.1 s.1)
and_Tests false b (f, g) y = (λ h. absurd (cc), λ s. absurd (let no = g s.0 in cc))

pub starts_with_iff : (p s : Bytes) → Tests (starts_with p s) ((b : Bytes) × (s ≡ p ++ b))
unfolding starts_with
starts_with_iff [] s = (λ h. (s, refl), λ e. refl)
starts_with_iff (x ∷ p) [] = (λ h. absurd (cc), λ e. absurd (cc e.1))
starts_with_iff (x ∷ p) (c ∷ s) = elim (Bool-cases (x == c)) [
  | inl same ↦
      let is : x ≡ c = (==_iff x c).0 same in
      rw same (
        λ h. let (b, e) = (starts_with_iff p s).0 h in (b, cc),
        λ e. (starts_with_iff p s).1 (e.0, ap next e.1),
      )
  | inr other ↦ rw other (
    λ h. absurd (cc),
    λ e. absurd (let first : c ≡ x = ap peek e.1 in cc (sym ((==_iff x c).1 (sym first)) ∙ other)),
  )
]

Has-nil : (p : Bytes) → Has [] p → (b : Bytes) × ([] ≡ p ++ b)
Has-nil p ([], b, e) = (b, e)
Has-nil p (x ∷ a, b, e) = absurd (cc e)

Has-cons : (c : ℕ) (s p : Bytes) → Has (c ∷ s) p → ((b : Bytes) × (c ∷ s ≡ p ++ b)) ⊎ Has s p
Has-cons c s p ([], b, e) = inl (b, e)
Has-cons c s p (x ∷ a, b, e) = inr (a, b, ap next e)

-- `strstr` finds a word where it stands in the text.
pub strstr_iff : (s p : Bytes) → Tests (strstr s p) (Has s p)
unfolding strstr
strstr_iff [] p = (
  λ h. let (b, e) = (starts_with_iff p []).0 h in ([], b, e),
  λ e. (starts_with_iff p []).1 (Has-nil p e),
)
strstr_iff (c ∷ s) p =
    let (there, found) = or_Tests _ _ (starts_with_iff p (c ∷ s)) (strstr_iff s p) in
    (
      λ h. elim (there h) [ inl (b, e) ↦ ([], b, e) | inr (a, b, e) ↦ (c ∷ a, b, ap (◌∷◌ c) e) ],
      λ e. found (Has-cons c s p e),
    )
