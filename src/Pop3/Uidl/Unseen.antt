-- ===== src/Pop3/Uidl/Unseen.antt =====
-- Which identifiers are unseen in a list, before and after the list is changed.
use fetchmail.Prelude.{
  ℕ, ◌≡◌, refl, sym, ap, ◌∙◌, inl, inr, Bool, true, Option, none, some, List, [], ◌∷◌, ◌++◌,
  Bool-cases, Option-cases, length, get_elem?, length-map, Bytes, str_eq,
}
use fetchmail.UidDb.{Rec}
use fetchmail.UidDb.Trie.Kept.{KeepsWhat}
use fetchmail.UidDb.Trie.Search.{first_with, first_with-some, ids_of}
use fetchmail.UidDb.Trie.Indexed.{first_with-append, first_with-snoc}
use fetchmail.Pop3.Fast.Bracket.{unseen_of}

-- Whether the first record with an identifier is unseen; one that has no record is.
abbrev pub unseen_at : List Rec → Option ℕ → Bool
unseen_at recs none = true
unseen_at recs (some p) = elim (get_elem? recs p) [ none ↦ true | some r ↦ unseen_of r ]

abbrev pub unseen_in : List Rec → Bytes → Bool
unseen_in recs id = unseen_at recs (first_with id (ids_of recs))

pub unseen_at-some :
    (recs : List Rec) (p : ℕ) (r : Rec)
    → get_elem? recs p ≡ some r
    → unseen_at recs (some p) ≡ unseen_of r
unseen_at-some recs p r at = rw (unseen_at, at) refl

-- The record that is found is kept.
pub unseen_in_found :
    (recs recs' : List Rec) (k : Bytes) (p : ℕ) (r s : Rec)
    → first_with k (ids_of recs) ≡ some p
    → first_with k (ids_of recs') ≡ some p
    → get_elem? recs p ≡ some r
    → get_elem? recs' p ≡ some s
    → unseen_of s ≡ unseen_of r
    → unseen_in recs' k ≡ unseen_in recs k
unseen_in_found recs recs' k p r s there there' at s_at same =
    ap (unseen_at recs') there'
    ∙ unseen_at-some recs' p s s_at
    ∙ same
    ∙ sym (unseen_at-some recs p r at)
    ∙ sym (ap (unseen_at recs) there)

-- The identifiers and what is unseen are the same.
pub unseen_in-kept :
    (recs recs' : List Rec) (k : Bytes)
    → ids_of recs' ≡ ids_of recs
    → KeepsWhat unseen_of recs recs'
    → unseen_in recs' k ≡ unseen_in recs k
unseen_in-kept recs recs' k ids keeps = elim (Option-cases (first_with k (ids_of recs))) [
  | inl nowhere ↦ rw (ids, nowhere) refl
  | inr (p, there) ↦
      let (r, at, r_id) = first_with-some k recs p there in
      let (s, s_at, same) = keeps p r at in
      unseen_in_found recs recs' k p r s there (rw ids there) at s_at same
]

-- A record of a new identifier is put behind the others, and is unseen.
pub unseen_in-new :
    (recs recs' : List Rec) (id k : Bytes) (s : Rec)
    → ids_of recs' ≡ ids_of recs ++ id ∷ []
    → KeepsWhat unseen_of recs recs'
    → get_elem? recs' (length recs) ≡ some s
    → unseen_of s ≡ true
    → unseen_in recs' k ≡ unseen_in recs k
unseen_in-new recs recs' id k s ids keeps s_at mark =
    elim (Option-cases (first_with k (ids_of recs))) [
      | inl nowhere ↦
          ap (λ y. unseen_at recs' (first_with k y)) ids
          ∙ ap (unseen_at recs') (first_with-snoc k (ids_of recs) id nowhere)
          ∙ elim (Bool-cases (str_eq id k)) [
            | inl it ↦
                let at : get_elem? recs' (length (ids_of recs)) ≡ some s =
                  ap (get_elem? recs') (length-map recs (λ r. r.id)) ∙ s_at in
                rw it (unseen_at-some recs' (length (ids_of recs)) s at ∙ mark)
            | inr other ↦ rw other refl
          ]
          ∙ sym (ap (unseen_at recs) nowhere)
      | inr (p, there) ↦
          let (r, at, r_id) = first_with-some k recs p there in
          let (q, q_at, same) = keeps p r at in
          unseen_in_found recs recs' k p r q there
            (rw ids (first_with-append k (ids_of recs) (id ∷ []) p there)) at q_at same
    ]
