-- ===== src/UidDb/Trie/Indexed.antt =====
-- uid_db.c: the tips of the abstract trie stay the first records with the identifiers when a record
-- comes behind the others.
use fetchmail.Prelude.{
  Option, some_injective, ℕ, suc, ◌≡◌, refl, sym, ◌∙◌, ◌⊎◌, inl, inr, none, some, List, [], ◌∷◌,
  ◌++◌, if◌then◌else◌, Bool-cases, Option-cases, length, Bytes, str_eq, str_eq_sound, str_eq_refl,
}
use fetchmail.UidDb.Trie.Tree.{Trie, graft, IsTip}
use fetchmail.UidDb.Trie.Graft.{HasEnd-graft, graft_kept, graft_new}
use fetchmail.UidDb.Trie.Search.{first_with, IsIndex}

pub first_with-append :
    (k : Bytes) (ids more : List Bytes) (p : ℕ)
    → first_with k ids ≡ some p
    → first_with k (ids ++ more) ≡ some p
unfolding first_with
first_with-append k [] more p e = cc
first_with-append k (j ∷ ids) more p e = elim (Bool-cases (str_eq j k)) [
  | inl same ↦ rw same (rw same at e)
  | inr differ ↦ elim (Option-cases (first_with k ids)) [
    | inl nowhere ↦ let e' : none ≡ some p = rw (differ, nowhere) at e in cc
    | inr (q, there) ↦ rw (differ, first_with-append k ids more q there) (rw (differ, there) at e)
  ]
]

pub first_with-snoc :
    (k : Bytes) (ids : List Bytes) (id : Bytes)
    → first_with k ids ≡ none
    → first_with k (ids ++ id ∷ []) ≡ (if str_eq id k then some (length ids) else none)
unfolding first_with
first_with-snoc k [] id e = refl
first_with-snoc k (j ∷ ids) id e = elim (Bool-cases (str_eq j k)) [
  | inl same ↦ let e' : ◌≡◌ {A = Option ℕ} (some 0) none = rw same at e in cc
  | inr differ ↦ elim (Option-cases (first_with k ids)) [
    | inr (q, there) ↦
        let e' : ◌≡◌ {A = Option ℕ} (some (suc q)) none = rw (differ, there) at e in cc
    | inl nowhere ↦
        rw (differ, first_with-snoc k ids id nowhere)
          (elim (Bool-cases (str_eq id k)) [ inl it ↦ rw it refl | inr other ↦ rw other refl ])
  ]
]

-- The two ways in which an identifier is found in the longer list.
snoc_cases :
    (k : Bytes) (ids : List Bytes) (id : Bytes) (p : ℕ)
    → first_with k (ids ++ id ∷ []) ≡ some p
    → (first_with k ids ≡ some p) ⊎ ((k ≡ id) × (p ≡ length ids) × (first_with k ids ≡ none))
snoc_cases k ids id p e = elim (Option-cases (first_with k ids)) [
  | inr (q, there) ↦ inl (there ∙ sym (first_with-append k ids (id ∷ []) q there) ∙ e)
  | inl nowhere ↦ elim (Bool-cases (str_eq id k)) [
    | inl it ↦
        let at : some (length ids) ≡ some p = rw (first_with-snoc k ids id nowhere, it) at e in
        inr (sym (str_eq_sound id k it), sym (some_injective (length ids) p at), nowhere)
    | inr other ↦ let at : none ≡ some p = rw (first_with-snoc k ids id nowhere, other) at e in cc
  ]
]

pub IsIndex-graft :
    (ids : List Bytes) (s : Trie) (d : ℕ) (id : Bytes) (me : ℕ)
    → IsIndex ids s
    → first_with id ids ≡ none
    → IsIndex (ids ++ id ∷ []) (graft d id me (length ids) s)
IsIndex-graft ids s d id me is_index new = record {
  tips = λ p k has. elim (HasEnd-graft (IsTip p k) d id me (length ids) s has) [
    | inl old ↦ first_with-append k ids (id ∷ []) p (is_index.tips p k old)
    | inr (at, it) ↦ rw (it, at) (first_with-snoc id ids id new ∙ rw (str_eq_refl id) refl)
  ];
  finds = λ p k e. elim (snoc_cases k ids id p e) [
    | inl old ↦ graft_kept (IsTip p k) d id me (length ids) s (is_index.finds p k old)
    | inr (it, at, _) ↦ graft_new (IsTip p k) d id me (length ids) s (at, it)
  ];
}

pub IsIndex-known :
    (ids : List Bytes) (s : Trie) (id : Bytes) (p : ℕ)
    → IsIndex ids s
    → first_with id ids ≡ some p
    → IsIndex (ids ++ id ∷ []) s
IsIndex-known ids s id p is_index known = record {
  tips = λ q k has. first_with-append k ids (id ∷ []) q (is_index.tips q k has);
  finds = λ q k e. elim (snoc_cases k ids id q e) [
    | inl old ↦ is_index.finds q k old
    | inr (it, at, nowhere) ↦ let no : none ≡ some p = sym (rw it at nowhere) ∙ known in cc
  ];
}
