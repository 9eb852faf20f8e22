-- ===== src/UidDb/Trie/Search.antt =====
-- uid_db.c: a database in which the trie indexes the records, and the search in it.
use fetchmail.Prelude.{
  some_injective, ℕ, suc, ◌<◌, ◌≡◌, refl, ◌≢◌, ◌⊎◌, inl, inr, Option, none, some, List, [], ◌∷◌,
  map, if◌then◌else◌, Bool-cases, Option-cases, length, get_elem?, Bytes, str_eq, str_eq_sound,
}
use fetchmail.UidDb.{Rec, PatNode, UidDb}
use fetchmail.UidDb.Trie.{bit_set, edge}
use fetchmail.UidDb.Trie.Tree.{
  Trie, nil, tip, fork, id_of, lookup, HasEnd, HasId, HasTip, IsParted, lookup-HasId,
}
use fetchmail.UidDb.Trie.Heap.{Stands, forks}
use fetchmail.UidDb.Trie.Climb.{AreDistinct}
use fetchmail.UidDb.Trie.Bits.{IsId}

-- The position of the first of the identifiers that is `id`.
unfoldable pub first_with : Bytes → List Bytes → Option ℕ
first_with id [] = none
first_with id (k ∷ ids) =
    let rest = first_with id ids in
    if str_eq k id then some 0 else elim rest [ none ↦ none | some p ↦ some (suc p) ]

abbrev pub ids_of : List Rec → List Bytes
ids_of recs = map (λ r. r.id) recs

-- Its tips are the first records with the identifiers.
pub record IsIndex (ids : List Bytes) (s : Trie) : Type 0 where
  pub tips : (p : ℕ) (k : Bytes) → HasTip s p k → first_with k ids ≡ some p
  pub finds : (p : ℕ) (k : Bytes) → first_with k ids ≡ some p → HasTip s p k

-- The trie of the database is that one.
pub record IsTrie (db : UidDb) (s : Trie) : Type 0 where
  pub stands : Stands db.pat_nodes db.records none 0 s db.pat_root
  pub distinct : AreDistinct s
  pub parted : IsParted s
  pub counted : forks s ≡ length db.pat_nodes

-- An identifier of a message: not empty, with the bytes of a C string.
abbrev pub IsUid : Bytes → Type 0
IsUid id = (id ≢ []) × IsId id

-- The records have such identifiers, and `next` leads to a later record.
abbrev pub AreRecords : List Rec → Type 0
AreRecords recs =
    (p : ℕ) (r : Rec)
    → get_elem? recs p ≡ some r
    → IsUid r.id × ((j : ℕ) → r.next ≡ some j → (p < j) × (j < length recs))

-- A database in order: its trie is an index of its records.
pub record IsDb (db : UidDb) : Type 0 where
  pub trie : Trie
  pub is_trie : IsTrie db trie
  pub is_index : IsIndex (ids_of db.records) trie
  pub are_records : AreRecords db.records

pub HasEnd-lookup : (Q : Trie → Type 0) (id : Bytes) (s : Trie) → Q (lookup id s) → HasEnd Q s
HasEnd-lookup Q id nil q = q
HasEnd-lookup Q id (tip t p k) q = q
HasEnd-lookup Q id (fork i c ch) q = (bit_set c id, HasEnd-lookup Q id (ch (bit_set c id)) q)

HasId-HasTip : (s : Trie) (p : ℕ) (id : Bytes) → HasTip s p id → HasId s id
HasId-HasTip nil p id has = absurd has
HasId-HasTip (tip t q k) p id (at, is) = is
HasId-HasTip (fork i c ch) p id (b, has) = (b, HasId-HasTip (ch b) p id has)

-- What is at the end of a path.
pub end_cases :
    (nodes : List PatNode) (recs : List Rec) (id : Bytes) (s : Trie) (up : Option ℕ) (m : ℕ)
    (e : Option ℕ)
    → Stands nodes recs up m s e
    → (lookup id s ≡ nil)
      ⊎ ((t : ℕ) × (p : ℕ) × (k : Bytes) × (lookup id s ≡ tip t p k)
          × (n : PatNode) × (get_elem? nodes t ≡ some n)
          × (n.rec ≡ p)
          × (r : Rec) × (get_elem? recs p ≡ some r)
          × (r.id ≡ k))
end_cases nodes recs id nil up m e stands = inl refl
end_cases nodes recs id (tip t p k) up m e (is, n, at, before, n_rec, r, r_at, r_id) =
    inr (t, p, k, refl, n, at, n_rec, r, r_at, r_id)
end_cases nodes recs id (fork i c ch) up m e (is, n, at, n_bit, n_up, behind, kids) =
    end_cases nodes recs id (ch (bit_set c id)) (some i) (suc c) (edge n (bit_set c id))
      (kids (bit_set c id))

-- A record has the identifier that is found at its position.
pub first_with-some :
    (id : Bytes) (recs : List Rec) (p : ℕ)
    → first_with id (ids_of recs) ≡ some p
    → (r : Rec) × (get_elem? recs p ≡ some r) × (r.id ≡ id)
unfolding first_with
first_with-some id [] p e = cc
first_with-some id (r ∷ recs) p e = elim (Bool-cases (str_eq r.id id)) [
  | inl same ↦
      let is : 0 ≡ p = some_injective 0 p (rw same at e) in
      rw (← is) (r, refl, str_eq_sound r.id id same)
  | inr differ ↦ elim (Option-cases (first_with id (ids_of recs))) [
    | inl nowhere ↦ let e' : none ≡ some p = rw (differ, nowhere) at e in cc
    | inr (q, there) ↦
        let is : suc q ≡ p = some_injective (suc q) p (rw (differ, there) at e) in
        rw (← is) (first_with-some id recs q there)
  ]
]

-- At the end of the path of an identifier of the database is that identifier.
pub id_of-lookup :
    (db : UidDb) (s : Trie) (id : Bytes) (p : ℕ)
    → IsTrie db s
    → IsIndex (ids_of db.records) s
    → first_with id (ids_of db.records) ≡ some p
    → id_of (lookup id s) ≡ id
id_of-lookup db s id p is_trie is_index e =
    lookup-HasId id s is_trie.parted (HasId-HasTip s p id (is_index.finds p id e))
