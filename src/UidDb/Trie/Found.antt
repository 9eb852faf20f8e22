-- ===== src/UidDb/Trie/Found.antt =====
-- uid_db.c: `find_uid_by_id` against the list of the identifiers.
use fetchmail.Prelude.{
  ℕ, ◌≡◌, refl, sym, ap, ◌∙◌, ◌≢◌, inl, inr, Bool, true, Option, none, some, [], arith,
  if◌then◌else◌, Bool-cases, Option-cases, ◌>>=◌, length, get_elem?, Bytes, str_eq, str_eq_sound,
  str_eq_refl,
}
use fetchmail.UidDb.{Rec, PatNode, UidDb}
use fetchmail.UidDb.Trie.{find_node, find_uid_by_id}
use fetchmail.UidDb.Trie.Tree.{Trie, nil, tip, fork, id_of, lookup, HasTip, IsTip}
use fetchmail.UidDb.Trie.Heap.{Stands, pointer, walk_down-Stands, find_node-walk_down}
use fetchmail.UidDb.Trie.Search.{
  first_with, ids_of, IsIndex, IsTrie, AreRecords, HasEnd-lookup, end_cases, first_with-some,
  id_of-lookup,
}

-- `find_uid_by_id` in the trie with that root.
abbrev find_from : UidDb → Bytes → Option ℕ → Option (Option ℕ)
find_from db id none = some none
find_from db id (some root) = do
  np ← find_node (length db.pat_nodes) db.pat_nodes id root
  elim np [
    | none ↦ some none
    | some c ↦ do
      cn ← get_elem? db.pat_nodes c
      r ← get_elem? db.records cn.rec
      some (if str_eq r.id id then some cn.rec else none)
  ]

find_uid_by_id-find_from :
    (db : UidDb) (id : Bytes) (root : Option ℕ)
    → db.pat_root ≡ root
    → find_uid_by_id db id ≡ find_from db id root
unfolding find_uid_by_id
find_uid_by_id-find_from db id none is = rw is refl
find_uid_by_id-find_from db id (some root) is = rw is refl

module _ (db : UidDb) (s : Trie) (id : Bytes) (is_trie : IsTrie db s)
    (is_index : IsIndex (ids_of db.records) s) (are_records : AreRecords db.records) where
  -- An identifier that is not at the end of its path is not in the database.
  nowhere : id_of (lookup id s) ≢ id → first_with id (ids_of db.records) ≡ none
  nowhere other = elim (Option-cases (first_with id (ids_of db.records))) [
    | inl e ↦ e
    | inr (p, e) ↦ absurd (other (id_of-lookup db s id p is_trie is_index e))
  ]

  nowhere-nil : lookup id s ≡ nil → first_with id (ids_of db.records) ≡ none
  nowhere-nil is = elim (Option-cases (first_with id (ids_of db.records))) [
    | inl e ↦ e
    | inr (p, e) ↦
        let (r, at, r_id) = first_with-some id db.records p e in
        let ((nonempty, _), _) = are_records p r at in
        let empty : [] ≡ id = sym (ap id_of is) ∙ id_of-lookup db s id p is_trie is_index e in
        absurd (nonempty (r_id ∙ sym empty))
  ]

  -- The last part of the search.
  found_at_end :
      (t p : ℕ) (k : Bytes) (n : PatNode) (r : Rec)
      → lookup id s ≡ tip t p k
      → get_elem? db.pat_nodes t ≡ some n
      → n.rec ≡ p
      → get_elem? db.records p ≡ some r
      → r.id ≡ k
      → (get_elem? db.pat_nodes t >>= λ cn.
          get_elem? db.records cn.rec >>= λ r. some (if str_eq r.id id then some cn.rec else none))
        ≡ some (first_with id (ids_of db.records))
  found_at_end t p k n r is at n_rec r_at r_id =
      let there : get_elem? db.records n.rec ≡ some r = ap (get_elem? db.records) n_rec ∙ r_at in
      rw (at, ◌>>=◌, there, ◌>>=◌)
        (elim (Bool-cases (str_eq r.id id)) [
          | inl same ↦
              let k_id : k ≡ id = sym r_id ∙ str_eq_sound r.id id same in
              let has : HasTip s p k = HasEnd-lookup (IsTip p k) id s (rw is (refl, refl)) in
              rw same (ap some (ap some n_rec ∙ sym (rw k_id at (is_index.tips p k has))))
          | inr differ ↦
              let other : id_of (lookup id s) ≢ id = λ e.
                let k_id : r.id ≡ id = r_id ∙ sym (ap id_of is) ∙ e in
                let yes : str_eq r.id id ≡ true = ap (str_eq r.id) (sym k_id) ∙ str_eq_refl r.id in
                cc in
              rw differ (ap some (sym (nowhere other)))
        ])

found_in_fork :
    (db : UidDb) (i c : ℕ) (ch : Bool → Trie) (id : Bytes)
    → IsTrie db (fork i c ch)
    → IsIndex (ids_of db.records) (fork i c ch)
    → AreRecords db.records
    → find_from db id (some i) ≡ some (first_with id (ids_of db.records))
found_in_fork db i c ch id is_trie is_index are_records =
    let s = fork i c ch in
    let stands : Stands db.pat_nodes db.records none 0 s (some i) =
      rw (is_trie.stands.0) at is_trie.stands in
    let walked : find_node (length db.pat_nodes) db.pat_nodes id i ≡ some (pointer (lookup id s)) =
      find_node-walk_down (length db.pat_nodes) db.pat_nodes id i
      ∙ rw
          (
            walk_down-Stands db.pat_nodes db.records id i c ch (length db.pat_nodes) (0, 0, true)
                stands (omega (arith, is_trie.counted)),
            ◌>>=◌,
          )
          refl in
    elim (end_cases db.pat_nodes db.records id s none 0 (some i) stands) [
      | inl is ↦
          let to : pointer (lookup id s) ≡ none = ap pointer is in
          rw (walked ∙ ap some to, ◌>>=◌)
            (ap some (sym (nowhere-nil db s id is_trie is_index are_records is)))
      | inr (t, p, k, is, n, at, n_rec, r, r_at, r_id) ↦
          let to : pointer (lookup id s) ≡ some t = ap pointer is in
          rw (walked ∙ ap some to, ◌>>=◌)
            (found_at_end db s id is_trie is_index are_records t p k n r is at n_rec r_at r_id)
    ]

pub find_uid_by_id-IsTrie :
    (db : UidDb) (s : Trie) (id : Bytes)
    → IsTrie db s
    → IsIndex (ids_of db.records) s
    → AreRecords db.records
    → find_uid_by_id db id ≡ some (first_with id (ids_of db.records))
find_uid_by_id-IsTrie db nil id is_trie is_index are_records =
    find_uid_by_id-find_from db id none is_trie.stands
    ∙ ap some (sym (nowhere-nil db nil id is_trie is_index are_records refl))
find_uid_by_id-IsTrie db (tip t p k) id is_trie is_index are_records =
    let (is, n, at, before, n_rec, r, r_at, r_id) = is_trie.stands in absurd (omega arith)
find_uid_by_id-IsTrie db (fork i c ch) id is_trie is_index are_records =
    find_uid_by_id-find_from db id (some i) (is_trie.stands.0)
    ∙ found_in_fork db i c ch id is_trie is_index are_records
