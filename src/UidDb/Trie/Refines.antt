-- ===== src/UidDb/Trie/Refines.antt =====
-- uid_db.c: the trie of a database against the list of the identifiers.
use fetchmail.Prelude.{
  ℕ, ◌≡◌, refl, sym, ap, ◌∙◌, inl, inr, not, Option, none, some, [], ◌∷◌, ◌++◌, arith, Option-cases,
  length, length-append, length-map, Bytes,
}
use mathlib.Core.Path.{subst}
use fetchmail.UidDb.{Rec, UidDb, get_uid_db_record, insert_into_records}
use fetchmail.UidDb.Trie.{bit_set, append_to_list}
use fetchmail.UidDb.Trie.Tree.{Trie, id_of, lookup, graft, HasTip, not_same}
use fetchmail.UidDb.Trie.Heap.{Stands}
use fetchmail.UidDb.Trie.Bits.{IsFirstDiff}
use fetchmail.UidDb.Trie.Insert.{Stands-ids}
use fetchmail.UidDb.Trie.Indexed.{IsIndex-graft, IsIndex-known}
use fetchmail.UidDb.Trie.Chain.{
  AreChains, with_new, AreRecords-new, AreChains-new, KeepsIds-new, ids_of-new,
  append_to_list-AreRecords,
}
use fetchmail.UidDb.Trie.Grown.{KeepsIds}
use fetchmail.UidDb.Trie.Kept.{get_elem?_lt}
use fetchmail.UidDb.Trie.Search.{
  first_with, first_with-some, ids_of, IsIndex, IsTrie, IsDb, AreRecords, IsUid, id_of-lookup,
}

-- The trie is the same, and so are the identifiers.
IsTrie-ids :
    (db new : UidDb) (s : Trie)
    → new.pat_root ≡ db.pat_root
    → new.pat_nodes ≡ db.pat_nodes
    → KeepsIds db.records new.records
    → IsTrie db s
    → IsTrie new s
IsTrie-ids db new s root nodes keeps is_trie = record {
  stands =
      subst (λ y. Stands y new.records none 0 s new.pat_root) (sym nodes)
        (subst (λ y. Stands db.pat_nodes new.records none 0 s y) (sym root)
          (Stands-ids db.pat_nodes db.records new.records keeps s none 0 db.pat_root
            is_trie.stands));
  distinct = is_trie.distinct;
  parted = is_trie.parted;
  counted = is_trie.counted ∙ sym (ap length nodes);
}

-- What an insertion promises: the identifier comes behind the others.
abbrev pub Appends : UidDb → Bytes → Option (UidDb × ℕ) → Type 0
Appends db id result =
    (new : UidDb) × (result ≡ some (new, length db.records))
    × (ids_of new.records ≡ ids_of db.records ++ id ∷ [])
    × IsDb new

module _ (db : UidDb) (id : Bytes) (status : ℕ) (is_db : IsDb db) (is_uid : IsUid id) where
  abbrev pos : ℕ
  pos = length db.records

  -- The database with the new record, which is not in the trie yet.
  abbrev pub made : UidDb
  made = insert_into_records db (get_uid_db_record id status)

  pub made-with_new :
      (n : Rec) × (made.records ≡ with_new db.records n)
      × (n.id ≡ id)
      × (n.next ≡ none)
      × (made.pat_root ≡ db.pat_root)
      × (made.pat_nodes ≡ db.pat_nodes)
  unfolding insert_into_records get_uid_db_record
  made-with_new = (_, refl, refl, refl, refl, refl)

  pub AreRecords-made : AreRecords made.records
  AreRecords-made =
      let (n, recs, n_id, n_next, _, _) = made-with_new in
      subst AreRecords (sym recs)
        (AreRecords-new db.records n is_db.are_records (subst IsUid (sym n_id) is_uid) n_next)

  pub IsTrie-made : IsTrie made is_db.trie
  IsTrie-made =
      let (n, recs, n_id, n_next, root, nodes) = made-with_new in
      IsTrie-ids db made is_db.trie root nodes
        (subst (KeepsIds db.records) (sym recs) (KeepsIds-new db.records n)) is_db.is_trie

  ids_of-made : ids_of made.records ≡ ids_of db.records ++ id ∷ []
  ids_of-made =
      let (n, recs, n_id, _, _, _) = made-with_new in
      ap ids_of recs ∙ ids_of-new db.records n ∙ ap (λ y. ids_of db.records ++ y ∷ []) n_id

  -- An identifier that differs from the one at the end of its path is a new one.
  first_with-new :
      (d : ℕ)
      → IsFirstDiff d (id_of (lookup id is_db.trie)) id
      → first_with id (ids_of db.records) ≡ none
  first_with-new d diff = elim (Option-cases (first_with id (ids_of db.records))) [
    | inl e ↦ e
    | inr (p, e) ↦
        let is = id_of-lookup db is_db.trie id p is_db.is_trie is_db.is_index e in
        absurd (not_same (bit_set d id) (subst (λ y. bit_set d y ≡ not (bit_set d id)) is diff.1))
  ]

  -- The record of a new identifier gets a node.
  pub Appends-grafted :
      (d : ℕ) (new : UidDb)
      → IsFirstDiff d (id_of (lookup id is_db.trie)) id
      → new.records ≡ made.records
      → IsTrie new (graft d id (length made.pat_nodes) pos is_db.trie)
      → (ids_of new.records ≡ ids_of db.records ++ id ∷ []) × IsDb new
  Appends-grafted d new diff recs trie =
      let ids = ap ids_of recs ∙ ids_of-made in
      (
        ids,
        record {
          trie = graft d id (length made.pat_nodes) pos is_db.trie;
          is_trie = trie;
          is_index =
              subst (λ y. IsIndex y (graft d id (length made.pat_nodes) pos is_db.trie)) (sym ids)
                (subst
                  (λ y.
                    IsIndex (ids_of db.records ++ id ∷ [])
                      (graft d id (length made.pat_nodes) y is_db.trie))
                  (length-map db.records (λ r. r.id))
                  (IsIndex-graft (ids_of db.records) is_db.trie d id (length made.pat_nodes)
                    is_db.is_index (first_with-new d diff)));
          are_records = subst AreRecords (sym recs) AreRecords-made;
        },
      )

  -- That of a known one comes to the end of a list.
  pub Appends-known :
      (p : ℕ)
      → HasTip is_db.trie p id
      → (new : UidDb) × (append_to_list made p pos ≡ some new)
        × (ids_of new.records ≡ ids_of db.records ++ id ∷ [])
        × IsDb new
  Appends-known p has =
      let known = is_db.is_index.tips p id has in
      let (q, q_at, _) = first_with-some id db.records p known in
      let (n, recs, n_id, n_next, root, nodes) = made-with_new in
      let longer = ap length recs ∙ length-append db.records (n ∷ []) in
      let (new, is, same_root, same_nodes, ids, keeps, are_records) =
        append_to_list-AreRecords made pos p AreRecords-made
          (subst (λ y. AreChains y pos) (sym recs) (AreChains-new db.records n is_db.are_records))
          (omega (arith, longer)) (get_elem?_lt db.records p q q_at) in
      (
        new,
        is,
        ids ∙ ids_of-made,
        record {
          trie = is_db.trie;
          is_trie = IsTrie-ids made new is_db.trie same_root same_nodes keeps IsTrie-made;
          is_index =
              subst (λ y. IsIndex y is_db.trie) (sym (ids ∙ ids_of-made))
                (IsIndex-known (ids_of db.records) is_db.trie id p is_db.is_index known);
          are_records = are_records;
        },
      )
