-- ===== src/UidDb/Trie/Promise.antt =====
-- uid_db.c: what the trie promises, `uid_db_insert` and `find_uid_by_id` together.
use fetchmail.Prelude.{
  ℕ, ◌≡◌, refl, sym, ap, ◌∙◌, inl, inr, Option, none, some, List, [], ◌∷◌, ◌++◌, append_assoc,
  append-nil, arith, ◌>>=◌, length, get_elem?, get_elem?-append_right, Bytes, All,
}
use fetchmail.UidDb.{UidDb, init_uid_db}
use fetchmail.UidDb.Trie.{uid_db_insert, pat_insert, find_uid_by_id}
use fetchmail.UidDb.Trie.Tree.{nil}
use fetchmail.UidDb.Trie.Inserts.{outcome}
use fetchmail.UidDb.Trie.Found.{find_uid_by_id-IsTrie}
use fetchmail.UidDb.Trie.Search.{first_with, ids_of, IsDb, IsUid}
use fetchmail.UidDb.Trie.Refines.{
  Appends, made, made-with_new, IsTrie-made, AreRecords-made, Appends-grafted, Appends-known,
}

-- On a database in order, and for an identifier that is not empty and has the bytes of a C string,
-- `uid_db_insert` returns the position behind the last record: the identifier stands there, behind
-- the others, which stay in their order, and the database is in order.
pub uid_db_insert-Appends :
    (db : UidDb) (id : Bytes) (status : ℕ)
    → IsDb db
    → IsUid id
    → Appends db id (uid_db_insert db id status)
unfolding uid_db_insert pat_insert
uid_db_insert-Appends db id status is_db is_uid =
    let (n, recs, n_id, n_next, root, nodes) = made-with_new db id status is_db is_uid in
    let at =
      ap (λ y. get_elem? y (length db.records)) recs
      ∙ get_elem?-append_right db.records (n ∷ []) (length db.records) 0 (omega arith) in
    elim (outcome (made db id status is_db is_uid) (length db.records) id is_uid n at n_id
      is_db.trie (IsTrie-made db id status is_db is_uid)
      (λ p q q_at. (AreRecords-made db id status is_db is_uid p q q_at).0)) [
        | inl (d, diff, (new, is, recs_are, trie)) ↦
            let (ids, new_is_db) =
              Appends-grafted db id status is_db is_uid d new diff recs_are trie in
            (new, rw (is, ◌>>=◌) refl, ids, new_is_db)
        | inr (p, has, is) ↦
            let (new, appended, ids, new_is_db) = Appends-known db id status is_db is_uid p has in
            (new, rw (is ∙ appended, ◌>>=◌) refl, ids, new_is_db)
      ]

-- In a database in order, `find_uid_by_id` returns the first record with the identifier, and NULL
-- if there is none.
pub find_uid_by_id-first_with :
    (db : UidDb) (id : Bytes)
    → IsDb db
    → find_uid_by_id db id ≡ some (first_with id (ids_of db.records))
find_uid_by_id-first_with db id is_db =
    find_uid_by_id-IsTrie db is_db.trie id is_db.is_trie is_db.is_index is_db.are_records

pub IsDb-init : IsDb init_uid_db
unfolding init_uid_db first_with
IsDb-init = record {
  trie = nil;
  is_trie = record { stands = refl; distinct = tt; parted = tt; counted = refl };
  is_index = record { tips = λ p k has. absurd has; finds = λ p k e. absurd (no p e) };
  are_records = λ p r at. let no : none ≡ some r = at in cc;
}
  where
    no : (p : ℕ) → ¬ (none ≡ some p)
    no p e = cc

-- The identifiers are inserted one by one.
abbrev pub insert_each : UidDb → List Bytes → ℕ → Option UidDb
insert_each db [] status = some db
insert_each db (id ∷ ids) status = do
  (new, _) ← uid_db_insert db id status
  insert_each new ids status

insert_each-Appends :
    (db : UidDb) (ids : List Bytes) (status : ℕ)
    → IsDb db
    → All IsUid ids
    → (new : UidDb) × (insert_each db ids status ≡ some new)
      × (ids_of new.records ≡ ids_of db.records ++ ids)
      × IsDb new
insert_each-Appends db [] status is_db _ = (db, refl, sym (append-nil (ids_of db.records)), is_db)
insert_each-Appends db (id ∷ ids) status is_db (is_uid, are_uids) =
    let (new, is, ids_are, new_is_db) = uid_db_insert-Appends db id status is_db is_uid in
    let (last, is', ids_are', last_is_db) = insert_each-Appends new ids status new_is_db are_uids in
    (
      last,
      rw (is, ◌>>=◌) is',
      ids_are' ∙ ap (λ y. y ++ ids) ids_are ∙ append_assoc (ids_of db.records) (id ∷ []) ids,
      last_is_db,
    )

-- After the insertion of any identifiers, none of them empty and each with the bytes of a C string,
-- into an empty database, `find_uid_by_id` returns for every identifier the position of the first one
-- inserted that is equal to it, and NULL if none is.
pub insert_each-find :
    (ids : List Bytes) (status : ℕ) (id : Bytes)
    → All IsUid ids
    → (db : UidDb) × (insert_each init_uid_db ids status ≡ some db)
      × (find_uid_by_id db id ≡ some (first_with id ids))
unfolding init_uid_db
insert_each-find ids status id are_uids =
    let (db, is, ids_are, is_db) = insert_each-Appends init_uid_db ids status IsDb-init are_uids in
    (db, is, find_uid_by_id-first_with db id is_db ∙ ap (λ y. some (first_with id y)) ids_are)
