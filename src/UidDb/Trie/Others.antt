-- ===== src/UidDb/Trie/Others.antt =====
-- uid_db.c: the operations that write no identifier leave a database in order.
use fetchmail.Prelude.{
  some_injective, ℕ, ◌≡◌, sym, ap, ◌∙◌, inl, inr, none, some, List, arith, ◌==◌, Bool-cases,
  get_elem?, set, length-set, get_elem?-set_self, get_elem?-set_ne,
}
use fetchmail.UidDb.{Rec, UidDb, set_uid_db_num, set_uid_db_num_pos_0}
use fetchmail.UidDb.Trie.Kept.{get_elem?_lt, KeepsWhat-set}
use fetchmail.UidDb.Trie.Chain.{ids_of-set}
use fetchmail.UidDb.Trie.Insert.{Stands-ids}
use fetchmail.UidDb.Trie.Search.{IsIndex, IsDb, AreRecords}
use mathlib.Core.Path.{subst}

AreRecords-write :
    (recs : List Rec) (i : ℕ) (r s : Rec)
    → AreRecords recs
    → get_elem? recs i ≡ some r
    → s.id ≡ r.id
    → s.next ≡ r.next
    → AreRecords (set recs i s)
AreRecords-write recs i r s are_records at same_id same_next p q q_at =
    let longer = length-set recs i s in
    elim (Bool-cases (i == p)) [
      | inl here ↦
          let ip : i ≡ p = ground arith in
          let sq : s ≡ q = some_injective s q (
            sym (get_elem?-set_self recs i s (get_elem?_lt recs i r at))
            ∙ ap (get_elem? (set recs i s)) ip
            ∙ q_at) in
          let (uid, chain) = are_records i r at in
          rw (← sq) (
            rw same_id uid,
            λ j to.
                let (later, among) = chain j (sym same_next ∙ to) in
                (omega (arith, later, ip), omega (arith, longer, among)),
          )
      | inr other ↦
          let old = sym (get_elem?-set_ne recs s (λ ip. ground arith)) ∙ q_at in
          let (uid, chain) = are_records p q old in
          (uid, λ j to. let (later, among) = chain j to in (later, omega (arith, longer)))
    ]

-- A record is written, but for its identifier and its pointer.
pub IsDb-set :
    (db : UidDb) (i : ℕ) (r s : Rec)
    → IsDb db
    → get_elem? db.records i ≡ some r
    → s.id ≡ r.id
    → s.next ≡ r.next
    → IsDb (record db { records = set db.records i s })
IsDb-set db i r s is_db at same_id same_next =
    let recs' = set db.records i s in
    record {
      trie = is_db.trie;
      is_trie = record {
        stands =
            Stands-ids db.pat_nodes db.records recs'
              (KeepsWhat-set (λ x. x.id) db.records i r s at same_id) is_db.trie none 0 db.pat_root
              is_db.is_trie.stands;
        distinct = is_db.is_trie.distinct;
        parted = is_db.is_trie.parted;
        counted = is_db.is_trie.counted;
      };
      is_index =
          subst (λ y. IsIndex y is_db.trie) (sym (ids_of-set db.records i r s at same_id))
            is_db.is_index;
      are_records = AreRecords-write db.records i r s is_db.are_records at same_id same_next;
    }

-- The index by message number is another one.
pub IsDb-set_uid_db_num : (db : UidDb) (rec num : ℕ) → IsDb db → IsDb (set_uid_db_num db rec num)
unfolding set_uid_db_num
IsDb-set_uid_db_num db rec num is_db = record {
  trie = is_db.trie;
  is_trie = record {
    stands = is_db.is_trie.stands;
    distinct = is_db.is_trie.distinct;
    parted = is_db.is_trie.parted;
    counted = is_db.is_trie.counted;
  };
  is_index = is_db.is_index;
  are_records = is_db.are_records;
}

pub IsDb-set_uid_db_num_pos_0 :
    (db : UidDb) (num : ℕ) → IsDb db → IsDb (set_uid_db_num_pos_0 db num)
unfolding set_uid_db_num_pos_0
IsDb-set_uid_db_num_pos_0 db num is_db = record {
  trie = is_db.trie;
  is_trie = record {
    stands = is_db.is_trie.stands;
    distinct = is_db.is_trie.distinct;
    parted = is_db.is_trie.parted;
    counted = is_db.is_trie.counted;
  };
  is_index = is_db.is_index;
  are_records = is_db.are_records;
}
