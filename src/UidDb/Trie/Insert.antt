-- ===== src/UidDb/Trie/Insert.antt =====
-- uid_db.c: `pat_insert` puts a new fork into the trie of a database.
use fetchmail.Prelude.{
  ℕ, suc, ◌≡◌, refl, sym, ap, ◌∙◌, inl, inr, Bool, not, Option, none, some, List, arith, length,
  get_elem?, Bytes,
}
use mathlib.Core.Path.{subst}
use fetchmail.UidDb.{Rec, PatNode, UidDb}
use fetchmail.UidDb.Trie.{bit_set, edge, place}
use fetchmail.UidDb.Trie.Tree.{
  Trie, nil, tip, fork, id_of, lookup, graft, HasId-lookup, IsParted, not_same,
}
use fetchmail.UidDb.Trie.Heap.{Stands, pointer, last}
use fetchmail.UidDb.Trie.Climb.{In, above}
use fetchmail.UidDb.Trie.Grown.{OffPath, above_cases, KeepsIds}
use fetchmail.UidDb.Trie.Regraft.{Stands-graft, entry}
use fetchmail.UidDb.Trie.Distinct.{AreDistinct-graft, forks-graft}
use fetchmail.UidDb.Trie.Parted.{IsParted-graft}
use fetchmail.UidDb.Trie.Bits.{IsFirstDiff}
use fetchmail.UidDb.Trie.Linked.{new_root}
use fetchmail.UidDb.Trie.Placed.{Inserted-place, In-Stands}
use fetchmail.UidDb.Trie.Search.{IsTrie}
use fetchmail.UidDb.Trie.Kept.{get_elem?_lt}

-- The tree stands as it stood when the records keep their identifiers.
pub Stands-ids :
    (nodes : List PatNode) (recs recs' : List Rec)
    → KeepsIds recs recs'
    → (s : Trie) (up : Option ℕ) (m : ℕ) (e : Option ℕ) → Stands nodes recs up m s e
    → Stands nodes recs' up m s e
Stands-ids nodes recs recs' keeps nil up m e stands = stands
Stands-ids nodes recs recs' keeps (tip t p k) up m e (is, n, at, before, n_rec, r, r_at, r_id) =
    let (r', r_at', same_id) = keeps p r r_at in
    (is, n, at, before, n_rec, r', r_at', same_id ∙ r_id)
Stands-ids nodes recs recs' keeps (fork i c ch) up m e (is, n, at, n_bit, n_up, behind, kids) = (
  is,
  n,
  at,
  n_bit,
  n_up,
  behind,
  λ b. Stands-ids nodes recs recs' keeps (ch b) (some i) (suc c) (edge n b) (kids b),
)

-- The bit in which an identifier differs from the one at the end of its path is not tested there.
OffPath-lookup :
    (d : ℕ) (id : Bytes) (s : Trie)
    → IsParted s
    → bit_set d (id_of (lookup id s)) ≡ not (bit_set d id)
    → OffPath d id s
OffPath-lookup d id nil parted apart = tt
OffPath-lookup d id (tip t p k) parted apart = tt
OffPath-lookup d id (fork i c ch) (kids, sides, agree) apart = (
  λ eq.
      let w = id_of (lookup id (ch (bit_set c id))) in
      let side = sides (bit_set c id) w (HasId-lookup id (ch (bit_set c id))) in
      let both : bit_set d id ≡ not (bit_set d id) = cc in not_same (bit_set d id) both,
  OffPath-lookup d id (ch (bit_set c id)) (kids (bit_set c id)) apart,
)

fresh :
    (db : UidDb) (s : Trie)
    → Stands db.pat_nodes db.records none 0 s db.pat_root
    → ¬ In (length db.pat_nodes) s
fresh db s stands has =
    let (n, at) =
      In-Stands db.pat_nodes db.records s none 0 db.pat_root (length db.pat_nodes) stands has in
    absurd (omega (arith, get_elem?_lt db.pat_nodes (length db.pat_nodes) n at))

-- The root after the insertion.
root_of :
    (db : UidDb) (d : ℕ) (id : Bytes) (s : Trie)
    → new_root db (above d id none s) ≡ entry d (length db.pat_nodes) s db.pat_root
root_of db d id s = elim (above_cases d id none s) [
  | inl (at_top, is) ↦ rw (is, at_top) refl
  | inr (deep, p, b, is, has) ↦ rw (is, deep) refl
]

module _ (db : UidDb) (pos : ℕ) (id : Bytes) (d : ℕ) (r : Rec)
    (r_at : get_elem? db.records pos ≡ some r) (r_id : r.id ≡ id) where
  abbrev pub grafted : Trie → Trie
  grafted s = graft d id (length db.pat_nodes) pos s

  -- The result of an insertion at that place.
  abbrev pub Result : Trie → Option UidDb → Type 0
  Result s result =
      (new : UidDb) × (result ≡ some new) × (new.records ≡ db.records) × IsTrie new (grafted s)

  pub IsTrie-grafted :
      (s : Trie) (new : UidDb)
      → IsTrie db s
      → IsFirstDiff d (id_of (lookup id s)) id
      → Stands new.pat_nodes new.records none 0 (grafted s) new.pat_root
      → length new.pat_nodes ≡ suc (length db.pat_nodes)
      → IsTrie new (grafted s)
  IsTrie-grafted s new is_trie diff stands longer = record {
    stands = stands;
    distinct =
        AreDistinct-graft d id (length db.pat_nodes) pos s is_trie.distinct
          (fresh db s is_trie.stands);
    parted = IsParted-graft d id (length db.pat_nodes) pos s is_trie.parted diff;
    counted = forks-graft d id (length db.pat_nodes) pos s ∙ ap suc is_trie.counted ∙ sym longer;
  }

  pub IsTrie-place :
      (i c : ℕ) (ch : Bool → Trie) (acc : ℕ × ℕ × Bool)
      → IsTrie db (fork i c ch)
      → IsFirstDiff d (id_of (lookup id (fork i c ch))) id
      → Result (fork i c ch) (
          place db pos id d
            (pointer (lookup id (fork i c ch)))
            (last id acc (fork i c ch)).0
            (last id acc (fork i c ch)).2)
  IsTrie-place i c ch acc is_trie diff =
      let s = fork i c ch in
      let root = is_trie.stands.0 in
      let stands : Stands db.pat_nodes db.records none 0 s (some i) = rw root at is_trie.stands in
      let (new, is, new_root_is, recs_are, longer, grown) =
        Inserted-place db pos id d i c ch acc r r_at r_id stands is_trie.distinct
          (omega (arith, is_trie.counted)) in
      let stands' =
        Stands-graft s none 0 db.pat_root grown is_trie.stands is_trie.distinct
          (OffPath-lookup d id s is_trie.parted diff.1) (omega arith) (λ j has b. refl) in
      let root' : new.pat_root ≡ entry d (length db.pat_nodes) s db.pat_root =
        new_root_is ∙ root_of db d id s in
      (
        new,
        is,
        recs_are,
        IsTrie-grafted s new is_trie diff
            (subst (λ y. Stands new.pat_nodes y none 0 (grafted s) new.pat_root) (sym recs_are)
              (subst (λ y. Stands new.pat_nodes db.records none 0 (grafted s) y) (sym root')
                stands'))
            longer,
      )
