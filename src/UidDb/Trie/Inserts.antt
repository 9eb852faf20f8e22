-- ===== src/UidDb/Trie/Inserts.antt =====
-- uid_db.c: `pat_insert` on every database whose trie is in order.
use fetchmail.Prelude.{
  ℕ, suc, ◌≡◌, refl, sym, ap, ◌∙◌, ◌⊎◌, inl, inr, Bool, true, false, not, Option, none, some, List,
  [], ◌∷◌, ◌++◌, arith, Option-cases, ◌>>=◌, length, get_elem?, length-append,
  get_elem?-append_right, Bytes,
}
use mathlib.Core.Path.{subst}
use fetchmail.UidDb.{Rec, PatNode, UidDb}
use fetchmail.UidDb.Trie.{
  bit_set, edge, place, first_node, insert_at, insert_near, standalone_bit, find_first_diff_bit,
  append_to_list,
}
use fetchmail.UidDb.Trie.Tree.{put, Trie, nil, tip, fork, id_of, lookup, HasTip, IsTip}
use fetchmail.UidDb.Trie.Heap.{Stands, pointer, last, walk_down-Stands}
use fetchmail.UidDb.Trie.Bits.{
  IsFirstDiff, IsFirstDiff-nil, bit_set-nil, find_first_diff_bit-none, find_first_diff_bit-some,
}
use fetchmail.UidDb.Trie.Search.{IsTrie, IsUid, end_cases, HasEnd-lookup}
use fetchmail.UidDb.Trie.Insert.{Result, IsTrie-place, IsTrie-grafted}

-- The bit of a node that has no other node beside it.
standalone_lem : (id : Bytes) → IsUid id → IsFirstDiff (standalone_bit id) [] id
standalone_lem [] (nonempty, _) = absurd (nonempty refl)
standalone_lem (x ∷ s) (_, ((nonzero, fits), _)) = IsFirstDiff-nil x s nonzero fits

unnegated : (b : Bool) → false ≡ not b → b ≡ true
unnegated true e = refl
unnegated false e = e

-- `pat_insert` behind the walk, for each of its cases.
module _ (db : UidDb) (pos : ℕ) (id : Bytes) (closest : Option ℕ) (parent : ℕ) (right : Bool) where
  near_none :
      closest ≡ none
      → insert_near closest db pos id parent right
        ≡ place db pos id (standalone_bit id) closest parent right
  unfolding insert_near
  near_none is =
      subst
        (λ y.
          insert_near y db pos id parent right ≡ place db pos id (standalone_bit id) y parent right)
        (sym is) refl

  module _ (t p : ℕ) (n : PatNode) (q : Rec) (is : closest ≡ some t)
      (at : get_elem? db.pat_nodes t ≡ some n) (n_rec : n.rec ≡ p)
      (q_at : get_elem? db.records p ≡ some q) where
    near_some : insert_near closest db pos id parent right ≡ (elim (find_first_diff_bit 0 q.id id) [
      | none ↦ append_to_list db p pos
      | some b ↦ place db pos id b (some t) parent right
    ])
    unfolding insert_near
    near_some =
        let there : get_elem? db.records n.rec ≡ some q = ap (get_elem? db.records) n_rec ∙ q_at in
        rw (is, at, ◌>>=◌, there, ◌>>=◌)
          (ap
            (λ y. elim (find_first_diff_bit 0 q.id id) [
              | none ↦ append_to_list db y pos
              | some b ↦ place db pos id b (some t) parent right
            ])
            n_rec)

    near_known :
        find_first_diff_bit 0 q.id id ≡ none
        → insert_near closest db pos id parent right ≡ append_to_list db p pos
    near_known same = near_some ∙ rw same refl

    near_new :
        (b : ℕ)
        → find_first_diff_bit 0 q.id id ≡ some b
        → insert_near closest db pos id parent right ≡ place db pos id b closest parent right
    near_new b differ = near_some ∙ rw (differ, is) refl

module _ (db : UidDb) (pos : ℕ) (id : Bytes) (is_uid : IsUid id) (r : Rec)
    (r_at : get_elem? db.records pos ≡ some r) (r_id : r.id ≡ id) where
  first_kids :
      (me : ℕ) (n : PatNode) (nodes : List PatNode)
      → get_elem? nodes me ≡ some n
      → n ≡ first_node me id pos
      → IsFirstDiff (standalone_bit id) [] id
      → (b : Bool)
      → Stands nodes db.records
          (some me)
          (suc (standalone_bit id))
          (put (bit_set (standalone_bit id) id) (tip me pos id) (λ _. nil) b)
          (edge n b)
  first_kids me n nodes at is diff b = rw set (go b)
    where
      set : bit_set (standalone_bit id) id ≡ true
      set =
          unnegated (bit_set (standalone_bit id) id)
            (sym (bit_set-nil (standalone_bit id)) ∙ diff.1)

      go :
          (b : Bool)
          → Stands nodes db.records
              (some me)
              (suc (standalone_bit id))
              (put true (tip me pos id) (λ _. nil) b)
              (edge n b)
      go true = (
        ap (λ y. y.right) is,
        n,
        at,
        omega (arith, ap (λ y. y.bit_ndx) is),
        ap (λ y. y.rec) is,
        r,
        r_at,
        r_id,
      )
      go false = ap (λ y. y.left) is

  -- The first node.
  IsTrie-first :
      IsTrie db nil
      → Result db pos id (standalone_bit id) r r_at r_id nil (insert_at none db pos id)
  unfolding insert_at
  IsTrie-first is_trie =
      let me = length db.pat_nodes in
      let n = first_node me id pos in
      let diff = standalone_lem id is_uid in
      let at = get_elem?-append_right db.pat_nodes (n ∷ []) me 0 (omega arith) in
      let new = record db { pat_root = some me; pat_nodes = db.pat_nodes ++ n ∷ [] } in
      (
        new,
        refl,
        refl,
        IsTrie-grafted db pos id (standalone_bit id) r r_at r_id nil new is_trie diff
            (refl, n, at, refl, refl, omega arith, first_kids me n _ at refl diff)
            (length-append db.pat_nodes (n ∷ []) ∙ omega arith),
      )

  -- What comes of an insertion: a new fork, or the end of a list.
  abbrev pub Outcome : Trie → Option UidDb → Type 0
  Outcome s result =
      ((d : ℕ) × IsFirstDiff d (id_of (lookup id s)) id × Result db pos id d r r_at r_id s result)
      ⊎ ((p : ℕ) × HasTip s p id × (result ≡ append_to_list db p pos))

  module _ (i c : ℕ) (ch : Bool → Trie) (acc : ℕ × ℕ × Bool) (is_trie : IsTrie db (fork i c ch))
      (are_ids : (p : ℕ) (q : Rec) → get_elem? db.records p ≡ some q → IsUid q.id) where
    abbrev tree : Trie
    tree = fork i c ch

    abbrev near : Option UidDb
    near =
        insert_near (pointer (lookup id tree)) db pos id (last id acc tree).0 (last id acc tree).2

    forked :
        (d : ℕ)
        → IsFirstDiff d (id_of (lookup id tree)) id
        → near
          ≡ place db pos id d (pointer (lookup id tree)) (last id acc tree).0 (last id acc tree).2
        → Outcome tree near
    forked d diff is =
        let (new, placed, recs, trie) =
          IsTrie-place db pos id d r r_at r_id i c ch acc is_trie diff in
        inl (d, diff, (new, is ∙ placed, recs, trie))

    outcome_near : Outcome tree near
    outcome_near =
        elim (end_cases db.pat_nodes db.records id tree none 0 db.pat_root is_trie.stands) [
          | inl is ↦
              forked (standalone_bit id)
                (subst (λ y. IsFirstDiff (standalone_bit id) (id_of y) id) (sym is)
                  (standalone_lem id is_uid))
                (near_none db pos id _ _ _ (ap pointer is))
          | inr (t, p, k, is, n, at, n_rec, q, q_at, q_id) ↦
              elim (Option-cases (find_first_diff_bit 0 q.id id)) [
                | inl same ↦
                    let k_id : k ≡ id = sym q_id ∙ find_first_diff_bit-none 0 q.id id same in
                    inr (
                      p,
                      HasEnd-lookup (IsTip p id) id tree (rw is (refl, sym k_id)),
                      near_known db pos id _ _ _ t p n q (ap pointer is) at n_rec q_at same,
                    )
                | inr (b, differ) ↦
                    let (d, b_d, diff) =
                      find_first_diff_bit-some 0 q.id id b (are_ids p q q_at).1 is_uid.1 differ in
                    forked b
                      (subst (λ y. IsFirstDiff b (id_of y) id) (sym is)
                        (subst (λ y. IsFirstDiff b y id) q_id
                          (subst (λ y. IsFirstDiff y q.id id) {x = d} {y = b} (omega (arith, b_d))
                            diff)))
                      (near_new db pos id _ _ _ t p n q (ap pointer is) at n_rec q_at b differ)
              ]
        ]

    outcome_fork : Outcome tree (insert_at (some i) db pos id)
    unfolding insert_at
    outcome_fork =
        let root = is_trie.stands.0 in
        let stands : Stands db.pat_nodes db.records none 0 tree (some i) =
          rw root at is_trie.stands in
        let walked =
          walk_down-Stands db.pat_nodes db.records id i c ch (length db.pat_nodes) acc stands
            (omega (arith, is_trie.counted)) in
        rw (walked, ◌>>=◌) outcome_near

  pub outcome :
      (s : Trie)
      → IsTrie db s
      → ((p : ℕ) (q : Rec) → get_elem? db.records p ≡ some q → IsUid q.id)
      → Outcome s (insert_at db.pat_root db pos id)
  outcome nil is_trie are_ids =
      subst (λ y. Outcome nil (insert_at y db pos id)) (sym is_trie.stands)
        (inl (standalone_bit id, standalone_lem id is_uid, IsTrie-first is_trie))
  outcome (tip t p k) is_trie are_ids =
      let (is, n, at, before, n_rec, q, q_at, q_id) = is_trie.stands in absurd (omega arith)
  outcome (fork i c ch) is_trie are_ids =
      subst (λ y. Outcome (fork i c ch) (insert_at y db pos id)) (sym is_trie.stands.0)
        (outcome_fork i c ch (0, 0, true) is_trie are_ids)
