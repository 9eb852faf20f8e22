-- ===== src/UidDb/Trie/Linked.antt =====
-- uid_db.c: the nodes after the last part of `pat_insert`, which links the new node.
use fetchmail.Prelude.{
  some_injective, ℕ, suc, ◌≡◌, refl, sym, ap, ◌∙◌, inl, inr, Bool, true, false, not, Option, none,
  some, List, [], ◌∷◌, ◌++◌, arith, ◌==◌, if◌then◌else◌, Bool-cases, length, get_elem?, set,
  length-append, length-set, get_elem?-append_left, get_elem?-append_right, get_elem?-set_self,
  get_elem?-set_ne, Bytes,
}
use fetchmail.UidDb.{Rec, PatNode, UidDb}
use fetchmail.UidDb.Trie.{bit_set, edge, set_edge, set_up, new_node, link}
use fetchmail.UidDb.Trie.Tree.{Trie, nil, tip, fork, same, lookup}
use fetchmail.UidDb.Trie.Heap.{pointer}
use fetchmail.UidDb.Trie.Climb.{up_of}
use fetchmail.UidDb.Trie.Grown.{is_root, edit, Grown}
use fetchmail.UidDb.Trie.Kept.{get_elem?_lt}

-- The nodes once `*ptrs(closest)` is written.
abbrev pub IsMoved : List PatNode → ℕ → Trie → List PatNode → Type 0
IsMoved nodes me x moved =
    (length moved ≡ length nodes)
    × ((j : ℕ) (n : PatNode)
        → get_elem? nodes j ≡ some n
        → get_elem? moved j ≡ some (edit me none x j n))

no_root : (id : Bytes) (s : Trie) (j : ℕ) → is_root (lookup id s) j ≡ false
no_root id nil j = refl
no_root id (tip t pos k) j = refl
no_root id (fork i c ch) j = no_root id (ch (bit_set c id)) j

-- At the end of a path there is nothing to write.
pub IsMoved-lookup :
    (nodes : List PatNode) (me : ℕ) (id : Bytes) (s : Trie) → IsMoved nodes me (lookup id s) nodes
IsMoved-lookup nodes me id s = (refl, λ j n at. rw (no_root id s j) at)

pub IsMoved-set_up :
    (nodes : List PatNode) (me i c : ℕ) (ch : Bool → Trie) (n : PatNode)
    → get_elem? nodes i ≡ some n
    → (moved : List PatNode) × (set_up nodes i me ≡ some moved)
      × IsMoved nodes me (fork i c ch) moved
unfolding set_up
IsMoved-set_up nodes me i c ch n at = (
  set nodes i (record n { up = some me }),
  rw at refl,
  (
    length-set nodes i (record n { up = some me }),
    λ j m there. elim (Bool-cases (i == j)) [
      | inl e ↦
          let ij : i ≡ j = ground arith in
          let nm : n ≡ m = some_injective n m (sym at ∙ rw ij there) in
          rw (e, ← ij, ← nm)
            (get_elem?-set_self nodes i (record n { up = some me }) (get_elem?_lt nodes i n at))
      | inr e ↦
          rw e (get_elem?-set_ne nodes (record n { up = some me }) (λ ij. ground arith) ∙ there)
    ],
  ),
)

-- Whether the pointer leads somewhere.
abbrev pub IsEdge : List PatNode → Option (ℕ × Bool) → Type 0
IsEdge nodes none = Unit
IsEdge nodes (some (p, b)) = (q : PatNode) × (get_elem? nodes p ≡ some q)

-- The pointer to the tree.
abbrev pub new_root : UidDb → Option (ℕ × Bool) → Option ℕ
new_root db none = some (length db.pat_nodes)
new_root db (some e) = db.pat_root

-- What `pat_insert` makes of the database.
abbrev pub Inserted : UidDb → ℕ → Bytes → ℕ → Option UidDb → Option (ℕ × Bool) → Trie → Type 0
Inserted db pos id d result pe x =
    (new : UidDb) × (result ≡ some new)
    × (new.pat_root ≡ new_root db pe)
    × (new.records ≡ db.records)
    × (length new.pat_nodes ≡ suc (length db.pat_nodes))
    × Grown db.pat_nodes db.records new.pat_nodes db.records d id (length db.pat_nodes) pos pe x

module _ (db : UidDb) (pos : ℕ) (id : Bytes) (d : ℕ) (x : Trie) (moved : List PatNode)
    (is_moved : IsMoved db.pat_nodes (length db.pat_nodes) x moved) where
  -- `*edge = np`
  abbrev IsLinked : Option (ℕ × Bool) → List PatNode → Type 0
  IsLinked pe linked =
      (length linked ≡ length db.pat_nodes)
      × ((j : ℕ) (n : PatNode)
          → get_elem? db.pat_nodes j ≡ some n
          → get_elem? linked j ≡ some (edit (length db.pat_nodes) pe x j n))

  IsLinked-set_edge :
      (p : ℕ) (b : Bool) (q : PatNode)
      → get_elem? db.pat_nodes p ≡ some q
      → (linked : List PatNode) × (set_edge moved p b (length db.pat_nodes) ≡ some linked)
        × IsLinked (some (p, b)) linked
  unfolding set_edge
  IsLinked-set_edge p b q at =
      let me = length db.pat_nodes in
      let old = edit me none x p q in
      let at' = is_moved.1 p q at in
      let new = if b then record old { right = some me } else record old { left = some me } in
      (
        set moved p new,
        rw at' refl,
        (
          length-set moved p new ∙ is_moved.0,
          λ j m there. elim (Bool-cases (p == j)) [
            | inl e ↦
                let pj : p ≡ j = ground arith in
                let qm : q ≡ m = some_injective q m (sym at ∙ rw pj there) in
                rw (e, ← pj, ← qm)
                  (get_elem?-set_self moved p new (get_elem?_lt moved p old at')
                    ∙ ap some (sides b me old))
            | inr e ↦ rw e (get_elem?-set_ne moved new (λ pj. ground arith) ∙ is_moved.1 j m there)
          ],
        ),
      )
    where
      sides :
          (b : Bool) (me : ℕ) (n : PatNode)
          → (if b then record n { right = some me } else record n { left = some me }) ≡ record n {
            left = if same b false then some me else n.left;
            right = if same b true then some me else n.right;
          }
      sides true me n = refl
      sides false me n = refl

  edge-new_node :
      (me : ℕ) (up : Option ℕ) (b : Bool)
      → edge (new_node me d id (pointer x) up pos) b
        ≡ (if same (bit_set d id) b then some me else pointer x)
  unfolding new_node
  edge-new_node me up b = elim (Bool-cases (bit_set d id)) [
    | inl e ↦ rw e (when_set b)
    | inr e ↦ rw e (when_clear b)
  ]
    where
      when_set :
          (b : Bool) → (if b then some me else pointer x) ≡ (if b then some me else pointer x)
      when_set b = refl

      when_clear :
          (b : Bool) → (if b then pointer x else some me) ≡ (if not b then some me else pointer x)
      when_clear true = refl
      when_clear false = refl

  Grown-append :
      (pe : Option (ℕ × Bool)) (linked : List PatNode) (r : Rec)
      → IsLinked pe linked
      → get_elem? db.records pos ≡ some r
      → r.id ≡ id
      → Grown db.pat_nodes db.records
          (linked ++ new_node (length db.pat_nodes) d id (pointer x) (up_of pe) pos ∷ [])
          db.records
          d
          id
          (length db.pat_nodes)
          pos
          pe
          x
  unfolding new_node
  Grown-append pe linked r (same_length, kept) r_at r_id =
      let me = length db.pat_nodes in
      let n = new_node me d id (pointer x) (up_of pe) pos in
      record {
        kept = λ j m at.
            let moved_at = kept j m at in
            get_elem?-append_left linked (n ∷ []) j (get_elem?_lt linked j _ moved_at) ∙ moved_at;
        made = (
          n,
          get_elem?-append_right linked (n ∷ []) me 0 (omega (arith, same_length)),
          refl,
          refl,
          refl,
          edge-new_node me (up_of pe),
        );
        ids = λ p r' at. (r', at, refl);
        own = (r, r_at, r_id);
      }

  pub Grown-link :
      (pe : Option (ℕ × Bool)) (r : Rec)
      → IsEdge db.pat_nodes pe
      → get_elem? db.records pos ≡ some r
      → r.id ≡ id
      → Inserted db pos id d (link db pos id d (pointer x) pe moved) pe x
  unfolding link
  Grown-link none r edge_at r_at r_id = (
    _,
    refl,
    refl,
    refl,
    length-append moved _ ∙ omega (arith, is_moved.0),
    Grown-append none moved r is_moved r_at r_id,
  )
  Grown-link (some (p, b)) r (q, at) r_at r_id =
      let (linked, is, changed) = IsLinked-set_edge p b q at in
      (
        record db {
          pat_nodes = linked ++ new_node (length db.pat_nodes) d id (pointer x) (some p) pos ∷ [];
        },
        rw is refl,
        refl,
        refl,
        length-append linked _ ∙ omega (arith, changed.0),
        Grown-append (some (p, b)) linked r changed r_at r_id,
      )
