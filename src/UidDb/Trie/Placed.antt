-- ===== src/UidDb/Trie/Placed.antt =====
-- uid_db.c: `place` links the new node in at the place that the abstract trie has for it.
use fetchmail.Prelude.{
  some_injective, ℕ, suc, ◌≤◌, ◌≡◌, refl, sym, ap, ◌∙◌, ◌≢◌, inl, inr, Bool, true, false, not,
  Option, none, some, List, arith, ltb, ◌==◌, Bool-cases, ◌>>=◌, length, get_elem?, Bytes, ==_ne,
}
use mathlib.Core.Path.{subst}
use fetchmail.UidDb.{Rec, PatNode, UidDb}
use fetchmail.UidDb.Trie.{bit_set, edge, is_left, place, link, walk_up, set_up, set_edge}
use fetchmail.UidDb.Trie.Tree.{Trie, nil, tip, fork, lookup}
use fetchmail.UidDb.Trie.Heap.{Stands, pointer, forks, last}
use fetchmail.UidDb.Trie.Climb.{
  In, AreDistinct, below, above, up_of, AtEnd, Climbed, locate_root, last_at,
}
use fetchmail.UidDb.Trie.Grown.{root-below, is_root, here, above_cases}
use fetchmail.UidDb.Trie.Linked.{Inserted, IsMoved-lookup, IsMoved-set_up, Grown-link}

below-here : (d : ℕ) (id : Bytes) (s : Trie) → here d s ≡ true → below d id s ≡ s
below-here d id nil e = refl
below-here d id (tip t pos k) e = refl
below-here d id (fork i c ch) e = rw e refl

module _ (nodes : List PatNode) (recs : List Rec) (d : ℕ) (id : Bytes) where
  -- A tree is not behind the pointer to a fork that is not in it.
  not_behind :
      (s : Trie) (up : Option ℕ) (m : ℕ) (e : Option ℕ) (x : ℕ) (n : PatNode)
      → Stands nodes recs up m s e
      → get_elem? nodes x ≡ some n
      → m ≤ n.bit_ndx
      → ¬ In x s
      → e ≢ some x
  not_behind nil up m e x n is at le away is_x = let no : none ≡ some x = sym is ∙ is_x in cc
  not_behind (tip t pos k) up m e x n (is, n', at', before, _, _, _, _) at le away is_x =
      let tx : t ≡ x = some_injective t x (sym is ∙ is_x) in
      let same_node : n' ≡ n = some_injective n' n (sym at' ∙ rw tx at) in
      absurd (omega (arith, ap (λ y. y.bit_ndx) same_node))
  not_behind (fork i c ch) up m e x n (is, _, _, _, _, _, _) at le away is_x =
      away (inl (some_injective i x (sym is ∙ is_x)))

  is_left-false : (n : PatNode) (x : ℕ) → n.left ≢ some x → is_left n x ≡ false
  is_left-false n x other = go n.left refl
    where
      go : (e : Option ℕ) → n.left ≡ e → (elim e [ none ↦ false | some j ↦ j == x ]) ≡ false
      go none is = refl
      go (some j) is = ==_ne j x (λ jx. other (is ∙ ap some jx))

  is_left-true : (n : PatNode) (x : ℕ) → n.left ≡ some x → is_left n x ≡ true
  is_left-true n x is = rw is (self x)
    where
      self : (j : ℕ) → (j == j) ≡ true
      self j = ground arith

  -- `ptrs(parent)[-1] == closest` tells the side.
  side_of :
      (i c x c' : ℕ) (ch ch' : Bool → Trie) (n : PatNode) (b : Bool)
      → ((a : Bool) → Stands nodes recs (some i) (suc c) (ch a) (edge n a))
      → ((a : Bool) (j : ℕ) → In j (ch a) → ¬ In j (ch (not a)))
      → ch b ≡ fork x c' ch'
      → not (is_left n x) ≡ b
  side_of i c x c' ch ch' n false kids apart is =
      let (at, _, _, _, _, _, _) =
        subst (λ t. Stands nodes recs (some i) (suc c) t n.left) is (kids false) in
      ap not (is_left-true n x at)
  side_of i c x c' ch ch' n true kids apart is =
      let (_, q, q_at, q_bit, _, behind, _) =
        subst (λ t. Stands nodes recs (some i) (suc c) t n.right) is (kids true) in
      let here_x : In x (ch true) = subst (In x) (sym is) (inl refl) in
      let other =
        not_behind (ch false) (some i) (suc c) n.left x q (kids false) q_at (omega (arith, q_bit))
          (apart true x here_x) in
      ap not (is_left-false n x other)

  edge_above :
      (s : Trie) (pe : Option (ℕ × Bool)) (m : ℕ) (e : Option ℕ)
      → Stands nodes recs (up_of pe) m s e
      → AreDistinct s
      → here d s ≡ false
      → (p : ℕ) × (b : Bool) × (q : PatNode) × (above d id pe s ≡ some (p, b))
        × (get_elem? nodes p ≡ some q)
        × ((x c : ℕ) (ch : Bool → Trie) → below d id s ≡ fork x c ch → not (is_left q x) ≡ b)
  edge_above nil pe m e stands distinct deep = cc
  edge_above (tip t pos k) pe m e stands distinct deep = cc
  edge_above (fork i c ch) pe m e (is, n, at, n_bit, up, behind, kids) (kids', root, apart) deep =
      elim (Bool-cases (here d (ch (bit_set c id)))) [
        | inl at_top ↦ elim (above_cases d id (some (i, bit_set c id)) (ch (bit_set c id))) [
          | inl (_, to) ↦ (
            i,
            bit_set c id,
            n,
            rw deep to,
            at,
            λ x c' ch' is_x.
                side_of i c x c' ch ch' n (bit_set c id) kids apart
                  (sym (below-here d id (ch (bit_set c id)) at_top) ∙ rw deep at is_x),
          )
          | inr (not_top, _, _, _, _) ↦ let no : true ≡ false = sym at_top ∙ not_top in cc
        ]
        | inr below_it ↦
            let (p, b, q, to, q_at, side) =
              edge_above (ch (bit_set c id)) (some (i, bit_set c id)) (suc c) _
                (kids (bit_set c id)) (kids' (bit_set c id)) below_it in
            (p, b, q, rw deep to, q_at, λ x c' ch' is_x. side x c' ch' (rw deep at is_x))
      ]

-- The nodes of the tree are there.
pub In-Stands :
    (nodes : List PatNode) (recs : List Rec) (s : Trie) (up : Option ℕ) (m : ℕ) (e : Option ℕ)
    (j : ℕ)
    → Stands nodes recs up m s e
    → In j s
    → (n : PatNode) × (get_elem? nodes j ≡ some n)
In-Stands nodes recs nil up m e j stands has = absurd has
In-Stands nodes recs (tip t pos k) up m e j stands has = absurd has
In-Stands nodes recs (fork i c ch) up m e j (is, n, at, _, _, _, kids) (inl ij) = (n, rw (← ij) at)
In-Stands nodes recs (fork i c ch) up m e j (is, n, at, _, _, _, kids) (inr (b, has)) =
    In-Stands nodes recs (ch b) (some i) (suc c) (edge n b) j (kids b) has

module _ (db : UidDb) (pos : ℕ) (id : Bytes) (d : ℕ) (closest : Option ℕ) (parent : ℕ)
    (right : Bool) where
  place_end :
      (pn : PatNode)
      → get_elem? db.pat_nodes parent ≡ some pn
      → ltb d pn.bit_ndx ≡ false
      → place db pos id d closest parent right
        ≡ link db pos id d closest (some (parent, right)) db.pat_nodes
  unfolding place link set_edge
  place_end pn at test = rw (at, ◌>>=◌, test) (rw (link, set_edge, at, ◌>>=◌) refl)

  place_top :
      (pn : PatNode) (np : ℕ) (moved : List PatNode)
      → get_elem? db.pat_nodes parent ≡ some pn
      → ltb d pn.bit_ndx ≡ true
      → walk_up (length db.pat_nodes) db.pat_nodes d parent ≡ some (np, none)
      → set_up db.pat_nodes np (length db.pat_nodes) ≡ some moved
      → place db pos id d closest parent right ≡ link db pos id d (some np) none moved
  unfolding place
  place_top pn np moved at test walked up = rw (at, ◌>>=◌, test, walked, ◌>>=◌, up, ◌>>=◌) refl

  place_inner :
      (pn : PatNode) (np p : ℕ) (moved : List PatNode) (q : PatNode)
      → get_elem? db.pat_nodes parent ≡ some pn
      → ltb d pn.bit_ndx ≡ true
      → walk_up (length db.pat_nodes) db.pat_nodes d parent ≡ some (np, some p)
      → set_up db.pat_nodes np (length db.pat_nodes) ≡ some moved
      → get_elem? db.pat_nodes p ≡ some q
      → place db pos id d closest parent right
        ≡ link db pos id d (some np) (some (p, not (is_left q np))) moved
  unfolding place
  place_inner pn np p moved q at test walked up there =
      rw (at, ◌>>=◌, test, walked, ◌>>=◌, up, ◌>>=◌, there, ◌>>=◌) refl

module _ (db : UidDb) (pos : ℕ) (id : Bytes) (d i c : ℕ) (ch : Bool → Trie)
    (acc : ℕ × ℕ × Bool) where
  abbrev tree : Trie
  tree = fork i c ch

  abbrev stop : ℕ × ℕ × Bool
  stop = last id acc tree

  abbrev placed : Option UidDb
  placed = place db pos id d (pointer (lookup id tree)) stop.0 stop.2

  transported :
      (x : Trie) (pe : Option (ℕ × Bool)) (result : Option UidDb)
      → below d id tree ≡ x
      → above d id none tree ≡ pe
      → placed ≡ result
      → Inserted db pos id d result pe x
      → Inserted db pos id d placed (above d id none tree) (below d id tree)
  transported x pe result is_x is_pe is inserted =
      subst (λ y. Inserted db pos id d placed y (below d id tree)) (sym is_pe)
        (subst (λ y. Inserted db pos id d placed pe y) (sym is_x)
          (subst (λ y. Inserted db pos id d y pe x) (sym is) inserted))

  module _ (r : Rec) (r_at : get_elem? db.records pos ≡ some r) (r_id : r.id ≡ id)
      (stands : Stands db.pat_nodes db.records none 0 tree (some i))
      (distinct : AreDistinct tree) where
    Inserted-AtEnd :
        (pn : PatNode)
        → get_elem? db.pat_nodes stop.0 ≡ some pn
        → pn.bit_ndx ≡ stop.1
        → AtEnd db.pat_nodes db.records id d none acc tree
        → Inserted db pos id d placed (above d id none tree) (below d id tree)
    Inserted-AtEnd pn at bit (is_x, is_pe, test) =
        let moved = IsMoved-lookup db.pat_nodes (length db.pat_nodes) id tree in
        transported (lookup id tree) (some (stop.0, stop.2)) _ is_x is_pe
          (place_end db pos id d (pointer (lookup id tree)) stop.0 stop.2 pn at (rw bit test))
          (Grown-link db pos id d (lookup id tree) db.pat_nodes moved (some (stop.0, stop.2)) r
            (pn, at) r_at r_id)

    Inserted-Climbed :
        (pn : PatNode)
        → get_elem? db.pat_nodes stop.0 ≡ some pn
        → pn.bit_ndx ≡ stop.1
        → Climbed db.pat_nodes db.records id (length db.pat_nodes) d none acc tree
        → Inserted db pos id d placed (above d id none tree) (below d id tree)
    Inserted-Climbed pn at bit (x, c', ch', is_x, behind, walked) =
        let test : ltb d pn.bit_ndx ≡ true = rw bit behind in
        let in_x : In x tree =
          root-below d id tree x (subst (λ t. is_root t x ≡ true) (sym is_x) (self x)) in
        let (n, n_at) = In-Stands db.pat_nodes db.records tree none 0 (some i) x stands in_x in
        let (moved, up, is_moved) =
          IsMoved-set_up db.pat_nodes (length db.pat_nodes) x c' ch' n n_at in
        elim (Bool-cases (here d tree)) [
          | inl at_top ↦
              let is_pe : above d id none tree ≡ none = rw at_top refl in
              transported (fork x c' ch') none _ is_x is_pe
                (place_top db pos id d _ stop.0 stop.2 pn x moved at test
                  (walked ∙ ap (λ y. some (x, up_of y)) is_pe) up)
                (Grown-link db pos id d (fork x c' ch') moved is_moved none r tt r_at r_id)
          | inr deep ↦
              let (p, b, q, is_pe, q_at, side) =
                edge_above db.pat_nodes db.records d id tree none 0 (some i) stands distinct deep in
              transported (fork x c' ch') (some (p, b)) _ is_x is_pe
                (place_inner db pos id d _ stop.0 stop.2 pn x p moved q at test
                    (walked ∙ ap (λ y. some (x, up_of y)) is_pe) up q_at
                  ∙ ap (λ y. link db pos id d (some x) (some (p, y)) moved) (side x c' ch' is_x))
                (Grown-link db pos id d (fork x c' ch') moved is_moved (some (p, b)) r (q, q_at)
                  r_at r_id)
        ]
      where
        self : (j : ℕ) → (j == j) ≡ true
        self j = ground arith

    pub Inserted-place :
        forks tree ≤ length db.pat_nodes
        → Inserted db pos id d placed (above d id none tree) (below d id tree)
    Inserted-place enough =
        let (is, n, at, n_bit, up, behind, kids) = stands in
        let (pn, pn_at, pn_bit) =
          last_at db.pat_nodes db.records id (ch (bit_set c id)) i c (bit_set c id) _ n
            (kids (bit_set c id)) at n_bit in
        elim (locate_root db.pat_nodes db.records id i c ch (length db.pat_nodes) d acc stands
          enough) [
            | inl at_end ↦ Inserted-AtEnd pn pn_at pn_bit at_end
            | inr climbed ↦ Inserted-Climbed pn pn_at pn_bit climbed
          ]
