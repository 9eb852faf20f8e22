-- ===== src/UidDb/Trie/Grown.antt =====
-- uid_db.c: the nodes of a trie after a node was linked in, and the abstract trie that stands in them.
use fetchmail.Prelude.{
  ℕ, suc, ◌≡◌, refl, ◌∙◌, ◌≢◌, ◌⊎◌, inl, inr, Bool, true, false, ◌&&◌, Option, none, some, List,
  arith, ltb, ◌==◌, if◌then◌else◌, Bool-cases, get_elem?, Bytes,
}
use fetchmail.UidDb.{Rec, PatNode}
use fetchmail.UidDb.Trie.{bit_set, edge}
use fetchmail.UidDb.Trie.Tree.{Trie, nil, tip, fork, same}
use fetchmail.UidDb.Trie.Heap.{Stands, pointer}
use fetchmail.UidDb.Trie.Climb.{In, below, above, up_of}

-- Whether the pointer `pe` is that of the node `j`, for the value `b` of its bit.
abbrev pub is_at : Option (ℕ × Bool) → ℕ → Bool → Bool
is_at none j b = false
is_at (some (p, a)) j b = (p == j) && same a b

abbrev pub is_root : Trie → ℕ → Bool
is_root nil j = false
is_root (tip t pos id) j = false
is_root (fork i c ch) j = i == j

-- A node that was there: the pointer `pe` is now to `me`, and `*ptrs(closest)` is `me`.
abbrev pub edit : ℕ → Option (ℕ × Bool) → Trie → ℕ → PatNode → PatNode
edit me pe x j n = record n {
  left = if is_at pe j false then some me else n.left;
  up = if is_root x j then some me else n.up;
  right = if is_at pe j true then some me else n.right;
}

pub edge-edit :
    (me : ℕ) (pe : Option (ℕ × Bool)) (x : Trie) (j : ℕ) (n : PatNode) (b : Bool)
    → edge (edit me pe x j n) b ≡ (if is_at pe j b then some me else edge n b)
edge-edit me pe x j n true = refl
edge-edit me pe x j n false = refl

abbrev pub KeepsIds : List Rec → List Rec → Type 0
KeepsIds recs recs' =
    (p : ℕ) (r : Rec)
    → get_elem? recs p ≡ some r
    → (r' : Rec) × (get_elem? recs' p ≡ some r') × (r'.id ≡ r.id)

-- What `place` makes of the nodes and of the records.
pub record Grown (nodes : List PatNode) (recs : List Rec) (nodes' : List PatNode) (recs' : List Rec)
    (d : ℕ) (id : Bytes) (me pos : ℕ) (pe : Option (ℕ × Bool)) (x : Trie) : Type 0 where
  pub kept :
      (j : ℕ) (n : PatNode)
      → get_elem? nodes j ≡ some n
      → get_elem? nodes' j ≡ some (edit me pe x j n)
  pub made :
      (n : PatNode) × (get_elem? nodes' me ≡ some n)
      × (n.bit_ndx ≡ d)
      × (n.up ≡ up_of pe)
      × (n.rec ≡ pos)
      × ((b : Bool) → edge n b ≡ (if same (bit_set d id) b then some me else pointer x))
  pub ids : KeepsIds recs recs'
  pub own : (r : Rec) × (get_elem? recs' pos ≡ some r) × (r.id ≡ id)

-- Whether the new fork is put above the whole tree.
abbrev pub here : ℕ → Trie → Bool
here d nil = true
here d (tip t pos id) = true
here d (fork i c ch) = ltb d c

-- No fork on the path of an identifier has the bit `d`.
abbrev pub OffPath : ℕ → Bytes → Trie → Type 0
OffPath d id nil = Unit
OffPath d id (tip t pos k) = Unit
OffPath d id (fork i c ch) = (c ≢ d) × OffPath d id (ch (bit_set c id))

pub root-below : (d : ℕ) (id : Bytes) (s : Trie) (j : ℕ) → is_root (below d id s) j ≡ true → In j s
root-below d id nil j e = cc
root-below d id (tip t pos k) j e = cc
root-below d id (fork i c ch) j e = elim (Bool-cases (ltb d c)) [
  | inl h ↦ let e' = rw h at e in inl (ground arith)
  | inr h ↦ inr (bit_set c id, root-below d id (ch (bit_set c id)) j (rw h at e))
]

pub above_cases :
    (d : ℕ) (id : Bytes) (pe : Option (ℕ × Bool)) (s : Trie)
    → ((here d s ≡ true) × (above d id pe s ≡ pe))
      ⊎ ((here d s ≡ false) × (p : ℕ) × (b : Bool) × (above d id pe s ≡ some (p, b)) × In p s)
above_cases d id pe nil = inl (refl, refl)
above_cases d id pe (tip t pos k) = inl (refl, refl)
above_cases d id pe (fork i c ch) = elim (Bool-cases (ltb d c)) [
  | inl h ↦ inl (h, rw h refl)
  | inr h ↦ elim (above_cases d id (some (i, bit_set c id)) (ch (bit_set c id))) [
    | inl (at_top, e) ↦ inr (h, i, bit_set c id, rw h e, inl refl)
    | inr (deep, p, b, e, has) ↦ inr (h, p, b, rw h e, inr (bit_set c id, has))
  ]
]

module _ {nodes : List PatNode} {recs : List Rec} {nodes' : List PatNode} {recs' : List Rec} {d : ℕ}
    {id : Bytes} {me pos : ℕ} {pe : Option (ℕ × Bool)} {x : Trie}
    (grown : Grown nodes recs nodes' recs' d id me pos pe x) where
  -- A tree with neither the changed pointer nor the root of `x` stands as it stood.
  pub Stands-kept :
      (s : Trie) (up : Option ℕ) (m : ℕ) (e : Option ℕ)
      → Stands nodes recs up m s e
      → ((j : ℕ) → In j s → (is_root x j ≡ false) × ((b : Bool) → is_at pe j b ≡ false))
      → Stands nodes' recs' up m s e
  Stands-kept nil up m e stands away = stands
  Stands-kept (tip t p k) up m e (is, n, at, before, n_rec, r, r_at, r_id) away =
      let (r', r_at', same_id) = grown.ids p r r_at in
      (is, edit me pe x t n, grown.kept t n at, before, n_rec, r', r_at', same_id ∙ r_id)
  Stands-kept (fork i c ch) up m e (is, n, at, n_bit, n_up, behind, kids) away =
      let (no_root, no_edge) = away i (inl refl) in
      (
        is,
        edit me pe x i n,
        grown.kept i n at,
        n_bit,
        rw no_root n_up,
        behind,
        λ b.
            let to : edge (edit me pe x i n) b ≡ edge n b =
              edge-edit me pe x i n b ∙ rw (no_edge b) refl in
            rw to (
              Stands-kept (ch b) (some i) (suc c) (edge n b) (kids b)
                (λ j has. away j (inr (b, has)))),
      )
