-- ===== src/UidDb/Trie/Regraft.antt =====
-- uid_db.c: the nodes of a trie, with a node linked in, are those of the abstract trie with a new
-- fork.
use fetchmail.Prelude.{
  ℕ, suc, ◌≤◌, ◌≡◌, refl, ◌∙◌, ◌≢◌, inl, inr, Bool, true, false, not, ◌&&◌, Option, some, List,
  arith, ltb, ◌==◌, if◌then◌else◌, tests, Bool-cases, Bytes, ==_ne,
}
use fetchmail.UidDb.{Rec, PatNode}
use fetchmail.UidDb.Trie.{bit_set, edge}
use fetchmail.UidDb.Trie.Tree.{Trie, nil, tip, fork, same, same_refl, same_cases, put, split, graft}
use fetchmail.UidDb.Trie.Heap.{Stands, pointer}
use fetchmail.UidDb.Trie.Climb.{In, AreDistinct, below, above, up_of}
use fetchmail.UidDb.Trie.Grown.{
  is_at, is_root, edit, Grown, here, OffPath, root-below, above_cases, edge-edit, Stands-kept,
}

-- What the edge to the tree becomes.
abbrev pub entry : ℕ → ℕ → Trie → Option ℕ → Option ℕ
entry d me s e = if here d s then some me else e

-- The changes are in the subtree on the path, or at the edge to it.
root_away : (d : ℕ) (id : Bytes) (s : Trie) (j : ℕ) → ¬ In j s → is_root (below d id s) j ≡ false
root_away d id s j away = elim (Bool-cases (is_root (below d id s) j)) [
  | inl e ↦ absurd (away (root-below d id s j e))
  | inr e ↦ e
]

edge_away :
    (d : ℕ) (id : Bytes) (s : Trie) (i : ℕ) (b : Bool) (j : ℕ) (a : Bool)
    → i ≢ j
    → ¬ In j s
    → is_at (above d id (some (i, b)) s) j a ≡ false
edge_away d id s i b j a other away = elim (above_cases d id (some (i, b)) s) [
  | inl (_, e) ↦ rw (e, ==_ne i j other) refl
  | inr (_, p, a', e, has) ↦ rw (e, ==_ne p j (λ eq. away (rw (← eq) has))) refl
]

edge_here :
    (d : ℕ) (id : Bytes) (s : Trie) (i : ℕ) (b a : Bool)
    → ¬ In i s
    → is_at (above d id (some (i, b)) s) i a ≡ (same b a && here d s)
edge_here d id s i b a away = elim (above_cases d id (some (i, b)) s) [
  | inl (at_top, e) ↦ rw (e, at_top, self i) (and_true (same b a))
  | inr (deep, p, a', e, has) ↦
      rw (e, ==_ne p i (λ eq. away (rw (← eq) has)), deep) (and_false (same b a))
]
  where
    self : (j : ℕ) → (j == j) ≡ true
    self j = ground arith

    and_true : (x : Bool) → x ≡ (x && true)
    and_true true = refl
    and_true false = refl

    and_false : (x : Bool) → false ≡ (x && false)
    and_false true = refl
    and_false false = refl

module _ {nodes : List PatNode} {recs : List Rec} {nodes' : List PatNode} {recs' : List Rec} {d : ℕ}
    {id : Bytes} {me pos : ℕ} where
  -- The tree behind the other edge of the new node.
  Stands-moved :
      (x : Trie) (pe : Option (ℕ × Bool)) (m : ℕ) (e : Option ℕ)
      → Grown nodes recs nodes' recs' d id me pos pe x
      → Stands nodes recs (up_of pe) m x e
      → AreDistinct x
      → here d x ≡ true
      → m ≤ d
      → ((j : ℕ) → In j x → (b : Bool) → is_at pe j b ≡ false)
      → Stands nodes' recs' (some me) (suc d) x (pointer x)
  Stands-moved nil pe m e grown stands distinct at_top le away = refl
  Stands-moved (tip t p k) pe m e grown stands distinct at_top le away =
      let (_, n, at, before, n_rec, r, r_at, r_id) =
        Stands-kept grown (tip t p k) (up_of pe) m e stands (λ j has. absurd has) in
      (refl, n, at, omega arith, n_rec, r, r_at, r_id)
  Stands-moved (fork i c ch) pe m e grown (is, n, at, n_bit, n_up, behind, kids) (_, root, _) at_top
        le away =
      (
        refl,
        edit me pe (fork i c ch) i n,
        grown.kept i n at,
        n_bit,
        rw (i_is i) refl,
        omega (tests, at_top),
        λ b.
            let to : edge (edit me pe (fork i c ch) i n) b ≡ edge n b =
              edge-edit me pe (fork i c ch) i n b ∙ rw (away i (inl refl) b) refl in
            rw to (
              Stands-kept grown (ch b) (some i) (suc c) (edge n b) (kids b) (λ j has.
                (==_ne i j (λ same_one. root b (rw (← same_one) at has)), away j (inr (b, has))))),
      )
    where
      i_is : (j : ℕ) → (j == j) ≡ true
      i_is j = ground arith

  Stands-split :
      (x : Trie) (pe : Option (ℕ × Bool)) (m : ℕ) (e : Option ℕ)
      → Grown nodes recs nodes' recs' d id me pos pe x
      → Stands nodes recs (up_of pe) m x e
      → AreDistinct x
      → here d x ≡ true
      → m ≤ d
      → ((j : ℕ) → In j x → (b : Bool) → is_at pe j b ≡ false)
      → Stands nodes' recs' (up_of pe) m (split d id me pos x) (some me)
  Stands-split x pe m e grown stands distinct at_top le away =
      let (n, at, n_bit, n_up, n_rec, edges) = grown.made in
      let (r, r_at, r_id) = grown.own in
      (
        refl,
        n,
        at,
        n_bit,
        n_up,
        le,
        λ b. elim (same_cases b (bit_set d id)) [
          | inl is ↦
              let to : edge n b ≡ some me = edges b ∙ rw (is, same_refl (bit_set d id)) refl in
              rw (to, is, same_refl (bit_set d id))
                (refl, n, at, omega (arith, n_bit), n_rec, r, r_at, r_id)
          | inr (other, _) ↦
              let to : edge n b ≡ pointer x = edges b ∙ rw other refl in
              rw (to, other) (Stands-moved x pe m e grown stands distinct at_top le away)
        ],
      )

  -- The subtrees of a fork on the path.
  Stands-kid :
      (i c : ℕ) (ch : Bool → Trie) (b : Bool) (n : PatNode)
      → Grown nodes recs nodes' recs' d id me pos
          (above d id (some (i, b)) (ch b))
          (below d id (ch b))
      → ((a : Bool) → Stands nodes recs (some i) (suc c) (ch a) (edge n a))
      → ((a : Bool) → ¬ In i (ch a))
      → ((j : ℕ) → In j (ch b) → ¬ In j (ch (not b)))
      → Stands nodes' recs'
          (some i)
          (suc c)
          (graft d id me pos (ch b))
          (entry d me (ch b) (edge n b))
      → (a : Bool)
      → Stands nodes' recs'
          (some i)
          (suc c)
          (put b (graft d id me pos (ch b)) ch a)
          (edge (edit me (above d id (some (i, b)) (ch b)) (below d id (ch b)) i n) a)
  Stands-kid i c ch b n grown kids root apart deep a = elim (same_cases a b) [
    | inl is ↦ rw (is, to b, same_refl b) deep
    | inr (other, is) ↦
        rw (to a, other)
          (Stands-kept grown (ch a) (some i) (suc c) (edge n a) (kids a) (λ j has.
            let not_here : ¬ In j (ch b) = λ in_b. apart j in_b (rw is at has) in
            (
              root_away d id (ch b) j not_here,
              λ a'. edge_away d id (ch b) i b j a' (λ eq. root a (rw (← eq) at has)) not_here,
            )))
  ]
    where
      to :
          (a : Bool)
          → edge (edit me (above d id (some (i, b)) (ch b)) (below d id (ch b)) i n) a
            ≡ (if same b a && here d (ch b) then some me else edge n a)
      to a =
          edge-edit me (above d id (some (i, b)) (ch b)) (below d id (ch b)) i n a
          ∙ rw (edge_here d id (ch b) i b a (root b)) refl

  pub Stands-graft :
      (s : Trie) (pe : Option (ℕ × Bool)) (m : ℕ) (e : Option ℕ)
      → Grown nodes recs nodes' recs' d id me pos (above d id pe s) (below d id s)
      → Stands nodes recs (up_of pe) m s e
      → AreDistinct s
      → OffPath d id s
      → m ≤ d
      → ((j : ℕ) → In j s → (b : Bool) → is_at pe j b ≡ false)
      → Stands nodes' recs' (up_of pe) m (graft d id me pos s) (entry d me s e)
  Stands-graft nil pe m e grown stands distinct off le away =
      Stands-split nil pe m e grown stands distinct refl le away
  Stands-graft (tip t p k) pe m e grown stands distinct off le away =
      Stands-split (tip t p k) pe m e grown stands distinct refl le away
  Stands-graft (fork i c ch) pe m e grown stands distinct (c_off, off) le away =
      elim (Bool-cases (ltb d c)) [
        | inl test ↦
            rw test
              (Stands-split (fork i c ch) pe m e (rw test at grown) stands distinct test le away)
        | inr test ↦
            let (is, n, at, n_bit, n_up, behind, kids) = stands in
            let (kids_distinct, root, apart) = distinct in
            let b = bit_set c id in
            let grown' : Grown nodes recs nodes' recs' d id me pos (above d id (some (i, b)) (ch b))
                (below d id (ch b)) =
              rw test at grown in
            let deep =
              Stands-graft (ch b) (some (i, b)) (suc c) (edge n b) grown' (kids b) (kids_distinct b)
                off (ground arith) (λ j has a. rw (==_ne i j (λ eq. root b (rw eq has))) refl) in
            rw test (
              is,
              edit me (above d id (some (i, b)) (ch b)) (below d id (ch b)) i n,
              grown'.kept i n at,
              n_bit,
              rw (root_away d id (ch b) i (root b)) n_up,
              behind,
              Stands-kid i c ch b n grown' kids root (apart b) deep,
            )
      ]
