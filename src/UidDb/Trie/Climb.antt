-- ===== src/UidDb/Trie/Climb.antt =====
-- uid_db.c: the place of a new fork in the abstract trie, and how `walk_up` finds it from the node
-- where the walk down ended.
use fetchmail.Prelude.{
  ℕ, suc, ◌+◌, ◌-◌, ◌≤◌, ◌<◌, ◌≡◌, refl, ap, ◌∙◌, ◌⊎◌, inl, inr, Bool, true, false, not, Option,
  none, some, List, arith, ltb, if◌then◌else◌, ltb→lt, lt→ltb, Bool-cases, ◌>>=◌, get_elem?, Bytes,
}
use fetchmail.UidDb.{Rec, PatNode}
use fetchmail.UidDb.Trie.{bit_set, walk_up}
use fetchmail.UidDb.Trie.Tree.{Trie, nil, tip, fork, lookup}
use fetchmail.UidDb.Trie.Heap.{Stands, forks, forks_kid, last}

-- The forks of a tree are different nodes.
abbrev pub In : ℕ → Trie → Type 0
In j nil = ⊥
In j (tip t pos id) = ⊥
In j (fork i c ch) = (i ≡ j) ⊎ ((b : Bool) × In j (ch b))

abbrev pub AreDistinct : Trie → Type 0
AreDistinct nil = Unit
AreDistinct (tip t pos id) = Unit
AreDistinct (fork i c ch) =
    ((b : Bool) → AreDistinct (ch b))
    × ((b : Bool) → ¬ In i (ch b))
    × ((b : Bool) (j : ℕ) → In j (ch b) → ¬ In j (ch (not b)))

-- The subtree that a fork at the bit `d` is put above, and the edge to it, below the edge `pe`.
abbrev pub below : ℕ → Bytes → Trie → Trie
below d id nil = nil
below d id (tip t pos k) = tip t pos k
below d id (fork i c ch) =
    let rest = below d id (ch (bit_set c id)) in if ltb d c then fork i c ch else rest

abbrev pub above : ℕ → Bytes → Option (ℕ × Bool) → Trie → Option (ℕ × Bool)
above d id pe nil = pe
above d id pe (tip t pos k) = pe
above d id pe (fork i c ch) =
    let rest = above d id (some (i, bit_set c id)) (ch (bit_set c id)) in
    if ltb d c then pe else rest

abbrev pub up_of : Option (ℕ × Bool) → Option ℕ
up_of none = none
up_of (some (p, b)) = some p

-- The number of forks on the path of an identifier.
abbrev steps : Bytes → Trie → ℕ
steps id nil = 0
steps id (tip t pos k) = 0
steps id (fork i c ch) = suc (steps id (ch (bit_set c id)))

steps-forks : (id : Bytes) (s : Trie) → steps id s ≤ forks s
steps-forks id nil = omega arith
steps-forks id (tip t pos k) = omega arith
steps-forks id (fork i c ch) =
    omega (arith, steps-forks id (ch (bit_set c id)), forks_kid ch (bit_set c id))

walk_up_further :
    (nodes : List PatNode) (d g j i : ℕ) (n q : PatNode)
    → get_elem? nodes j ≡ some n
    → n.up ≡ some i
    → get_elem? nodes i ≡ some q
    → ltb d q.bit_ndx ≡ true
    → walk_up (suc g) nodes d j ≡ walk_up g nodes d i
unfolding walk_up
walk_up_further nodes d g j i n q at up there test = rw (at, ◌>>=◌, up, there, ◌>>=◌, test) refl

-- What stops `walk_up`: no node above, or one whose bit is not behind `d`.
abbrev pub IsStop : List PatNode → ℕ → Option ℕ → Type 0
IsStop nodes d none = Unit
IsStop nodes d (some p) = (q : PatNode) × (get_elem? nodes p ≡ some q) × (ltb d q.bit_ndx ≡ false)

walk_up_end :
    (nodes : List PatNode) (d g j : ℕ) (n : PatNode) (up : Option ℕ)
    → get_elem? nodes j ≡ some n
    → n.up ≡ up
    → IsStop nodes d up
    → walk_up (suc g) nodes d j ≡ some (j, up)
unfolding walk_up
walk_up_end nodes d g j n none at is stop = rw (at, ◌>>=◌, is) refl
walk_up_end nodes d g j n (some p) at is (q, there, test) =
    rw (at, ◌>>=◌, is, there, ◌>>=◌, test) refl

module _ (nodes : List PatNode) (recs : List Rec) (id : Bytes) where
  -- The bits grow on the way down.
  last_behind :
      (s : Trie) (i c : ℕ) (b : Bool) (e : Option ℕ)
      → Stands nodes recs (some i) (suc c) s e
      → c ≤ (last id (i, c, b) s).1
  last_behind nil i c b e stands = omega arith
  last_behind (tip t pos k) i c b e stands = omega arith
  last_behind (fork j c' ch) i c b e (is, n, at, n_bit, up, behind, kids) =
      omega (arith, last_behind (ch (bit_set c' id)) j c' (bit_set c' id) _ (kids (bit_set c' id)))

  climb :
      (s : Trie) (i c d g : ℕ) (b : Bool) (e : Option ℕ) (n : PatNode)
      → Stands nodes recs (some i) (suc c) s e
      → get_elem? nodes i ≡ some n
      → n.bit_ndx ≡ c
      → d < c
      → walk_up (steps id s + g) nodes d (last id (i, c, b) s).0 ≡ walk_up g nodes d i
  climb nil i c d g b e n stands at bit lt = ap (λ x. walk_up x nodes d i) (omega arith)
  climb (tip t pos k) i c d g b e n stands at bit lt = ap (λ x. walk_up x nodes d i) (omega arith)
  climb (fork j c' ch) i c d g b e n (is, m, there, m_bit, up, behind, kids) at bit lt =
      let s = ch (bit_set c' id) in
      let from = (last id (j, c', bit_set c' id) s).0 in
      ap (λ x. walk_up x nodes d from) {x = suc (steps id s) + g} {y = steps id s + suc g}
        (omega arith)
      ∙ climb (ch (bit_set c' id)) j c' d (suc g) (bit_set c' id) _ m (kids (bit_set c' id)) there
          m_bit (omega arith)
      ∙ walk_up_further nodes d g j i m n there up at (ground arith)

  -- The two ways to the place: the node where the walk down ended, or a fork above it.
  abbrev pub AtEnd : ℕ → Option (ℕ × Bool) → ℕ × ℕ × Bool → Trie → Type 0
  AtEnd d pe acc s =
      (below d id s ≡ lookup id s)
      × (above d id pe s ≡ some ((last id acc s).0, (last id acc s).2))
      × (ltb d (last id acc s).1 ≡ false)

  abbrev pub Climbed : ℕ → ℕ → Option (ℕ × Bool) → ℕ × ℕ × Bool → Trie → Type 0
  Climbed fuel d pe acc s =
      (i : ℕ) × (c : ℕ) × (ch : Bool → Trie) × (below d id s ≡ fork i c ch)
      × (ltb d (last id acc s).1 ≡ true)
      × (walk_up fuel nodes d (last id acc s).0 ≡ some (i, up_of (above d id pe s)))

  climb_top :
      (i c : ℕ) (ch : Bool → Trie) (fuel d m : ℕ) (pe : Option (ℕ × Bool)) (acc : ℕ × ℕ × Bool)
      (e : Option ℕ)
      → Stands nodes recs (up_of pe) m (fork i c ch) e
      → IsStop nodes d (up_of pe)
      → forks (fork i c ch) ≤ fuel
      → ltb d c ≡ true
      → Climbed fuel d pe acc (fork i c ch)
  climb_top i c ch fuel d m pe acc e (is, n, at, n_bit, up, behind, kids) stop enough test =
      let b = bit_set c id in
      let s = ch b in
      let g = fuel - suc (steps id s) in
      let lt = ltb→lt d c test in
      let from = (last id (i, c, b) s).0 in
      let climbed =
        ap (λ x. walk_up x nodes d from) {x = fuel} {y = steps id s + suc g}
          (omega (arith, steps-forks id s, forks_kid ch b))
        ∙ climb s i c d (suc g) b _ n (kids b) at n_bit lt
        ∙ walk_up_end nodes d g i n (up_of pe) at up stop in
      (
        i,
        c,
        ch,
        rw test refl,
        lt→ltb d _ (omega (arith, last_behind s i c b _ (kids b))),
        rw test climbed,
      )

  abbrev pub Place : ℕ → ℕ → Option (ℕ × Bool) → ℕ × ℕ × Bool → Trie → Type 0
  Place fuel d pe acc s = AtEnd d pe acc s ⊎ Climbed fuel d pe acc s

  -- The place is in the subtree when the bit `d` is behind that of the fork.
  deeper :
      (i c : ℕ) (ch : Bool → Trie) (fuel d : ℕ) (pe : Option (ℕ × Bool)) (acc : ℕ × ℕ × Bool)
      → ltb d c ≡ false
      → Place fuel d (some (i, bit_set c id)) (i, c, bit_set c id) (ch (bit_set c id))
      → Place fuel d pe acc (fork i c ch)
  deeper i c ch fuel d pe acc test (inl (tree, edge_to, behind)) =
      inl (rw test tree, rw test edge_to, behind)
  deeper i c ch fuel d pe acc test (inr (j, c', ch', tree, behind, walked)) =
      inr (j, c', ch', rw test tree, behind, rw test walked)

  locate :
      (s : Trie) (i c : ℕ) (b : Bool) (fuel d : ℕ) (e : Option ℕ) (n : PatNode)
      → Stands nodes recs (some i) (suc c) s e
      → get_elem? nodes i ≡ some n
      → n.bit_ndx ≡ c
      → ltb d c ≡ false
      → forks s ≤ fuel
      → Place fuel d (some (i, b)) (i, c, b) s
  locate nil i c b fuel d e n stands at bit test enough = inl (refl, refl, test)
  locate (tip t pos k) i c b fuel d e n stands at bit test enough = inl (refl, refl, test)
  locate (fork j c' ch) i c b fuel d e n stands at bit test enough =
      let (is, m, there, m_bit, up, behind, kids) = stands in
      let a = bit_set c' id in
      elim (Bool-cases (ltb d c')) [
        | inl before ↦ inr (
            climb_top j c' ch fuel d (suc c) (some (i, b)) (i, c, b) e stands (n, at, rw bit test)
              enough before)
        | inr after ↦
            deeper j c' ch fuel d (some (i, b)) (i, c, b) after
              (locate (ch a) j c' a fuel d _ m (kids a) there m_bit after
                (omega (arith, forks_kid ch a)))
      ]

  pub locate_root :
      (i c : ℕ) (ch : Bool → Trie) (fuel d : ℕ) (acc : ℕ × ℕ × Bool)
      → Stands nodes recs none 0 (fork i c ch) (some i)
      → forks (fork i c ch) ≤ fuel
      → Place fuel d none acc (fork i c ch)
  locate_root i c ch fuel d acc stands enough =
      let (is, n, at, n_bit, up, behind, kids) = stands in
      let a = bit_set c id in
      elim (Bool-cases (ltb d c)) [
        | inl before ↦ inr (climb_top i c ch fuel d 0 none acc (some i) stands tt enough before)
        | inr after ↦
            deeper i c ch fuel d none acc after (
              locate (ch a) i c a fuel d _ n (kids a) at n_bit after
                (omega (arith, forks_kid ch a)))
      ]

  -- The node where the walk down ended.
  pub last_at :
      (s : Trie) (i c : ℕ) (b : Bool) (e : Option ℕ) (n : PatNode)
      → Stands nodes recs (some i) (suc c) s e
      → get_elem? nodes i ≡ some n
      → n.bit_ndx ≡ c
      → (q : PatNode) × (get_elem? nodes (last id (i, c, b) s).0 ≡ some q)
        × (q.bit_ndx ≡ (last id (i, c, b) s).1)
  last_at nil i c b e n stands at bit = (n, at, bit)
  last_at (tip t pos k) i c b e n stands at bit = (n, at, bit)
  last_at (fork j c' ch) i c b e n (is, m, there, m_bit, up, behind, kids) at bit =
      last_at (ch (bit_set c' id)) j c' (bit_set c' id) _ m (kids (bit_set c' id)) there m_bit
