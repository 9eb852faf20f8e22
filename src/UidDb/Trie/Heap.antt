-- ===== src/UidDb/Trie/Heap.antt =====
-- uid_db.c: how an abstract trie stands in the nodes of a database, and where the walk down to an
-- identifier ends.
use fetchmail.Prelude.{
  ℕ, zero, suc, ◌+◌, ◌≤◌, ◌<◌, ◌≡◌, refl, ap, ◌∙◌, inl, inr, Bool, true, false, Option, none, some,
  List, arith, ltb, Bool-cases, Option-cases, ◌>>=◌, get_elem?, Bytes,
}
use fetchmail.UidDb.{Rec, PatNode}
use fetchmail.UidDb.Trie.{bit_set, edge, walk_down, find_node}
use fetchmail.UidDb.Trie.Tree.{Trie, nil, tip, fork, lookup}

-- The tree is the one behind the pointer `e`, in a node `up` whose bit is before `m`: a fork is a
-- node behind that bit, a tip is a node that is not.
abbrev pub Stands : List PatNode → List Rec → Option ℕ → ℕ → Trie → Option ℕ → Type 0
Stands nodes recs up m nil e = e ≡ none
Stands nodes recs up m (tip t pos id) e =
    (e ≡ some t)
    × (n : PatNode) × (get_elem? nodes t ≡ some n)
    × (n.bit_ndx < m)
    × (n.rec ≡ pos)
    × (r : Rec) × (get_elem? recs pos ≡ some r)
    × (r.id ≡ id)
Stands nodes recs up m (fork i c ch) e =
    (e ≡ some i)
    × (n : PatNode) × (get_elem? nodes i ≡ some n)
    × (n.bit_ndx ≡ c)
    × (n.up ≡ up)
    × (m ≤ c)
    × ((b : Bool) → Stands nodes recs (some i) (suc c) (ch b) (edge n b))

-- The pointer to a tip.
abbrev pub pointer : Trie → Option ℕ
pointer nil = none
pointer (tip t pos id) = some t
pointer (fork i c ch) = some i

abbrev pub forks : Trie → ℕ
forks nil = 0
forks (tip t pos id) = 0
forks (fork i c ch) = suc (forks (ch true) + forks (ch false))

pub forks_kid : (ch : Bool → Trie) (b : Bool) → forks (ch b) ≤ forks (ch true) + forks (ch false)
forks_kid ch true = omega arith
forks_kid ch false = omega arith

-- The last fork on the path of an identifier, its bit, and the value of the bit.
abbrev pub last : Bytes → ℕ × ℕ × Bool → Trie → ℕ × ℕ × Bool
last id acc nil = acc
last id acc (tip t pos k) = acc
last id acc (fork i c ch) = last id (i, c, bit_set c id) (ch (bit_set c id))

-- The rest of a round of `walk_down`, behind the edge.
abbrev go_on : ℕ → List PatNode → Bytes → ℕ × ℕ × Bool → Option ℕ → Option (Option ℕ × ℕ × Bool)
go_on fuel nodes id (cur, bit, b) none = some (none, cur, b)
go_on fuel nodes id (cur, bit, b) (some c) = do
  below ← get_elem? nodes c
  elim (ltb bit below.bit_ndx) [ true ↦ walk_down fuel nodes id c | false ↦ some (some c, cur, b) ]

walk_down-suc :
    (fuel : ℕ) (nodes : List PatNode) (id : Bytes) (cur : ℕ) (n : PatNode) (c : ℕ)
    → get_elem? nodes cur ≡ some n
    → n.bit_ndx ≡ c
    → walk_down (suc fuel) nodes id cur
      ≡ go_on fuel nodes id (cur, c, bit_set c id) (edge n (bit_set c id))
unfolding walk_down
walk_down-suc fuel nodes id cur n c at bit =
    let here : walk_down (suc fuel) nodes id cur
        ≡ go_on fuel nodes id (cur, n.bit_ndx, bit_set n.bit_ndx id)
            (edge n (bit_set n.bit_ndx id)) =
      go (edge n (bit_set n.bit_ndx id)) refl in
    here ∙ ap (λ x. go_on fuel nodes id (cur, x, bit_set x id) (edge n (bit_set x id))) bit
  where
    go :
        (e : Option ℕ)
        → edge n (bit_set n.bit_ndx id) ≡ e
        → walk_down (suc fuel) nodes id cur
          ≡ go_on fuel nodes id (cur, n.bit_ndx, bit_set n.bit_ndx id) e
    go none is = rw (at, ◌>>=◌, is) refl
    go (some k) is = rw (at, ◌>>=◌, is) refl

module _ (nodes : List PatNode) (recs : List Rec) (id : Bytes) where
  go_on-Stands :
      (s : Trie) (fuel cur bit : ℕ) (b : Bool) (e : Option ℕ)
      → Stands nodes recs (some cur) (suc bit) s e
      → forks s ≤ fuel
      → go_on fuel nodes id (cur, bit, b) e
        ≡ some (pointer (lookup id s), (last id (cur, bit, b) s).0, (last id (cur, bit, b) s).2)
  go_on-Stands nil fuel cur bit b e is enough = rw is refl
  go_on-Stands (tip t pos k) fuel cur bit b e (is, n, at, before, n_rec, r, r_at, r_id) enough =
      let test : ltb bit n.bit_ndx ≡ false = ground arith in rw (is, at, ◌>>=◌, test) refl
  go_on-Stands (fork i c ch) zero cur bit b e stands enough = absurd (omega arith)
  go_on-Stands (fork i c ch) (suc fuel) cur bit b e (is, n, at, n_bit, up, behind, kids) enough =
      let test : ltb bit n.bit_ndx ≡ true = ground arith in
      rw (is, at, ◌>>=◌, test)
        (walk_down-suc fuel nodes id i n c at n_bit
          ∙ go_on-Stands (ch (bit_set c id)) fuel i c (bit_set c id) (edge n (bit_set c id))
              (kids (bit_set c id)) (omega (arith, forks_kid ch (bit_set c id))))

  pub walk_down-Stands :
      (i c : ℕ) (ch : Bool → Trie) (fuel : ℕ) (acc : ℕ × ℕ × Bool)
      → Stands nodes recs none 0 (fork i c ch) (some i)
      → forks (fork i c ch) ≤ fuel
      → walk_down fuel nodes id i
        ≡ some (
          pointer (lookup id (fork i c ch)),
          (last id acc (fork i c ch)).0,
          (last id acc (fork i c ch)).2,
        )
  walk_down-Stands i c ch zero acc stands enough = absurd (omega arith)
  walk_down-Stands i c ch (suc fuel) acc (is, n, at, n_bit, up, behind, kids) enough =
      walk_down-suc fuel nodes id i n c at n_bit
      ∙ go_on-Stands (ch (bit_set c id)) fuel i c (bit_set c id) (edge n (bit_set c id))
          (kids (bit_set c id)) (omega (arith, forks_kid ch (bit_set c id)))

-- The loop of `find_uid_by_id` takes the same way as `walk_down`.
pub find_node-walk_down :
    (fuel : ℕ) (nodes : List PatNode) (id : Bytes) (cur : ℕ)
    → find_node fuel nodes id cur ≡ (walk_down fuel nodes id cur >>= λ x. some x.0)
unfolding find_node walk_down
find_node-walk_down zero nodes id cur = refl
find_node-walk_down (suc fuel) nodes id cur = elim (Option-cases (get_elem? nodes cur)) [
  | inl e ↦ rw e refl
  | inr (np, e) ↦
      rw (e, ◌>>=◌)
        (elim (Option-cases (edge np (bit_set np.bit_ndx id))) [
          | inl to ↦ rw to refl
          | inr (c, to) ↦ rw to (elim (Option-cases (get_elem? nodes c)) [
            | inl at ↦ rw at refl
            | inr (below, at) ↦
                rw (at, ◌>>=◌)
                  (elim (Bool-cases (ltb np.bit_ndx below.bit_ndx)) [
                    | inl deeper ↦ rw deeper (find_node-walk_down fuel nodes id c)
                    | inr end ↦ rw end refl
                  ])
          ])
        ])
]
