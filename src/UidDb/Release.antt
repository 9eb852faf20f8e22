-- ===== src/UidDb/Release.antt =====
-- uid_db.c: the release of a database. `none` is a read of a node or a record that was released
-- before, a pointer to nothing, or the end of the fuel.
use fetchmail.Prelude.{
  ℕ, zero, suc, ◌*◌, Bool, true, false, ◌||◌, Option, none, some, List, [], ◌∷◌, ltb, ◌==◌,
  if◌then◌else◌, ◌>>=◌, length, get_elem?, set, next,
}
use fetchmail.UidDb.{Rec, PatNode, UidDb}
use fetchmail.UidDb.Trie.{edge}

-- The nodes and the records that were released, the last one first.
pub record Released : Type 0 where
  pub nodes : List ℕ
  pub recs : List ℕ

unfoldable pub is_released : ℕ → List ℕ → Bool
is_released i [] = false
is_released i (j ∷ js) = i == j || is_released i js

-- What stands at a position, if it was not released.
unfoldable pub live {ℓ} : {A : Type ℓ} → List A → List ℕ → ℕ → Option A
unfolding is_released
live xs released i = if is_released i released then none else get_elem? xs i

-- `free_uid_list`: the rest of the list goes first.
unfoldable pub free_uid_list : ℕ → List Rec → List ℕ → ℕ → Option (List ℕ)
unfolding live
free_uid_list zero recs released i = none
free_uid_list (suc fuel) recs released i = do
  r ← live recs released i
  elim (r.next) [
    | none ↦ some (i ∷ released)
    | some j ↦ do later ← free_uid_list fuel recs released j; some (i ∷ later)
  ]

-- An edge is taken away; the node is returned that the walk goes down to.
unfoldable pub cut : List PatNode → List ℕ → ℕ → Bool → Option (List PatNode × Option ℕ)
unfolding live
cut nodes released np right = do
  n ← live nodes released np
  elim (edge n right) [
    | none ↦ some (nodes, none)
    | some c ↦ do
      below ← live nodes released c
      some (
        set nodes np (if right then record n { right = none } else record n { left = none }),
        if ltb n.bit_ndx below.bit_ndx then some c else none,
      )
  ]

-- The loop of `free_pat_trie`. A node is visited three times at most.
unfoldable pub free_pat_trie : ℕ → List PatNode → List Rec → Released → ℕ → Option Released
unfolding cut free_uid_list
free_pat_trie zero nodes recs released np = none
free_pat_trie (suc fuel) nodes recs released np = do
  (nodes1, left) ← cut nodes released.nodes np false
  elim left [
    | some next ↦ free_pat_trie fuel nodes1 recs released next
    | none ↦ do
      (nodes2, right) ← cut nodes1 released.nodes np true
      elim right [
        | some next ↦ free_pat_trie fuel nodes2 recs released next
        | none ↦ do
          n ← live nodes2 released.nodes np
          lists ← free_uid_list (length recs) recs released.recs n.rec
          let now : Released = record { nodes = np ∷ released.nodes; recs = lists }
          elim (n.up) [ none ↦ some now | some up ↦ free_pat_trie fuel nodes2 recs now up ]
      ]
  ]

-- `free_uid_db`, but for the arrays: the nodes and the records that are released.
unfoldable pub free_uid_db : UidDb → Option Released
unfolding free_pat_trie
free_uid_db db = elim (db.pat_root) [
  | none ↦ some (record { nodes = []; recs = [] })
  | some root ↦
      free_pat_trie (3 * length db.pat_nodes) db.pat_nodes db.records
        (record { nodes = []; recs = [] }) root
]
