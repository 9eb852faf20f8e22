-- ===== src/UidDb/Trie.antt =====
-- uid_db.c: the PATRICIA trie of the identifiers. A walk follows the pointers of the nodes; `none` is
-- a pointer to no node, or the end of the fuel, for which the number of the nodes is enough: the
-- indices of the bits grow on the way down and shrink on the way up. In `walk_down` and in
-- `find_uid_by_id`, `v` is the byte at `ofs`, and is not kept from one round to the next.
pub mod Kept
pub mod Tree
pub mod Others
pub mod Promise
pub mod Refines
pub mod Chain
pub mod Inserts
pub mod Insert
pub mod Indexed
pub mod Found
pub mod Search
pub mod Placed
pub mod Linked
pub mod Bits
pub mod Digits
pub mod Regraft
pub mod Grown
pub mod Distinct
pub mod Climb
pub mod Heap
pub mod Parted
pub mod Graft
use fetchmail.Prelude.{
  ℕ, zero, suc, ◌+◌, ◌-◌, ◌*◌, ◌/◌, ◌%◌, ◌^◌, ◌≤◌, ◌<◌, bit_and, bit_or, bit_xor, ◌≡◌, refl, sym,
  ap, ◌∙◌, ◌≢◌, ◌↔◌, ◌⊎◌, inl, inr, Bool, true, false, not, ◌&&◌, ◌||◌, Option, none, some, List,
  [], ◌∷◌, ◌++◌, map, append_assoc, append-nil, arith, ltb, leb, ◌==◌, if◌then◌else◌, ltb→lt,
  lt→ltb, leb→le, ==_iff, tests, Bool-cases, Option-cases, bind_inv, ◌>>=◌, length, get_elem?, set,
  length-append, length-set, get_or, take, drop, replicate, length-replicate, length-map,
  take-append-drop, length-take, length-drop, get_elem?-append_left, get_elem?-append_right,
  get_elem?-replicate, take_all, get_elem?-set_self, get_elem?-set_ne, Bytes, codes, peek, next,
  All, All-append, Lacks, NoNul, ==_ne, IsByte, contains, is_space, to_lower, str_eq, str_case_eq,
  has_case_prefix, starts_with, str_eq_sound, str_eq_refl, every, every_lem,
}
use fetchmail.UidDb.{u32, Rec, PatNode, UidDb, get_uid_db_record, insert_into_records}

-- `v & mask`, where `v` is the byte of the identifier that holds the bit, and 0 behind its end.
unfoldable pub bit_set : ℕ → Bytes → Bool
bit_set bit_ndx id = (get_or id (bit_ndx / 8) 0 / 2 ^ (bit_ndx % 8)) % 2 == 1

-- `first_set_bit_in_char`: of a byte, `ffs(v) - 1`.
unfoldable pub low_bit : ℕ → ℕ → ℕ
low_bit zero v = 0
low_bit (suc n) v = let rest = suc (low_bit n (v / 2)) in if v % 2 == 1 then 0 else rest

unfoldable pub first_set_bit_in_char : ℕ → ℕ
unfolding low_bit
first_set_bit_in_char v = if v == 0 then u32 - 1 else low_bit 8 v

-- `find_first_diff_bit`; `none` is -1. At the end of an identifier its NUL differs from the byte of
-- the longer one.
unfoldable pub find_first_diff_bit : ℕ → Bytes → Bytes → Option ℕ
unfolding first_set_bit_in_char
find_first_diff_bit ofs [] [] = none
find_first_diff_bit ofs [] (y ∷ b) = some (first_set_bit_in_char y + ofs * 8)
find_first_diff_bit ofs (x ∷ a) [] = some (first_set_bit_in_char x + ofs * 8)
find_first_diff_bit ofs (x ∷ a) (y ∷ b) =
    let rest = find_first_diff_bit (ofs + 1) a b in
    if bit_xor x y == 0 then rest else some (first_set_bit_in_char (bit_xor x y) + ofs * 8)

-- The edge that a walk takes.
abbrev pub edge : PatNode → Bool → Option ℕ
edge np right = if right then np.right else np.left

-- `walk_down`: the node that was found, its parent, and whether the right edge leads there.
unfoldable pub walk_down : ℕ → List PatNode → Bytes → ℕ → Option (Option ℕ × ℕ × Bool)
unfolding bit_set
walk_down zero nodes id cur = none
walk_down (suc fuel) nodes id cur = do
  np ← get_elem? nodes cur
  let right = bit_set np.bit_ndx id
  elim (edge np right) [
    | none ↦ some (none, cur, right)
    | some c ↦ do
      below ← get_elem? nodes c
      elim (ltb np.bit_ndx below.bit_ndx) [
        | true ↦ walk_down fuel nodes id c
        | false ↦ some (some c, cur, right)
      ]
  ]

-- `walk_up`: the node, and its parent.
unfoldable pub walk_up : ℕ → List PatNode → ℕ → ℕ → Option (ℕ × Option ℕ)
walk_up zero nodes diff_ndx np = none
walk_up (suc fuel) nodes diff_ndx np = do
  node ← get_elem? nodes np
  elim (node.up) [
    | none ↦ some (np, none)
    | some p ↦ do
      above ← get_elem? nodes p
      elim (ltb diff_ndx above.bit_ndx) [
        | true ↦ walk_up fuel nodes diff_ndx p
        | false ↦ some (np, some p)
      ]
  ]

-- The end of a list of records with one identifier.
unfoldable pub list_end : ℕ → List Rec → ℕ → Option ℕ
list_end zero recs i = none
list_end (suc fuel) recs i = do
  r ← get_elem? recs i
  elim (r.next) [ none ↦ some i | some j ↦ list_end fuel recs j ]

-- `append_to_list`.
unfoldable pub append_to_list : UidDb → ℕ → ℕ → Option UidDb
unfolding list_end
append_to_list db first pos = do
  i ← list_end (length db.records) db.records first
  r ← get_elem? db.records i
  some (record db { records = set db.records i (record r { next = some pos }) })

-- A pointer of a node, at the position `i`.
unfoldable pub set_edge : List PatNode → ℕ → Bool → ℕ → Option (List PatNode)
set_edge nodes i right to = do
  np ← get_elem? nodes i
  some (set nodes i (if right then record np { right = some to } else record np { left = some to }))

unfoldable pub set_up : List PatNode → ℕ → ℕ → Option (List PatNode)
set_up nodes i to = do np ← get_elem? nodes i; some (set nodes i (record np { up = some to }))

-- The node of a record, with the edges that `pat_insert` gives it.
unfoldable pub new_node : ℕ → ℕ → Bytes → Option ℕ → Option ℕ → ℕ → PatNode
unfolding bit_set
new_node me bit_ndx id closest parent pos = record {
  left = if bit_set bit_ndx id then closest else some me;
  up = parent;
  right = if bit_set bit_ndx id then some me else closest;
  bit_ndx = bit_ndx;
  rec = pos;
}

-- The last part of `pat_insert`: `*edge = np` and the pointers of the new node.
unfoldable pub link :
    UidDb → ℕ → Bytes → ℕ → Option ℕ → Option (ℕ × Bool) → List PatNode → Option UidDb
unfolding new_node set_edge
link db pos id bit_ndx closest none nodes =
    let me = length db.pat_nodes in
    some (record db {
      pat_root = some me;
      pat_nodes = nodes ++ new_node me bit_ndx id closest none pos ∷ [];
    })
link db pos id bit_ndx closest (some (parent, right)) nodes = do
  let me = length db.pat_nodes
  linked ← set_edge nodes parent right me
  some (record db { pat_nodes = linked ++ new_node me bit_ndx id closest (some parent) pos ∷ [] })

-- Whether `ptrs(parent)[-1] == closest`.
abbrev pub is_left : PatNode → ℕ → Bool
is_left np i = elim (np.left) [ none ↦ false | some j ↦ j == i ]

-- `if (parent->bit_ndx > np->bit_ndx)`, and the rest.
unfoldable pub place : UidDb → ℕ → Bytes → ℕ → Option ℕ → ℕ → Bool → Option UidDb
unfolding walk_up link set_up
place db pos id bit_ndx closest parent right = do
  pn ← get_elem? db.pat_nodes parent
  elim (ltb bit_ndx pn.bit_ndx) [
    | false ↦ link db pos id bit_ndx closest (some (parent, right)) db.pat_nodes
    | true ↦ do
      (np, above) ← walk_up (length db.pat_nodes) db.pat_nodes bit_ndx parent
      nodes ← set_up db.pat_nodes np (length db.pat_nodes)
      elim above [
        | none ↦ link db pos id bit_ndx (some np) none nodes
        | some p ↦ do
          q ← get_elem? db.pat_nodes p
          link db pos id bit_ndx (some np) (some (p, not (is_left q np))) nodes
      ]
  ]

-- The bit of `get_standalone_node`.
abbrev pub standalone_bit : Bytes → ℕ
standalone_bit id = first_set_bit_in_char (peek id)

-- The node that `pat_insert` puts into an empty trie.
abbrev pub first_node : ℕ → Bytes → ℕ → PatNode
first_node me id pos = record {
  left = none;
  up = none;
  right = some me;
  bit_ndx = standalone_bit id;
  rec = pos;
}

-- `pat_insert` behind the walk, for the node that was found.
unfoldable pub insert_near : Option ℕ → UidDb → ℕ → Bytes → ℕ → Bool → Option UidDb
unfolding find_first_diff_bit append_to_list place
insert_near none db pos id parent right = place db pos id (standalone_bit id) none parent right
insert_near (some c) db pos id parent right = do
  cn ← get_elem? db.pat_nodes c
  cr ← get_elem? db.records cn.rec
  elim (find_first_diff_bit 0 cr.id id) [
    | none ↦ append_to_list db cn.rec pos
    | some b ↦ place db pos id b (some c) parent right
  ]

-- `pat_insert`, for the record at `pos`, in the trie with that root.
unfoldable pub insert_at : Option ℕ → UidDb → ℕ → Bytes → Option UidDb
unfolding walk_down insert_near first_set_bit_in_char
insert_at none db pos id =
    let me = length db.pat_nodes in
    some (record db { pat_root = some me; pat_nodes = db.pat_nodes ++ first_node me id pos ∷ [] })
insert_at (some root) db pos id = do
  (closest, parent, right) ← walk_down (length db.pat_nodes) db.pat_nodes id root
  insert_near closest db pos id parent right

unfoldable pub pat_insert : UidDb → ℕ → Bytes → Option UidDb
unfolding insert_at
pat_insert db pos id = insert_at db.pat_root db pos id

-- `uid_db_insert`: the database, and the position of the new record.
unfoldable pub uid_db_insert : UidDb → Bytes → ℕ → Option (UidDb × ℕ)
unfolding pat_insert insert_into_records get_uid_db_record
uid_db_insert db id status = do
  let pos = length db.records
  inserted ← pat_insert (insert_into_records db (get_uid_db_record id status)) pos id
  some (inserted, pos)

-- The loop of `find_uid_by_id`.
unfoldable pub find_node : ℕ → List PatNode → Bytes → ℕ → Option (Option ℕ)
unfolding bit_set
find_node zero nodes id cur = none
find_node (suc fuel) nodes id cur = do
  np ← get_elem? nodes cur
  elim (edge np (bit_set np.bit_ndx id)) [
    | none ↦ some none
    | some c ↦ do
      below ← get_elem? nodes c
      elim (ltb np.bit_ndx below.bit_ndx) [
        | true ↦ find_node fuel nodes id c
        | false ↦ some (some c)
      ]
  ]

-- `find_uid_by_id`; `some none` is NULL.
unfoldable pub find_uid_by_id : UidDb → Bytes → Option (Option ℕ)
unfolding find_node str_eq
find_uid_by_id db id = elim (db.pat_root) [
  | none ↦ some none
  | some root ↦ do
    np ← find_node (length db.pat_nodes) db.pat_nodes id root
    elim np [
      | none ↦ some none
      | some c ↦ do
        cn ← get_elem? db.pat_nodes c
        r ← get_elem? db.records cn.rec
        some (if str_eq r.id id then some cn.rec else none)
    ]
]

-- `last_uid_in_db`.
unfoldable pub last_uid_in_db : UidDb → Bytes → Option (Option ℕ)
unfolding find_uid_by_id list_end
last_uid_in_db db id = do
  first ← find_uid_by_id db id
  elim first [
    | none ↦ some none
    | some i ↦ do j ← list_end (length db.records) db.records i; some (some j)
  ]
