-- ===== src/UidDb.antt =====
-- uid_db.c and uid_db.h: the records of a UID database, its index by message number and its
-- traversal. A pointer to a record is the position of the record in the array `records`, where
-- each record stands; a pointer to a node of the trie is its position in `pat_nodes`, the nodes in
-- the order of their allocation. Message numbers are `unsigned` values of 32 bits.
pub mod Index
pub mod Records
pub mod Release
pub mod Trie
use fetchmail.Prelude.{
  ℕ, zero, suc, ◌+◌, ◌-◌, ◌*◌, ◌/◌, ◌%◌, ◌^◌, ◌≤◌, ◌<◌, bit_and, bit_or, bit_xor, ◌≡◌, refl, sym,
  ap, ◌∙◌, ◌≢◌, ◌↔◌, ◌⊎◌, inl, inr, Bool, true, false, not, ◌&&◌, ◌||◌, Option, none, some, List,
  [], ◌∷◌, ◌++◌, map, append_assoc, append-nil, arith, ltb, leb, ◌==◌, if◌then◌else◌, ltb→lt,
  lt→ltb, leb→le, ==_iff, tests, Bool-cases, Option-cases, bind_inv, ◌>>=◌, length, get_elem?, set,
  length-append, length-set, get_or, take, drop, replicate, length-replicate, length-map,
  take-append-drop, length-take, length-drop, get_elem?-set_self, get_elem?-set_ne, Bytes, codes,
  peek, next, All, All-append, Lacks, NoNul, ==_ne, IsByte, contains, is_space, to_lower, str_eq,
  str_case_eq, has_case_prefix, starts_with, str_eq_sound, str_eq_refl, every, every_lem,
}

abbrev pub u32 : ℕ
u32 = 2 ^ 32

-- a - b in `unsigned`.
abbrev pub sub32 : ℕ → ℕ → ℕ
sub32 a b = (a + u32 - b) % u32

-- `struct uid_db_record`.
pub record Rec : Type 0 where
  pub id : Bytes
  pub id_len : ℕ
  pub num : ℕ
  pub status : ℕ
  pub pos : ℕ
  pub next : Option ℕ

-- `struct num_ndx`. The array has no cell that was not initialised.
pub record NumNdx : Type 0 where
  pub cells : List (Option ℕ)
  pub pos_0_value : ℕ
  pub end_value : ℕ

-- `struct pat_node`: the pointers `ptrs(np)[-1]`, `*ptrs(np)` and `ptrs(np)[1]`. The mask is that of
-- `bit_ndx`.
pub record PatNode : Type 0 where
  pub left : Option ℕ
  pub up : Option ℕ
  pub right : Option ℕ
  pub bit_ndx : ℕ
  pub rec : ℕ

-- `struct uid_db`. `records_next` is the length of the list.
pub record UidDb : Type 0 where
  pub pat_root : Option ℕ
  pub pat_nodes : List PatNode
  pub records : List Rec
  pub records_max : ℕ
  pub num_ndx : NumNdx

-- `MIN_RECORDS`.
abbrev pub min_records : ℕ
min_records = 16

-- `init_uid_db`.
unfoldable pub init_uid_db : UidDb
init_uid_db = record {
  pat_root = none;
  pat_nodes = [];
  records = [];
  records_max = min_records;
  num_ndx = record { cells = []; pos_0_value = u32 - 1; end_value = u32 - 1 };
}

-- `get_uid_db_record`.
unfoldable pub get_uid_db_record : Bytes → ℕ → Rec
get_uid_db_record id status = record {
  id = id;
  id_len = length id;
  num = 0;
  status = status;
  pos = 0;
  next = none;
}

-- `insert_into_records`.
unfoldable pub insert_into_records : UidDb → Rec → UidDb
insert_into_records db rec =
    let next = length db.records in
    record db {
      records_max = if next == db.records_max then (db.records_max * 2) % u32 else db.records_max;
      records = db.records ++ (record rec { pos = next }) ∷ [];
    }

-- `find_uid_by_pos` and `uid_db_n_records`.
unfoldable pub find_uid_by_pos : UidDb → ℕ → Option Rec
find_uid_by_pos db pos = if ltb pos (length db.records) then get_elem? db.records pos else none

unfoldable pub uid_db_n_records : UidDb → ℕ
uid_db_n_records db = length db.records

-- `uid_db_num_ofs`.
unfoldable pub uid_db_num_ofs : NumNdx → ℕ → ℕ
uid_db_num_ofs ndx num = sub32 ndx.pos_0_value num

-- `set_uid_db_num_pos_0`.
unfoldable pub set_uid_db_num_pos_0 : UidDb → ℕ → UidDb
set_uid_db_num_pos_0 db num = record db {
  num_ndx = record db.num_ndx { pos_0_value = num; end_value = (num + 1) % u32 };
}

-- `xrealloc` to `want` cells, and NULL in those from `have` on.
unfoldable pub grow : List (Option ℕ) → ℕ → ℕ → List (Option ℕ)
grow cells have want = take have cells ++ replicate (want - have) none

-- The first part of `set_uid_db_num`: the array is made to reach down to `num`.
unfoldable pub reach : NumNdx → ℕ → NumNdx
reach ndx num =
    if ltb num ndx.end_value
    then record ndx {
      cells =
          grow ndx.cells ((sub32 ndx.pos_0_value ndx.end_value + 1) % u32)
            ((sub32 ndx.pos_0_value num + 1) % u32);
      end_value = num;
    }
    else ndx

-- `set_uid_db_num`; the record is given by its position.
unfoldable pub set_uid_db_num : UidDb → ℕ → ℕ → UidDb
unfolding reach grow uid_db_num_ofs
set_uid_db_num db rec num =
    let ndx = reach db.num_ndx num in
    record db { num_ndx = record ndx { cells = set ndx.cells (uid_db_num_ofs ndx num) (some rec) } }

-- `find_uid_by_num`: `none` is a read outside the array, `some none` is NULL.
unfoldable pub find_uid_by_num : UidDb → ℕ → Option (Option ℕ)
unfolding uid_db_num_ofs
find_uid_by_num db num =
    if leb db.num_ndx.end_value num
    then get_elem? db.num_ndx.cells (uid_db_num_ofs db.num_ndx num)
    else some none

-- `rec->num = 0`, at the record in a cell.
unfoldable pub clear_num : Option ℕ → List Rec → List Rec
clear_num none recs = recs
clear_num (some i) recs = elim (get_elem? recs i) [
  | none ↦ recs
  | some r ↦ set recs i (record r { num = 0 })
]

-- The loop of `reset_uid_db_nums`, over the cells below `ndx`.
unfoldable pub clear_nums : ℕ → List (Option ℕ) → List Rec → List Rec
unfolding clear_num
clear_nums zero cells recs = recs
clear_nums (suc ndx) cells recs = clear_nums ndx cells (clear_num (get_or cells ndx none) recs)

-- `reset_uid_db_nums`.
unfoldable pub reset_uid_db_nums : UidDb → UidDb
unfolding clear_nums
reset_uid_db_nums db =
    let ndx = db.num_ndx in
    if ltb ndx.end_value ndx.pos_0_value
    then record db {
      records = clear_nums (ndx.pos_0_value - ndx.end_value) ndx.cells db.records;
      num_ndx = record ndx { cells = []; end_value = (ndx.pos_0_value + 1) % u32 };
    }
    else db

-- `traverse_uid_db`: the routine gets a record and the state behind `arg`, and may change both; a
-- result other than 0 ends the traversal.
unfoldable pub traverse_uid_db {ℓ} :
    {S : Type ℓ} → (Rec → S → Rec × S × ℕ) → List Rec → S → List Rec × S × ℕ
traverse_uid_db r [] arg = ([], arg, 0)
traverse_uid_db r (rec ∷ recs) arg =
    let now = r rec arg in
    let later = traverse_uid_db r recs now.1 in
    if now.2 == 0 then (now.0 ∷ later.0, later.1, later.2) else (now.0 ∷ recs, now.1, now.2)

-- `swap_uid_db_data`.
unfoldable pub swap_uid_db_data : UidDb × UidDb → UidDb × UidDb
swap_uid_db_data (db_0, db_1) = (db_1, db_0)
