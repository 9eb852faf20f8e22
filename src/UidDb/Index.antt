-- ===== src/UidDb/Index.antt =====
-- The index by message number.
use Prim.Native.Nat.{◌≤◌, ◌≤◌, ◌≤◌, ◌≤◌, ◌≤◌, ◌≤◌}
use fetchmail.Prelude.{
  ℕ, ◌+◌, ◌-◌, ◌%◌, ◌≤◌, ◌<◌, ◌≡◌, refl, ap, ◌∙◌, inl, inr, Option, none, some, ◌++◌, arith, ltb,
  leb, ◌==◌, if◌then◌else◌, ltb→lt, lt→ltb, ==_iff, Bool-cases, length, get_elem?, set,
  length-append, length-set, replicate, length-replicate, get_elem?-append_left,
  get_elem?-append_right, get_elem?-replicate, take_all, get_elem?-set_self, get_elem?-set_ne,
}
use fetchmail.UidDb.{
  u32, sub32, NumNdx, UidDb, grow, reach, set_uid_db_num, find_uid_by_num, reset_uid_db_nums,
}

-- The array reaches from the highest message number down to `end_value`.
pub record IsIndex (ndx : NumNdx) : Type 0 where
  pub bound : ndx.pos_0_value + 1 < u32
  pub ends : ndx.end_value ≤ ndx.pos_0_value + 1
  pub size : length ndx.cells + ndx.end_value ≡ ndx.pos_0_value + 1

-- `reach` covers a number that is not above the highest one, and keeps the index in shape.
sub32_lem : (a b : ℕ) → b ≤ a → a < u32 → sub32 a b ≡ a - b
sub32_lem a b h k = omega arith

-- The array that `reach` makes: the old cells, and NULL for the new numbers.
reach_cells :
    (ndx : NumNdx) (num : ℕ)
    → IsIndex ndx
    → num < ndx.end_value
    → reach ndx num
      ≡ record ndx { cells = ndx.cells ++ replicate (ndx.end_value - num) none; end_value = num }
unfolding reach grow
reach_cells ndx num v lt =
    let have : (sub32 ndx.pos_0_value ndx.end_value + 1) % u32 ≡ length ndx.cells = omega arith in
    let want : (sub32 ndx.pos_0_value num + 1) % u32 ≡ ndx.pos_0_value - num + 1 = omega arith in
    rw (lt→ltb num ndx.end_value lt, have, want)
      (rw (take_all (length ndx.cells) ndx.cells (omega arith)) (
        ap (λ k. record ndx { cells = ndx.cells ++ replicate k none; end_value = num })
          (omega arith)))

reach_same : (ndx : NumNdx) (num : ℕ) → ndx.end_value ≤ num → reach ndx num ≡ ndx
unfolding reach
reach_same ndx num le = ground arith

-- A cell that holds NULL.
abbrev empty : Option ℕ
empty = none

-- What stands in the index for a number that is not above the highest one; NULL below its end.
abbrev entry : NumNdx → ℕ → Option (Option ℕ)
entry ndx num =
    if leb ndx.end_value num then get_elem? ndx.cells (ndx.pos_0_value - num) else some none

pub reach-IsIndex :
    (ndx : NumNdx) (num : ℕ) → IsIndex ndx → num ≤ ndx.pos_0_value → IsIndex (reach ndx num)
reach-IsIndex ndx num v le = elim (Bool-cases (ltb num ndx.end_value)) [
  | inl below ↦
      let lt = ltb→lt num ndx.end_value below in
      rw (reach_cells ndx num v lt) (record {
        bound = v.bound;
        ends = omega arith;
        size = omega (
          arith,
          v,
          length-append ndx.cells (replicate (ndx.end_value - num) empty),
          length-replicate (ndx.end_value - num) empty,
        );
      })
  | inr covered ↦ rw (reach_same ndx num (ground arith)) v
]

pub reach_covers :
    (ndx : NumNdx) (num : ℕ)
    → IsIndex ndx
    → ((reach ndx num).end_value ≤ num) × ((reach ndx num).pos_0_value ≡ ndx.pos_0_value)
reach_covers ndx num v = elim (Bool-cases (ltb num ndx.end_value)) [
  | inl below ↦ rw (reach_cells ndx num v (ltb→lt num ndx.end_value below)) (omega arith)
  | inr covered ↦ rw (reach_same ndx num (ground arith)) (ground arith)
]

-- Making room changes no entry.
entry-reach :
    (ndx : NumNdx) (num n : ℕ)
    → IsIndex ndx
    → num ≤ ndx.pos_0_value
    → n ≤ ndx.pos_0_value
    → entry (reach ndx num) n ≡ entry ndx n
entry-reach ndx num n v le le' = elim (Bool-cases (ltb num ndx.end_value)) [
  | inr covered ↦ rw (reach_same ndx num (ground arith)) refl
  | inl below ↦
      rw (reach_cells ndx num v (ltb→lt num ndx.end_value below))
        (elim (Bool-cases (leb ndx.end_value n)) [
          | inl old ↦ ground (
            arith,
            get_elem?-append_left ndx.cells (replicate (ndx.end_value - num) empty)
                (ndx.pos_0_value - n),
          )
          | inr new ↦ ground (
            arith,
            get_elem?-append_right ndx.cells (replicate (ndx.end_value - num) empty)
                (ndx.pos_0_value - n) (ndx.pos_0_value - n - length ndx.cells),
            get_elem?-replicate (ndx.end_value - num) empty
                (ndx.pos_0_value - n - length ndx.cells),
          )
        ])
]

find_uid_by_num_lem :
    (db : UidDb) (num : ℕ)
    → IsIndex db.num_ndx
    → num ≤ db.num_ndx.pos_0_value
    → find_uid_by_num db num ≡ entry db.num_ndx num
unfolding find_uid_by_num
find_uid_by_num_lem db num v le = rw (sub32_lem db.num_ndx.pos_0_value num le (omega (arith, v)))

-- A cell is overwritten.
entry-set :
    (ndx : NumNdx) (num n rec : ℕ)
    → IsIndex ndx
    → ndx.end_value ≤ num
    → num ≤ ndx.pos_0_value
    → n ≤ ndx.pos_0_value
    → entry (record ndx { cells = set ndx.cells (ndx.pos_0_value - num) (some rec) }) n
      ≡ (if n == num then some (some rec) else entry ndx n)
entry-set ndx num n rec v ends le le' = elim (Bool-cases (n == num)) [
  | inl same ↦ ground (
    arith,
    (==_iff n num).0 same,
    get_elem?-set_self ndx.cells (ndx.pos_0_value - num) (some rec),
  )
  | inr other ↦ ground (
    arith,
    get_elem?-set_ne ndx.cells {i = ndx.pos_0_value - num} {j = ndx.pos_0_value - n} (some rec),
  )
]

-- The index with a cell overwritten.
abbrev written : NumNdx → ℕ → ℕ → NumNdx
written ndx num rec = record ndx { cells = set ndx.cells (ndx.pos_0_value - num) (some rec) }

written-IsIndex : (ndx : NumNdx) (num rec : ℕ) → IsIndex ndx → IsIndex (written ndx num rec)
written-IsIndex ndx num rec v = record {
  bound = v.bound;
  ends = v.ends;
  size = omega (arith, v, length-set ndx.cells (ndx.pos_0_value - num) (some rec));
}

set_uid_db_num_lem :
    (db : UidDb) (rec num : ℕ)
    → IsIndex db.num_ndx
    → num ≤ db.num_ndx.pos_0_value
    → set_uid_db_num db rec num ≡ record db { num_ndx = written (reach db.num_ndx num) num rec }
unfolding set_uid_db_num
set_uid_db_num_lem db rec num v le =
    let ndx = reach db.num_ndx num in
    let w = reach-IsIndex db.num_ndx num v le in
    let ofs : sub32 ndx.pos_0_value num ≡ ndx.pos_0_value - num =
      sub32_lem ndx.pos_0_value num (omega (arith, reach_covers db.num_ndx num v))
        (omega (arith, w)) in
    ap (λ k. record db { num_ndx = record ndx { cells = set ndx.cells k (some rec) } }) ofs

-- The record that was last given a message number is found by that number, the numbers of the
-- others are left as they are, and the index stays in shape, if the numbers are not above the
-- highest one that `set_uid_db_num_pos_0` announced.
pub find_uid_by_num-set_uid_db_num :
    (db : UidDb) (rec num n : ℕ)
    → IsIndex db.num_ndx
    → num ≤ db.num_ndx.pos_0_value
    → n ≤ db.num_ndx.pos_0_value
    → IsIndex (set_uid_db_num db rec num).num_ndx
      × (find_uid_by_num (set_uid_db_num db rec num) n
          ≡ (if n == num then some (some rec) else find_uid_by_num db n))
find_uid_by_num-set_uid_db_num db rec num n v le le' =
    let ndx = reach db.num_ndx num in
    let w = reach-IsIndex db.num_ndx num v le in
    let (covers, same) = reach_covers db.num_ndx num v in
    let low : num ≤ ndx.pos_0_value = omega arith in
    rw (set_uid_db_num_lem db rec num v le) (
      written-IsIndex ndx num rec w,
      find_uid_by_num_lem _ n (written-IsIndex ndx num rec w) (omega arith)
          ∙ entry-set ndx num n rec w covers low (omega arith)
          ∙ rw (entry-reach db.num_ndx num n v le le', find_uid_by_num_lem db n v le'),
    )

-- After `reset_uid_db_nums` no message number is found, if the index held two cells at least.
pub find_uid_by_num-reset_uid_db_nums :
    (db : UidDb) (n : ℕ)
    → IsIndex db.num_ndx
    → db.num_ndx.end_value < db.num_ndx.pos_0_value
    → n ≤ db.num_ndx.pos_0_value
    → IsIndex (reset_uid_db_nums db).num_ndx
      × (find_uid_by_num (reset_uid_db_nums db) n ≡ some none)
unfolding reset_uid_db_nums
find_uid_by_num-reset_uid_db_nums db n v lt le =
    let top : (db.num_ndx.pos_0_value + 1) % u32 ≡ db.num_ndx.pos_0_value + 1 = omega (arith, v) in
    rw (lt→ltb _ _ lt, top)
      (
        record { bound = v.bound; ends = omega arith; size = omega arith },
        unfold find_uid_by_num in ground arith,
      )
