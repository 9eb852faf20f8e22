-- ===== src/Pop3/Uidl.antt =====
-- pop3.c: the answer to UIDL in `pop3_getrange`, which lists the identifiers of all messages. `none`
-- is a write outside an index by message number, or a trie with a pointer to no node.
pub mod Unseen
pub mod Counts
pub mod Listing
use fetchmail.Prelude.{
  ℕ, zero, suc, ◌+◌, ◌-◌, ◌*◌, ◌/◌, ◌%◌, ◌^◌, ◌≤◌, ◌<◌, bit_and, bit_or, bit_xor, ◌≡◌, refl, sym,
  ap, ◌∙◌, ◌≢◌, ◌↔◌, ◌⊎◌, inl, inr, Bool, true, false, not, ◌&&◌, ◌||◌, Option, none, some, List,
  [], ◌∷◌, ◌++◌, map, append_assoc, append-nil, arith, ltb, leb, ◌==◌, if◌then◌else◌, ltb→lt,
  lt→ltb, leb→le, ==_iff, tests, Bool-cases, Option-cases, bind_inv, ◌>>=◌, length, get_elem?, set,
  length-append, length-set, get_or, take, drop, replicate, length-replicate, length-map,
  take-append-drop, length-take, length-drop, get_elem?-append_left, get_elem?-append_right,
  get_elem?-replicate, take_all, get_elem?-set_self, get_elem?-set_ne, Bytes, codes, peek, next,
  All, All-append, Lacks, NoNul, ==_ne, IsByte, contains, is_space, to_lower, str_eq, str_case_eq,
  has_case_prefix, starts_with, str_eq_sound, str_eq_refl, every, every_lem,
}
use fetchmail.Transact.{ps_error, Read, received}
use fetchmail.UidDb.{u32, Rec, UidDb, reach, uid_db_num_ofs, set_uid_db_num}
use fetchmail.UidDb.Trie.{uid_db_insert, find_uid_by_id}
use fetchmail.Uid.{uid_unseen}
use fetchmail.Pop3.{dotline, parseuid, id_size, ps_protocol}
use fetchmail.Pop3.Fast.{set_status, present}

-- The two lists of the query, and `*newp`.
pub record Range : Type 0 where
  pub oldsaved : UidDb
  pub newsaved : UidDb
  pub newp : ℕ

-- `set_uid_db_num`, with a number that was read as an `unsigned long`.
unfoldable pub number_at : UidDb → ℕ → ℕ → Option UidDb
unfolding reach uid_db_num_ofs
number_at db rec unum =
    let num = unum % u32 in
    let ndx = reach db.num_ndx num in
    if ltb (uid_db_num_ofs ndx num) (length ndx.cells)
    then some (set_uid_db_num db rec num)
    else none

-- The numbers in both lists, if they will be needed.
unfoldable pub number_both : Bool → ℕ → ℕ → UidDb → ℕ → UidDb → ℕ → Option (UidDb × UidDb)
unfolding number_at
number_both flush mark unum old old_rec new new_rec = elim (mark == uid_unseen || flush) [
  | false ↦ some (old, new)
  | true ↦ do
    old' ← number_at old old_rec unum
    new' ← number_at new new_rec unum
    some (old', new')
]

-- What is done with an identifier and its number.
unfoldable pub list_uid : Bool → Range → ℕ → Bytes → Option Range
unfolding uid_db_insert find_uid_by_id set_status present number_both
list_uid flush range unum id = do
  (new, new_rec) ← uid_db_insert range.newsaved id uid_unseen
  found ← find_uid_by_id range.oldsaved id
  elim found [
    | some old_rec ↦ do
      r ← get_elem? range.oldsaved.records old_rec
      let mark = present r.status
      old ← set_status range.oldsaved old_rec mark
      marked ← set_status new new_rec mark
      (old', new') ← number_both flush mark unum old old_rec marked new_rec
      some (record {
        oldsaved = old';
        newsaved = new';
        newp = if mark == uid_unseen then range.newp + 1 else range.newp;
      })
    | none ↦ do
      (old, old_rec) ← uid_db_insert range.oldsaved id uid_unseen
      (old', new') ← number_both flush uid_unseen unum old old_rec new new_rec
      some (record { oldsaved = old'; newsaved = new'; newp = range.newp + 1 })
  ]

-- The loop over the lines: what is returned, the lists, and what is left to read.
unfoldable pub uidl_loop : Bool → List Read → Range → Option (ℕ × Range × List Read)
unfolding received dotline parseuid list_uid
uidl_loop flush [] range = some (0, range, [])
uidl_loop flush (r ∷ rs) range =
    if not ((received r).0 == 0)
    then some (0, range, rs)
    else if dotline (received r).1
    then some (0, range, rs)
    else elim (parseuid (received r).1 id_size) [
      | none ↦ some (ps_error, range, rs)
      | some (unum, id) ↦ do range' ← list_uid flush range unum id; uidl_loop flush rs range'
    ]
