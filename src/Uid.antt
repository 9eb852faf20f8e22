-- ===== src/Uid.antt =====
-- uid.c: what happens to the two UID databases of a query when messages were expunged and at the
-- end of the query. The reports at debug level are left out.
pub mod Marks
use fetchmail.Prelude.{
  ℕ, zero, suc, ◌+◌, ◌-◌, ◌*◌, ◌/◌, ◌%◌, ◌^◌, ◌≤◌, ◌<◌, bit_and, bit_or, bit_xor, ◌≡◌, refl, sym,
  ap, ◌∙◌, ◌≢◌, ◌↔◌, ◌⊎◌, inl, inr, Bool, true, false, not, ◌&&◌, ◌||◌, Option, none, some, List,
  [], ◌∷◌, ◌++◌, map, append_assoc, append-nil, arith, ltb, leb, ◌==◌, if◌then◌else◌, ltb→lt,
  lt→ltb, leb→le, ==_iff, tests, Bool-cases, Option-cases, bind_inv, ◌>>=◌, length, get_elem?, set,
  length-append, length-set, get_or, take, drop, replicate, length-replicate, length-map,
  take-append-drop, length-take, length-drop, get_elem?-append_left, get_elem?-append_right,
  get_elem?-replicate, take_all, get_elem?-set_self, get_elem?-set_ne, Bytes, codes, peek, next,
  All, All-append, Lacks, NoNul, ==_ne, IsByte, contains, is_space, to_lower, str_eq, str_case_eq,
  has_case_prefix, starts_with, str_eq_sound, str_eq_refl, every, every_lem,
}
use fetchmail.UidDb.{
  Rec, UidDb, init_uid_db, uid_db_n_records, traverse_uid_db, swap_uid_db_data, reset_uid_db_nums,
}

-- The marks of a message.
abbrev pub uid_unseen : ℕ
uid_unseen = 0

abbrev pub uid_seen : ℕ
uid_seen = 1

abbrev pub uid_deleted : ℕ
uid_deleted = 2

abbrev pub uid_expunged : ℕ
uid_expunged = 3

-- The databases of a `struct query`.
pub record Query : Type 0 where
  pub oldsaved : UidDb
  pub newsaved : UidDb

-- `mark_as_expunged_if`.
unfoldable pub mark_as_expunged_if : Rec → Unit {0} → Rec × Unit {0} × ℕ
mark_as_expunged_if rec unused =
    (if rec.status == uid_deleted then record rec { status = uid_expunged } else rec, unused, 0)

unfoldable pub expunge_db : UidDb → UidDb
unfolding traverse_uid_db mark_as_expunged_if
expunge_db db = record db { records = (traverse_uid_db mark_as_expunged_if db.records tt).0 }

-- `expunge_uids`.
unfoldable pub expunge_uids : Bool → Query → Query
unfolding expunge_db
expunge_uids dofastuidl ctl =
    if dofastuidl
    then record ctl { oldsaved = expunge_db ctl.oldsaved }
    else record ctl { newsaved = expunge_db ctl.newsaved }

-- `count_seen_deleted`.
unfoldable pub count_seen_deleted : Rec → ℕ → Rec × ℕ × ℕ
count_seen_deleted rec arg =
    (rec, (if rec.status == uid_seen || rec.status == uid_deleted then arg + 1 else arg), 0)

-- The count with which `write_saved_lists` begins.
unfoldable pub id_count : List Query → ℕ → ℕ
unfolding traverse_uid_db count_seen_deleted
id_count [] idcount = idcount
id_count (ctl ∷ hosts) idcount =
    id_count hosts (traverse_uid_db count_seen_deleted ctl.oldsaved.records idcount).1

-- `uid_swap_lists`.
unfoldable pub uid_swap_lists : Query → Query
unfolding uid_db_n_records swap_uid_db_data
uid_swap_lists ctl =
    if uid_db_n_records ctl.newsaved == 0
    then ctl
    else let swapped = swap_uid_db_data (ctl.newsaved, ctl.oldsaved) in
      record ctl { newsaved = init_uid_db; oldsaved = swapped.1 }

-- `uid_discard_new_list`.
unfoldable pub uid_discard_new_list : Query → Query
unfolding uid_db_n_records
uid_discard_new_list ctl =
    if uid_db_n_records ctl.newsaved == 0 then ctl else record ctl { newsaved = init_uid_db }

-- `uid_reset_num`.
unfoldable pub uid_reset_num : Query → Query
uid_reset_num ctl = record ctl { oldsaved = reset_uid_db_nums ctl.oldsaved }
