-- ===== src/Uid/Marks.antt =====
-- The marks of the messages of a query.
use fetchmail.Prelude.{
  ℕ, ◌+◌, ◌≡◌, refl, ◌≢◌, Bool, true, false, not, ◌||◌, List, [], ◌∷◌, map, arith, ◌==◌,
  if◌then◌else◌, All,
}
use fetchmail.UidDb.{Rec, UidDb, init_uid_db, uid_db_n_records, traverse_uid_db}
use fetchmail.Uid.{
  uid_seen, uid_deleted, uid_expunged, Query, mark_as_expunged_if, expunge_db, expunge_uids,
  count_seen_deleted, id_count, uid_swap_lists, uid_discard_new_list,
}

-- A traversal whose routine always returns 0 visits every record.
traverse-map {ℓ} :
    {S : Type ℓ} (r : Rec → S → Rec × S × ℕ) (f : Rec → Rec) (recs : List Rec) (arg : S)
    → ((rec : Rec) (a : S) → (r rec a).2 ≡ 0)
    → ((rec : Rec) (a : S) → (r rec a).0 ≡ f rec)
    → (traverse_uid_db r recs arg).0 ≡ map f recs
unfolding traverse_uid_db
traverse-map r f [] arg z e = refl
traverse-map r f (rec ∷ recs) arg z e =
    rw (z rec arg) (rw (e rec arg, traverse-map r f recs (r rec arg).1 z e))

-- What `expunge_uids` does to one record.
abbrev pub expunged : Rec → Rec
expunged rec = if rec.status == uid_deleted then record rec { status = uid_expunged } else rec

expunge_db-records : (db : UidDb) → (expunge_db db).records ≡ map expunged db.records
unfolding expunge_db
expunge_db-records db =
    traverse-map mark_as_expunged_if expunged db.records tt
      (λ rec a. unfold mark_as_expunged_if in refl) (λ rec a. unfold mark_as_expunged_if in refl)

none_deleted : (recs : List Rec) → All (λ r. r.status ≢ uid_deleted) (map expunged recs)
none_deleted [] = tt
none_deleted (rec ∷ recs) = (ground arith, none_deleted recs)

-- The database of the query that `expunge_uids` works on, and the one that it leaves alone.
abbrev pub current : Bool → Query → UidDb
current fast ctl = if fast then ctl.oldsaved else ctl.newsaved

-- `expunge_uids` marks exactly the deleted messages of the current list as expunged, in order, so
-- that none is left deleted, and does not touch the other list.
pub expunge_uids-records :
    (fast : Bool) (ctl : Query)
    → ((current fast (expunge_uids fast ctl)).records ≡ map expunged (current fast ctl).records)
      × All (λ r. r.status ≢ uid_deleted) (current fast (expunge_uids fast ctl)).records
      × (current (not fast) (expunge_uids fast ctl) ≡ current (not fast) ctl)
unfolding expunge_uids
expunge_uids-records true ctl = (
  expunge_db-records ctl.oldsaved,
  rw (expunge_db-records ctl.oldsaved) (none_deleted ctl.oldsaved.records),
  refl,
)
expunge_uids-records false ctl = (
  expunge_db-records ctl.newsaved,
  rw (expunge_db-records ctl.newsaved) (none_deleted ctl.newsaved.records),
  refl,
)

-- The records whose identifiers are kept for the next run.
abbrev pub kept : List Rec → ℕ
kept [] = 0
kept (r ∷ recs) = (if r.status == uid_seen || r.status == uid_deleted then 1 else 0) + kept recs

abbrev pub kept_all : List Query → ℕ
kept_all [] = 0
kept_all (ctl ∷ hosts) = kept ctl.oldsaved.records + kept_all hosts

traverse-kept :
    (recs : List Rec) (n : ℕ) → (traverse_uid_db count_seen_deleted recs n).1 ≡ n + kept recs
unfolding traverse_uid_db count_seen_deleted
traverse-kept [] n = omega arith
traverse-kept (r ∷ recs) n = ground (arith, traverse-kept recs n, traverse-kept recs (n + 1))

-- The count of `write_saved_lists`, after which it deletes the file of identifiers if it is 0 and
-- there is no scratch list, is the number of seen and of deleted messages of all hosts.
pub id_count-kept : (hosts : List Query) (n : ℕ) → id_count hosts n ≡ n + kept_all hosts
unfolding id_count
id_count-kept [] n = omega arith
id_count-kept (ctl ∷ hosts) n = omega (
  arith,
  id_count-kept hosts (traverse_uid_db count_seen_deleted ctl.oldsaved.records n).1,
  traverse-kept ctl.oldsaved.records n,
)

-- At the end of a query no record is left in the new list, whether it is taken over or discarded.
-- `uid_swap_lists` makes the new list the old one if it has a record, and leaves the old one
-- otherwise; `uid_discard_new_list` always leaves it.
pub uid_swap_lists-newsaved :
    (ctl : Query)
    → (uid_db_n_records (uid_swap_lists ctl).newsaved ≡ 0)
      × (uid_db_n_records (uid_discard_new_list ctl).newsaved ≡ 0)
      × ((uid_swap_lists ctl).oldsaved
          ≡ (if uid_db_n_records ctl.newsaved == 0 then ctl.oldsaved else ctl.newsaved))
      × ((uid_discard_new_list ctl).oldsaved ≡ ctl.oldsaved)
unfolding uid_swap_lists uid_discard_new_list init_uid_db
uid_swap_lists-newsaved ctl = ground arith
