-- ===== src/Tests/Store.antt =====
-- The UID databases and rfc822.c.
use fetchmail.Prelude.{
  ℕ, zero, suc, ◌+◌, ◌≡◌, refl, ◌≢◌, true, not, none, some, [], ◌∷◌, map, arith, ◌==◌,
  if◌then◌else◌, get_elem?, Bytes, codes, All,
}
use fetchmail.UidDb.{
  uid_db_n_records, Rec, UidDb, insert_into_records, set_uid_db_num, find_uid_by_num,
  find_uid_by_pos, reset_uid_db_nums,
}
use fetchmail.UidDb.Index.{
  IsIndex, find_uid_by_num-set_uid_db_num, find_uid_by_num-reset_uid_db_nums,
}
use fetchmail.UidDb.Records.{IsPlaced, insert_into_records-IsPlaced}
use fetchmail.Uid.{
  uid_discard_new_list, uid_seen, uid_deleted, Query, expunge_uids, id_count, uid_swap_lists,
}
use fetchmail.Uid.Marks.{
  expunge_uids-records, id_count-kept, uid_swap_lists-newsaved, expunged, current, kept_all,
}
use fetchmail.Nxtaddr.{Scan, State, start_hdr, skip_junk, found, overrun, nxtaddr, nxtaddr_next}
use fetchmail.Nxtaddr.Bounds.{IsSafe, nxtaddr-IsSafe}

abbrev first : Rec
first = record { id = codes "a"; id_len = 1; num = 0; status = uid_deleted; pos = 0; next = none }

abbrev second : Rec
second = record { id = codes "b"; id_len = 1; num = 0; status = uid_seen; pos = 1; next = none }

-- Three messages are expected, the third has the record 0.
abbrev third_known : UidDb
third_known = record {
  pat_root = none;
  pat_nodes = [];
  records = first ∷ second ∷ [];
  records_max = 16;
  num_ndx = record { cells = some 0 ∷ []; pos_0_value = 3; end_value = 3 };
}

abbrev known : UidDb
known = record {
  pat_root = none;
  pat_nodes = [];
  records = first ∷ second ∷ [];
  records_max = 16;
  num_ndx = record { cells = some 0 ∷ some 1 ∷ none ∷ []; pos_0_value = 3; end_value = 1 };
}

third_known-IsIndex : IsIndex third_known.num_ndx
third_known-IsIndex = record { bound = omega arith; ends = omega arith; size = refl }

known-IsIndex : IsIndex known.num_ndx
known-IsIndex = record { bound = omega arith; ends = omega arith; size = refl }

two_set : find_uid_by_num (set_uid_db_num third_known 1 1) 1 ≡ some (some 1)
unfolding find_uid_by_num set_uid_db_num
two_set = refl

find_uid_by_num-set_uid_db_num_example :
    IsIndex (set_uid_db_num third_known 1 1).num_ndx
    × (find_uid_by_num (set_uid_db_num third_known 1 1) 2
        ≡ (if 2 == 1 then some (some 1) else find_uid_by_num third_known 2))
find_uid_by_num-set_uid_db_num_example =
    find_uid_by_num-set_uid_db_num third_known 1 1 2 third_known-IsIndex (omega arith) (omega arith)

find_uid_by_num-reset_uid_db_nums_example :
    IsIndex (reset_uid_db_nums known).num_ndx
    × (find_uid_by_num (reset_uid_db_nums known) 2 ≡ some none)
find_uid_by_num-reset_uid_db_nums_example =
    find_uid_by_num-reset_uid_db_nums known 2 known-IsIndex (omega arith) (omega arith)

known_placed : (i : ℕ) (r : Rec) → get_elem? known.records i ≡ some r → r.pos ≡ i
known_placed zero r h = cc
known_placed (suc zero) r h = cc
known_placed (suc (suc i)) r h = cc

known-IsPlaced : IsPlaced known
known-IsPlaced = record { placed = known_placed; room = omega arith; some_room = omega arith }

insert_into_records-IsPlaced_example :
    IsPlaced (insert_into_records known first)
    × (find_uid_by_pos (insert_into_records known first) 2
        ≡ (if 2 == 2 then some (record first { pos = 2 }) else find_uid_by_pos known 2))
insert_into_records-IsPlaced_example =
    insert_into_records-IsPlaced known first 2 known-IsPlaced (omega arith) (omega arith)

abbrev ctl : Query
ctl = record { oldsaved = third_known; newsaved = known }

expunge_uids-records_example :
    ((current true (expunge_uids true ctl)).records ≡ map expunged (current true ctl).records)
    × All (λ r. r.status ≢ uid_deleted) (current true (expunge_uids true ctl)).records
    × (current (not true) (expunge_uids true ctl) ≡ current (not true) ctl)
expunge_uids-records_example = expunge_uids-records true ctl

id_count-kept_example : id_count (ctl ∷ []) 0 ≡ 0 + kept_all (ctl ∷ [])
id_count-kept_example = id_count-kept (ctl ∷ []) 0

abbrev fresh : State → Scan
fresh old = record { address = []; state = skip_junk; oldstate = old; parendepth = 0 }

abbrev header : Bytes
header = codes "To: ann (Ann) <a@b.c>, bob@d.e\n"

one_address :
    nxtaddr 512 header start_hdr
    ≡ found
        (codes "a@b.c")
        (codes ", bob@d.e\n")
        (record { address = []; state = skip_junk; oldstate = State.bare_address; parendepth = 0 })
unfolding nxtaddr
one_address = refl

escaped_end : nxtaddr 512 (codes "To: a\\") start_hdr ≡ overrun
unfolding nxtaddr
escaped_end = refl

nxtaddr-IsSafe_example :
    IsSafe 512 header [] (nxtaddr 512 header start_hdr)
    × IsSafe 512 header [] (nxtaddr_next 512 header (fresh start_hdr))
nxtaddr-IsSafe_example = nxtaddr-IsSafe 512 header (fresh start_hdr) start_hdr refl

uid_swap_lists-newsaved_example :
    (uid_db_n_records (uid_swap_lists ctl).newsaved ≡ 0)
    × (uid_db_n_records (uid_discard_new_list ctl).newsaved ≡ 0)
    × ((uid_swap_lists ctl).oldsaved
        ≡ (if uid_db_n_records ctl.newsaved == 0 then ctl.oldsaved else ctl.newsaved))
    × ((uid_discard_new_list ctl).oldsaved ≡ ctl.oldsaved)
uid_swap_lists-newsaved_example = uid_swap_lists-newsaved ctl
