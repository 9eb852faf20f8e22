-- ===== src/Tests/Names.antt =====
-- idlist.c.
use fetchmail.Prelude.{
  ℕ, ◌≡◌, refl, true, none, some, List, [], ◌∷◌, if◌then◌else◌, Bytes, codes, str_eq, str_case_eq,
}
use fetchmail.IdList.{
  pos, Entry, Pair, save_str, str_in_list, str_nr_in_list, str_nr_last_in_list, str_from_nr_list,
  idpair_find, id_find, str_find, delete_str, str_set_mark, count_list,
}
use fetchmail.IdList.Search.{
  IsFirst, IsLast, id_at, marked_at, str_nr_in_list-IsFirst, delete_str-id_find,
  str_in_list-save_str,
}

abbrev entry : Bytes → ℕ → Entry
entry id num = record { id = id; num = pos num; mark = 0 }

abbrev names : List Entry
names = entry (codes "a") 1 ∷ entry (codes "b") 2 ∷ entry (codes "a") 3 ∷ []

third : str_nr_last_in_list names (some (codes "a")) ≡ pos 2
unfolding str_nr_last_in_list str_eq
third = refl

marked : count_list (str_set_mark names (some (codes "a")) 1) ≡ 3
unfolding count_list str_set_mark
marked = refl

by_number : str_from_nr_list names (str_nr_in_list names (some (codes "b"))) ≡ some (codes "b")
unfolding str_from_nr_list str_nr_in_list str_eq
by_number = refl

abbrev pairs : List Pair
pairs =
    record { id = codes "esr"; id2 = some (codes "eric") }
    ∷ record { id = codes "ann"; id2 = none }
    ∷ []

other_name : idpair_find pairs (codes "ESR") ≡ some (codes "eric")
unfolding idpair_find
other_name = refl

own_name : idpair_find pairs (codes "Ann") ≡ some (codes "ann")
unfolding idpair_find
own_name = refl

str_nr_in_list-IsFirst_example :
    IsFirst names (codes "a") (str_nr_in_list names (some (codes "a")))
    × IsLast names (codes "a") (str_nr_last_in_list names (some (codes "a")))
str_nr_in_list-IsFirst_example = str_nr_in_list-IsFirst names (codes "a")

delete_str-id_find_example :
    (delete_str names (pos 2)
      ≡ elim (id_find names (pos 2)) [ none ↦ (names, 0) | some n ↦ (marked_at names n, 1) ])
    × (str_find names (pos 2)
        ≡ elim (id_find names (pos 2)) [ none ↦ none | some n ↦ id_at names n ])
delete_str-id_find_example = delete_str-id_find names (pos 2)

str_in_list-save_str_example :
    str_in_list (save_str names (codes "c") 1).0 (codes "C") true
    ≡ elim (str_in_list names (codes "C") true) [
      | none ↦
          (if (if true then str_case_eq (codes "C") (codes "c") else str_eq (codes "C") (codes "c"))
            then some (save_str names (codes "c") 1).1
            else none)
      | some n ↦ some n
    ]
str_in_list-save_str_example = str_in_list-save_str names (codes "c") (codes "C") 1 true
