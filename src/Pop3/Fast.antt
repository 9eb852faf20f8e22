-- ===== src/Pop3/Fast.antt =====
-- pop3.c: the binary search for the first unseen message by single UIDL commands, and what is done
-- with an identifier in the list of the last query. `none` is a trie with a pointer to no node.
pub mod Bracket
pub mod FirstUnseen
pub mod Returns
use fetchmail.Prelude.{
  ℕ, zero, suc, ◌+◌, ◌-◌, ◌*◌, ◌/◌, ◌%◌, ◌^◌, ◌≤◌, ◌<◌, bit_and, bit_or, bit_xor, ◌≡◌, refl, sym,
  ap, ◌∙◌, ◌≢◌, ◌↔◌, ◌⊎◌, inl, inr, Bool, true, false, not, ◌&&◌, ◌||◌, Option, none, some, List,
  [], ◌∷◌, ◌++◌, map, append_assoc, append-nil, arith, ltb, leb, ◌==◌, if◌then◌else◌, ltb→lt,
  lt→ltb, leb→le, ==_iff, tests, Bool-cases, Option-cases, bind_inv, ◌>>=◌, length, get_elem?, set,
  length-append, length-set, get_or, take, drop, replicate, length-replicate, length-map,
  take-append-drop, length-take, length-drop, get_elem?-append_left, get_elem?-append_right,
  get_elem?-replicate, take_all, get_elem?-set_self, get_elem?-set_ne, Bytes, codes, peek, next,
  All, All-append, Lacks, NoNul, ==_ne, IsByte, contains, is_space, to_lower, str_eq, str_case_eq,
  has_case_prefix, starts_with, str_eq_sound, str_eq_refl, every, every_lem,
}
use fetchmail.Transact.{Io}
use fetchmail.UidDb.{u32, sub32, Rec, UidDb, set_uid_db_num}
use fetchmail.UidDb.Trie.{uid_db_insert, find_uid_by_id}
use fetchmail.Uid.{uid_unseen, uid_seen, uid_deleted, uid_expunged}
use fetchmail.Pop3.{Result, good, bad, pop3_getuidl}

-- `rec->status = mark`, at the record at `i`.
unfoldable pub set_status : UidDb → ℕ → ℕ → Option UidDb
set_status db i mark = do
  r ← get_elem? db.records i
  some (record db { records = set db.records i (record r { status = mark }) })

-- The mark of a message that is still present.
unfoldable pub present : ℕ → ℕ
present mark = if mark == uid_deleted || mark == uid_expunged then uid_seen else mark

-- What is done with the identifier of the message `try_nr`: the list, and whether the message is
-- unseen.
unfoldable pub note : UidDb → ℕ → Bytes → Option (UidDb × Bool)
unfolding find_uid_by_id uid_db_insert set_uid_db_num set_status present
note db try_nr id = do
  p ← find_uid_by_id db id
  elim p [
    | some i ↦ do
      r ← get_elem? db.records i
      marked ← set_status db i (present r.status)
      some (set_uid_db_num marked i try_nr, present r.status == uid_unseen)
    | none ↦ do
      (inserted, i) ← uid_db_insert db id uid_unseen
      some (set_uid_db_num inserted i try_nr, true)
  ]

-- How the search ends: with `first_nr`, with the code of an error, or without the fuel it needs.
pub data Search : Type 0 where
  narrowed : ℕ → UidDb → Io → Search
  failed : ℕ → UidDb → Io → Search
  out_of_fuel : Search

-- The loop of `pop3_fastuidl`.
unfoldable pub fast_loop : ℕ → ℕ → UidDb → Io → ℕ → ℕ → Option Search
unfolding pop3_getuidl note
fast_loop zero stage db io first_nr last_nr =
    some (if ltb first_nr (sub32 last_nr 1) then out_of_fuel else narrowed first_nr db io)
fast_loop (suc fuel) stage db io first_nr last_nr = elim (ltb first_nr (sub32 last_nr 1)) [
  | false ↦ some (narrowed first_nr db io)
  | true ↦
      let try_nr = ((first_nr + last_nr) % u32) / 2 in
      let (answer, rest) = pop3_getuidl stage io try_nr in
      elim answer [
        | bad ok ↦ some (failed ok db rest)
        | good id ↦ do
          (noted, unseen) ← note db try_nr id
          elim unseen [
            | true ↦ fast_loop fuel stage noted rest first_nr try_nr
            | false ↦ fast_loop fuel stage noted rest try_nr last_nr
          ]
      ]
]

-- `pop3_fastuidl`: `last` becomes the `first_nr` of the end, and `*newp` the number of messages
-- behind it. The interval shrinks in every round, so that `count` rounds are enough.
unfoldable pub pop3_fastuidl : ℕ → UidDb → Io → ℕ → Option Search
unfolding fast_loop
pop3_fastuidl stage db io count = fast_loop count stage db io 0 ((count + 1) % u32)
