-- ===== src/Tests/Uidl.antt =====
-- The answer to UIDL.
use fetchmail.Prelude.{
  ℕ, ◌<◌, ◌≡◌, refl, ap, ◌≢◌, true, false, none, some, [], ◌∷◌, arith, length, codes, is_space,
  str_eq,
}
use fetchmail.Transact.{line, closed, chomp}
use fetchmail.UidDb.{UidDb, init_uid_db, set_uid_db_num_pos_0}
use fetchmail.UidDb.Trie.{uid_db_insert, find_uid_by_id}
use fetchmail.UidDb.Trie.Search.{IsUid, ids_of, first_with}
use fetchmail.UidDb.Trie.Promise.{IsDb-init}
use fetchmail.UidDb.Trie.Others.{IsDb-set_uid_db_num_pos_0}
use fetchmail.Pop3.{dotline, parseuid}
use fetchmail.Pop3.Uidl.{Range, uidl_loop}
use fetchmail.Pop3.Uidl.Counts.{IsList, AreLists}
use fetchmail.Pop3.Uidl.Listing.{IsEntry, done, entry, uidl_loop-Entries}

abbrev start : UidDb
start = set_uid_db_num_pos_0 init_uid_db 3

abbrev range : Range
range = record { oldsaved = start; newsaved = start; newp = 0 }

start-IsList : IsList start 3
unfolding init_uid_db set_uid_db_num_pos_0
start-IsList = record {
  is_db = IsDb-set_uid_db_num_pos_0 init_uid_db 3 IsDb-init;
  index = record { bound = omega arith; ends = omega arith; size = refl };
  top = refl;
}

letter-IsUid : (c : ℕ) → c ≢ 0 → c < 256 → IsUid (c ∷ [])
letter-IsUid c nonzero small = (
  λ nothing. let no : length (c ∷ []) ≡ 0 = ap length nothing in absurd (omega arith),
  ((nonzero, small), tt),
)

first-IsEntry : IsEntry 3 (codes "1 a\r\n") (codes "a")
unfolding chomp dotline parseuid is_space
first-IsEntry = record {
  unum = 1;
  more = refl;
  parsed = refl;
  is_uid = letter-IsUid b'a' (λ e. omega (arith, e)) (omega arith);
  inside = omega arith;
}

second-IsEntry : IsEntry 3 (codes "2 a\r\n") (codes "a")
unfolding chomp dotline parseuid is_space
second-IsEntry = record {
  unum = 2;
  more = refl;
  parsed = refl;
  is_uid = letter-IsUid b'a' (λ e. omega (arith, e)) (omega arith);
  inside = omega arith;
}

dot-is_dot : dotline (chomp (codes ".\r\n")) ≡ true
unfolding chomp dotline
dot-is_dot = refl

uidl_loop-Entries_example :
    (range' : Range) × (uidl_loop false
        (line (codes "1 a\r\n") ∷ line (codes "2 a\r\n") ∷ line (codes ".\r\n") ∷ closed ∷ [])
        range
      ≡ some (0, range', closed ∷ []))
    × (ids_of range'.newsaved.records ≡ codes "a" ∷ codes "a" ∷ [])
    × (range'.newp ≡ 2)
    × AreLists range' 3
unfolding init_uid_db set_uid_db_num_pos_0 first_with
uidl_loop-Entries_example =
    uidl_loop-Entries 3 false range (codes ".\r\n") (closed ∷ []) (start-IsList, start-IsList)
      (entry first-IsEntry (entry second-IsEntry done)) dot-is_dot

-- A number above the number of the messages is written outside the index.
above : uidl_loop false (line (codes "5 x\r\n") ∷ []) range ≡ none
unfolding uidl_loop uid_db_insert find_uid_by_id init_uid_db set_uid_db_num_pos_0 chomp is_space
    str_eq
above = refl

-- A connection that is lost in the middle is taken for the end of the answer.
lost : uidl_loop false (closed ∷ []) range ≡ some (0, range, [])
unfolding uidl_loop
lost = refl
