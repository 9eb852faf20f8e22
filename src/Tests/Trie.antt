-- ===== src/Tests/Trie.antt =====
-- The trie of identifiers.
use fetchmail.Prelude.{
  zero, ◌+◌, ◌==◌, if◌then◌else◌, tests, and_parts, ◌&&◌, ltb, true, Bool, length, ap, arith, suc,
  All, ℕ, ◌≡◌, refl, Option, none, some, List, [], ◌∷◌, ◌>>=◌, Bytes, codes, str_eq,
}
use fetchmail.UidDb.{UidDb, init_uid_db}
use fetchmail.UidDb.Release.{free_uid_db}
use fetchmail.UidDb.Trie.Bits.{IsId}
use fetchmail.UidDb.Trie.Search.{IsUid, first_with, ids_of}
use fetchmail.UidDb.Trie.Refines.{Appends}
use fetchmail.UidDb.Trie.Promise.{
  insert_each, insert_each-find, uid_db_insert-Appends, find_uid_by_id-first_with, IsDb-init,
}
use fetchmail.UidDb.Trie.{uid_db_insert, find_uid_by_id, last_uid_in_db}

abbrev ids : List Bytes
ids =
    codes "b"
    ∷ codes "abc"
    ∷ codes "ab"
    ∷ codes "b"
    ∷ codes "x1"
    ∷ codes "x2"
    ∷ codes ""
    ∷ codes "A"
    ∷ codes "a"
    ∷ codes "c"
    ∷ codes "b"
    ∷ []

abbrev found_first : List Bytes → Option (List (Option ℕ))
found_first [] = some []
found_first (id ∷ rest) = do
  db ← insert_each init_uid_db ids 0
  p ← find_uid_by_id db id
  ps ← found_first rest
  some (p ∷ ps)

first_ones :
    found_first (
      codes "b"
      ∷ codes "abc"
      ∷ codes "ab"
      ∷ codes "x1"
      ∷ codes "x2"
      ∷ codes ""
      ∷ codes "A"
      ∷ codes "a"
      ∷ codes "c"
      ∷ codes "x"
      ∷ codes "abcd"
      ∷ [])
    ≡ some (
        some 0
        ∷ some 1
        ∷ some 2
        ∷ some 4
        ∷ some 5
        ∷ some 6
        ∷ some 7
        ∷ some 8
        ∷ some 9
        ∷ none
        ∷ none
        ∷ [])
unfolding uid_db_insert find_uid_by_id init_uid_db str_eq
first_ones = refl

-- An identifier that is inserted first is not found when it is empty.
empty_first :
    (do db ← insert_each init_uid_db (codes "" ∷ []) 0; find_uid_by_id db (codes "")) ≡ some none
unfolding uid_db_insert find_uid_by_id init_uid_db str_eq
empty_first = refl

last_one : (do db ← insert_each init_uid_db ids 0; last_uid_in_db db (codes "b")) ≡ some (some 10)
unfolding uid_db_insert last_uid_in_db init_uid_db str_eq
last_one = refl

abbrev three : List Bytes
three = codes "b" ∷ codes "abc" ∷ codes "ab" ∷ []

abbrev fits : Bytes → Bool
fits [] = true
fits (c ∷ s) = ltb 0 c && ltb c 256 && fits s

fits_lem : (s : Bytes) → fits s ≡ true → IsId s
fits_lem [] e = tt
fits_lem (c ∷ s) e =
    let (first, rest) = and_parts (ltb 0 c && ltb c 256) (fits s) e in
    let (above, below) = and_parts (ltb 0 c) (ltb c 256) first in
    ((λ zero_is. absurd (omega (tests, above, zero_is)), omega (tests, below)), fits_lem s rest)

uid : (c : ℕ) (s : Bytes) → fits (c ∷ s) ≡ true → IsUid (c ∷ s)
uid c s e = (
  λ nothing. let no : suc (length s) ≡ 0 = ap length nothing in absurd (omega arith),
  fits_lem (c ∷ s) e,
)

three-IsUid : All IsUid three
three-IsUid = (uid b'b' [] refl, (uid b'a' (codes "bc") refl, (uid b'a' (codes "b") refl, tt)))

insert_each-find_example :
    (db : UidDb) × (insert_each init_uid_db three 0 ≡ some db)
    × (find_uid_by_id db (codes "ab") ≡ some (first_with (codes "ab") three))
insert_each-find_example = insert_each-find three 0 (codes "ab") three-IsUid

uid_db_insert-Appends_example :
    Appends init_uid_db (codes "b") (uid_db_insert init_uid_db (codes "b") 0)
uid_db_insert-Appends_example =
    uid_db_insert-Appends init_uid_db (codes "b") 0 IsDb-init three-IsUid.0

abbrev one : Appends init_uid_db (codes "b") (uid_db_insert init_uid_db (codes "b") 0)
one = uid_db_insert-Appends init_uid_db (codes "b") 0 IsDb-init three-IsUid.0

find_uid_by_id-first_with_example :
    find_uid_by_id one.0 (codes "b") ≡ some (first_with (codes "b") (ids_of one.0.records))
find_uid_by_id-first_with_example = find_uid_by_id-first_with one.0 (codes "b") one.3

-- Whether each position below `n` was released exactly once.
abbrev times : ℕ → List ℕ → ℕ
times i [] = 0
times i (j ∷ js) = let rest = times i js in if i == j then rest + 1 else rest

abbrev once_each : ℕ → List ℕ → Bool
once_each zero released = true
once_each (suc n) released = (times n released == 1) && once_each n released

abbrev is_once : UidDb → Option Bool
is_once db = do
  gone ← free_uid_db db
  some (
      once_each (length db.pat_nodes) gone.nodes
      && length gone.nodes == length db.pat_nodes
      && once_each (length db.records) gone.recs
      && length gone.recs == length db.records)

-- Of the database above, each node and each record is released once, and nothing else is.
released_once : (insert_each init_uid_db ids 0 >>= is_once) ≡ some true
unfolding uid_db_insert init_uid_db free_uid_db
released_once = refl
