-- ===== src/Pop3/Uidl/Listing.antt =====
-- The whole answer to UIDL.
use fetchmail.Prelude.{
  ℕ, ◌+◌, ◌≤◌, ◌≡◌, refl, sym, ap, ◌∙◌, Bool, true, false, some, List, [], ◌∷◌, ◌++◌, append_assoc,
  append-nil, arith, ◌>>=◌, Bytes,
}
use fetchmail.Transact.{Read, line, chomp, received}
use fetchmail.UidDb.{Rec}
use fetchmail.UidDb.Trie.Search.{IsUid, ids_of}
use fetchmail.Pop3.{dotline, parseuid, id_size}
use fetchmail.Pop3.Uidl.{Range, uidl_loop}
use fetchmail.Pop3.Uidl.Unseen.{unseen_in}
use fetchmail.Pop3.Uidl.Counts.{AreLists, list_uid-Listed, one_if}

-- A line of the answer: not the last one, with the number of a message and an identifier.
pub record IsEntry (count : ℕ) (s : Bytes) (id : Bytes) : Type 0 where
  pub unum : ℕ
  pub more : dotline (chomp s) ≡ false
  pub parsed : parseuid (chomp s) id_size ≡ some (unum, id)
  pub is_uid : IsUid id
  pub inside : unum ≤ count

-- The lines of the answer, with the identifiers in them.
pub data Entries (count : ℕ) : List Read → List Bytes → Type 0 where
  done : Entries count [] []
  entry :
      {s id : Bytes} {rs : List Read} {ids : List Bytes}
      → IsEntry count s id
      → Entries count rs ids
      → Entries count (line s ∷ rs) (id ∷ ids)

-- The number of the identifiers that are unseen.
abbrev pub count_unseen : List Rec → List Bytes → ℕ
count_unseen recs [] = 0
count_unseen recs (id ∷ ids) = one_if (unseen_in recs id) + count_unseen recs ids

count_unseen-kept :
    (recs recs' : List Rec) (ids : List Bytes)
    → ((k : Bytes) → unseen_in recs' k ≡ unseen_in recs k)
    → count_unseen recs' ids ≡ count_unseen recs ids
count_unseen-kept recs recs' [] same = refl
count_unseen-kept recs recs' (id ∷ ids) same =
    let rest = count_unseen-kept recs recs' ids same in
    ap (λ b. one_if b + count_unseen recs' ids) (same id)
    ∙ ap (λ n. one_if (unseen_in recs id) + n) rest

-- For lists in order, whose indices are made for `count` messages, and an answer to UIDL whose lines,
-- up to the one with the dot, have numbers that are at most `count` and identifiers that are not
-- empty, with the bytes of a C string, the loop returns success at the line with the dot and reads no
-- further; the identifiers stand in their order behind those of the new list, `*newp` grows by the
-- number of the lines whose identifier the old list did not have before the answer, or had as
-- unseen, and the lists are in order, with indices for `count` messages.
pub uidl_loop-Entries :
    (count : ℕ) (flush : Bool) (range : Range) {rs : List Read} {ids : List Bytes} (dot : Bytes)
    (rest : List Read)
    → AreLists range count
    → Entries count rs ids
    → dotline (chomp dot) ≡ true
    → (range' : Range) × (uidl_loop flush (rs ++ line dot ∷ rest) range ≡ some (0, range', rest))
      × (ids_of range'.newsaved.records ≡ ids_of range.newsaved.records ++ ids)
      × (range'.newp ≡ range.newp + count_unseen range.oldsaved.records ids)
      × AreLists range' count
unfolding uidl_loop received
uidl_loop-Entries count flush range dot rest are_lists done is_dot = (
  range,
  rw (uidl_loop, is_dot) refl,
  sym (append-nil (ids_of range.newsaved.records)),
  omega arith,
  are_lists,
)
uidl_loop-Entries count flush range dot rest are_lists (entry {id = id} {ids = ids} e es) is_dot =
    let (range1, is, newp, new_ids, same, are_lists1) =
      list_uid-Listed flush range e.unum id count are_lists e.is_uid e.inside in
    let (range2, is', ids', newp', are_lists2) =
      uidl_loop-Entries count flush range1 dot rest are_lists1 es is_dot in
    (
      range2,
      rw (uidl_loop, e.more, e.parsed, is, ◌>>=◌) is',
      ids'
          ∙ ap (λ y. y ++ ids) new_ids
          ∙ append_assoc (ids_of range.newsaved.records) (id ∷ []) ids,
      omega (
        arith,
        newp,
        newp',
        count_unseen-kept range.oldsaved.records range1.oldsaved.records ids same,
      ),
      are_lists2,
    )
