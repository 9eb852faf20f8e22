-- ===== src/Pop3/Uidl/Counts.antt =====
-- What the answer to UIDL does to the lists, and how it counts the new messages.
use fetchmail.Prelude.{
  ℕ, ◌+◌, ◌%◌, ◌≤◌, ◌≡◌, refl, sym, ap, ◌∙◌, inl, inr, Bool, true, false, ◌||◌, Option, none, some,
  [], ◌∷◌, ◌++◌, arith, ltb, ◌==◌, if◌then◌else◌, lt→ltb, Bool-cases, Option-cases, ◌>>=◌, length,
  get_elem?, set, Bytes,
}
use fetchmail.Pop3.Uidl.{Range, number_at, number_both, list_uid}
use mathlib.Core.Path.{subst}
use fetchmail.UidDb.{u32, sub32, Rec, UidDb, reach, uid_db_num_ofs, set_uid_db_num}
use fetchmail.UidDb.Index.{IsIndex, reach_covers, reach-IsIndex, find_uid_by_num-set_uid_db_num}
use fetchmail.UidDb.Trie.{uid_db_insert}
use fetchmail.UidDb.Trie.Kept.{KeepsWhat, KeepsWhat-set, Keeps-uid_db_insert}
use fetchmail.UidDb.Trie.Chain.{ids_of-set}
use fetchmail.UidDb.Trie.Search.{IsDb, IsUid, first_with, first_with-some, ids_of}
use fetchmail.UidDb.Trie.Promise.{uid_db_insert-Appends, find_uid_by_id-first_with}
use fetchmail.UidDb.Trie.Others.{IsDb-set, IsDb-set_uid_db_num}
use fetchmail.Uid.{uid_unseen}
use fetchmail.Pop3.Fast.{set_status, present}
use fetchmail.Pop3.Fast.Bracket.{
  unseen_of, present_seen, records-set_uid_db_num, pos_0_value-set_uid_db_num,
}
use fetchmail.Pop3.Uidl.Unseen.{unseen_at, unseen_in, unseen_at-some, unseen_in-kept, unseen_in-new}

-- A list in order, with an index for `count` messages.
pub record IsList (db : UidDb) (count : ℕ) : Type 0 where
  pub is_db : IsDb db
  pub index : IsIndex db.num_ndx
  pub top : db.num_ndx.pos_0_value ≡ count

-- The number of a message gets its place in the index.
number_at-IsList :
    (db : UidDb) (rec unum count : ℕ)
    → IsList db count
    → unum ≤ count
    → (new : UidDb) × (number_at db rec unum ≡ some new)
      × (new.records ≡ db.records)
      × IsList new count
unfolding number_at uid_db_num_ofs
number_at-IsList db rec unum count is_list le =
    let v = is_list.index in
    let small : unum % u32 ≡ unum = omega (arith, v.bound, is_list.top) in
    let ndx = reach db.num_ndx unum in
    let w = reach-IsIndex db.num_ndx unum v (omega (arith, is_list.top)) in
    let (covers, same) = reach_covers db.num_ndx unum v in
    let inside : ltb (sub32 ndx.pos_0_value unum) (length ndx.cells) ≡ true =
      lt→ltb _ _ (omega (arith, w.size, w.bound, covers, same, is_list.top)) in
    let new = set_uid_db_num db rec unum in
    (
      new,
      rw (small, inside) refl,
      records-set_uid_db_num db rec unum,
      record {
        is_db = IsDb-set_uid_db_num db rec unum is_list.is_db;
        index =
            (find_uid_by_num-set_uid_db_num db rec unum unum v (omega (arith, is_list.top))
              (omega (arith, is_list.top))).0;
        top = pos_0_value-set_uid_db_num db rec unum v ∙ is_list.top;
      },
    )

pub IsList-insert :
    (db : UidDb) (id : Bytes) (count : ℕ)
    → IsList db count
    → IsUid id
    → (new : UidDb) × (uid_db_insert db id uid_unseen ≡ some (new, length db.records))
      × (ids_of new.records ≡ ids_of db.records ++ id ∷ [])
      × ((k : Bytes) → unseen_in new.records k ≡ unseen_in db.records k)
      × (s : Rec) × (get_elem? new.records (length db.records) ≡ some s)
      × IsList new count
IsList-insert db id count is_list is_uid =
    let (new, is, ids, new_is_db) = uid_db_insert-Appends db id uid_unseen is_list.is_db is_uid in
    let ((index, marks), s, s_at, mark) =
      Keeps-uid_db_insert db id uid_unseen new (length db.records) is in
    let keeps : KeepsWhat unseen_of db.records new.records =
      λ j r h. let (q, q_at, same) = marks j r h in (q, q_at, ap (λ m. m == uid_unseen) same) in
    (
      new,
      is,
      ids,
      λ k.
          unseen_in-new db.records new.records id k s ids keeps s_at
            (ap (λ m. m == uid_unseen) mark),
      s,
      s_at,
      record {
        is_db = new_is_db;
        index = subst IsIndex (sym index) is_list.index;
        top = ap (λ x. x.pos_0_value) index ∙ is_list.top;
      },
    )

-- The list with another mark of a record.
abbrev pub marked_at : UidDb → ℕ → Rec → ℕ → UidDb
marked_at db p r mark = record db { records = set db.records p (record r { status = mark }) }

pub IsList-marked_at :
    (db : UidDb) (p mark count : ℕ) (r : Rec)
    → IsList db count
    → get_elem? db.records p ≡ some r
    → (ids_of (marked_at db p r mark).records ≡ ids_of db.records)
      × IsList (marked_at db p r mark) count
IsList-marked_at db p mark count r is_list at =
    let s = record r { status = mark } in
    (
      ids_of-set db.records p r s at refl,
      record {
        is_db = IsDb-set db p r s is_list.is_db at refl refl;
        index = is_list.index;
        top = is_list.top;
      },
    )

number_both-IsList :
    (flush : Bool) (mark unum count : ℕ) (old : UidDb) (i : ℕ) (new : UidDb) (j : ℕ)
    → IsList old count
    → IsList new count
    → unum ≤ count
    → (old' : UidDb) × (new' : UidDb) × (number_both flush mark unum old i new j
        ≡ some (old', new'))
      × (old'.records ≡ old.records)
      × (new'.records ≡ new.records)
      × IsList old' count
      × IsList new' count
unfolding number_both
number_both-IsList flush mark unum count old i new j is_old is_new le =
    elim (Bool-cases (mark == uid_unseen || flush)) [
      | inr unneeded ↦ (old, new, rw (number_both, unneeded) refl, refl, refl, is_old, is_new)
      | inl needed ↦
          let (old', is, same, is_old') = number_at-IsList old i unum count is_old le in
          let (new', is', same', is_new') = number_at-IsList new j unum count is_new le in
          (
            old',
            new',
            rw (number_both, needed, is, ◌>>=◌, is', ◌>>=◌) refl,
            same,
            same',
            is_old',
            is_new',
          )
    ]

-- The lists of the query are in order, for `count` messages.
abbrev pub AreLists : Range → ℕ → Type 0
AreLists range count = IsList range.oldsaved count × IsList range.newsaved count

abbrev pub one_if : Bool → ℕ
one_if b = if b then 1 else 0

-- What a line of the answer does.
abbrev pub Listed : Range → Bytes → ℕ → Option Range → Type 0
Listed range id count result =
    (range' : Range) × (result ≡ some range')
    × (range'.newp ≡ range.newp + one_if (unseen_in range.oldsaved.records id))
    × (ids_of range'.newsaved.records ≡ ids_of range.newsaved.records ++ id ∷ [])
    × ((k : Bytes) → unseen_in range'.oldsaved.records k ≡ unseen_in range.oldsaved.records k)
    × AreLists range' count

module _ (flush : Bool) (range : Range) (unum : ℕ) (id : Bytes) (count : ℕ)
    (are_lists : AreLists range count) (is_uid : IsUid id) (le : unum ≤ count) where
  list_uid-unknown :
      first_with id (ids_of range.oldsaved.records) ≡ none
      → Listed range id count (list_uid flush range unum id)
  unfolding list_uid
  list_uid-unknown nowhere =
      let (new, is, ids, _, s, s_at, is_new) =
        IsList-insert range.newsaved id count are_lists.1 is_uid in
      let search =
        find_uid_by_id-first_with range.oldsaved id are_lists.0.is_db ∙ ap some nowhere in
      let (old, is', _, unseen, _, _, is_old) =
        IsList-insert range.oldsaved id count are_lists.0 is_uid in
      let (old', new', both, same, same', is_old', is_new') =
        number_both-IsList flush uid_unseen unum count old (length range.oldsaved.records) new
          (length range.newsaved.records) is_old is_new le in
      (
        record { oldsaved = old'; newsaved = new'; newp = range.newp + 1 },
        rw (is, ◌>>=◌, search, ◌>>=◌, is', ◌>>=◌, both, ◌>>=◌) refl,
        sym (ap (λ p. range.newp + one_if (unseen_at range.oldsaved.records p)) nowhere),
        ap ids_of same' ∙ ids,
        λ k. ap (λ y. unseen_in y k) same ∙ unseen k,
        (is_old', is_new'),
      )

  list_uid-known :
      (p : ℕ)
      → first_with id (ids_of range.oldsaved.records) ≡ some p
      → Listed range id count (list_uid flush range unum id)
  unfolding list_uid set_status
  list_uid-known p there =
      let (new, is, ids, _, s, s_at, is_new) =
        IsList-insert range.newsaved id count are_lists.1 is_uid in
      let search = find_uid_by_id-first_with range.oldsaved id are_lists.0.is_db ∙ ap some there in
      let (r, at, r_id) = first_with-some id range.oldsaved.records p there in
      let mark = present r.status in
      let old = marked_at range.oldsaved p r mark in
      let marked = marked_at new (length range.newsaved.records) s mark in
      let (old_ids, is_old) = IsList-marked_at range.oldsaved p mark count r are_lists.0 at in
      let (new_ids, is_marked) =
        IsList-marked_at new (length range.newsaved.records) mark count s is_new s_at in
      let (old', new', both, same, same', is_old', is_new') =
        number_both-IsList flush mark unum count old p marked (length range.newsaved.records) is_old
          is_marked le in
      let keeps : KeepsWhat unseen_of range.oldsaved.records old.records =
        KeepsWhat-set unseen_of range.oldsaved.records p r (record r { status = mark }) at
          (present_seen r.status) in
      let unseen : unseen_in range.oldsaved.records id ≡ (mark == uid_unseen) =
        ap (unseen_at range.oldsaved.records) there
        ∙ unseen_at-some range.oldsaved.records p r at
        ∙ sym (present_seen r.status) in
      (
        record {
          oldsaved = old';
          newsaved = new';
          newp = if mark == uid_unseen then range.newp + 1 else range.newp;
        },
        rw (is, ◌>>=◌, search, ◌>>=◌, at, ◌>>=◌, s_at, ◌>>=◌, both, ◌>>=◌) refl,
        counted (mark == uid_unseen) range.newp ∙ sym (ap (λ b. range.newp + one_if b) unseen),
        ap ids_of same' ∙ new_ids ∙ ids,
        λ k.
            ap (λ y. unseen_in y k) same
            ∙ unseen_in-kept range.oldsaved.records old.records k old_ids keeps,
        (is_old', is_new'),
      )
    where
      counted : (b : Bool) (n : ℕ) → (if b then n + 1 else n) ≡ n + one_if b
      counted true n = refl
      counted false n = omega arith

  pub list_uid-Listed : Listed range id count (list_uid flush range unum id)
  list_uid-Listed = elim (Option-cases (first_with id (ids_of range.oldsaved.records))) [
    | inl nowhere ↦ list_uid-unknown nowhere
    | inr (p, there) ↦ list_uid-known p there
  ]
