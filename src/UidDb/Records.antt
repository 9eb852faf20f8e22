-- ===== src/UidDb/Records.antt =====
-- The array of the records, and the traversals of uid.c.
use fetchmail.Prelude.{
  ℕ, zero, suc, ◌+◌, ◌*◌, ◌≤◌, ◌<◌, ◌≡◌, refl, sym, ◌∙◌, inl, inr, some, List, [], ◌∷◌, ◌++◌, arith,
  ◌==◌, if◌then◌else◌, ==_iff, Bool-cases, length, get_elem?, length-append, get_elem?-append_left,
  get_elem?-append_right,
}
use fetchmail.UidDb.{u32, Rec, UidDb, insert_into_records, find_uid_by_pos}

-- Each record knows its position, and the array has room for the records.
pub record IsPlaced (db : UidDb) : Type 0 where
  pub placed : (i : ℕ) (r : Rec) → get_elem? db.records i ≡ some r → r.pos ≡ i
  pub room : length db.records ≤ db.records_max
  pub some_room : 0 < db.records_max

get_elem?-lt {ℓ} :
    {A : Type ℓ} (xs : List A) (i : ℕ) (a : A) → get_elem? xs i ≡ some a → i < length xs
get_elem?-lt [] i a h = cc
get_elem?-lt (x ∷ xs) zero a h = omega arith
get_elem?-lt (x ∷ xs) (suc i) a h = omega (arith, get_elem?-lt xs i a h)

get_elem?-concat {ℓ} :
    {A : Type ℓ} (xs : List A) (x : A) (i : ℕ)
    → i < length xs + 1
    → get_elem? (xs ++ x ∷ []) i ≡ (if i == length xs then some x else get_elem? xs i)
get_elem?-concat xs x i h = elim (Bool-cases (i == length xs)) [
  | inl e ↦
      rw e (get_elem?-append_right xs (x ∷ []) i 0 (omega (arith, (==_iff i (length xs)).0 e)))
  | inr e ↦ rw e (get_elem?-append_left xs (x ∷ []) i (ground arith))
]

concat_placed :
    (recs : List Rec) (rec : Rec)
    → ((i : ℕ) (r : Rec) → get_elem? recs i ≡ some r → r.pos ≡ i)
    → rec.pos ≡ length recs
    → (i : ℕ) (r : Rec) → get_elem? (recs ++ rec ∷ []) i ≡ some r
    → r.pos ≡ i
concat_placed recs rec p e i r h =
    let inside = get_elem?-lt (recs ++ rec ∷ []) i r h in
    let found =
      sym (get_elem?-concat recs rec i (omega (arith, length-append recs (rec ∷ [])))) ∙ h in
    elim (Bool-cases (i == length recs)) [
      | inl last ↦
          let same : some rec ≡ some r = rw last at found in
          ground (arith, (==_iff i (length recs)).0 last)
      | inr old ↦ p i r (rw old at found)
    ]

insert-IsPlaced :
    (db : UidDb) (rec : Rec)
    → IsPlaced db
    → db.records_max * 2 < u32
    → IsPlaced (insert_into_records db rec)
unfolding insert_into_records
insert-IsPlaced db rec p small =
    let new = record rec { pos = length db.records } in
    record {
      placed = concat_placed db.records new p.placed refl;
      room = ground (arith, length-append db.records (new ∷ []), p.room, p.some_room);
      some_room = ground (arith, p.room, p.some_room);
    }

-- A record that is inserted is found at the next position and knows it, the others stay where
-- they are, and there is room for all, as long as doubling the array does not wrap around.
pub insert_into_records-IsPlaced :
    (db : UidDb) (rec : Rec) (i : ℕ)
    → IsPlaced db
    → db.records_max * 2 < u32
    → i ≤ length db.records
    → IsPlaced (insert_into_records db rec)
      × (find_uid_by_pos (insert_into_records db rec) i ≡ (
          if i == length db.records
          then some (record rec { pos = length db.records })
          else find_uid_by_pos db i))
unfolding insert_into_records find_uid_by_pos
insert_into_records-IsPlaced db rec i p small le = (insert-IsPlaced db rec p small, found)
  where
    placed_rec : Rec
    placed_rec = record rec { pos = length db.records }

    found :
        find_uid_by_pos (insert_into_records db rec) i
        ≡ (if i == length db.records then some placed_rec else find_uid_by_pos db i)
    found = ground (
      arith,
      get_elem?-concat db.records placed_rec i,
      length-append db.records (placed_rec ∷ []),
    )
