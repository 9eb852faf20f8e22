-- ===== src/UidDb/Trie/Kept.antt =====
-- What an insertion into the trie leaves as it was: the index by message number, and the marks of the
-- records.
use fetchmail.Prelude.{
  ℕ, zero, suc, ◌<◌, ◌≡◌, refl, ap, ◌∙◌, inl, inr, Bool, not, Option, none, some, List, [], ◌∷◌,
  ◌++◌, arith, ltb, ◌==◌, Bool-cases, Option-cases, bind_inv, length, get_elem?, set,
  get_elem?-append_left, get_elem?-append_right, get_elem?-set_self, get_elem?-set_ne, Bytes,
}
use fetchmail.UidDb.{Rec, PatNode, UidDb, get_uid_db_record, insert_into_records}
use fetchmail.UidDb.Trie.{
  first_node, insert_at, insert_near, walk_down, walk_up, find_first_diff_bit, list_end,
  append_to_list, set_edge, set_up, new_node, link, is_left, place, standalone_bit, pat_insert,
  uid_db_insert,
}

-- The records keep their places, and what `f` tells of them, such as their marks; others may come
-- behind them.
abbrev pub KeepsWhat : {X : Type 0} → (Rec → X) → List Rec → List Rec → Type 0
KeepsWhat f old new =
    (i : ℕ) (r : Rec)
    → get_elem? old i ≡ some r
    → (s : Rec) × (get_elem? new i ≡ some s) × (f s ≡ f r)

abbrev pub KeepsMarks : List Rec → List Rec → Type 0
KeepsMarks = KeepsWhat (λ r. r.status)

pub KeepsMarks-refl : (recs : List Rec) → KeepsMarks recs recs
KeepsMarks-refl recs i r e = (r, e, refl)

pub get_elem?_lt :
    {A : Type 0} (xs : List A) (i : ℕ) (x : A) → get_elem? xs i ≡ some x → i < length xs
get_elem?_lt [] i x e = cc
get_elem?_lt (y ∷ xs) zero x e = omega arith
get_elem?_lt (y ∷ xs) (suc i) x e = omega (arith, get_elem?_lt xs i x e)

-- Another record is written of which `f` tells the same.
pub KeepsWhat-set :
    {X : Type 0} (f : Rec → X) (recs : List Rec) (i : ℕ) (r s : Rec)
    → get_elem? recs i ≡ some r
    → f s ≡ f r
    → KeepsWhat f recs (set recs i s)
KeepsWhat-set f recs i r s at same j t e = elim (Bool-cases (i == j)) [
  | inl h ↦
      let ij : i ≡ j = ground arith in
      let rt : r ≡ t = cc in
      (s, rw (← ij) (get_elem?-set_self recs i s (get_elem?_lt recs i r at)), same ∙ ap f rt)
  | inr h ↦ (t, get_elem?-set_ne recs s (λ ij. ground arith) ∙ e, refl)
]

pub KeepsMarks-append : (recs more : List Rec) → KeepsMarks recs (recs ++ more)
KeepsMarks-append recs more i r e =
    (r, get_elem?-append_left recs more i (get_elem?_lt recs i r e) ∙ e, refl)

pub KeepsMarks-trans : (a b c : List Rec) → KeepsMarks a b → KeepsMarks b c → KeepsMarks a c
KeepsMarks-trans a b c ab bc i r e =
    let (s, at, same) = ab i r e in let (t, at', same') = bc i s at in (t, at', same' ∙ same)

-- What the parts of an insertion keep.
abbrev pub Keeps : UidDb → UidDb → Type 0
Keeps old new = (new.num_ndx ≡ old.num_ndx) × KeepsMarks old.records new.records

Keeps-append_to_list :
    (db : UidDb) (first pos : ℕ) (new : UidDb)
    → append_to_list db first pos ≡ some new
    → Keeps db new
unfolding append_to_list
Keeps-append_to_list db first pos new e =
    let (i, at, rest) = bind_inv (list_end (length db.records) db.records first) _ new e in
    let (r, there, made) = bind_inv (get_elem? db.records i) _ new rest in
    let same : record db { records = set db.records i (record r { next = some pos }) } ≡ new = cc in
    rw (← same) (refl, KeepsWhat-set (λ x. x.status) db.records i r _ there refl)

Keeps-link :
    (db : UidDb) (pos : ℕ) (id : Bytes) (bit_ndx : ℕ) (closest : Option ℕ)
    (parent : Option (ℕ × Bool)) (nodes : List PatNode) (new : UidDb)
    → link db pos id bit_ndx closest parent nodes ≡ some new
    → Keeps db new
unfolding link
Keeps-link db pos id bit_ndx closest none nodes new e =
    let same : record db {
      pat_root = some (length db.pat_nodes);
      pat_nodes = nodes ++ new_node (length db.pat_nodes) bit_ndx id closest none pos ∷ [];
    }
        ≡ new =
      cc in
    rw (← same) (refl, KeepsMarks-refl db.records)
Keeps-link db pos id bit_ndx closest (some (parent, right)) nodes new e =
    let (linked, at, made) = bind_inv (set_edge nodes parent right (length db.pat_nodes)) _ new e in
    let same : record db {
      pat_nodes =
          linked ++ new_node (length db.pat_nodes) bit_ndx id closest (some parent) pos ∷ [];
    }
        ≡ new =
      cc in
    rw (← same) (refl, KeepsMarks-refl db.records)

Keeps-place :
    (db : UidDb) (pos : ℕ) (id : Bytes) (bit_ndx : ℕ) (closest : Option ℕ) (parent : ℕ)
    (right : Bool) (new : UidDb)
    → place db pos id bit_ndx closest parent right ≡ some new
    → Keeps db new
unfolding place
Keeps-place db pos id bit_ndx closest parent right new e =
    let (pn, there, rest) = bind_inv (get_elem? db.pat_nodes parent) _ new e in
    elim (Bool-cases (ltb bit_ndx pn.bit_ndx)) [
      | inr below ↦
          Keeps-link db pos id bit_ndx closest (some (parent, right)) db.pat_nodes new
            (rw below at rest)
      | inl above ↦
          let ((np, p), walked, rest') =
            bind_inv (walk_up (length db.pat_nodes) db.pat_nodes bit_ndx parent) _ new
              (rw above at rest) in
          let (nodes, up, last) =
            bind_inv (set_up db.pat_nodes np (length db.pat_nodes)) _ new rest' in
          elim (Option-cases p) [
            | inl top ↦ Keeps-link db pos id bit_ndx (some np) none nodes new (rw top at last)
            | inr (i, inner) ↦
                let (q, found_it, end) =
                  bind_inv (get_elem? db.pat_nodes i) _ new (rw inner at last) in
                Keeps-link db pos id bit_ndx (some np) (some (i, not (is_left q np))) nodes new end
          ]
    ]

Keeps-insert_near :
    (closest : Option ℕ) (db : UidDb) (pos : ℕ) (id : Bytes) (parent : ℕ) (right : Bool)
    (new : UidDb)
    → insert_near closest db pos id parent right ≡ some new
    → Keeps db new
unfolding insert_near
Keeps-insert_near none db pos id parent right new e =
    Keeps-place db pos id (standalone_bit id) none parent right new e
Keeps-insert_near (some c) db pos id parent right new e =
    let (cn, there, rest) = bind_inv (get_elem? db.pat_nodes c) _ new e in
    let (cr, there', last) = bind_inv (get_elem? db.records cn.rec) _ new rest in
    elim (Option-cases (find_first_diff_bit 0 cr.id id)) [
      | inl same ↦ Keeps-append_to_list db cn.rec pos new (rw same at last)
      | inr (b, differ) ↦ Keeps-place db pos id b (some c) parent right new (rw differ at last)
    ]

Keeps-insert_at :
    (root : Option ℕ) (db : UidDb) (pos : ℕ) (id : Bytes) (new : UidDb)
    → insert_at root db pos id ≡ some new
    → Keeps db new
unfolding insert_at
Keeps-insert_at none db pos id new e =
    let same : record db {
      pat_root = some (length db.pat_nodes);
      pat_nodes = db.pat_nodes ++ first_node (length db.pat_nodes) id pos ∷ [];
    }
        ≡ new =
      cc in
    rw (← same) (refl, KeepsMarks-refl db.records)
Keeps-insert_at (some root) db pos id new e =
    let ((closest, parent, right), walked, rest) =
      bind_inv (walk_down (length db.pat_nodes) db.pat_nodes id root) _ new e in
    Keeps-insert_near closest db pos id parent right new rest

-- The new record stands behind the others, with the mark that it was given.
pub Keeps-uid_db_insert :
    (db : UidDb) (id : Bytes) (status : ℕ) (new : UidDb) (i : ℕ)
    → uid_db_insert db id status ≡ some (new, i)
    → Keeps db new × (s : Rec) × (get_elem? new.records i ≡ some s) × (s.status ≡ status)
unfolding uid_db_insert insert_into_records get_uid_db_record pat_insert
Keeps-uid_db_insert db id status new i e =
    let pos = length db.records in
    let made = insert_into_records db (get_uid_db_record id status) in
    let (inserted, there, end) = bind_inv (insert_at made.pat_root made pos id) _ (new, i) e in
    let same : inserted ≡ new = cc in
    let place_of : pos ≡ i = cc in
    let (index, marks) = Keeps-insert_at made.pat_root made pos id inserted there in
    let (s, at, mark) = marks pos _ (get_elem?-append_right db.records _ pos 0 (omega arith)) in
    rw (← same, ← place_of)
      (
        (
          index,
          KeepsMarks-trans db.records made.records inserted.records (KeepsMarks-append db.records _)
              marks,
        ),
        s,
        at,
        mark,
      )
