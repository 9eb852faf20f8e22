-- ===== src/Pop3/Fast/Bracket.antt =====
-- What the binary search finds, and that it ends.
use fetchmail.Prelude.{
  ℕ, zero, suc, ◌+◌, ◌/◌, ◌%◌, ◌^◌, ◌≤◌, ◌<◌, ◌≡◌, refl, sym, ap, ◌∙◌, ◌≢◌, ◌⊎◌, inl, inr, Bool,
  true, false, Option, none, some, ◌++◌, arith, ltb, leb, ◌==◌, if◌then◌else◌, Bool-cases,
  Option-cases, bind_inv, some_injective, get_elem?, set, get_elem?-set_self, Bytes, codes, ==_ne,
}
use mathlib.Core.Path.{subst}
use fetchmail.Transact.{ps_success, Io}
use fetchmail.UidDb.{u32, sub32, Rec, UidDb, uid_db_num_ofs, set_uid_db_num, find_uid_by_num}
use fetchmail.UidDb.Index.{IsIndex, find_uid_by_num-set_uid_db_num, reach_covers}
use fetchmail.UidDb.Trie.{uid_db_insert, find_uid_by_id}
use fetchmail.UidDb.Trie.Kept.{KeepsWhat, KeepsWhat-set, get_elem?_lt, Keeps-uid_db_insert}
use fetchmail.Uid.{uid_unseen}
use fetchmail.Pop3.{
  id_size, decimal, parseuid, gen_send, Result, good, bad, pop3_ok, uid_of, pop3_getuidl,
}
use fetchmail.Pop3.Fast.{
  set_status, present, note, Search, narrowed, failed, out_of_fuel, fast_loop, pop3_fastuidl,
}

abbrev pub unseen_of : Rec → Bool
unseen_of r = r.status == uid_unseen

-- The number stands for a record with that mark.
abbrev pub IsMarked : UidDb → ℕ → Bool → Type 0
IsMarked db n unseen =
    (i : ℕ) × (r : Rec) × (find_uid_by_num db n ≡ some (some i))
    × (get_elem? db.records i ≡ some r)
    × (unseen_of r ≡ unseen)

-- A mailbox of `count` messages in the index.
pub record IsReady (db : UidDb) (count : ℕ) : Type 0 where
  pub index : IsIndex db.num_ndx
  pub top : db.num_ndx.pos_0_value ≡ count

-- What a round does to the list.
record IsNoted (old new : UidDb) (count try_nr : ℕ) (unseen : Bool) : Type 0 where
  ready : IsReady new count
  others : (n : ℕ) → n ≤ count → n ≢ try_nr → find_uid_by_num new n ≡ find_uid_by_num old n
  marks : KeepsWhat unseen_of old.records new.records
  this : IsMarked new try_nr unseen

pub pos_0_value-set_uid_db_num :
    (db : UidDb) (i num : ℕ)
    → IsIndex db.num_ndx
    → (set_uid_db_num db i num).num_ndx.pos_0_value ≡ db.num_ndx.pos_0_value
unfolding set_uid_db_num
pos_0_value-set_uid_db_num db i num v = (reach_covers db.num_ndx num v).1

pub records-set_uid_db_num :
    (db : UidDb) (i num : ℕ) → (set_uid_db_num db i num).records ≡ db.records
unfolding set_uid_db_num
records-set_uid_db_num db i num = refl

find_uid_by_num_lem :
    (a b : UidDb) (n : ℕ) → a.num_ndx ≡ b.num_ndx → find_uid_by_num a n ≡ find_uid_by_num b n
unfolding find_uid_by_num
find_uid_by_num_lem a b n e =
    ap (λ x. if leb x.end_value n then get_elem? x.cells (uid_db_num_ofs x n) else some none) e

-- The number is set for a record that has the mark already.
IsNoted-set :
    (old db : UidDb) (count try_nr i : ℕ) (r : Rec) (unseen : Bool)
    → IsReady old count
    → try_nr ≤ count
    → db.num_ndx ≡ old.num_ndx
    → KeepsWhat unseen_of old.records db.records
    → get_elem? db.records i ≡ some r
    → unseen_of r ≡ unseen
    → IsNoted old (set_uid_db_num db i try_nr) count try_nr unseen
IsNoted-set old db count try_nr i r unseen v le same marks at mark =
    let index : IsIndex db.num_ndx = rw same v.index in
    let top : db.num_ndx.pos_0_value ≡ count = ap (λ x. x.pos_0_value) same ∙ v.top in
    let (kept, here) =
      find_uid_by_num-set_uid_db_num db i try_nr try_nr index (omega arith) (omega arith) in
    record {
      ready = record { index = kept; top = pos_0_value-set_uid_db_num db i try_nr index ∙ top };
      others = λ n below ne.
          (find_uid_by_num-set_uid_db_num db i try_nr n index (omega arith) (omega arith)).1
          ∙ rw (==_ne n try_nr ne) (find_uid_by_num_lem db old n same);
      marks = rw (records-set_uid_db_num db i try_nr) marks;
      this = (i, r, here ∙ ground arith, rw (records-set_uid_db_num db i try_nr) at, mark);
    }

-- A message that is still present is as seen as before.
pub present_seen : (mark : ℕ) → (present mark == uid_unseen) ≡ (mark == uid_unseen)
unfolding present
present_seen mark = ground arith

IsNoted-insert :
    (db inserted : UidDb) (count try_nr i : ℕ) (id : Bytes)
    → IsReady db count
    → try_nr ≤ count
    → uid_db_insert db id uid_unseen ≡ some (inserted, i)
    → IsNoted db (set_uid_db_num inserted i try_nr) count try_nr true
IsNoted-insert db inserted count try_nr i id v le there =
    let ((index, marks), s, at, mark) = Keeps-uid_db_insert db id uid_unseen inserted i there in
    IsNoted-set db inserted count try_nr i s true v le index
      (λ j r h.
        let (t, there_too, same) = marks j r h in (t, there_too, ap (λ m. m == uid_unseen) same))
      at (ap (λ m. m == uid_unseen) mark)

IsNoted-present :
    (db marked : UidDb) (count try_nr i : ℕ) (r : Rec)
    → IsReady db count
    → try_nr ≤ count
    → get_elem? db.records i ≡ some r
    → set_status db i (present r.status) ≡ some marked
    → IsNoted db (set_uid_db_num marked i try_nr) count try_nr (present r.status == uid_unseen)
unfolding set_status
IsNoted-present db marked count try_nr i r v le at made =
    let now : Rec = record r { status = present r.status } in
    let (found_it, there, made') = bind_inv (get_elem? db.records i) _ marked made in
    let same : found_it ≡ r = some_injective found_it r (sym there ∙ at) in
    let is_marked : record db { records = set db.records i now } ≡ marked =
      some_injective (record db { records = set db.records i now }) marked
        (subst
          (λ x.
            some (record db { records = set db.records i (record x { status = present r.status }) })
            ≡ some marked)
          same made') in
    subst
      (λ d. IsNoted db (set_uid_db_num d i try_nr) count try_nr (present r.status == uid_unseen))
      is_marked
      (IsNoted-set db (record db { records = set db.records i now }) count try_nr i now
        (present r.status == uid_unseen) v le refl
        (KeepsWhat-set unseen_of db.records i r now at (present_seen r.status))
        (get_elem?-set_self db.records i now (get_elem?_lt db.records i r at)) refl)

-- What was returned is what was made.
returned :
    (P : UidDb × Bool → Type 0) (x y : UidDb × Bool)
    → ◌≡◌ {A = Option (UidDb × Bool)} (some x) (some y)
    → P x
    → P y
returned P x y e p = subst P (some_injective x y e) p

note-IsNoted :
    (db new : UidDb) (count try_nr : ℕ) (id : Bytes) (unseen : Bool)
    → IsReady db count
    → try_nr ≤ count
    → note db try_nr id ≡ some (new, unseen)
    → IsNoted db new count try_nr unseen
unfolding note
note-IsNoted db new count try_nr id unseen v le e =
    let (p, found_it, rest) = bind_inv (find_uid_by_id db id) _ (new, unseen) e in
    let noted : UidDb × Bool → Type 0 = λ q. IsNoted db q.0 count try_nr q.1 in
    elim (Option-cases p) [
      | inl unknown ↦
          let ((inserted, i), there, made) =
            bind_inv (uid_db_insert db id uid_unseen) _ (new, unseen) (rw unknown at rest) in
          returned noted (set_uid_db_num inserted i try_nr, true) (new, unseen) made
            (IsNoted-insert db inserted count try_nr i id v le there)
      | inr (i, known) ↦
          let (r, at, rest') =
            bind_inv (get_elem? db.records i) _ (new, unseen) (rw known at rest) in
          let (marked, there, made) =
            bind_inv (set_status db i (present r.status)) _ (new, unseen) rest' in
          returned noted (set_uid_db_num marked i try_nr, present r.status == uid_unseen)
            (new, unseen) made (IsNoted-present db marked count try_nr i r v le at there)
    ]

-- How the search may end, for a mailbox of `count` messages.
abbrev pub Ends : ℕ → Search → Type 0
Ends count out_of_fuel = ⊥
Ends count (failed ok db io) = ok ≢ ps_success
Ends count (narrowed last db io) =
    (last ≤ count)
    × ((last ≡ 0) ⊎ IsMarked db last false)
    × ((last ≡ count) ⊎ IsMarked db (last + 1) true)

-- A mark outlives a round for another message.
IsMarked-IsNoted :
    (old new : UidDb) (count try_nr n : ℕ) (unseen u : Bool)
    → IsNoted old new count try_nr u
    → n ≤ count
    → n ≢ try_nr
    → IsMarked old n unseen
    → IsMarked new n unseen
IsMarked-IsNoted old new count try_nr n unseen u noted le ne (i, r, at, there, mark) =
    let (s, there', same) = noted.marks i r there in
    (i, s, noted.others n le ne ∙ at, there', same ∙ mark)

-- No failure has the code of success.
abbrev pub IsError : Result → Type 0
IsError (bad ok) = ok ≢ ps_success
IsError (good id) = Unit

pub Result-cases : (r : Result) → ((ok : ℕ) × (r ≡ bad ok)) ⊎ ((id : Bytes) × (r ≡ good id))
Result-cases (bad ok) = inl (ok, refl)
Result-cases (good id) = inr (id, refl)

uid_of-IsError : (num : ℕ) (text : Bytes) → IsError (uid_of num text)
unfolding uid_of
uid_of-IsError num text = elim (Option-cases (parseuid text id_size)) [
  | inl unread ↦ rw (uid_of, unread) (λ e. omega arith)
  | inr ((gotnum, id), read) ↦
      rw (uid_of, read)
        (elim (Bool-cases (gotnum == num)) [
          | inl same ↦ rw same tt
          | inr wrong ↦ rw wrong (λ e. omega arith)
        ])
]

pub getuidl-IsError : (stage : ℕ) (io : Io) (num : ℕ) → IsError (pop3_getuidl stage io num).0
unfolding pop3_getuidl
getuidl-IsError stage io num =
    let (ok, arg, rest) = pop3_ok stage (gen_send io (codes "UIDL " ++ decimal num)) in
    elim (Bool-cases (ok == 0)) [
      | inr error ↦ rw error (λ e. ground arith)
      | inl fine ↦ rw fine (elim (Option-cases arg) [
        | inl nothing ↦ rw nothing (λ e. omega arith)
        | inr (text, there) ↦ rw there (uid_of-IsError num text)
      ])
    ]

-- The interval of the search, with what is known of its ends.
record IsBracket (db : UidDb) (count first_nr last_nr : ℕ) : Type 0 where
  ready : IsReady db count
  order : first_nr < last_nr
  below : last_nr ≤ count + 1
  low : (first_nr ≡ 0) ⊎ IsMarked db first_nr false
  high : (last_nr ≡ count + 1) ⊎ IsMarked db last_nr true

-- The interval is halved.
IsBracket-low :
    (db new : UidDb) (count first_nr last_nr try_nr : ℕ)
    → IsBracket db count first_nr last_nr
    → first_nr < try_nr
    → try_nr < last_nr
    → IsNoted db new count try_nr false
    → IsBracket new count try_nr last_nr
IsBracket-low db new count first_nr last_nr try_nr b above under noted = record {
  ready = noted.ready;
  order = under;
  below = b.below;
  low = inr noted.this;
  high = elim (b.high) [
    | inl top ↦ inl top
    | inr m ↦ elim (Bool-cases (last_nr == count + 1)) [
      | inl top ↦ inl (ground arith)
      | inr inside ↦
          let le = b.below in
          inr (
            IsMarked-IsNoted db new count try_nr last_nr true false noted (ground arith)
              (λ e. omega arith) m)
    ]
  ];
}

IsBracket-high :
    (db new : UidDb) (count first_nr last_nr try_nr : ℕ)
    → IsBracket db count first_nr last_nr
    → first_nr < try_nr
    → try_nr < last_nr
    → IsNoted db new count try_nr true
    → IsBracket new count first_nr try_nr
IsBracket-high db new count first_nr last_nr try_nr b above under noted =
    let le = b.below in
    record {
      ready = noted.ready;
      order = above;
      below = omega arith;
      low = elim (b.low) [
        | inl start ↦ inl start
        | inr m ↦ inr (
            IsMarked-IsNoted db new count try_nr first_nr false true noted (omega arith)
              (λ e. omega arith) m)
      ];
      high = inr noted.this;
    }

-- The search is over where the ends of the interval meet.
Ends-narrowed :
    (db : UidDb) (io : Io) (count first_nr last_nr : ℕ)
    → IsBracket db count first_nr last_nr
    → last_nr ≡ first_nr + 1
    → Ends count (narrowed first_nr db io)
Ends-narrowed db io count first_nr last_nr b met =
    let le = b.below in
    (
      omega arith,
      b.low,
      elim (b.high) [
        | inl top ↦ inl (omega arith)
        | inr m ↦ inr (subst (λ n. IsMarked db n true) met m)
      ],
    )

-- The test of the loop.
pub loop_ends :
    (count first_nr last_nr : ℕ)
    → first_nr < last_nr
    → last_nr ≤ count + 1
    → count + 1 < 2 ^ 31
    → ltb first_nr (sub32 last_nr 1) ≡ false
    → last_nr ≡ first_nr + 1
loop_ends count first_nr last_nr lt le small e = ground arith

pub loop_goes_on :
    (count first_nr last_nr : ℕ)
    → first_nr < last_nr
    → last_nr ≤ count + 1
    → count + 1 < 2 ^ 31
    → ltb first_nr (sub32 last_nr 1) ≡ true
    → (first_nr < ((first_nr + last_nr) % u32) / 2) × (((first_nr + last_nr) % u32) / 2 < last_nr)
loop_goes_on count first_nr last_nr lt le small e = (ground arith, ground arith)

fast_loop-Ends :
    (fuel stage : ℕ) (db : UidDb) (io : Io) (first_nr last_nr count : ℕ) (out : Search)
    → IsBracket db count first_nr last_nr
    → count + 1 < 2 ^ 31
    → last_nr ≤ first_nr + 1 + fuel
    → fast_loop fuel stage db io first_nr last_nr ≡ some out
    → Ends count out
unfolding fast_loop
fast_loop-Ends zero stage db io first_nr last_nr count out b small enough e =
    let lt = b.order in
    let over : ltb first_nr (sub32 last_nr 1) ≡ false = ground arith in
    subst (Ends count) (some_injective (narrowed first_nr db io) out (rw over at e))
      (Ends-narrowed db io count first_nr last_nr b (omega arith))
fast_loop-Ends (suc fuel) stage db io first_nr last_nr count out b small enough e =
    elim (Bool-cases (ltb first_nr (sub32 last_nr 1))) [
      | inr over ↦
          subst (Ends count)
            (some_injective (narrowed first_nr db io) out (rw (fast_loop, over) at e))
            (Ends-narrowed db io count first_nr last_nr b
              (loop_ends count first_nr last_nr b.order b.below small over))
      | inl on ↦
          let (above, under) = loop_goes_on count first_nr last_nr b.order b.below small on in
          let le = b.below in
          let try_nr = ((first_nr + last_nr) % u32) / 2 in
          let rest = (pop3_getuidl stage io try_nr).1 in
          let round = rw (fast_loop, on) at e in
          elim (Result-cases (pop3_getuidl stage io try_nr).0) [
            | inl (ok, wrong) ↦
                subst (Ends count) (some_injective (failed ok db rest) out (rw wrong at round))
                  (subst IsError wrong (getuidl-IsError stage io try_nr))
            | inr (id, right) ↦
                let ((new, unseen), noted, more) =
                  bind_inv (note db try_nr id) _ out (rw right at round) in
                let n = note-IsNoted db new count try_nr id unseen b.ready (omega arith) noted in
                elim (Bool-cases unseen) [
                  | inl u ↦
                      fast_loop-Ends fuel stage new rest first_nr try_nr count out
                        (IsBracket-high db new count first_nr last_nr try_nr b above under
                          (rw u at n))
                        small (omega arith) (rw u at more)
                  | inr u ↦
                      fast_loop-Ends fuel stage new rest try_nr last_nr count out
                        (IsBracket-low db new count first_nr last_nr try_nr b above under
                          (rw u at n))
                        small (omega arith) (rw u at more)
                ]
          ]
    ]

-- For an index that is made for `count` messages, `count` being an int, `pop3_fastuidl` does not run
-- out of fuel, whatever the server answers: it fails with a code that is not success, or ends with a
-- `last` that is at most `count`, such that `last` is 0 or the number of a record that is not
-- unseen, and `last` is `count` or `last + 1` is the number of a record that is unseen. The searches
-- and insertions in the trie are supposed to end and to follow pointers to nodes only (the result is
-- not `none`).
pub pop3_fastuidl-Ends :
    (stage : ℕ) (db : UidDb) (io : Io) (count : ℕ) (out : Search)
    → IsReady db count
    → count + 1 < 2 ^ 31
    → pop3_fastuidl stage db io count ≡ some out
    → Ends count out
unfolding pop3_fastuidl
pop3_fastuidl-Ends stage db io count out v small e =
    let last : (count + 1) % u32 ≡ count + 1 = omega arith in
    fast_loop-Ends count stage db io 0 (count + 1) count out
      (record {
        ready = v;
        order = omega arith;
        below = omega arith;
        low = inl refl;
        high = inl refl;
      })
      small (omega arith) (rw last at e)
