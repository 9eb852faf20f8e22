-- ===== src/Pop3/Fast/FirstUnseen.antt =====
-- The binary search of pop3_fastuidl finds the first unseen message.
use fetchmail.Prelude.{
  ℕ, zero, suc, ◌+◌, ◌/◌, ◌%◌, ◌^◌, ◌≤◌, ◌<◌, ◌≡◌, refl, sym, ap, ◌∙◌, ◌≢◌, ◌⊎◌, inl, inr, Bool,
  true, false, Option, none, some, List, arith, ltb, ◌==◌, Bool-cases, Option-cases, ◌>>=◌, length,
  Bytes, All,
}
use mathlib.Core.Path.{subst}
use fetchmail.Transact.{ps_success, Read, Io}
use fetchmail.UidDb.{u32, sub32, UidDb, set_uid_db_num}
use fetchmail.UidDb.Index.{find_uid_by_num-set_uid_db_num}
use fetchmail.UidDb.Trie.Kept.{KeepsWhat-set}
use fetchmail.UidDb.Trie.Search.{IsDb, IsUid, first_with, first_with-some, ids_of}
use fetchmail.UidDb.Trie.Promise.{find_uid_by_id-first_with}
use fetchmail.UidDb.Trie.Others.{IsDb-set_uid_db_num}
use fetchmail.Uid.{uid_unseen}
use fetchmail.Pop3.{pop3_getuidl}
use fetchmail.Pop3.Uidl.Unseen.{unseen_at, unseen_in, unseen_at-some, unseen_in-kept}
use fetchmail.Pop3.Uidl.Counts.{IsList, IsList-insert, marked_at, IsList-marked_at}
use fetchmail.Pop3.Fast.{
  set_status, present, note, Search, narrowed, failed, out_of_fuel, fast_loop, pop3_fastuidl,
}
use fetchmail.Pop3.Fast.Bracket.{
  IsReady, Ends, pop3_fastuidl-Ends, Result-cases, unseen_of, present_seen, records-set_uid_db_num,
  pos_0_value-set_uid_db_num, loop_ends, loop_goes_on, getuidl-IsError, IsError,
}
use fetchmail.Pop3.Fast.Returns.{GivesUid, getuidl-GivesUid}

IsList-set_uid_db_num :
    (db : UidDb) (i num count : ℕ)
    → IsList db count
    → num ≤ count
    → IsList (set_uid_db_num db i num) count
IsList-set_uid_db_num db i num count is_list le =
    let v = is_list.index in
    record {
      is_db = IsDb-set_uid_db_num db i num is_list.is_db;
      index =
          (find_uid_by_num-set_uid_db_num db i num num v (omega (arith, is_list.top))
            (omega (arith, is_list.top))).0;
      top = pos_0_value-set_uid_db_num db i num v ∙ is_list.top;
    }

-- Noting an identifier tells whether it is unseen in the list, and changes this for no identifier.
abbrev Notes : UidDb → Bytes → ℕ → Option (UidDb × Bool) → Type 0
Notes db id count result =
    (new : UidDb) × (result ≡ some (new, unseen_in db.records id))
    × ((k : Bytes) → unseen_in new.records k ≡ unseen_in db.records k)
    × IsList new count

module _ (db : UidDb) (try_nr count : ℕ) (id : Bytes) (is_list : IsList db count)
    (le : try_nr ≤ count) where
  note-unknown :
      IsUid id → first_with id (ids_of db.records) ≡ none → Notes db id count (note db try_nr id)
  unfolding note
  note-unknown is_uid nowhere =
      let search = find_uid_by_id-first_with db id is_list.is_db ∙ ap some nowhere in
      let (new, is, ids, unseen, s, s_at, is_new) = IsList-insert db id count is_list is_uid in
      (
        set_uid_db_num new (length db.records) try_nr,
        rw (search, ◌>>=◌, is, ◌>>=◌)
            (ap (λ b. some (set_uid_db_num new (length db.records) try_nr, b))
              (sym (ap (unseen_at db.records) nowhere))),
        λ k.
            ap (λ y. unseen_in y k) (records-set_uid_db_num new (length db.records) try_nr)
            ∙ unseen k,
        IsList-set_uid_db_num new (length db.records) try_nr count is_new le,
      )

  note-known :
      (p : ℕ) → first_with id (ids_of db.records) ≡ some p → Notes db id count (note db try_nr id)
  unfolding note set_status
  note-known p there =
      let search = find_uid_by_id-first_with db id is_list.is_db ∙ ap some there in
      let (r, at, r_id) = first_with-some id db.records p there in
      let mark = present r.status in
      let marked = marked_at db p r mark in
      let (ids, is_marked) = IsList-marked_at db p mark count r is_list at in
      let keeps =
        KeepsWhat-set unseen_of db.records p r (record r { status = mark }) at
          (present_seen r.status) in
      let unseen : unseen_in db.records id ≡ (mark == uid_unseen) =
        ap (unseen_at db.records) there
        ∙ unseen_at-some db.records p r at
        ∙ sym (present_seen r.status) in
      (
        set_uid_db_num marked p try_nr,
        rw (search, ◌>>=◌, at, ◌>>=◌)
            (ap (λ b. some (set_uid_db_num marked p try_nr, b)) (sym unseen)),
        λ k.
            ap (λ y. unseen_in y k) (records-set_uid_db_num marked p try_nr)
            ∙ unseen_in-kept db.records marked.records k ids keeps,
        IsList-set_uid_db_num marked p try_nr count is_marked le,
      )

  note-Notes : IsUid id → Notes db id count (note db try_nr id)
  note-Notes is_uid = elim (Option-cases (first_with id (ids_of db.records))) [
    | inl nowhere ↦ note-unknown is_uid nowhere
    | inr (p, there) ↦ note-known p there
  ]

-- Where the search ends, by the numbers of the messages that are unseen: at a message that is not, or
-- before the first one, and before one that is, or at the last one.
abbrev pub Finds : (ℕ → Bool) → ℕ → Search → Type 0
Finds unseen count out_of_fuel = ⊥
Finds unseen count (failed ok db io) = ok ≢ ps_success
Finds unseen count (narrowed last db io) =
    (last ≤ count)
    × ((last ≡ 0) ⊎ (unseen last ≡ false))
    × ((last ≡ count) ⊎ (unseen (last + 1) ≡ true))

-- The ends of the interval.
record IsInterval (unseen : ℕ → Bool) (count first_nr last_nr : ℕ) : Type 0 where
  order : first_nr < last_nr
  below : last_nr ≤ count + 1
  low : (first_nr ≡ 0) ⊎ (unseen first_nr ≡ false)
  high : (last_nr ≡ count + 1) ⊎ (unseen last_nr ≡ true)

Finds-narrowed :
    (unseen : ℕ → Bool) (db : UidDb) (io : Io) (count first_nr last_nr : ℕ)
    → IsInterval unseen count first_nr last_nr
    → last_nr ≡ first_nr + 1
    → Finds unseen count (narrowed first_nr db io)
Finds-narrowed unseen db io count first_nr last_nr b met =
    let le = b.below in
    (
      omega arith,
      b.low,
      elim (b.high) [ inl top ↦ inl (omega arith) | inr m ↦ inr (ap unseen (sym met) ∙ m) ],
    )

module _ (stage count : ℕ) (uid : ℕ → Bytes) (unseen : ℕ → Bool) (small : count + 1 < 2 ^ 31) where
  fast_loop-Finds :
      (fuel : ℕ) (db : UidDb) (input : List Read) (sent : List Bytes) (write_ok : ℕ → Bool)
      (first_nr last_nr : ℕ)
      → IsList db count
      → ((n : ℕ) → unseen_in db.records (uid n) ≡ unseen n)
      → All (GivesUid uid stage) input
      → IsInterval unseen count first_nr last_nr
      → last_nr ≤ first_nr + 1 + fuel
      → (out : Search) × (fast_loop fuel stage db
            (record { input = input; sent = sent; write_ok = write_ok })
            first_nr
            last_nr
          ≡ some out)
        × Finds unseen count out
  unfolding fast_loop
  fast_loop-Finds zero db input sent write_ok first_nr last_nr is_list same gives b enough =
      let io : Io = record { input = input; sent = sent; write_ok = write_ok } in
      let lt = b.order in
      let le = b.below in
      let over : ltb first_nr (sub32 last_nr 1) ≡ false = ground arith in
      (
        narrowed first_nr db io,
        rw over refl,
        Finds-narrowed unseen db io count first_nr last_nr b (omega arith),
      )
  fast_loop-Finds (suc fuel) db input sent write_ok first_nr last_nr is_list same gives b enough =
      let io : Io = record { input = input; sent = sent; write_ok = write_ok } in
      let try_nr = ((first_nr + last_nr) % u32) / 2 in
      let rest = (pop3_getuidl stage io try_nr).1 in
      elim (Bool-cases (ltb first_nr (sub32 last_nr 1))) [
        | inr over ↦ (
          narrowed first_nr db io,
          rw (fast_loop, over) refl,
          Finds-narrowed unseen db io count first_nr last_nr b
              (loop_ends count first_nr last_nr b.order b.below small over),
        )
        | inl on ↦ elim (Result-cases (pop3_getuidl stage io try_nr).0) [
          | inl (ok, wrong) ↦ (
            failed ok db rest,
            rw (fast_loop, on, wrong) refl,
            subst IsError wrong (getuidl-IsError stage io try_nr),
          )
          | inr (id, right) ↦
              let (above, under) = loop_goes_on count first_nr last_nr b.order b.below small on in
              let le = b.below in
              let ((is_uid, is), later) =
                getuidl-GivesUid uid stage try_nr input sent write_ok id gives right in
              let (new, noted, kept, is_new) =
                note-Notes db try_nr count id is_list (omega arith) is_uid in
              let mark : unseen_in db.records id ≡ unseen try_nr =
                ap (unseen_in db.records) is ∙ same try_nr in
              let now : (n : ℕ) → unseen_in new.records (uid n) ≡ unseen n =
                λ n. kept (uid n) ∙ same n in
              elim (Bool-cases (unseen_in db.records id)) [
                | inl u ↦
                    let (out, runs, finds) =
                      fast_loop-Finds fuel new rest.input rest.sent rest.write_ok first_nr try_nr
                        is_new now later
                        (record {
                          order = above;
                          below = omega arith;
                          low = b.low;
                          high = inr (sym mark ∙ u);
                        })
                        (omega arith) in
                    (out, rw (fast_loop, on, right, noted, ◌>>=◌, u) runs, finds)
                | inr u ↦
                    let (out, runs, finds) =
                      fast_loop-Finds fuel new rest.input rest.sent rest.write_ok try_nr last_nr
                        is_new now later
                        (record {
                          order = under;
                          below = le;
                          low = inr (sym mark ∙ u);
                          high = b.high;
                        })
                        (omega arith) in
                    (out, rw (fast_loop, on, right, noted, ◌>>=◌, u) runs, finds)
              ]
        ]
      ]

-- For a list in order whose index is made for `count` messages, `count` being an int, and a server
-- that tells truly of the identifier of every message that it is asked for, these being not empty and
-- of the bytes of a C string, `pop3_fastuidl` returns, without an end of the fuel or a pointer that
-- leads nowhere. It fails with a code that is not success, or ends with a `last` that is at most
-- `count` and a list in which `last` is 0 or the number of a record that is not unseen, and `last` is
-- `count` or `last + 1` is the number of a record that is unseen. In the list that the search began
-- with, too, the message `last` is not unseen, if it is not 0, and the message `last + 1` is unseen or
-- not there, if `last` is not `count`.
pub pop3_fastuidl-Returns :
    (stage : ℕ) (uid : ℕ → Bytes) (db : UidDb) (io : Io) (count : ℕ)
    → IsReady db count
    → IsDb db
    → count + 1 < 2 ^ 31
    → All (GivesUid uid stage) io.input
    → (out : Search) × (pop3_fastuidl stage db io count ≡ some out)
      × Ends count out
      × Finds (λ n. unseen_in db.records (uid n)) count out
unfolding pop3_fastuidl
pop3_fastuidl-Returns stage uid db io count ready is_db small gives =
    let last : (count + 1) % u32 ≡ count + 1 = omega arith in
    let (out, is, finds) =
      fast_loop-Finds stage count uid (λ n. unseen_in db.records (uid n)) small count db io.input
        io.sent io.write_ok 0 ((count + 1) % u32)
        (record { is_db = is_db; index = ready.index; top = ready.top }) (λ n. refl) gives
        (record { order = omega arith; below = omega arith; low = inl refl; high = inl last })
        (omega arith) in
    (out, is, pop3_fastuidl-Ends stage db io count out ready small is, finds)

-- The search ends behind the `seen` first messages.
abbrev pub StopsAt : ℕ → Search → Type 0
StopsAt seen out_of_fuel = ⊥
StopsAt seen (failed ok db io) = ok ≢ ps_success
StopsAt seen (narrowed last db io) = last ≡ seen

Finds-StopsAt :
    (unseen : ℕ → Bool) (count seen : ℕ) (out : Search)
    → seen ≤ count
    → ((n : ℕ) → 0 < n → n ≤ seen → unseen n ≡ false)
    → ((n : ℕ) → seen < n → n ≤ count → unseen n ≡ true)
    → Finds unseen count out
    → StopsAt seen out
Finds-StopsAt unseen count seen out_of_fuel le old new finds = finds
Finds-StopsAt unseen count seen (failed ok db io) le old new finds = finds
Finds-StopsAt unseen count seen (narrowed last db io) le old new (below, low, high) =
    let not_after : ¬ (seen < last) =
      λ lt. elim low [ inl none_seen ↦ omega arith | inr is ↦ cc (sym is ∙ new last lt below) ] in
    let not_before : ¬ (last < seen) = λ lt. elim high [
      | inl all_seen ↦ omega arith
      | inr is ↦ cc (sym is ∙ old (last + 1) (omega arith) (omega arith))
    ] in
    omega arith

-- For a list in order whose index is made for `count` messages, `count` being an int, and a server
-- that tells truly of the identifier of every message that it is asked for, these being not empty and
-- of the bytes of a C string: if the first `seen` messages are in the list and not unseen, and those
-- behind them, up to the last one, are unseen or not in the list, then `pop3_fastuidl` returns, and it
-- fails with a code that is not success or ends with `seen` for `last`.
pub pop3_fastuidl-StopsAt :
    (stage : ℕ) (uid : ℕ → Bytes) (db : UidDb) (io : Io) (count seen : ℕ)
    → IsReady db count
    → IsDb db
    → count + 1 < 2 ^ 31
    → All (GivesUid uid stage) io.input
    → seen ≤ count
    → ((n : ℕ) → 0 < n → n ≤ seen → unseen_in db.records (uid n) ≡ false)
    → ((n : ℕ) → seen < n → n ≤ count → unseen_in db.records (uid n) ≡ true)
    → (out : Search) × (pop3_fastuidl stage db io count ≡ some out) × StopsAt seen out
pop3_fastuidl-StopsAt stage uid db io count seen ready is_db small gives le old new =
    let (out, run, ends, finds) =
      pop3_fastuidl-Returns stage uid db io count ready is_db small gives in
    (out, run, Finds-StopsAt (λ n. unseen_in db.records (uid n)) count seen out le old new finds)
