-- ===== src/Pop3/Marks/Delete.antt =====
-- A message that is deleted, up to the end of the session.
use fetchmail.Prelude.{
  some_injective, ℕ, zero, suc, ◌≡◌, refl, sym, ap, ◌∙◌, ◌≢◌, ◌⊎◌, inl, inr, Bool, true, false,
  none, some, List, [], ◌∷◌, ◌++◌, map, ◌==◌, ==_iff, Bool-cases, ◌>>=◌, get_elem?, set,
  get_elem?-set_self, codes, ==_ne,
}
use mathlib.Core.Path.{subst}
use fetchmail.Scan.{decimal}
use fetchmail.Transact.{ps_success}
use fetchmail.UidDb.{Rec, UidDb, find_uid_by_num}
use fetchmail.UidDb.Trie.Kept.{get_elem?_lt}
use fetchmail.Uid.{uid_seen, uid_deleted, uid_expunged, Query, expunge_uids}
use fetchmail.Uid.Marks.{expunged, current, expunge_uids-records}
use fetchmail.Pop3.{transact}
use fetchmail.Pop3.Fast.{set_status}
use fetchmail.Pop3.Marks.{
  Session, mark_in, mark_uid_seen, mark_there, mark_deleted, pop3_delete, pop3_logout,
}

-- The number stands for the record at `i`.
abbrev pub IsListed : UidDb → ℕ → ℕ → Rec → Type 0
IsListed db number i r =
    (find_uid_by_num db number ≡ some (some i)) × (get_elem? db.records i ≡ some r)

abbrev pub IsUnlisted : UidDb → ℕ → Type 0
IsUnlisted db number = find_uid_by_num db number ≡ some none

-- A list in which the number can be looked up.
abbrev pub IsLookedUp : UidDb → ℕ → Type 0
IsLookedUp db number = IsUnlisted db number ⊎ ((i : ℕ) × (r : Rec) × IsListed db number i r)

abbrev marked : UidDb → ℕ → Rec → ℕ → UidDb
marked db i r mark = record db { records = set db.records i (record r { status = mark }) }

set_status_lem :
    (db : UidDb) (i mark : ℕ) (r : Rec)
    → get_elem? db.records i ≡ some r
    → set_status db i mark ≡ some (marked db i r mark)
unfolding set_status
set_status_lem db i mark r at = rw (set_status, at) refl

mark_in-listed :
    (db : UidDb) (number i mark : ℕ) (r : Rec)
    → IsListed db number i r
    → mark_in db number mark ≡ some (marked db i r mark)
unfolding mark_in
mark_in-listed db number i mark r (num, at) = rw (mark_in, num) (set_status_lem db i mark r at)

mark_in-unlisted :
    (db : UidDb) (number mark : ℕ) → IsUnlisted db number → mark_in db number mark ≡ some db
unfolding mark_in
mark_in-unlisted db number mark free = rw (mark_in, free) refl

find_uid_by_num-marked :
    (db : UidDb) (i number mark : ℕ) (r : Rec)
    → find_uid_by_num (marked db i r mark) number ≡ find_uid_by_num db number
unfolding find_uid_by_num
find_uid_by_num-marked db i number mark r = refl

-- A record that was marked is still listed.
marked-IsListed :
    (db : UidDb) (number i mark : ℕ) (r : Rec)
    → IsListed db number i r
    → IsListed (marked db i r mark) number i (record r { status = mark })
marked-IsListed db number i mark r (num, at) = (
  find_uid_by_num-marked db i number mark r ∙ num,
  get_elem?-set_self db.records i (record r { status = mark }) (get_elem?_lt db.records i r at),
)

mark_there-listed :
    (db : UidDb) (number i mark : ℕ) (r : Rec)
    → IsListed db number i r
    → mark_there db number mark ≡ some (marked db i r mark)
unfolding mark_there
mark_there-listed db number i mark r (num, at) =
    rw (mark_there, num) (set_status_lem db i mark r at)

mark_there-unlisted :
    (db : UidDb) (number mark : ℕ) → IsUnlisted db number → mark_there db number mark ≡ none
unfolding mark_there
mark_there-unlisted db number mark free = rw (mark_there, free) refl

-- What a write of a mark leaves listed.
abbrev Marks : UidDb → UidDb → ℕ → ℕ → Type 0
Marks old new number mark =
    ((i : ℕ) (r : Rec)
      → IsListed old number i r
      → IsListed new number i (record r { status = mark }))
    × (IsUnlisted old number → IsUnlisted new number)

mark_in-Marks :
    (db : UidDb) (number mark : ℕ)
    → IsLookedUp db number
    → (new : UidDb) × (mark_in db number mark ≡ some new) × Marks db new number mark
mark_in-Marks db number mark (inl free) = (
  db,
  mark_in-unlisted db number mark free,
  ((λ i r l. absurd (let e = sym free ∙ l.0 in cc)), (λ h. h)),
)
mark_in-Marks db number mark (inr (i, r, l)) = (
  marked db i r mark,
  mark_in-listed db number i mark r l,
  (
    (λ j t k.
        subst (λ d. IsListed d number j (record t { status = mark }))
          (some_injective (marked db j t mark) (marked db i r mark)
            (sym (mark_in-listed db number j mark t k) ∙ mark_in-listed db number i mark r l))
          (marked-IsListed db number j mark t k)),
    (λ h. absurd (let e = sym h ∙ l.0 in cc)),
  ),
)

mark_uid_seen-Marks :
    (fast : Bool) (ctl : Query) (number : ℕ)
    → IsLookedUp ctl.newsaved number
    → IsLookedUp ctl.oldsaved number
    → (seen : Query) × (mark_uid_seen ctl number ≡ some seen)
      × Marks (current fast ctl) (current fast seen) number uid_seen
unfolding mark_uid_seen
mark_uid_seen-Marks fast ctl number new_there old_there =
    let (new, e, marks) = mark_in-Marks ctl.newsaved number uid_seen new_there in
    let (old, e', marks') = mark_in-Marks ctl.oldsaved number uid_seen old_there in
    (
      record { oldsaved = old; newsaved = new },
      rw (mark_uid_seen, e) (rw e' refl),
      go fast new old marks marks',
    )
  where
    go :
        (fast : Bool) (new old : UidDb)
        → Marks ctl.newsaved new number uid_seen
        → Marks ctl.oldsaved old number uid_seen
        → Marks
            (current fast ctl)
            (current fast (record { oldsaved = old; newsaved = new }))
            number
            uid_seen
    go true new old m m' = m'
    go false new old m m' = m

mark_deleted-IsListed :
    (fast : Bool) (ctl : Query) (number i : ℕ) (r : Rec)
    → IsListed (current fast ctl) number i r
    → (new : Query) × (mark_deleted fast ctl number ≡ some new)
      × IsListed (current fast new) number i (record r { status = uid_deleted })
unfolding mark_deleted
mark_deleted-IsListed true ctl number i r l = (
  record ctl { oldsaved = marked ctl.oldsaved i r uid_deleted },
  rw (mark_there-listed ctl.oldsaved number i uid_deleted r l) refl,
  marked-IsListed ctl.oldsaved number i uid_deleted r l,
)
mark_deleted-IsListed false ctl number i r l = (
  record ctl { newsaved = marked ctl.newsaved i r uid_deleted },
  rw (mark_there-listed ctl.newsaved number i uid_deleted r l) refl,
  marked-IsListed ctl.newsaved number i uid_deleted r l,
)

mark_deleted-unlisted :
    (fast : Bool) (ctl : Query) (number : ℕ)
    → IsUnlisted (current fast ctl) number
    → mark_deleted fast ctl number ≡ none
unfolding mark_deleted
mark_deleted-unlisted true ctl number free =
    rw (mark_there-unlisted ctl.oldsaved number uid_deleted free) refl
mark_deleted-unlisted false ctl number free =
    rw (mark_there-unlisted ctl.newsaved number uid_deleted free) refl

get_elem?-map :
    (f : Rec → Rec) (recs : List Rec) (i : ℕ) (r : Rec)
    → get_elem? recs i ≡ some r
    → get_elem? (map f recs) i ≡ some (f r)
get_elem?-map f [] i r e = cc
get_elem?-map f (x ∷ recs) zero r e = ap some (ap f (some_injective x r e))
get_elem?-map f (x ∷ recs) (suc i) r e = get_elem?-map f recs i r e

logout_code :
    (stage : ℕ) (s : Session) → (pop3_logout stage s).0 ≡ (transact stage s.io (codes "QUIT")).0
unfolding pop3_logout
logout_code stage s = elim (Bool-cases ((transact stage s.io (codes "QUIT")).0 == 0)) [
  | inr failed ↦ rw (pop3_logout, failed) refl
  | inl fine ↦ rw (pop3_logout, fine) refl
]

logout_lists :
    (stage : ℕ) (s : Session)
    → (pop3_logout stage s).0 ≡ ps_success
    → (pop3_logout stage s).1.ctl ≡ expunge_uids s.dofastuidl s.ctl
unfolding pop3_logout
logout_lists stage s quit =
    let fine : ((transact stage s.io (codes "QUIT")).0 == 0) ≡ true =
      (==_iff _ 0).1 (sym (logout_code stage s) ∙ quit) in
    rw (pop3_logout, fine) refl

-- After QUIT the deleted message is expunged.
logout-expunged :
    (stage : ℕ) (s : Session) (i : ℕ) (r : Rec)
    → get_elem? (current s.dofastuidl s.ctl).records i ≡ some (record r { status = uid_deleted })
    → (pop3_logout stage s).0 ≡ ps_success
    → get_elem? (current s.dofastuidl (pop3_logout stage s).1.ctl).records i
      ≡ some (record r { status = uid_expunged })
logout-expunged stage s i r at quit =
    ap (λ c. get_elem? (current s.dofastuidl c).records i) (logout_lists stage s quit)
    ∙ ap (λ l. get_elem? l i) (expunge_uids-records s.dofastuidl s.ctl).0
    ∙ get_elem?-map expunged (current s.dofastuidl s.ctl).records i
        (record r { status = uid_deleted }) at

-- What `pop3_delete` does with the lists of the session `s`, by the code of the answer to DELE.
pub record Deletes (stage : ℕ) (s : Session) (number : ℕ) : Type 0 where
  -- The message is left seen, and the code is returned.
  pub refused :
      (transact stage s.io (codes "DELE " ++ decimal number)).0 ≢ ps_success
      → (i : ℕ) (r : Rec) → IsListed (current s.dofastuidl s.ctl) number i r
      → (t : Session) × (pop3_delete stage s number
          ≡ some ((transact stage s.io (codes "DELE " ++ decimal number)).0, t))
        × IsListed (current s.dofastuidl t.ctl) number i (record r { status = uid_seen })
  -- The message is marked as deleted, and as expunged at the end of a session that ends well.
  pub accepted :
      (transact stage s.io (codes "DELE " ++ decimal number)).0 ≡ ps_success
      → (i : ℕ) (r : Rec) → IsListed (current s.dofastuidl s.ctl) number i r
      → (t : Session) × (pop3_delete stage s number ≡ some (ps_success, t))
        × IsListed (current s.dofastuidl t.ctl) number i (record r { status = uid_deleted })
        × ((pop3_logout stage t).0 ≡ ps_success
            → get_elem? (current s.dofastuidl (pop3_logout stage t).1.ctl).records i
              ≡ some (record r { status = uid_expunged }))
  -- The NULL that stands for an unknown message is followed.
  pub unknown :
      (transact stage s.io (codes "DELE " ++ decimal number)).0 ≡ ps_success
      → IsUnlisted (current s.dofastuidl s.ctl) number
      → pop3_delete stage s number ≡ none

delete_refused :
    (stage : ℕ) (s : Session) (number : ℕ) (seen : Query)
    → mark_uid_seen s.ctl number ≡ some seen
    → (transact stage s.io (codes "DELE " ++ decimal number)).0 ≢ ps_success
    → pop3_delete stage s number
      ≡ some (
        (transact stage s.io (codes "DELE " ++ decimal number)).0,
        record s { ctl = seen; io = (transact stage s.io (codes "DELE " ++ decimal number)).1 },
      )
unfolding pop3_delete
delete_refused stage s number seen e ne =
    rw (pop3_delete, e)
      (rw (==_ne (transact stage s.io (codes "DELE " ++ decimal number)).0 ps_success ne) refl)

delete_accepted :
    (stage : ℕ) (s : Session) (number : ℕ) (seen : Query)
    → mark_uid_seen s.ctl number ≡ some seen
    → (transact stage s.io (codes "DELE " ++ decimal number)).0 ≡ ps_success
    → pop3_delete stage s number ≡ (do
      ctl ← mark_deleted s.dofastuidl seen number
      some (
        ps_success,
        record s { ctl = ctl; io = (transact stage s.io (codes "DELE " ++ decimal number)).1 },
      ))
unfolding pop3_delete
delete_accepted stage s number seen e ok =
    rw (pop3_delete, e) (rw ((==_iff _ ps_success).1 ok) refl)

-- For a message whose number can be looked up in both lists, `pop3_delete` does what `Deletes` says:
-- where DELE is refused, the message is left as seen and the code is returned; where it is accepted, the
-- message is marked as deleted in the current list, and after a QUIT that is accepted it is expunged.
-- A message that is not in the current list is a NULL that is followed.
pub pop3_delete-Deletes :
    (stage : ℕ) (s : Session) (number : ℕ)
    → IsLookedUp s.ctl.newsaved number
    → IsLookedUp s.ctl.oldsaved number
    → Deletes stage s number
pop3_delete-Deletes stage s number new_there old_there =
    let (seen, e, (kept, free)) =
      mark_uid_seen-Marks s.dofastuidl s.ctl number new_there old_there in
    record {
      refused = λ ne i r l. (_, delete_refused stage s number seen e ne, kept i r l);
      accepted = λ ok i r l.
          let (ctl, done, now) =
            mark_deleted-IsListed s.dofastuidl seen number i (record r { status = uid_seen })
              (kept i r l) in
          let t : Session = record s {
            ctl = ctl;
            io = (transact stage s.io (codes "DELE " ++ decimal number)).1;
          } in
          (
            t,
            delete_accepted stage s number seen e ok ∙ rw done refl,
            now,
            logout-expunged stage t i (record r { status = uid_seen }) now.1,
          );
      unknown = λ ok h.
          delete_accepted stage s number seen e ok
          ∙ rw (mark_deleted-unlisted s.dofastuidl seen number (free h)) refl;
    }
