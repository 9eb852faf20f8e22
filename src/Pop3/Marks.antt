-- ===== src/Pop3/Marks.antt =====
-- pop3.c: whether a message is old, and how it is marked as seen and deleted. `none` is a read outside
-- of the index by number, a record that is not there, or a trie with a pointer to no node.
pub mod Delete
use fetchmail.Prelude.{
  ℕ, Bool, true, false, not, Option, none, some, ◌++◌, leb, ◌==◌, if◌then◌else◌, ◌>>=◌, get_elem?,
  Bytes, codes,
}
use fetchmail.Scan.{decimal}
use fetchmail.Transact.{ps_success, Io}
use fetchmail.UidDb.{UidDb, uid_db_n_records, set_uid_db_num, find_uid_by_num}
use fetchmail.UidDb.Trie.{uid_db_insert, find_uid_by_id}
use fetchmail.Uid.{uid_unseen, uid_seen, uid_deleted, Query, expunge_uids}
use fetchmail.Pop3.{good, bad, pop3_getuidl, transact}
use fetchmail.Pop3.Fast.{set_status}

-- The static variables of the driver, the lists of the query and the connection.
pub record Session : Type 0 where
  pub last : ℕ
  pub dofastuidl : Bool
  pub ctl : Query
  pub io : Io

-- `rec && rec->status != UID_UNSEEN`, of a record in a list.
unfoldable pub was_seen : UidDb → ℕ → Option Bool
was_seen db i = do r ← get_elem? db.records i; some (not (r.status == uid_unseen))

-- The end of the branch for fast UIDL of `pop3_is_old`, once the server gave the identifier.
unfoldable pub old_by_id : Session → ℕ → Bytes → Option (Bool × Session)
unfolding find_uid_by_id set_uid_db_num was_seen uid_db_insert
old_by_id s num id = do
  let db = s.ctl.oldsaved
  p ← find_uid_by_id db id
  elim p [
    | some i ↦ do
      seen ← was_seen db i
      some (seen, record s { ctl = record s.ctl { oldsaved = set_uid_db_num db i num } })
    | none ↦ do
      (inserted, i) ← uid_db_insert db id uid_unseen
      some (false, record s { ctl = record s.ctl { oldsaved = set_uid_db_num inserted i num } })
  ]

-- The branch for fast UIDL.
unfoldable pub old_in_fast : ℕ → Session → ℕ → Option (Bool × Session)
unfolding find_uid_by_num was_seen pop3_getuidl old_by_id
old_in_fast stage s num = do
  p ← find_uid_by_num s.ctl.oldsaved num
  elim p [
    | some i ↦ do seen ← was_seen s.ctl.oldsaved i; some (seen, s)
    | none ↦
        let (answer, rest) = pop3_getuidl stage s.io num in
        elim answer [
          | bad ok ↦ some (true, record s { io = rest })
          | good id ↦ old_by_id (record s { io = rest }) num id
        ]
  ]

-- `pop3_is_old`.
unfoldable pub pop3_is_old : ℕ → Session → ℕ → Option (Bool × Session)
unfolding uid_db_n_records old_in_fast find_uid_by_num was_seen
pop3_is_old stage s num =
    if uid_db_n_records s.ctl.oldsaved == 0
    then some (leb num s.last, s)
    else if s.dofastuidl
    then (if leb num s.last then some (true, s) else old_in_fast stage s num)
    else (do
      p ← find_uid_by_num s.ctl.newsaved num
      elim p [
        | none ↦ some (true, s)
        | some i ↦ do seen ← was_seen s.ctl.newsaved i; some (seen, s)
      ])

-- `if ((rec = find_uid_by_num(...))) rec->status = mark`.
unfoldable pub mark_in : UidDb → ℕ → ℕ → Option UidDb
unfolding find_uid_by_num set_status
mark_in db number mark = do
  p ← find_uid_by_num db number
  elim p [ none ↦ some db | some i ↦ set_status db i mark ]

-- `mark_uid_seen`.
unfoldable pub mark_uid_seen : Query → ℕ → Option Query
unfolding mark_in
mark_uid_seen ctl number = do
  new ← mark_in ctl.newsaved number uid_seen
  old ← mark_in ctl.oldsaved number uid_seen
  some (record { oldsaved = old; newsaved = new })

-- `find_uid_by_num(...)` and `rec->status = mark`, where no NULL is expected.
unfoldable pub mark_there : UidDb → ℕ → ℕ → Option UidDb
unfolding find_uid_by_num set_status
mark_there db number mark = do
  p ← find_uid_by_num db number
  elim p [ none ↦ none | some i ↦ set_status db i mark ]

-- The end of `pop3_delete`.
unfoldable pub mark_deleted : Bool → Query → ℕ → Option Query
unfolding mark_there
mark_deleted dofastuidl ctl number =
    if dofastuidl
    then (do db ← mark_there ctl.oldsaved number uid_deleted; some (record ctl { oldsaved = db }))
    else (do db ← mark_there ctl.newsaved number uid_deleted; some (record ctl { newsaved = db }))

-- `pop3_delete`.
unfoldable pub pop3_delete : ℕ → Session → ℕ → Option (ℕ × Session)
unfolding mark_uid_seen transact mark_deleted decimal
pop3_delete stage s number = do
  seen ← mark_uid_seen s.ctl number
  let (ok, rest) = transact stage s.io (codes "DELE " ++ decimal number)
  if ok == ps_success
      then (do
        ctl ← mark_deleted s.dofastuidl seen number
        some (ps_success, record s { ctl = ctl; io = rest }))
      else some (ok, record s { ctl = seen; io = rest })

-- `pop3_mark_seen`.
unfoldable pub pop3_mark_seen : Session → ℕ → Option (ℕ × Session)
unfolding mark_uid_seen
pop3_mark_seen s number = do
  ctl ← mark_uid_seen s.ctl number
  some (ps_success, record s { ctl = ctl })

-- `pop3_logout`.
unfoldable pub pop3_logout : ℕ → Session → ℕ × Session
unfolding transact expunge_uids
pop3_logout stage s =
    let (ok, rest) = transact stage s.io (codes "QUIT") in
    if ok == 0
    then (ok, record s { ctl = expunge_uids s.dofastuidl s.ctl; io = rest })
    else (ok, record s { io = rest })
