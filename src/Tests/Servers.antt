-- ===== src/Tests/Servers.antt =====
-- The answers of POP3, IMAP and SMTP servers.
use fetchmail.Prelude.{
  suc, str_eq, if◌then◌else◌, ◌==◌, ==_ne, Bytes, ap, sym, All, ℕ, ◌≤◌, ◌<◌, ◌≡◌, refl, ◌≢◌, ◌↔◌,
  inl, inr, Bool, true, false, Option, none, some, List, [], ◌∷◌, ◌++◌, map, arith, ◌>>=◌, length,
  codes, peek, is_space, has_case_prefix, starts_with,
}
use fetchmail.Imap.Expunge
use fetchmail.Imap.Expunge.{Mailbox, internal_expunge, internal_expunge-Ends}
use fetchmail.Uid.{uid_unseen, uid_expunged, expunge_uids}
use fetchmail.UidDb.{Rec, find_uid_by_num}
use fetchmail.Pop3.Marks.{Session, pop3_delete, pop3_logout}
use fetchmail.Pop3.Marks.Delete.{Deletes, pop3_delete-Deletes}
use fetchmail.Imap.{to_upper, imap_canonicalize}
use fetchmail.Imap.Quoting.{read_quoted, read_quoted-imap_canonicalize}
use fetchmail.Scan.{is_alpha, strtoul, decimal}
use fetchmail.Transact.{
  closed, idle_timeout, ps_success, stage_fetch, stage_getrange, line, Read, Io, chomp,
}
use fetchmail.UidDb.{UidDb, init_uid_db, set_uid_db_num_pos_0}
use fetchmail.UidDb.Trie.{uid_db_insert}
use fetchmail.Uid.{uid_seen}
use fetchmail.Pop3.{judge_line, pop3_ok, parseuid, dotline}
use fetchmail.Pop3.Answers.{Means, pop3_ok-Means, parseuid-decimal}
use fetchmail.Pop3.Sizes.{pop3_getsizes}
use fetchmail.Pop3.Sizes.Listing.{listing, pop3_getsizes-listing}
use fetchmail.Pop3.Fast.{Search, pop3_fastuidl}
use mathlib.Core.Path.{subst}
use fetchmail.UidDb.Trie.Search.{first_with, IsDb, IsUid}
use fetchmail.UidDb.Trie.Promise.{IsDb-init, uid_db_insert-Appends}
use fetchmail.UidDb.Trie.Others.{IsDb-set_uid_db_num_pos_0}
use fetchmail.Pop3.Fast.Bracket.{IsReady, Ends}
use fetchmail.Pop3.Fast.Returns.{GivesUid, GivesUid-line}
use fetchmail.Pop3.Fast.FirstUnseen.{Finds, StopsAt, pop3_fastuidl-Returns, pop3_fastuidl-StopsAt}
use fetchmail.Pop3.Uidl.Unseen.{unseen_in}
use fetchmail.Imap.{Imap, Setting, imap_ok}
use fetchmail.Imap.Tagged.{Answers, imap_ok-Answers}
use fetchmail.Imap.Search.{Found, search_loop, IsFound, IsNumbers, search_loop-ends}
use fetchmail.Imap.SearchAnswer.{written, IsLowest, search_loop-written}
use fetchmail.Smtp.{sm_ok, smtp_ok}
use fetchmail.Smtp.Replies.{Reply, smtp_ok_iff}

abbrev always : ℕ → Bool
always n = true

pop3_ok-Means_example :
    Means stage_fetch
      (chomp (codes "-ERR no such message\r\n"))
      (pop3_ok stage_fetch (record {
        input = line (codes "-ERR no such message\r\n") ∷ [];
        sent = [];
        write_ok = always;
      })).0
    × ((pop3_ok stage_fetch (record {
      input = line (codes "-ERR no such message\r\n") ∷ [];
      sent = [];
      write_ok = always;
    })).2.input
        ≡ [])
    × ((pop3_ok stage_fetch (record { input = closed ∷ []; sent = []; write_ok = always })).0
        ≢ ps_success)
    × ((pop3_ok stage_fetch (record { input = idle_timeout ∷ []; sent = []; write_ok = always })).0
        ≢ ps_success)
    × ((pop3_ok stage_fetch (record { input = []; sent = []; write_ok = always })).0 ≢ ps_success)
pop3_ok-Means_example = pop3_ok-Means stage_fetch (codes "-ERR no such message\r\n") [] [] always

parseuid-decimal_example :
    parseuid (decimal 12 ++ b'\t' ∷ (b'q' ∷ codes "42" ++ codes " ")) 129 ≡ some (12, codes "q42")
parseuid-decimal_example =
    parseuid-decimal 12 b'\t' b'q' (codes "42") (codes " ") 129 (omega arith)
      (unfold is_space in refl) (unfold is_space in (refl, (refl, (refl, tt)))) (omega arith)
      (inr (unfold is_space in refl))

pop3_getsizes-listing_example :
    pop3_getsizes stage_getrange
      (record {
        input = line (codes "+OK\r\n") ∷ (listing 0 (120 ∷ 4096 ∷ []) ++ line (codes ".\r\n") ∷ []);
        sent = [];
        write_ok = always;
      })
      2
      (0 ∷ 0 ∷ [])
    ≡ (0, 120 ∷ 4096 ∷ [], record { input = []; sent = codes "LIST\r\n" ∷ []; write_ok = always })
pop3_getsizes-listing_example =
    pop3_getsizes-listing stage_getrange (120 ∷ 4096 ∷ []) (0 ∷ 0 ∷ []) (codes "+OK\r\n") []
      (codes ".\r\n") [] [] always refl (unfold chomp is_alpha in (refl, refl)) refl (omega arith)
      (omega arith) (unfold chomp dotline in refl)

-- Three messages, of which the first was seen.
abbrev known : UidDb
known = elim (uid_db_insert (set_uid_db_num_pos_0 init_uid_db 3) (codes "a") uid_seen) [
  | none ↦ init_uid_db
  | some (db, i) ↦ db
]

abbrev server : Io
server = record {
  input = line (codes "+OK 2 b\r\n") ∷ line (codes "+OK 1 a\r\n") ∷ [];
  sent = [];
  write_ok = always;
}

known-IsReady : IsReady known 3
unfolding uid_db_insert init_uid_db set_uid_db_num_pos_0
known-IsReady = record {
  index = record { bound = omega arith; ends = omega arith; size = refl };
  top = refl;
}

byte-IsUid : (c : ℕ) → c ≢ 0 → c < 256 → IsUid (c ∷ [])
byte-IsUid c nonzero small = (
  λ nothing. let no : length (c ∷ []) ≡ 0 = ap length nothing in absurd (omega arith),
  ((nonzero, small), tt),
)

known-IsDb : IsDb known
known-IsDb =
    let start = set_uid_db_num_pos_0 init_uid_db 3 in
    let (new, is, ids, new_is_db) =
      uid_db_insert-Appends start (codes "a") uid_seen
        (IsDb-set_uid_db_num_pos_0 init_uid_db 3 IsDb-init)
        (byte-IsUid b'a' (λ e. omega (arith, e)) (omega arith)) in
    subst IsDb (sym (ap (λ o. elim o [ none ↦ init_uid_db | some (db, i) ↦ db ]) is)) new_is_db

abbrev uid : ℕ → Bytes
uid n = if n == 1 then codes "a" else codes "b"

server-GivesUid : All (GivesUid uid stage_getrange) server.input
unfolding is_space is_alpha chomp judge_line parseuid
server-GivesUid = (
  GivesUid-line uid stage_getrange (codes "+OK 2 b\r\n") (codes "2 b") 2 refl refl
      (byte-IsUid b'b' (λ e. omega (arith, e)) (omega arith)),
  (
    GivesUid-line uid stage_getrange (codes "+OK 1 a\r\n") (codes "1 a") 1 refl refl
        (byte-IsUid b'a' (λ e. omega (arith, e)) (omega arith)),
    tt,
  ),
)

pop3_fastuidl-Returns_example :
    (out : Search) × (pop3_fastuidl stage_getrange known server 3 ≡ some out)
    × Ends 3 out
    × Finds (λ n. unseen_in known.records (uid n)) 3 out
pop3_fastuidl-Returns_example =
    pop3_fastuidl-Returns stage_getrange uid known server 3 known-IsReady known-IsDb (omega arith)
      server-GivesUid

first_seen : unseen_in known.records (codes "a") ≡ false
unfolding uid_db_insert init_uid_db set_uid_db_num_pos_0 first_with str_eq
first_seen = refl

others_unseen : unseen_in known.records (codes "b") ≡ true
unfolding uid_db_insert init_uid_db set_uid_db_num_pos_0 first_with str_eq
others_unseen = refl

seen_first : (n : ℕ) → 0 < n → n ≤ 1 → unseen_in known.records (uid n) ≡ false
seen_first n lt le = let one : n ≡ 1 = omega arith in rw one first_seen

unseen_behind : (n : ℕ) → 1 < n → n ≤ 3 → unseen_in known.records (uid n) ≡ true
unseen_behind n lt le = rw (==_ne n 1 (λ e. omega arith)) others_unseen

pop3_fastuidl-StopsAt_example :
    (out : Search) × (pop3_fastuidl stage_getrange known server 3 ≡ some out) × StopsAt 1 out
pop3_fastuidl-StopsAt_example =
    pop3_fastuidl-StopsAt stage_getrange uid known server 3 1 known-IsReady known-IsDb (omega arith)
      server-GivesUid (omega arith) seen_first unseen_behind

abbrev setting : Setting
setting = record {
  has_idle = false;
  check_only = false;
  saved_timeout = 300;
  idle_timeout = 1680;
  tag = codes "A0001";
  elapsed = λ n. 0;
}

abbrev mailbox : Imap
mailbox = record {
  preauth = false;
  capabilities = [];
  count = 0;
  oldcount = 0;
  recentcount = 0;
  actual_deletions = 0;
  stage = stage_getrange;
  mytimeout = 300;
  sent = [];
}

imap_ok-Answers_example :
    Answers setting (line (codes "* 3 EXISTS\r\n") ∷ line (codes "a0001 ok done\r\n") ∷ []) (
      imap_ok setting true mailbox
        (line (codes "* 3 EXISTS\r\n") ∷ line (codes "a0001 ok done\r\n") ∷ []))
imap_ok-Answers_example =
    imap_ok-Answers setting true mailbox
      (line (codes "* 3 EXISTS\r\n") ∷ line (codes "a0001 ok done\r\n") ∷ [])
      (record { not_empty = omega arith; no_star = omega arith })
      (record { bound = omega arith; recent = refl; fits = omega arith })

abbrev none_found : Found
none_found = record { unseen_messages = []; startcount = 5 }

search_loop-ends_example :
    (IsNumbers (codes " 2 4")
      → (g : Found) × (search_loop 5 4 none_found (codes " 2 4") ≡ some g) × IsFound 4 g)
    × (0 < 4
        → peek (codes " 2 4") ≢ 0
        → is_space (peek (codes " 2 4")) ≡ false
        → strtoul (codes " 2 4") ≡ none
        → (fuel : ℕ) → search_loop fuel 4 none_found (codes " 2 4") ≡ none)
search_loop-ends_example =
    search_loop-ends 4 none_found (codes " 2 4")
      (record { room = omega arith; numbers = tt; start = omega arith })

search_loop-written_example :
    (g : Found) × (search_loop
        (suc (length (written (4 ∷ 2 ∷ []))))
        4
        none_found
        (written (4 ∷ 2 ∷ []))
      ≡ some g)
    × (g.unseen_messages ≡ [] ++ 4 ∷ 2 ∷ [])
    × IsLowest 5 (4 ∷ 2 ∷ []) g.startcount
search_loop-written_example =
    search_loop-written (4 ∷ 2 ∷ []) 4 none_found (omega arith, (omega arith, tt)) (omega arith)
      (omega arith)

abbrev reply : List Read
reply = line (codes "250-x\r\n") ∷ line (codes "250 ok\r\n") ∷ []

smtp_ok_iff_example :
    (((smtp_ok reply).0 ≡ sm_ok) × ((smtp_ok reply).2 ≡ [])) ↔ Reply sm_ok reply []
smtp_ok_iff_example = smtp_ok_iff reply [] sm_ok (omega arith)

-- A word where a number is due.
no_end : search_loop 50 4 none_found (codes " 2 x") ≡ none
unfolding search_loop is_space strtoul
no_end = refl

some_end :
    search_loop 5 4 none_found (codes " 4 2")
    ≡ some (record { unseen_messages = 4 ∷ 2 ∷ []; startcount = 2 })
unfolding search_loop is_space strtoul
some_end = refl

abbrev message : Rec
message = record { id = codes "a"; id_len = 1; num = 0; status = uid_unseen; pos = 0; next = none }

-- One message, with the number 3, in the new list.
abbrev newsaved : UidDb
newsaved = record {
  pat_root = none;
  pat_nodes = [];
  records = message ∷ [];
  records_max = 16;
  num_ndx = record { cells = some 0 ∷ []; pos_0_value = 3; end_value = 3 };
}

abbrev session : Session
session = record {
  last = 0;
  dofastuidl = false;
  ctl = record { oldsaved = init_uid_db; newsaved = newsaved };
  io = record {
    input = line (codes "+OK\r\n") ∷ line (codes "+OK\r\n") ∷ [];
    sent = [];
    write_ok = always;
  };
}

pop3_delete-Deletes_example : Deletes stage_fetch session 3
pop3_delete-Deletes_example =
    pop3_delete-Deletes stage_fetch session 3
      (inr (0, message, unfold find_uid_by_num in (refl, refl)))
      (inl (unfold find_uid_by_num init_uid_db in refl))

-- The record, from the deletion to the end.
abbrev deleted_and_left : Option (List ℕ)
deleted_and_left = do
  (ok, s) ← pop3_delete stage_fetch session 3
  some (map (λ r. r.status) (pop3_logout stage_fetch s).1.ctl.newsaved.records)

expunged_at_last : deleted_and_left ≡ some (uid_expunged ∷ [])
unfolding pop3_delete pop3_logout find_uid_by_num init_uid_db expunge_uids is_alpha chomp
expunged_at_last = refl

read_quoted-imap_canonicalize_example :
    (read_quoted false (imap_canonicalize (codes "a\"b\\c") 4 ++ b'"' ∷ codes " x")
      ≡ some (codes "a\"b\\", codes " x"))
    × (length (imap_canonicalize (codes "a\"b\\c") 4) ≤ 8)
read_quoted-imap_canonicalize_example =
    read_quoted-imap_canonicalize (codes "a\"b\\c") 4 (codes " x")

abbrev one_deleted : Mailbox
one_deleted = record { imap = mailbox; deletions = 1; expunged = 4 }

abbrev expunge_answer : List Read
expunge_answer = line (codes "* 1 EXPUNGE\r\n") ∷ line (codes "A0001 OK EXPUNGE completed\r\n") ∷ []

internal_expunge-Ends_example :
    Expunge.Ends setting one_deleted expunge_answer
      (internal_expunge setting true one_deleted expunge_answer)
internal_expunge-Ends_example =
    internal_expunge-Ends setting true one_deleted expunge_answer
      (record { not_empty = omega arith; no_star = omega arith })
      (record { bound = omega arith; recent = refl; fits = omega arith })

abbrev expunged_five : Option (ℕ × ℕ)
expunged_five = do
  (ok, m, rest) ← internal_expunge setting true one_deleted expunge_answer
  some (ok, m.expunged)

five : expunged_five ≡ some (0, 5)
unfolding internal_expunge is_space strtoul chomp to_upper starts_with has_case_prefix
five = refl
