-- ===== src/Imap.antt =====
-- imap.c: the answers of an IMAP server, and the counts of messages that they change. `input` is what
-- is still to be read, `elapsed n` are the seconds of IDLE at the read before which `n` are left, and
-- `tag` is the tag of the command. Messages are reported, but the reports are left out. `none` is a
-- read behind the line.
pub mod Counts
pub mod Expunge
pub mod Quoting
pub mod Search
pub mod SearchAnswer
pub mod Tagged
pub mod Told
use fetchmail.Prelude.{
  ℕ, zero, suc, ◌+◌, ◌-◌, ◌*◌, ◌/◌, ◌%◌, ◌^◌, ◌≤◌, ◌<◌, bit_and, bit_or, bit_xor, ◌≡◌, refl, sym,
  ap, ◌∙◌, ◌≢◌, ◌↔◌, ◌⊎◌, inl, inr, Bool, true, false, not, ◌&&◌, ◌||◌, Option, none, some, List,
  [], ◌∷◌, ◌++◌, map, append_assoc, append-nil, arith, ltb, leb, ◌==◌, if◌then◌else◌, ltb→lt,
  lt→ltb, leb→le, ==_iff, tests, Bool-cases, Option-cases, bind_inv, ◌>>=◌, length, get_elem?, set,
  length-append, length-set, get_or, take, drop, replicate, length-replicate, length-map,
  take-append-drop, length-take, length-drop, get_elem?-append_left, get_elem?-append_right,
  get_elem?-replicate, take_all, get_elem?-set_self, get_elem?-set_ne, Bytes, codes, peek, next,
  All, All-append, Lacks, NoNul, ==_ne, IsByte, contains, is_space, to_lower, str_eq, str_case_eq,
  has_case_prefix, starts_with, str_eq_sound, str_eq_refl, every, every_lem,
}
use fetchmail.Scan.{is_digit, skip_while, strstr, strtoul}
use fetchmail.Transact.{
  ps_success, ps_socket, ps_authfail, ps_protocol, ps_error, ps_lockbusy, ps_idletimeout,
  stage_getauth, stage_getrange, stage_getsizes, stage_idle, stage_logout, Read, received,
}

abbrev pub ps_untagged : ℕ
ps_untagged = 30

-- `MSGBUFSIZE`.
abbrev pub msgbufsize : ℕ
msgbufsize = 8192

-- `INT_MAX/sizeof(int)`.
abbrev pub max_count : ℕ
max_count = (2 ^ 31 - 1) / 4

-- The static variables that answers change, and what was sent.
pub record Imap : Type 0 where
  pub preauth : Bool
  pub capabilities : Bytes
  pub count : ℕ
  pub oldcount : ℕ
  pub recentcount : ℕ
  pub actual_deletions : ℕ
  pub stage : ℕ
  pub mytimeout : ℕ
  pub sent : List Bytes

-- What the answers depend on and do not change.
pub record Setting : Type 0 where
  pub has_idle : Bool
  pub check_only : Bool
  pub saved_timeout : ℕ
  pub idle_timeout : ℕ
  pub tag : Bytes
  pub elapsed : ℕ → ℕ

-- The number of messages of an EXISTS, and what else it does.
unfoldable pub exists : Setting → Imap → ℕ → Imap
exists e s u =
    let counted = record s { count = u; recentcount = u - s.oldcount } in
    if s.stage == stage_idle
    then record counted {
      sent = if e.has_idle then s.sent ++ codes "DONE\r\n" ∷ [] else s.sent;
      mytimeout = e.saved_timeout;
      stage = stage_getrange;
    }
    else counted

-- A message was deleted.
unfoldable pub expunge : Imap → Imap
expunge s = record s {
  count = s.count - 1;
  oldcount = s.oldcount - 1;
  recentcount = (s.count - 1) - (s.oldcount - 1);
  actual_deletions = s.actual_deletions + 1;
}

-- `u = strtoul(buf+2, &t, 10)`, where `errno` is not set.
unfoldable pub number_in : Bytes → Option ℕ
unfolding strtoul
number_in buf = do (u, range, t) ← strtoul (drop 2 buf); if range then none else some u

unfoldable pub on_exists : Setting → Imap → Bytes → ℕ × Imap
unfolding number_in exists
on_exists e s buf = elim (number_in buf) [
  | none ↦ (ps_protocol, s)
  | some u ↦ if ltb max_count u then (ps_protocol, s) else (ps_success, exists e s u)
]

unfoldable pub on_expunge : Imap → Bytes → ℕ × Imap
unfolding number_in expunge
on_expunge s buf = elim (number_in buf) [
  | none ↦ (ps_protocol, s)
  | some u ↦ (ps_success, if ltb 0 u then expunge s else s)
]

-- `imap_untagged_response`.
unfoldable pub imap_untagged_response : Setting → Imap → Bytes → ℕ × Imap
unfolding starts_with strstr on_exists on_expunge
imap_untagged_response e s buf =
    if s.stage == stage_getauth && starts_with (codes "* CAPABILITY") buf
    then (ps_success, record s { capabilities = take msgbufsize (drop 12 buf) })
    else if s.stage == stage_getauth && starts_with (codes "* PREAUTH") buf
    then (ps_success, record s { preauth = true })
    else if not (s.stage == stage_logout) && starts_with (codes "* BYE") buf
    then (ps_success, s)
    else if strstr buf (codes " EXISTS")
    then on_exists e s buf
    else if strstr buf (codes " EXPUNGE")
    then on_expunge s buf
    else if s.stage == stage_getrange && not e.check_only && strstr buf (codes "[READ-ONLY]")
    then (ps_lockbusy, s)
    else (ps_untagged, s)

-- `toupper` in the C locale, on every byte.
unfoldable pub to_upper : ℕ → ℕ
to_upper c = if leb b'a' c && leb c b'z' then c - 32 else c

-- The line as it is looked at.
unfoldable pub line_of : Read → Bytes
unfolding received to_upper
line_of r = map to_upper (received r).1

-- The answer to a command: the code, and what is put into `argbuf`, where that is not NULL.
abbrev pub Answer : Type 0
Answer = ℕ × Option Bytes

-- The code for a tagged line, behind the tag.
unfoldable pub judge_tagged : ℕ → Bytes → Answer
unfolding has_case_prefix
judge_tagged stage cp =
    if has_case_prefix (codes "OK") cp
    then (ps_success, some cp)
    else if has_case_prefix (codes "BAD") cp
    then (ps_error, none)
    else if has_case_prefix (codes "NO") cp
    then (if stage == stage_getauth
        then (ps_authfail, none)
        else if stage == stage_getsizes
        then (ps_success, none)
        else (ps_error, none))
    else (ps_protocol, none)

-- `for (cp = buf; !isspace(*cp); cp++)`: where there is no white space, the loop leaves the line.
unfoldable pub find_space : Bytes → Option Bytes
unfolding is_space
find_space [] = none
find_space (c ∷ s) = let rest = find_space s in if is_space c then some (c ∷ s) else rest

-- The part behind the loop of `imap_response`.
unfoldable pub finish_response : Setting → Imap → Bytes → Option Answer
unfolding find_space skip_while is_space judge_tagged
finish_response e s buf =
    if peek e.tag == 0
    then some (ps_success, some buf)
    else (do cp ← find_space buf; some (judge_tagged s.stage (skip_while is_space cp)))

-- What a round of the loop does with a line: it returns, or goes on with the variables.
pub data Round : Type 0 where
  returns : Answer → Imap → Round
  goes_on : Imap → Round

-- The timeout is reduced while IDLE lasts; a timeout below 0 is taken for 0.
unfoldable pub idle_round : Setting → Imap → ℕ → Round
idle_round e s left =
    if s.stage == stage_idle
    then (let t = e.idle_timeout - e.elapsed left in
        let later = record s { mytimeout = t } in
        if t == 0 then returns (ps_idletimeout, none) later else goes_on later)
    else goes_on s

-- An untagged line; `wanted` tells whether `argbuf` is not NULL.
unfoldable pub untagged_round : Setting → Bool → Imap → Bytes → ℕ → Round
unfolding imap_untagged_response idle_round
untagged_round e wanted s buf left =
    let (ok, now) = imap_untagged_response e s buf in
    if ok == ps_untagged
    then (if wanted && not (now.stage == stage_idle) && not (peek e.tag == 0)
        then returns (ok, some buf) now
        else idle_round e now left)
    else if not (ok == ps_success)
    then returns (ok, none) now
    else idle_round e now left

unfoldable pub round : Setting → Bool → Imap → Bytes → ℕ → Round
unfolding untagged_round idle_round
round e wanted s buf left =
    if peek buf == b'*' && peek (next buf) == b' '
    then untagged_round e wanted s buf left
    else idle_round e s left

-- `imap_response`, for an answer that is not split, over the lines that are still to come.
unfoldable pub imap_response :
    Setting → Bool → Imap → List Read → Option (Answer × Imap × List Read)
unfolding received line_of round starts_with finish_response
imap_response e wanted s [] = some ((ps_socket, none), s, [])
imap_response e wanted s (r ∷ rs) = elim ((received r).0 == ps_success) [
  | false ↦ some (((received r).0, none), s, rs)
  | true ↦ elim (round e wanted s (line_of r) (length rs)) [
    | returns a now ↦ some (a, now, rs)
    | goes_on now ↦ elim (not (peek e.tag == 0) && not (starts_with e.tag (line_of r))) [
      | true ↦ imap_response e wanted now rs
      | false ↦ do a ← finish_response e now (line_of r); some (a, now, rs)
    ]
  ]
]

-- `imap_ok`, which calls `imap_response` until the tagged line is there. Every call reads a line, so
-- that one more than the number of the reads is fuel enough.
unfoldable pub ok_loop : ℕ → Setting → Bool → Imap → List Read → Option (Answer × Imap × List Read)
unfolding imap_response
ok_loop zero e wanted s input = none
ok_loop (suc fuel) e wanted s input = do
  (a, now, rest) ← imap_response e wanted s input
  elim (a.0 == ps_untagged) [ true ↦ ok_loop fuel e wanted now rest | false ↦ some (a, now, rest) ]

unfoldable pub imap_ok : Setting → Bool → Imap → List Read → Option (Answer × Imap × List Read)
unfolding ok_loop
imap_ok e wanted s input = ok_loop (suc (length input)) e wanted s input

-- `imap_canonicalize`.
unfoldable pub imap_canonicalize : Bytes → ℕ → Bytes
imap_canonicalize [] maxlen = []
imap_canonicalize (c ∷ raw) zero = []
imap_canonicalize (c ∷ raw) (suc maxlen) =
    let rest = imap_canonicalize raw maxlen in
    if c == b'\\' || c == b'"' then b'\\' ∷ c ∷ rest else c ∷ rest
