-- ===== src/Pop3.antt =====
-- pop3.c: the answers of a POP3 server.
pub mod Answers
pub mod Sizes
pub mod Fast
pub mod Uidl
pub mod Marks
use fetchmail.Prelude.{
  ℕ, zero, suc, ◌+◌, ◌-◌, ◌*◌, ◌/◌, ◌%◌, ◌^◌, ◌≤◌, ◌<◌, bit_and, bit_or, bit_xor, ◌≡◌, refl, sym,
  ap, ◌∙◌, ◌≢◌, ◌↔◌, ◌⊎◌, inl, inr, Bool, true, false, not, ◌&&◌, ◌||◌, Option, none, some, List,
  [], ◌∷◌, ◌++◌, map, append_assoc, append-nil, arith, ltb, leb, ◌==◌, if◌then◌else◌, ltb→lt,
  lt→ltb, leb→le, ==_iff, tests, Bool-cases, Option-cases, bind_inv, ◌>>=◌, length, get_elem?, set,
  length-append, length-set, get_or, take, drop, replicate, length-replicate, length-map,
  take-append-drop, length-take, length-drop, get_elem?-append_left, get_elem?-append_right,
  get_elem?-replicate, take_all, get_elem?-set_self, get_elem?-set_ne, Bytes, codes, peek, next,
  All, All-append, Lacks, NoNul, ==_ne, IsByte, contains, is_space, to_lower, str_eq, str_case_eq,
  has_case_prefix, starts_with, str_eq_sound, str_eq_refl, every, every_lem,
}
use fetchmail.Scan.{is_alpha, skip_while, take_while, strstr, strtoul, decimal}
use fetchmail.Transact.{
  ps_success, ps_authfail, ps_protocol, ps_lockbusy, ps_servbusy, ps_transient, stage_getauth,
  stage_fetch, Read, Io, received, gen_recv, gen_send, gen_transact,
}

-- `DOTLINE`.
unfoldable pub dotline : Bytes → Bool
dotline s =
    peek s == b'.' && (peek (next s) == b'\r' || peek (next s) == b'\n' || peek (next s) == 0)

-- The texts that tell of a locked mailbox, and of a busy server.
unfoldable pub says_locked : Bytes → Bool
unfolding strstr
says_locked s =
    strstr s (codes "lock")
    || strstr s (codes "Lock")
    || strstr s (codes "LOCK")
    || strstr s (codes "wait")
    || strstr s (codes "[IN-USE]")
    || strstr s (codes "[LOGIN-DELAY]")

unfoldable pub says_busy : Bytes → Bool
unfolding strstr
says_busy s =
    (strstr s (codes "Service") || strstr s (codes "service")) && strstr s (codes "unavailable")

-- The code for an answer, given its first word and the text behind it.
unfoldable pub judge_err : ℕ → Bytes → ℕ
unfolding says_locked says_busy
judge_err stage text =
    if stage == stage_fetch
    then ps_transient
    else if ltb stage_getauth stage
    then ps_protocol
    else if says_locked text
    then ps_lockbusy
    else if says_busy text
    then ps_servbusy
    else ps_authfail

unfoldable pub judge_word : ℕ → Bytes → Bytes → ℕ
unfolding str_eq starts_with judge_err
judge_word stage word text =
    if str_eq word (codes "+OK")
    then ps_success
    else if starts_with (codes "-ERR") word
    then judge_err stage text
    else ps_protocol

-- An answer: the code, and the text for `argbuf`, which stays as it was where there is none.
unfoldable pub judge_line : ℕ → Bytes → ℕ × Option Bytes
unfolding take_while skip_while is_alpha judge_word
judge_line stage buf =
    if peek buf == b'+' || peek buf == b'-'
    then (let text = next (skip_while is_alpha (next buf)) in
        (judge_word stage (peek buf ∷ take_while is_alpha (next buf)) text, some text))
    else (ps_protocol, none)

-- `pop3_ok`.
unfoldable pub pop3_ok : ℕ → Io → ℕ × Option Bytes × Io
unfolding gen_recv judge_line
pop3_ok stage io =
    let (ok, buf, rest) = gen_recv io in
    if ok == 0 then ((judge_line stage buf).0, (judge_line stage buf).1, rest) else (ok, none, rest)

-- `gen_transact`, whose response is parsed by `pop3_ok`.
unfoldable pub transact : ℕ → Io → Bytes → ℕ × Io
unfolding gen_transact pop3_ok
transact stage io cmd =
    gen_transact (λ i. let (ok, arg, rest) = pop3_ok stage i in (ok, rest)) io cmd

-- `trim` behind `strlcpy(id, s, idsize)`.
unfoldable pub copy_id : ℕ → Bytes → Bytes
unfolding take_while is_space
copy_id idsize s = take_while (λ c. not (is_space c)) (take (idsize - 1) s)

-- `parseuid`: the code, and the number and the identifier.
unfoldable pub parseuid : Bytes → ℕ → Option (ℕ × Bytes)
unfolding skip_while is_space strtoul copy_id
parseuid buf idsize = do
  (gotnum, range, j) ← strtoul (skip_while is_space buf)
  if not (range || peek j == 0) && is_space (peek j)
      then some (gotnum, copy_id idsize (skip_while is_space j))
      else none

-- `IDLEN + 1`.
abbrev pub id_size : ℕ
id_size = 129

-- A result, or the code of an error.
pub data Result : Type 0 where
  good : Bytes → Result
  bad : ℕ → Result

-- What `pop3_getuidl` does with the text of the answer.
unfoldable pub uid_of : ℕ → Bytes → Result
unfolding parseuid
uid_of num text = elim (parseuid text id_size) [
  | none ↦ bad ps_protocol
  | some (gotnum, id) ↦ if gotnum == num then good id else bad ps_protocol
]

-- `pop3_getuidl`.
unfoldable pub pop3_getuidl : ℕ → Io → ℕ → Result × Io
unfolding gen_send pop3_ok uid_of decimal
pop3_getuidl stage io num =
    let (ok, arg, rest) = pop3_ok stage (gen_send io (codes "UIDL " ++ decimal num)) in
    if ok == 0
    then (elim arg [ none ↦ bad ps_protocol | some text ↦ uid_of num text ], rest)
    else (bad ok, rest)

-- The body of the loop of `pop3_gettopid`; `id` is what was found, if there was a Message-Id.
unfoldable pub look_at : Bytes → Option Bytes → Option Bytes
unfolding has_case_prefix skip_while is_space copy_id
look_at buf (some id) = some id
look_at buf none =
    if has_case_prefix (codes "Message-Id:") buf
    then some (copy_id id_size (skip_while is_space (drop 11 buf)))
    else none

unfoldable pub top_loop : List Read → Option Bytes → Option Bytes × List Read
unfolding received dotline look_at
top_loop [] id = (id, [])
top_loop (r ∷ rs) id =
    let later = top_loop rs (look_at (received r).1 id) in
    if not ((received r).0 == 0) || dotline (received r).1 then (id, rs) else later

-- `pop3_gettopid`: `id` is left as it was where there is no Message-Id.
unfoldable pub pop3_gettopid : ℕ → Io → ℕ → ℕ × Option Bytes × Io
unfolding transact top_loop decimal
pop3_gettopid stage io num =
    let (ok, rest) = transact stage io (codes "TOP " ++ decimal num ++ codes " 1") in
    if ok == 0
    then (let (id, left) = top_loop rest.input none in (0, id, record rest { input = left }))
    else (ok, none, rest)
