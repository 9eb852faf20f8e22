-- ===== src/Smtp.antt =====
-- smtp.c: the reply of a server to an SMTP command. A failed read is any that is not a line.
pub mod Replies
use fetchmail.Prelude.{
  ℕ, zero, suc, ◌+◌, ◌-◌, ◌*◌, ◌/◌, ◌%◌, ◌^◌, ◌≤◌, ◌<◌, bit_and, bit_or, bit_xor, ◌≡◌, refl, sym,
  ap, ◌∙◌, ◌≢◌, ◌↔◌, ◌⊎◌, inl, inr, Bool, true, false, not, ◌&&◌, ◌||◌, Option, none, some, List,
  [], ◌∷◌, ◌++◌, map, append_assoc, append-nil, arith, ltb, leb, ◌==◌, if◌then◌else◌, ltb→lt,
  lt→ltb, leb→le, ==_iff, tests, Bool-cases, Option-cases, bind_inv, ◌>>=◌, length, get_elem?, set,
  length-append, length-set, get_or, take, drop, replicate, length-replicate, length-map,
  take-append-drop, length-take, length-drop, get_elem?-append_left, get_elem?-append_right,
  get_elem?-replicate, take_all, get_elem?-set_self, get_elem?-set_ne, Bytes, codes, peek, next,
  All, All-append, Lacks, NoNul, ==_ne, IsByte, contains, is_space, to_lower, str_eq, str_case_eq,
  has_case_prefix, starts_with, str_eq_sound, str_eq_refl, every, every_lem,
}
use fetchmail.Scan.{is_digit}
use fetchmail.Transact.{line, Read, chomp}

abbrev pub sm_ok : ℕ
sm_ok = 0

abbrev pub sm_error : ℕ
sm_error = 128

abbrev pub sm_unrecoverable : ℕ
sm_unrecoverable = 129

-- `sizeof(smtp_response)`.
abbrev pub response_size : ℕ
response_size = 8192

-- `strlcat` onto `smtp_response`.
abbrev pub append_response : Bytes → Bytes → Bytes
append_response s t = take (response_size - 1) (s ++ t)

-- A control character, in the C locale, is stamped out.
unfoldable pub stomp : ℕ → ℕ
stomp c = if ltb c b' ' || c == 127 then b'?' else c

unfoldable pub reply_of : Bytes → Bytes
unfolding chomp stomp
reply_of s = map stomp (chomp s)

-- `reply[3]`, which is looked at in a reply of three bytes at least, and the tests on it.
abbrev pub separator : Bytes → ℕ
separator reply = peek (drop 3 reply)

unfoldable pub well_formed : Bytes → Bool
well_formed reply =
    leb 3 (length reply)
    && (separator reply == b' ' || separator reply == b'-' || separator reply == 0)

unfoldable pub positive : Bytes → Bool
unfolding contains is_digit
positive reply =
    contains (codes "123") (peek reply)
    && is_digit (peek (drop 1 reply))
    && is_digit (peek (drop 2 reply))
    && (separator reply == b' ' || separator reply == 0)

-- The loop of `SMTP_ok`: the status, `smtp_response`, and what is left to read.
unfoldable pub reply_loop : List Read → Bytes → ℕ × Bytes × List Read
unfolding reply_of well_formed positive
reply_loop [] response = (sm_unrecoverable, response, [])
reply_loop (line s ∷ rs) response =
    let reply = reply_of s in
    let now = append_response response reply in
    let more = reply_loop rs (append_response now (codes "\r\n")) in
    if not (well_formed reply)
    then (sm_unrecoverable, response, rs)
    else if positive reply
    then (sm_ok, now, rs)
    else if not (separator reply == b'-')
    then (sm_error, now, rs)
    else more
reply_loop (_ ∷ rs) response = (sm_unrecoverable, response, rs)

-- `SMTP_ok`.
unfoldable pub smtp_ok : List Read → ℕ × Bytes × List Read
unfolding reply_loop
smtp_ok input = reply_loop input []
