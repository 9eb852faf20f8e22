-- ===== src/Transact.antt =====
-- transact.c: how a command is sent and a line of the answer is read. What the server and the
-- network do is the record `Io`: the results of the calls of `SockRead` that are still to come, and
-- which writes go through. When the first list is at its end, the connection is closed.
use fetchmail.Prelude.{ℕ, Bool, List, [], ◌∷◌, ◌++◌, ◌==◌, if◌then◌else◌, length, Bytes, codes}

-- The codes of fetchmail.h.
abbrev pub ps_success : ℕ
ps_success = 0

abbrev pub ps_socket : ℕ
ps_socket = 2

abbrev pub ps_authfail : ℕ
ps_authfail = 3

abbrev pub ps_protocol : ℕ
ps_protocol = 4

abbrev pub ps_error : ℕ
ps_error = 7

abbrev pub ps_lockbusy : ℕ
ps_lockbusy = 9

abbrev pub ps_servbusy : ℕ
ps_servbusy = 14

abbrev pub ps_transient : ℕ
ps_transient = 24

abbrev pub ps_idletimeout : ℕ
ps_idletimeout = 29

-- The stages of a query.
abbrev pub stage_getauth : ℕ
stage_getauth = 0

abbrev pub stage_getrange : ℕ
stage_getrange = 1

abbrev pub stage_getsizes : ℕ
stage_getsizes = 2

abbrev pub stage_fetch : ℕ
stage_fetch = 3

abbrev pub stage_idle : ℕ
stage_idle = 4

abbrev pub stage_logout : ℕ
stage_logout = 5

-- A call of `SockRead`: the string in the buffer, or -1, and then whether there was a timeout
-- of IDLE.
pub data Read : Type 0 where
  line : Bytes → Read
  closed idle_timeout : Read

pub record Io : Type 0 where
  pub input : List Read
  pub sent : List Bytes
  pub write_ok : ℕ → Bool

-- A line without its line feed, and without the carriage return before it.
unfoldable pub strip_last : ℕ → Bytes → Bytes
strip_last b [] = []
strip_last b (c ∷ s) =
    let rest = strip_last b s in elim s [ [] ↦ if c == b then [] else c ∷ [] | d ∷ t ↦ c ∷ rest ]

unfoldable pub chomp : Bytes → Bytes
unfolding strip_last
chomp s = strip_last b'\r' (strip_last b'\n' s)

-- `gen_recv`: the code it returns, the string in the buffer, which is not looked at after a failure,
-- and what is left.
unfoldable pub received : Read → ℕ × Bytes
unfolding chomp
received (line s) = (ps_success, chomp s)
received closed = (ps_socket, [])
received idle_timeout = (ps_idletimeout, [])

unfoldable pub recv_from : List Read → ℕ × Bytes × List Read
unfolding received
recv_from [] = (ps_socket, [], [])
recv_from (r ∷ rs) = ((received r).0, (received r).1, rs)

unfoldable pub gen_recv : Io → ℕ × Bytes × Io
unfolding recv_from
gen_recv io = let (ok, buf, rest) = recv_from io.input in (ok, buf, record io { input = rest })

-- `gen_send`, for a protocol without tags.
unfoldable pub gen_send : Io → Bytes → Io
gen_send io cmd = record io { sent = io.sent ++ (cmd ++ codes "\r\n") ∷ [] }

-- `gen_transact`, for a protocol without tags, with `protocol->parse_response`.
unfoldable pub gen_transact : (Io → ℕ × Io) → Io → Bytes → ℕ × Io
unfolding gen_send
gen_transact parse_response io cmd =
    if io.write_ok (length io.sent)
    then parse_response (gen_send io cmd)
    else (ps_socket, gen_send io cmd)
