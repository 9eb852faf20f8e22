-- ===== src/Pop3/Sizes.antt =====
-- pop3.c: the sizes of the messages. The array is a list of its cells.
pub mod Listing
use fetchmail.Prelude.{
  ℕ, zero, suc, ◌+◌, ◌-◌, ◌*◌, ◌/◌, ◌%◌, ◌^◌, ◌≤◌, ◌<◌, bit_and, bit_or, bit_xor, ◌≡◌, refl, sym,
  ap, ◌∙◌, ◌≢◌, ◌↔◌, ◌⊎◌, inl, inr, Bool, true, false, not, ◌&&◌, ◌||◌, Option, none, some, List,
  [], ◌∷◌, ◌++◌, map, append_assoc, append-nil, arith, ltb, leb, ◌==◌, if◌then◌else◌, ltb→lt,
  lt→ltb, leb→le, ==_iff, tests, Bool-cases, Option-cases, bind_inv, ◌>>=◌, length, get_elem?, set,
  length-append, length-set, get_or, take, drop, replicate, length-replicate, length-map,
  take-append-drop, length-take, length-drop, get_elem?-append_left, get_elem?-append_right,
  get_elem?-replicate, take_all, get_elem?-set_self, get_elem?-set_ne, Bytes, codes, peek, next,
  All, All-append, Lacks, NoNul, ==_ne, IsByte, contains, is_space, to_lower, str_eq, str_case_eq,
  has_case_prefix, starts_with, str_eq_sound, str_eq_refl, every, every_lem,
}
use fetchmail.Scan.{scan_u, scan_d, decimal}
use fetchmail.Transact.{ps_socket, Read, Io, received, gen_send}
use fetchmail.Pop3.{dotline, pop3_ok, transact}

-- `sscanf(buf, "%u %u", &num, &size)` and `sscanf(buf, "%d %u", &num, &size)`; `none` is a result
-- other than 2.
unfoldable pub scan_uu : Bytes → Option (ℕ × ℕ)
unfolding scan_u
scan_uu buf = do (num, rest) ← scan_u buf; (size, end) ← scan_u rest; some (num, size)

unfoldable pub scan_du : Bytes → Option (ℕ × ℕ)
unfolding scan_u scan_d
scan_du buf = do (num, rest) ← scan_d buf; (size, end) ← scan_u rest; some (num, size)

-- A line of the answer to LIST.
unfoldable pub list_line : ℕ → Bytes → List ℕ → List ℕ
unfolding scan_uu
list_line count buf sizes = elim (scan_uu buf) [
  | none ↦ sizes
  | some (num, size) ↦ if ltb 0 num && leb num count then set sizes (num - 1) size else sizes
]

-- The loop of `pop3_getsizes`.
unfoldable pub sizes_loop : ℕ → List Read → List ℕ → ℕ × List ℕ × List Read
unfolding received dotline list_line
sizes_loop count [] sizes = (ps_socket, sizes, [])
sizes_loop count (r ∷ rs) sizes =
    let later = sizes_loop count rs (list_line count (received r).1 sizes) in
    if not ((received r).0 == 0)
    then ((received r).0, sizes, rs)
    else if dotline (received r).1
    then (0, sizes, rs)
    else later

-- `pop3_getsizes`.
unfoldable pub pop3_getsizes : ℕ → Io → ℕ → List ℕ → ℕ × List ℕ × Io
unfolding transact sizes_loop
pop3_getsizes stage io count sizes =
    let (ok, rest) = transact stage io (codes "LIST") in
    if ok == 0
    then (let (code, filled, left) = sizes_loop count rest.input sizes in
        (code, filled, record rest { input = left }))
    else (ok, sizes, rest)

-- What is done with the answer for the message `i`, whose cell is at `ofs`.
unfoldable pub one_size : ℕ → ℕ → Option Bytes → List ℕ → List ℕ
unfolding scan_du
one_size i ofs none sizes = sizes
one_size i ofs (some buf) sizes = elim (scan_du buf) [
  | none ↦ sizes
  | some (num, size) ↦ if num == i then set sizes ofs size else sizes
]

-- The loop of `pop3_getpartialsizes`, which makes `rounds` rounds and has made `ofs`.
unfoldable pub partial_loop : ℕ → Io → ℕ → ℕ → ℕ → List ℕ → ℕ × List ℕ × Io
unfolding gen_send pop3_ok one_size decimal
partial_loop stage io zero first ofs sizes = (0, sizes, io)
partial_loop stage io (suc rounds) first ofs sizes =
    let i = first + ofs in
    let (ok, arg, rest) = pop3_ok stage (gen_send io (codes "LIST " ++ decimal i)) in
    let later = partial_loop stage rest rounds first (ofs + 1) (one_size i ofs arg sizes) in
    if ok == 0 then later else (ok, sizes, rest)

-- `pop3_getpartialsizes`.
unfoldable pub pop3_getpartialsizes : ℕ → Io → ℕ → ℕ → List ℕ → ℕ × List ℕ × Io
unfolding partial_loop
pop3_getpartialsizes stage io first last sizes =
    partial_loop stage io (last + 1 - first) first 0 sizes
