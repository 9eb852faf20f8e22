-- ===== src/Nxtaddr.antt =====
-- rfc822.c: `nxtaddr`, which returns the addresses of a header one after the other. Its static
-- variables are a record; `address` holds the `tp` bytes that are in use, since each return writes
-- a NUL behind them. BUFSIZ is the parameter `size`.
pub mod Bounds
use fetchmail.Prelude.{
  ℕ, zero, suc, ◌+◌, ◌-◌, ◌*◌, ◌/◌, ◌%◌, ◌^◌, ◌≤◌, ◌<◌, bit_and, bit_or, bit_xor, ◌≡◌, refl, sym,
  ap, ◌∙◌, ◌≢◌, ◌↔◌, ◌⊎◌, inl, inr, Bool, true, false, not, ◌&&◌, ◌||◌, Option, none, some, List,
  [], ◌∷◌, ◌++◌, map, append_assoc, append-nil, arith, ltb, leb, ◌==◌, if◌then◌else◌, ltb→lt,
  lt→ltb, leb→le, ==_iff, tests, Bool-cases, Option-cases, bind_inv, ◌>>=◌, length, get_elem?, set,
  length-append, length-set, get_or, take, drop, replicate, length-replicate, length-map,
  take-append-drop, length-take, length-drop, get_elem?-append_left, get_elem?-append_right,
  get_elem?-replicate, take_all, get_elem?-set_self, get_elem?-set_ne, Bytes, codes, peek, next,
  All, All-append, Lacks, NoNul, ==_ne, IsByte, contains, is_space, to_lower, str_eq, str_case_eq,
  has_case_prefix, starts_with, str_eq_sound, str_eq_refl, every, every_lem,
}

pub data State : Type 0 where
  start_hdr skip_junk bare_address inside_dquote inside_parens inside_brackets endit_all : State

pub record Scan : Type 0 where
  pub address : Bytes
  pub state : State
  pub oldstate : State
  pub parendepth : ℕ

-- What a call returns, with what is left at `hp`; `overrun` is a read behind the NUL.
pub data Outcome : Type 0 where
  found : Bytes → Bytes → Scan → Outcome
  null : Bytes → Scan → Outcome
  overrun : Outcome

-- `address[NEXTTP()] = c`: where the buffer is full, the last cell is written again.
unfoldable pub put : ℕ → ℕ → Scan → Scan
put size c q =
    if ltb (length q.address) (size - 1) then record q { address = q.address ++ c ∷ [] } else q

-- `HEADER_END`.
unfoldable pub header_end : ℕ → Bytes → Bool
header_end c s = c == b'\n' && not (peek s == b' ') && not (peek s == b'\t')

-- Going on with the next byte, or a return.
pub data Step : Type 0 where
  go : Scan → Step
  stop : Outcome → Step

-- `while (tp > 0 && isspace(address[tp - 1])) tp--;`
unfoldable pub trim : Bytes → Bytes
unfolding is_space
trim [] = []
trim (c ∷ s) =
    let rest = trim s in elim rest [ [] ↦ (if is_space c then [] else c ∷ []) | x ∷ r ↦ c ∷ x ∷ r ]

unfoldable pub end_of_header : Bytes → Scan → Outcome
unfolding trim
end_of_header hp q =
    let done = record q { state = endit_all; address = [] } in
    elim (q.address) [ [] ↦ null hp done | _ ∷ _ ↦ found (trim q.address) hp done ]

unfoldable pub in_bare_address : ℕ → Scan → ℕ → Bytes → Step
unfolding put is_space
in_bare_address size q c s =
    if c == b','
    then elim (q.address) [
      | [] ↦ go q
      | _ ∷ _ ↦ stop (found q.address (c ∷ s) (record q { state = skip_junk; address = [] }))
    ]
    else if c == b'('
    then go (record q { parendepth = 1; oldstate = bare_address; state = inside_parens })
    else if c == b'<'
    then go (record q { state = inside_brackets; address = [] })
    else if c == b'"'
    then go (put size c (record q { oldstate = q.state; state = inside_dquote }))
    else if not (is_space c)
    then go (put size c q)
    else go q

-- `--hp` in the last branch: the next round has the same byte, in the new state.
unfoldable pub in_skip_junk : ℕ → Scan → ℕ → Bytes → Step
unfolding put is_space in_bare_address
in_skip_junk size q c s =
    if c == b'"'
    then go (put size c (record q { oldstate = skip_junk; state = inside_dquote }))
    else if c == b'('
    then go (record q { parendepth = 1; oldstate = skip_junk; state = inside_parens })
    else if c == b'<'
    then go (record q { state = inside_brackets; address = [] })
    else if not (c == b',') && not (is_space c)
    then in_bare_address size (record q { state = bare_address }) c s
    else go q

-- `parendepth` is an `int` of 32 bits.
unfoldable pub in_parens : Scan → ℕ → Step
in_parens q c =
    let depth =
      if c == b'('
      then (q.parendepth + 1) % 2 ^ 32
      else if c == b')'
      then (q.parendepth + 2 ^ 32 - 1) % 2 ^ 32
      else q.parendepth in
    go (record q { parendepth = depth; state = if depth == 0 then q.oldstate else q.state })

unfoldable pub in_brackets : ℕ → Scan → ℕ → Bytes → Step
unfolding put
in_brackets size q c s =
    if c == b'>'
    then stop (found q.address s (record q { state = skip_junk; address = [] }))
    else if c == b'<'
    then go (record q { address = [] })
    else if c == b'"'
    then go (put size c (record q { oldstate = inside_brackets; state = inside_dquote }))
    else go (put size c q)

-- The `switch`.
unfoldable pub step : State → ℕ → Scan → ℕ → Bytes → Step
unfolding in_skip_junk in_bare_address in_parens in_brackets put
step start_hdr size q c s = go (if c == b':' then record q { state = skip_junk } else q)
step skip_junk size q c s = in_skip_junk size q c s
step bare_address size q c s = in_bare_address size q c s
step inside_dquote size q c s =
    let r = put size c q in go (if c == b'"' then record r { state = r.oldstate } else r)
step inside_parens size q c s = in_parens q c
step inside_brackets size q c s = in_brackets size q c s
step endit_all size q c s = stop (null (c ∷ s) q)

abbrev pub is_parens : State → Bool
is_parens inside_parens = true
is_parens _ = false

abbrev pub is_endit : State → Bool
is_endit endit_all = true
is_endit _ = false

-- The `for` loop. An escape takes two bytes; where the second is the NUL, the loop goes on behind
-- it.
unfoldable pub scan : ℕ → Bytes → Scan → Outcome
scan size [] q = null [] q
scan size (c ∷ []) q =
    if is_endit q.state
    then null (c ∷ []) q
    else if header_end c []
    then end_of_header (c ∷ []) q
    else if c == b'\\'
    then (if is_parens q.state then null [] q else overrun)
    else elim (step q.state size q c []) [ go r ↦ null [] r | stop o ↦ o ]
scan size (c ∷ d ∷ s) q =
    let skipped = scan size (d ∷ s) q in
    let escaped = scan size s (put size d (put size c q)) in
    let next_byte : Outcome = elim (step q.state size q c (d ∷ s)) [
      | go r ↦ scan size (d ∷ s) r
      | stop o ↦ o
    ] in
    if is_endit q.state
    then null (c ∷ d ∷ s) q
    else if header_end c (d ∷ s)
    then end_of_header (c ∷ d ∷ s) q
    else if c == b'\\'
    then (if is_parens q.state then skipped else escaped)
    else next_byte

-- `nxtaddr(hdr)`, and `nxtaddr(NULL)` at what an earlier call has left.
unfoldable pub nxtaddr : ℕ → Bytes → State → Outcome
unfolding scan header_end end_of_header step
nxtaddr size hdr old =
    scan size hdr (record { address = []; state = start_hdr; oldstate = old; parendepth = 0 })

unfoldable pub nxtaddr_next : ℕ → Bytes → Scan → Outcome
unfolding scan header_end end_of_header step
nxtaddr_next size hp q = scan size hp (record q { parendepth = 0 })
