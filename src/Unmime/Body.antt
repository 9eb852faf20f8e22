-- ===== src/Unmime/Body.antt =====
-- unmime.c: the headers of a message, and its body line by line. The static variables are the
-- record `Body`. `size` is the BUFSIZ of `nxtaddr`, and `old` its static `oldstate`, which no call
-- with a header reads before it is set. `none` is a read of `nxtaddr` behind the header, or the end
-- of the fuel.
pub mod Kinds
pub mod Plain
use fetchmail.Prelude.{
  ℕ, zero, suc, ◌+◌, ◌-◌, ◌*◌, ◌/◌, ◌%◌, ◌^◌, ◌≤◌, ◌<◌, bit_and, bit_or, bit_xor, ◌≡◌, refl, sym,
  ap, ◌∙◌, ◌≢◌, ◌↔◌, ◌⊎◌, inl, inr, Bool, true, false, not, ◌&&◌, ◌||◌, Option, none, some, List,
  [], ◌∷◌, ◌++◌, map, append_assoc, append-nil, arith, ltb, leb, ◌==◌, if◌then◌else◌, ltb→lt,
  lt→ltb, leb→le, ==_iff, tests, Bool-cases, Option-cases, bind_inv, ◌>>=◌, length, get_elem?, set,
  length-append, length-set, get_or, take, drop, replicate, length-replicate, length-map,
  take-append-drop, length-take, length-drop, get_elem?-append_left, get_elem?-append_right,
  get_elem?-replicate, take_all, get_elem?-set_self, get_elem?-set_ne, Bytes, codes, peek, next,
  All, All-append, Lacks, NoNul, ==_ne, IsByte, contains, is_space, to_lower, str_eq, str_case_eq,
  has_case_prefix, starts_with, str_eq_sound, str_eq_refl, every, every_lem,
}
use fetchmail.Nxtaddr.{Outcome, found, null, overrun, State, nxtaddr}
use fetchmail.Unmime.Quoted.{strchr, do_one_qp_line}
use fetchmail.Unmime.Header.{unmime_header}
use fetchmail.Unmime.ContentType.{set_encoding8bit, get_boundary, check_content_type}

pub data BodyState : Type 0 where
  body_data body_hdr : BodyState

-- The static variables.
pub record Body : Type 0 where
  pub body_state : BodyState
  pub encoding_is_qp : Bool
  pub type_needs_decode : Bool
  pub multipart_delimiter : Bytes

abbrev pub initial : Body
initial = record {
  body_state = body_data;
  encoding_is_qp = false;
  type_needs_decode = false;
  multipart_delimiter = [];
}

-- What `nxtaddr` returns.
unfoldable pub address_of : Outcome → Option (Option Bytes)
address_of (found a rest q) = some (some a)
address_of (null rest q) = some none
address_of overrun = none

-- The variables of `MimeBodyType`; a place in the headers is its distance from their start.
pub record Fields : Type 0 where
  pub xfer_enc : Option Bytes
  pub xfer_enc_ofs : Option ℕ
  pub cnt_type : Option Bytes
  pub mime_ver : Option Bytes
  pub hdrs_found : ℕ

abbrev pub no_fields : Fields
no_fields = record {
  xfer_enc = none;
  xfer_enc_ofs = none;
  cnt_type = none;
  mime_ver = none;
  hdrs_found = 0;
}

-- `for (...; *NxtHdr == ' ' || *NxtHdr == '\t'; NxtHdr++)`.
unfoldable pub skip_blanks : Bytes → Bytes
skip_blanks [] = []
skip_blanks (c ∷ s) = let rest = skip_blanks s in if c == b' ' || c == b'\t' then rest else c ∷ s

-- The value of a header, up to a newline with no tab or space behind it.
unfoldable pub header_value : Bytes → Bytes
header_value [] = []
header_value (c ∷ s) =
    let rest = header_value s in
    if c == b'\n' && not (peek s == b'\t' || peek s == b' ') then [] else c ∷ rest

-- The chain of tests on the header at `nxt`, which is `ofs` bytes behind the first one.
unfoldable pub one_header : ℕ → State → ℕ → Bytes → Fields → Option (Bytes × Fields)
unfolding nxtaddr address_of has_case_prefix skip_blanks header_value
one_header size old ofs nxt f =
    if has_case_prefix (codes "Content-Transfer-Encoding:") nxt
    then (do
      p ← address_of (nxtaddr size nxt old)
      some (
        nxt,
        elim p [
          | none ↦ record f { xfer_enc_ofs = some ofs }
          | some a ↦ record f {
            xfer_enc_ofs = some ofs;
            xfer_enc = some a;
            hdrs_found = f.hdrs_found + 1;
          }
        ],
      ))
    else if has_case_prefix (codes "Content-Type:") nxt
    then (let value = skip_blanks (drop 13 nxt) in
        some
          (value, record f { cnt_type = some (header_value value); hdrs_found = f.hdrs_found + 1 }))
    else if has_case_prefix (codes "MIME-Version:") nxt
    then (do
      p ← address_of (nxtaddr size nxt old)
      some (
        nxt,
        elim p [
          | none ↦ f
          | some a ↦ record f { mime_ver = some a; hdrs_found = f.hdrs_found + 1 }
        ],
      ))
    else some (nxt, f)

-- The loop over the headers, of which `total` bytes were there at the start. A round eats a
-- newline, so that their length is fuel enough.
unfoldable pub scan_headers : ℕ → State → ℕ → ℕ → Bytes → Fields → Option Fields
unfolding one_header strchr
scan_headers size old zero total nxt f = none
scan_headers size old (suc fuel) total nxt f = do
  (at, g) ← one_header size old (total - length nxt) nxt f
  elim (strchr b'\n' at) [
    | none ↦ some g
    | some (before, line) ↦ elim (not (peek (next line) == 0) && not (g.hdrs_found == 3)) [
      | true ↦ scan_headers size old fuel total (next line) g
      | false ↦ some g
    ]
  ]

-- `strcmp` and `strncasecmp` on a pointer that may be NULL.
abbrev pub case_equals : Option Bytes → Bytes → Bool
case_equals none t = false
case_equals (some s) t = str_case_eq s t

abbrev pub has_prefix : Option Bytes → Bytes → Bool
has_prefix none t = false
has_prefix (some s) t = has_case_prefix t s

abbrev pub is_mime : Option Bytes → Bool
is_mime none = false
is_mime (some s) = str_eq s (codes "1.0")

-- `MSG_IS_7BIT`, `MSG_IS_8BIT`, and `MSG_IS_8BIT | MSG_NEEDS_DECODE`.
abbrev pub msg_is_7bit : ℕ
msg_is_7bit = 0x01

abbrev pub msg_is_8bit : ℕ
msg_is_8bit = 0x02

abbrev pub msg_needs_decode : ℕ
msg_needs_decode = 0x80

-- The boundary of a multipart message. `strncasecmp` compares 16 bytes, so that it reaches the NUL
-- behind `multipart/mixed`.
unfoldable pub boundary : Option Bytes → Option Bytes
unfolding get_boundary has_case_prefix
boundary cnt_type =
    if case_equals cnt_type (codes "multipart/mixed") || has_prefix cnt_type (codes "message/")
    then elim cnt_type [ none ↦ none | some t ↦ get_boundary t ]
    else none

-- What `MimeBodyType` returns, the variables that it sets, and the headers.
pub record Kind : Type 0 where
  pub body_type : ℕ
  pub body : Body
  pub hdrs : Bytes

-- `SetEncoding8bit(XferEncOfs)`.
unfoldable pub rewrite_encoding : Bytes → Option ℕ → Bytes
unfolding set_encoding8bit
rewrite_encoding hdrs none = hdrs
rewrite_encoding hdrs (some ofs) = elim (set_encoding8bit (some (drop ofs hdrs))) [
  | none ↦ hdrs
  | some s ↦ take ofs hdrs ++ s
]

-- The tests on Content-Transfer-Encoding.
unfoldable pub transfer_encoding : Bool → Fields → Body → Bytes → Kind
unfolding rewrite_encoding str_case_eq
transfer_encoding want f b hdrs =
    if case_equals f.xfer_enc (codes "quoted-printable")
    then record {
      body_type = msg_is_8bit + msg_needs_decode;
      body = record b { encoding_is_qp = true };
      hdrs = if want && b.type_needs_decode then rewrite_encoding hdrs f.xfer_enc_ofs else hdrs;
    }
    else if case_equals f.xfer_enc (codes "7bit")
    then record { body_type = msg_is_7bit; body = b; hdrs = hdrs }
    else if case_equals f.xfer_enc (codes "8bit")
    then record { body_type = msg_is_8bit; body = b; hdrs = hdrs }
    else record { body_type = 0; body = b; hdrs = hdrs }

-- What the headers say, once they were looked through.
unfoldable pub judge : Bool → Fields → Bytes → Kind
unfolding boundary transfer_encoding check_content_type str_eq
judge want f hdrs =
    let typed = record initial { type_needs_decode = check_content_type f.cnt_type } in
    if is_mime f.mime_ver
    then elim (boundary f.cnt_type) [
      | some p1 ↦ record {
        body_type = msg_is_8bit + msg_needs_decode;
        body = record typed { multipart_delimiter = take 72 (codes "--" ++ p1) };
        hdrs = hdrs;
      }
      | none ↦ transfer_encoding want f typed hdrs
    ]
    else record { body_type = 0; body = initial; hdrs = hdrs }

-- `MimeBodyType`.
unfoldable pub mime_body_type : ℕ → State → Bytes → Bool → Option Kind
unfolding scan_headers judge
mime_body_type size old hdrs want = do
  f ← scan_headers size old (suc (length hdrs)) (length hdrs) hdrs no_fields
  some (judge want f hdrs)

-- What `UnMimeBodyline` leaves: the variables, the string in the buffer, the distance by which
-- `*bufp` is advanced, and the flag returned.
pub record Done : Type 0 where
  pub body : Body
  pub text : Bytes
  pub advance : ℕ
  pub soft : Bool

abbrev pub plain : Body → Bytes → Done
plain b buf = record { body = b; text = buf; advance = length buf; soft = false }

-- A decoded line in a header of a body part.
unfoldable pub part_header : ℕ → State → Body → Bytes → Option Done
unfolding nxtaddr address_of has_case_prefix str_case_eq str_eq set_encoding8bit check_content_type
part_header size old b buf =
    if peek buf == 0 || peek buf == b'\n' || str_eq buf (codes "\r\n")
    then some (plain (record b { body_state = body_data }) buf)
    else if has_case_prefix (codes "Content-Transfer-Encoding:") buf
    then (do
      xfer_enc ← address_of (nxtaddr size buf old)
      if case_equals xfer_enc (codes "quoted-printable")
          then some (
              plain (record b { encoding_is_qp = true })
                (if b.type_needs_decode
                  then elim (set_encoding8bit (some buf)) [ none ↦ buf | some s ↦ s ]
                  else buf))
          else some (plain b buf))
    else if has_case_prefix (codes "Content-Type:") buf
    then (do
      t ← address_of (nxtaddr size buf old)
      some (plain (record b { type_needs_decode = check_content_type t }) buf))
    else some (plain b buf)

-- The test for the delimiter.
unfoldable pub at_delimiter : Body → Bytes → Body
unfolding starts_with
at_delimiter b buf =
    if not (peek b.multipart_delimiter == 0) && starts_with b.multipart_delimiter buf
    then record b { body_state = body_hdr; encoding_is_qp = false; type_needs_decode = false }
    else b

-- A line of the body.
unfoldable pub data_line : Body → Bytes → Bool → Bool → Option Done
unfolding at_delimiter do_one_qp_line
data_line b0 buf delimited softline =
    let b = at_delimiter b0 buf in
    if b.encoding_is_qp && b.type_needs_decode
    then (do
      l ← do_one_qp_line buf delimited softline
      some (record { body = b; text = l.text; advance = l.advance; soft = l.soft }))
    else some (plain b buf)

unfoldable pub bodyline : BodyState → ℕ → State → Body → Bytes → Bool → Bool → Option Done
unfolding part_header unmime_header data_line
bodyline body_hdr size old b buf delimited softline = do
  decoded ← unmime_header buf
  part_header size old b decoded
bodyline body_data size old b buf delimited softline = data_line b buf delimited softline

-- `UnMimeBodyline`.
unfoldable pub un_mime_bodyline : ℕ → State → Body → Bytes → Bool → Bool → Option Done
unfolding bodyline
un_mime_bodyline size old b buf delimited softline =
    bodyline b.body_state size old b buf delimited softline
