-- ===== src/Unmime/Body/Kinds.antt =====
-- What `MimeBodyType` finds out, and that it comes to an end.
use fetchmail.Prelude.{
  ℕ, zero, suc, ◌+◌, ◌-◌, ◌≤◌, ◌<◌, ◌≡◌, refl, ◌≢◌, ◌⊎◌, inl, inr, Bool, true, false, not, ◌&&◌,
  ◌||◌, Option, none, some, [], ◌∷◌, ◌++◌, arith, ◌==◌, Bool-cases, Option-cases, bind_inv, ◌>>=◌,
  length, take, drop, length-take, length-drop, Bytes, codes, peek, next, has_case_prefix,
}
use fetchmail.Nxtaddr.{Outcome, found, null, overrun, State, start_hdr, nxtaddr}
use fetchmail.Nxtaddr.Bounds.{last_byte, IsSafe, nxtaddr-IsSafe}
use fetchmail.Unmime.Quoted.{strchr}
use fetchmail.Unmime.Body.{
  body_data, initial, address_of, Fields, no_fields, skip_blanks, one_header, scan_headers,
  boundary, msg_is_7bit, msg_is_8bit, msg_needs_decode, Kind, transfer_encoding, judge,
  mime_body_type, case_equals, is_mime,
}

-- A header that does not end in a backslash.
abbrev pub Ends : Bytes → Type 0
Ends s = last_byte s ≢ b'\\'

Ends-tail : (c : ℕ) (s : Bytes) → Ends (c ∷ s) → Ends s
Ends-tail c [] h = λ e. cc
Ends-tail c (d ∷ s) h = h

Ends-drop : (n : ℕ) (s : Bytes) → Ends s → Ends (drop n s)
Ends-drop zero s h = h
Ends-drop (suc n) [] h = h
Ends-drop (suc n) (c ∷ s) h = Ends-drop n s (Ends-tail c s h)

Ends-skip_blanks : (s : Bytes) → Ends s → Ends (skip_blanks s) × (length (skip_blanks s) ≤ length s)
unfolding skip_blanks
Ends-skip_blanks [] h = (h, omega arith)
Ends-skip_blanks (c ∷ s) h = elim (Bool-cases (c == b' ' || c == b'\t')) [
  | inl e ↦ let (t, l) = Ends-skip_blanks s (Ends-tail c s h) in rw e (t, omega arith)
  | inr e ↦ rw e (h, omega arith)
]

Ends-strchr :
    (c : ℕ) (s before at : Bytes)
    → strchr c s ≡ some (before, at)
    → Ends s
    → Ends (next at) × (length (next at) < length s)
unfolding strchr
Ends-strchr c [] before at e h = cc
Ends-strchr c (x ∷ s) before at e h = elim (Bool-cases (x == c)) [
  | inl t ↦
      let same : ◌≡◌ {A = Option (Bytes × Bytes)} (some ([], x ∷ s)) (some (before, at)) =
        rw t at e in
      let at_is : x ∷ s ≡ at = cc in rw (← at_is) (Ends-tail x s h, omega arith)
  | inr f ↦
      let ((before', at'), found_there, same) =
        bind_inv (strchr c s) (λ r. some (x ∷ r.0, r.1)) (before, at) (rw (f, strchr) at e) in
      let at_is : at' ≡ at = cc in
      let (t, l) = Ends-strchr c s before' at' found_there (Ends-tail x s h) in
      rw (← at_is) (t, omega arith)
]

address_of_total :
    (size : ℕ) (old : State) (s : Bytes)
    → Ends s
    → (p : Option Bytes) × (address_of (nxtaddr size s old) ≡ some p)
unfolding address_of
address_of_total size old s h =
    go (nxtaddr size s old)
      (nxtaddr-IsSafe size s
        (record { address = []; state = start_hdr; oldstate = old; parendepth = 0 }) old refl).0
  where
    go : (o : Outcome) → IsSafe size s [] o → (p : Option Bytes) × (address_of o ≡ some p)
    go (found a rest q) safe = (some a, refl)
    go (null rest q) safe = (none, refl)
    go overrun safe = absurd (h safe)

-- The header at `nxt` is looked at, and what is left ends as it does.
one_header_total :
    (size : ℕ) (old : State) (ofs : ℕ) (nxt : Bytes) (f : Fields)
    → Ends nxt
    → (r : Bytes × Fields) × (one_header size old ofs nxt f ≡ some r)
      × Ends r.0
      × (length r.0 ≤ length nxt)
unfolding one_header
one_header_total size old ofs nxt f h =
    let (p, e) = address_of_total size old nxt h in
    let (t, l) = Ends-skip_blanks (drop 13 nxt) (Ends-drop 13 nxt h) in
    elim (Bool-cases (has_case_prefix (codes "Content-Transfer-Encoding:") nxt)) [
      | inl a ↦ rw (a, e) ((nxt, _), refl, h, omega arith)
      | inr a ↦ elim (Bool-cases (has_case_prefix (codes "Content-Type:") nxt)) [
        | inl b ↦
            rw (a, b) ((skip_blanks (drop 13 nxt), _), refl, t, omega (arith, length-drop 13 nxt))
        | inr b ↦ elim (Bool-cases (has_case_prefix (codes "MIME-Version:") nxt)) [
          | inl c ↦ rw (a, b, c, e) ((nxt, _), refl, h, omega arith)
          | inr c ↦ rw (a, b, c) ((nxt, f), refl, h, omega arith)
        ]
      ]
    ]

scan_headers_total :
    (size : ℕ) (old : State) (fuel total : ℕ) (nxt : Bytes) (f : Fields)
    → length nxt < fuel
    → Ends nxt
    → (g : Fields) × (scan_headers size old fuel total nxt f ≡ some g)
unfolding scan_headers
scan_headers_total size old zero total nxt f lt h = elim lt [ ]
scan_headers_total size old (suc fuel) total nxt f lt h =
    let ((at, g), e, ends, le) = one_header_total size old (total - length nxt) nxt f h in
    rw (e, scan_headers, ◌>>=◌)
      (elim (Option-cases (strchr b'\n' at)) [
        | inl none_left ↦ rw none_left (g, refl)
        | inr ((before, line), there) ↦
            let (t, l) = Ends-strchr b'\n' at before line there ends in
            rw there (elim (Bool-cases (not (peek (next line) == 0) && not (g.hdrs_found == 3))) [
              | inl more ↦
                  rw more (scan_headers_total size old fuel total (next line) g (omega arith) t)
              | inr done ↦ rw done (g, refl)
            ])
      ])

-- How the mask and the variables go together.
pub record IsConsistent (k : Kind) : Type 0 where
  pub at_start : k.body.body_state ≡ body_data
  pub masks : (k.body_type ≤ 2) ⊎ (k.body_type ≡ msg_is_8bit + msg_needs_decode)
  pub qp :
      k.body.encoding_is_qp ≡ true
      → (k.body_type ≡ msg_is_8bit + msg_needs_decode) × (k.body.multipart_delimiter ≡ [])
  pub multipart :
      k.body.multipart_delimiter ≢ []
      → (k.body_type ≡ msg_is_8bit + msg_needs_decode) × (k.body.encoding_is_qp ≡ false)
  pub decode :
      k.body_type ≡ msg_is_8bit + msg_needs_decode
      → (k.body.encoding_is_qp ≡ true) ⊎ (k.body.multipart_delimiter ≢ [])
  pub delimiter : length k.body.multipart_delimiter ≤ 72

not_decoded :
    (n : ℕ) (typed : Bool) (hdrs : Bytes)
    → n ≤ 2
    → IsConsistent
        (record { body_type = n; body = record initial { type_needs_decode = typed }; hdrs = hdrs })
not_decoded n typed hdrs le = record {
  at_start = refl;
  masks = inl le;
  qp = λ e. cc;
  multipart = λ ne. absurd (ne refl);
  decode = λ e. absurd (omega arith);
  delimiter = omega arith;
}

transfer_encoding-IsConsistent :
    (want : Bool) (f : Fields) (typed : Bool) (hdrs : Bytes)
    → IsConsistent (transfer_encoding want f (record initial { type_needs_decode = typed }) hdrs)
unfolding transfer_encoding
transfer_encoding-IsConsistent want f typed hdrs =
    elim (Bool-cases (case_equals f.xfer_enc (codes "quoted-printable"))) [
      | inl a ↦ rw a (record {
        at_start = refl;
        masks = inr refl;
        qp = λ e. (refl, refl);
        multipart = λ ne. absurd (ne refl);
        decode = λ e. inl refl;
        delimiter = omega arith;
      })
      | inr a ↦ elim (Bool-cases (case_equals f.xfer_enc (codes "7bit"))) [
        | inl b ↦ rw (a, b) (not_decoded msg_is_7bit typed hdrs (omega arith))
        | inr b ↦ elim (Bool-cases (case_equals f.xfer_enc (codes "8bit"))) [
          | inl c ↦ rw (a, b, c) (not_decoded msg_is_8bit typed hdrs (omega arith))
          | inr c ↦ rw (a, b, c) (not_decoded 0 typed hdrs (omega arith))
        ]
      ]
    ]

delimited :
    (d : Bytes) (typed : Bool) (hdrs : Bytes)
    → IsConsistent (record {
      body_type = msg_is_8bit + msg_needs_decode;
      body = record initial {
        type_needs_decode = typed;
        multipart_delimiter = take 72 (codes "--" ++ d);
      };
      hdrs = hdrs;
    })
delimited d typed hdrs = record {
  at_start = refl;
  masks = inr refl;
  qp = λ e. cc;
  multipart = λ ne. (refl, refl);
  decode = λ e. inr (λ n. cc);
  delimiter = omega (arith, length-take 72 (codes "--" ++ d));
}

judge-IsConsistent : (want : Bool) (f : Fields) (hdrs : Bytes) → IsConsistent (judge want f hdrs)
unfolding judge
judge-IsConsistent want f hdrs = elim (Bool-cases (is_mime f.mime_ver)) [
  | inr other ↦ rw (other, judge) (not_decoded 0 false hdrs (omega arith))
  | inl mime ↦ elim (Option-cases (boundary f.cnt_type)) [
    | inl single ↦ rw (mime, single, judge) (transfer_encoding-IsConsistent want f _ hdrs)
    | inr (p1, multi) ↦ rw (mime, multi, judge) (delimited p1 _ hdrs)
  ]
]

-- `MimeBodyType` comes to an end on headers that do not end in a backslash. It returns a mask
-- with MSG_NEEDS_DECODE exactly if the body is quoted-printable or there is a delimiter, and never
-- both of these; this mask has MSG_IS_8BIT too. The body starts outside of the headers of a part,
-- and the delimiter fits its buffer.
pub mime_body_type-IsConsistent :
    (size : ℕ) (old : State) (hdrs : Bytes) (want : Bool)
    → last_byte hdrs ≢ b'\\'
    → (k : Kind) × (mime_body_type size old hdrs want ≡ some k) × IsConsistent k
unfolding mime_body_type
mime_body_type-IsConsistent size old hdrs want h =
    let (f, e) =
      scan_headers_total size old (suc (length hdrs)) (length hdrs) hdrs no_fields (omega arith)
        h in
    (judge want f hdrs, rw e refl, judge-IsConsistent want f hdrs)
