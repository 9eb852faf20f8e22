-- ===== src/Unmime/Body/Plain.antt =====
-- The bodies that `UnMimeBodyline` leaves alone, and the parts of the others.
use fetchmail.Prelude.{
  ℕ, ◌≡◌, refl, Bool, true, false, not, ◌&&◌, Option, none, some, List, [], ◌∷◌, ◌++◌, ◌==◌, ◌>>=◌,
  Bytes, peek, All, starts_with,
}
use fetchmail.Nxtaddr.{State}
use fetchmail.Unmime.Body.{
  body_data, body_hdr, Body, plain, at_delimiter, data_line, bodyline, un_mime_bodyline,
}

abbrev pub in_front : List Bytes → Option (List Bytes × Body) → Option (List Bytes × Body)
in_front pre none = none
in_front pre (some (texts, last)) = some (pre ++ texts, last)

-- The calls for the lines of a body one after the other, each with the flag that the one before
-- it returned: the strings in the buffer, and the variables at the end.
abbrev pub un_mime_lines : ℕ → State → Body → Bool → Bool → List Bytes → Option (List Bytes × Body)
un_mime_lines size old b delimited softline [] = some ([], b)
un_mime_lines size old b delimited softline (buf ∷ lines) = do
  d ← un_mime_bodyline size old b buf delimited softline
  in_front (d.text ∷ []) (un_mime_lines size old d.body delimited d.soft lines)

-- No line begins with the delimiter, if there is one.
abbrev pub NoDelimiter : Body → Bytes → Type 0
NoDelimiter b buf =
    (not (peek b.multipart_delimiter == 0) && starts_with b.multipart_delimiter buf) ≡ false

-- In the data of a part that is not decoded.
abbrev pub IsPlain : Body → Type 0
IsPlain b = (b.body_state ≡ body_data) × ((b.encoding_is_qp && b.type_needs_decode) ≡ false)

bodyline-plain :
    (size : ℕ) (old : State) (b : Body) (buf : Bytes) (delimited softline : Bool)
    → IsPlain b
    → NoDelimiter b buf
    → un_mime_bodyline size old b buf delimited softline ≡ some (plain b buf)
unfolding un_mime_bodyline bodyline data_line at_delimiter
bodyline-plain size old b buf delimited softline (data_state, off) free =
    rw (data_state, bodyline, data_line, at_delimiter) (rw free (rw off refl))

-- Behind a delimiter: in the headers of the next part.
abbrev pub next_part : Body → Body
next_part b = record b { body_state = body_hdr; encoding_is_qp = false; type_needs_decode = false }

bodyline-delimiter :
    (size : ℕ) (old : State) (b : Body) (buf : Bytes) (delimited softline : Bool)
    → b.body_state ≡ body_data
    → (not (peek b.multipart_delimiter == 0) && starts_with b.multipart_delimiter buf) ≡ true
    → un_mime_bodyline size old b buf delimited softline ≡ some (plain (next_part b) buf)
unfolding un_mime_bodyline bodyline data_line at_delimiter
bodyline-delimiter size old b buf delimited softline data_state hit =
    rw (data_state, bodyline, data_line, at_delimiter) (rw hit refl)

pushed :
    (o : Option (List Bytes × Body)) (buf : Bytes) (pre : List Bytes)
    → in_front (buf ∷ []) (in_front pre o) ≡ in_front (buf ∷ pre) o
pushed none buf pre = refl
pushed (some (texts, last)) buf pre = refl

-- The data of a part that is not decoded pass through unchanged, up to a line that begins with
-- the delimiter, and so do the variables. That line passes unchanged too, and what follows it is read as the headers of a part, with the flags reset.
pub un_mime_lines-plain :
    (size : ℕ) (old : State) (b : Body) (delimited softline : Bool) (pre rest : List Bytes)
    (d : Bytes)
    → IsPlain b
    → All (NoDelimiter b) pre
    → (not (peek b.multipart_delimiter == 0) && starts_with b.multipart_delimiter d) ≡ true
    → (un_mime_lines size old b delimited softline pre ≡ some (pre, b))
      × (un_mime_lines size old b delimited softline (pre ++ d ∷ rest)
          ≡ in_front (pre ++ d ∷ []) (un_mime_lines size old (next_part b) delimited false rest))
un_mime_lines-plain size old b delimited softline [] rest d p a hit =
    (refl, rw (bodyline-delimiter size old b d delimited softline p.0 hit) refl)
un_mime_lines-plain size old b delimited softline (buf ∷ pre) rest d p (free, a) hit =
    let (alone, before) = un_mime_lines-plain size old b delimited false pre rest d p a hit in
    (
      rw (bodyline-plain size old b buf delimited softline p free, alone) refl,
      rw (bodyline-plain size old b buf delimited softline p free, before)
          (pushed (un_mime_lines size old (next_part b) delimited false rest) buf (pre ++ d ∷ [])),
    )
