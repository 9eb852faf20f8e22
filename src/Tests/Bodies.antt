-- ===== src/Tests/Bodies.antt =====
-- The bodies of messages.
use fetchmail.Prelude.{
  ◌≡◌, refl, true, false, none, some, [], ◌∷◌, ◌++◌, Bytes, codes, str_case_eq, has_case_prefix,
  starts_with,
}
use fetchmail.Nxtaddr.{start_hdr}
use fetchmail.Unmime.Body.{Body, initial, Kind, mime_body_type, boundary}
use fetchmail.Unmime.Body.Kinds.{IsConsistent, mime_body_type-IsConsistent}
use fetchmail.Unmime.Body.Plain.{un_mime_lines, next_part, in_front, un_mime_lines-plain}

abbrev headers : Bytes
headers =
    codes
      "MIME-Version: 1.0\nContent-Type: text/plain\nContent-Transfer-Encoding: quoted-printable\n"

mime_body_type-IsConsistent_example :
    (k : Kind) × (mime_body_type 8192 start_hdr headers true ≡ some k) × IsConsistent k
mime_body_type-IsConsistent_example =
    mime_body_type-IsConsistent 8192 start_hdr headers true (λ e. cc)

-- The 16 bytes that are compared reach behind the type, so that no parameter may follow it.
no_delimiter : boundary (some (codes "multipart/mixed; boundary=x")) ≡ none
unfolding boundary str_case_eq has_case_prefix
no_delimiter = refl

some_delimiter : boundary (some (codes "message/partial; boundary=x")) ≡ some (codes "x")
unfolding boundary has_case_prefix str_case_eq
some_delimiter = refl

abbrev parts : Body
parts = record initial { multipart_delimiter = codes "--x" }

un_mime_lines-plain_example :
    (un_mime_lines 8192 start_hdr parts true false (codes "a\n" ∷ [])
      ≡ some (codes "a\n" ∷ [], parts))
    × (un_mime_lines 8192 start_hdr parts true false
          (codes "a\n" ∷ [] ++ codes "--x\n" ∷ codes "\n" ∷ [])
        ≡ in_front
            (codes "a\n" ∷ [] ++ codes "--x\n" ∷ [])
            (un_mime_lines 8192 start_hdr (next_part parts) true false (codes "\n" ∷ [])))
un_mime_lines-plain_example =
    un_mime_lines-plain 8192 start_hdr parts true false (codes "a\n" ∷ []) (codes "\n" ∷ [])
      (codes "--x\n") (refl, refl) (unfold starts_with in (refl, tt)) (unfold starts_with in refl)
