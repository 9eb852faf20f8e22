-- ===== src/Tests/Fields.antt =====
-- The header fields of unmime.c.
use fetchmail.Prelude.{◌≤◌, ◌≡◌, refl, true, some, ◌∷◌, ◌++◌, arith, Bytes, codes, All}
use fetchmail.Unmime.ContentType.{get_boundary, check_content_type, skip_space, get_boundary-quoted}

abbrev field : Bytes
field = codes "Content-Transfer-Encoding: quoted-printable"

abbrev behind : Bytes
behind = codes "\nSubject: x\n"

no_control : All (λ c. b' ' ≤ c) field
no_control = omega arith

unquoted : get_boundary (codes "multipart/mixed; charset=x; Boundary = ab; c") ≡ some (codes "ab")
unfolding get_boundary
unquoted = refl

html : check_content_type (some (codes "  Text/html")) ≡ true
unfolding check_content_type skip_space
html = refl

get_boundary-quoted_example :
    get_boundary (
      codes "multipart/mixed"
      ++ (b';' ∷ (codes " boundary=\"" ++ (codes "a;b" ++ b'"' ∷ codes " x"))))
    ≡ some (codes "a;b")
get_boundary-quoted_example =
    get_boundary-quoted (codes "multipart/mixed") (codes "a;b") (codes " x") (omega arith)
      (omega arith) (λ e. cc)
