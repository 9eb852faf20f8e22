-- ===== src/Tests/Mail.antt =====
-- rfc822valid.c and unmime.c.
use fetchmail.Prelude.{◌≤◌, ◌≡◌, refl, ◌↔◌, true, false, some, ◌∷◌, ◌++◌, arith, length, codes}
use fetchmail.Rfc822Valid.{rfc822_valid_msgid}
use fetchmail.Rfc822Valid.Grammar.{MsgId}
use fetchmail.Rfc822Valid.Decides.{rfc822_valid_msgid_iff}
use fetchmail.Unmime.Quoted.{Line, do_one_qp_line}
use fetchmail.Unmime.QuotedLaws.{Decodes, unstuffed, do_one_qp_line-Decodes}

valid_simple : rfc822_valid_msgid (codes "<a.\"b c\"@[127.0.0.1].x>") ≡ true
unfolding rfc822_valid_msgid
valid_simple = refl

invalid_empty : rfc822_valid_msgid (codes "<a..b@c>") ≡ false
unfolding rfc822_valid_msgid
invalid_empty = refl

rfc822_valid_msgid_iff_example :
    (rfc822_valid_msgid (codes "<a.b@c>") ≡ true) ↔ MsgId (codes "<a.b@c>")
rfc822_valid_msgid_iff_example = rfc822_valid_msgid_iff (codes "<a.b@c>")

soft_line :
    do_one_qp_line (codes "caf=C3=A9 =ZZ=\r\n") false false
    ≡ some (record { text = codes "caf" ++ 0xc3 ∷ 0xa9 ∷ codes " =ZZ"; advance = 9; soft = true })
unfolding do_one_qp_line
soft_line = refl

do_one_qp_line-Decodes_example :
    (l : Line) × (do_one_qp_line (codes "..=3D=\r\n") true true ≡ some l)
    × Decodes (unstuffed (codes "..=3D=\r\n") true true) l.text l.soft
    × (l.advance ≡ length l.text)
    × (length l.text ≤ length (codes "..=3D=\r\n"))
do_one_qp_line-Decodes_example =
    do_one_qp_line-Decodes (codes "..=3D=\r\n") true true (omega arith) refl
