-- ===== src/Tests/Codec.antt =====
-- base64.c, rfc2047e.c and sdump.c.
use fetchmail.Prelude.{
  ℕ, ◌+◌, ◌*◌, ◌/◌, ◌≤◌, ◌≡◌, refl, ◌⊎◌, inr, none, some, List, [], ◌∷◌, arith, length, Bytes,
  codes,
}
use mathlib.Core.List.{flatten}
use fetchmail.Sdump.{sdump}
use fetchmail.Base64.{to64frombits, digit, from64tobits}
use fetchmail.Base64.RoundTrip.{from64tobits-to64frombits, length-to64frombits}
use fetchmail.Base64.Bounds.{from64tobits_bounds}
use fetchmail.Rfc2047e.{encode_words}
use fetchmail.Rfc2047e.RoundTrip.{unmime_header-encode_words}
use fetchmail.Unmime.Header.{strstr, unmime_header}
use fetchmail.Unmime.HeaderBounds.{unmime_header_fits}

to64frombits_run : to64frombits (codes "Man is") ≡ codes "TWFuIGlz"
unfolding to64frombits digit
to64frombits_run = refl

padded : to64frombits (codes "light w") ≡ codes "bGlnaHQgdw=="
unfolding to64frombits digit
padded = refl

from64tobits_run : from64tobits (codes "+ SGVsbG8=\r\n") 0 ≡ (codes "Hello", some 5)
unfolding from64tobits
from64tobits_run = refl

too_long : from64tobits (codes "SGVsbG8=") 4 ≡ (codes "Hell", none)
unfolding from64tobits
too_long = refl

abbrev raw : Bytes
raw = 255 ∷ 0 ∷ 7 ∷ 200 ∷ []

from64tobits-to64frombits_example : from64tobits (to64frombits raw) 10 ≡ (raw, some (length raw))
from64tobits-to64frombits_example =
    from64tobits-to64frombits raw 10 (cc) (omega arith) (inr (omega arith))

from64tobits_bounds_example :
    ((◌≡◌ {A = ℕ} 4 0) ⊎ (length (from64tobits (codes "SGVsbG8=") 4).0 ≤ 4))
    × ((n : ℕ)
        → (from64tobits (codes "SGVsbG8=") 4).1 ≡ some n
        → n ≡ length (from64tobits (codes "SGVsbG8=") 4).0)
from64tobits_bounds_example = from64tobits_bounds (codes "SGVsbG8=") 4

length-to64frombits_example :
    length (to64frombits (codes "light w")) ≡ (length (codes "light w") + 2) / 3 * 4
length-to64frombits_example = length-to64frombits (codes "light w")

encoded :
    encode_words (codes "café" ∷ codes " " ∷ codes "a=b" ∷ []) (codes "utf-8")
    ≡ codes "=?utf-8?Q?caf=E9_a=3Db?="
unfolding encode_words
encoded = refl

two_words :
    unmime_header (codes "a =?utf-8?Q?x_=3D?= \t=?u?b?SGk=?= b =?") ≡ some (codes "a x =Hi b ")
unfolding unmime_header
two_words = refl

abbrev subject : List Bytes
subject = codes "café" ∷ codes " " ∷ codes "a=b" ∷ []

unmime_header-encode_words_example :
    unmime_header (encode_words subject (codes "iso-8859-1")) ≡ some (flatten subject)
unfolding flatten
unmime_header-encode_words_example =
    unmime_header-encode_words subject (codes "iso-8859-1") (omega arith) (omega arith)
      (omega arith)

unmime_header_fits_example :
    (t : Bytes) × (unmime_header (codes "=?u?b?SGk=?= b") ≡ some t)
    × (length t ≤ length (codes "=?u?b?SGk=?= b"))
    × (strstr b'=' b'?' (codes "=?u?b?SGk=?= b") ≡ none → t ≡ codes "=?u?b?SGk=?= b")
unmime_header_fits_example = unmime_header_fits (codes "=?u?b?SGk=?= b")

dumped : sdump (codes "a\n") ≡ codes "a\\x0A"
unfolding sdump
dumped = refl
