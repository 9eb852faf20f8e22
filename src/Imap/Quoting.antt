-- ===== src/Imap/Quoting.antt =====
-- How a user name or a password is quoted, and how a server reads it.
use fetchmail.Prelude.{
  ℕ, zero, suc, ◌*◌, ◌≤◌, ◌≡◌, refl, ap, ◌∙◌, inl, inr, Bool, true, false, ◌||◌, Option, none, some,
  [], ◌∷◌, ◌++◌, arith, ◌==◌, if◌then◌else◌, Bool-cases, length, take, Bytes, ==_ne,
}
use fetchmail.Imap.{imap_canonicalize}

abbrev pub in_front : ℕ → Option (Bytes × Bytes) → Option (Bytes × Bytes)
in_front c none = none
in_front c (some (value, rest)) = some (c ∷ value, rest)

-- A quoted string of RFC 1730, from behind its first quote: its value, and what follows its last
-- quote. The flag tells that a backslash has just been read.
unfoldable pub read_quoted : Bool → Bytes → Option (Bytes × Bytes)
read_quoted escaped [] = none
read_quoted true (c ∷ s) = in_front c (read_quoted false s)
read_quoted false (c ∷ s) =
    let value = in_front c (read_quoted false s) in
    let literal = read_quoted true s in
    if c == b'\\' then literal else if c == b'"' then some ([], s) else value

read_quoted_special :
    (c : ℕ) (s : Bytes) → read_quoted false (b'\\' ∷ c ∷ s) ≡ in_front c (read_quoted false s)
unfolding read_quoted
read_quoted_special c s = refl

read_quoted_other :
    (c : ℕ) (s : Bytes)
    → (c == b'\\' || c == b'"') ≡ false
    → read_quoted false (c ∷ s) ≡ in_front c (read_quoted false s)
unfolding read_quoted
read_quoted_other c s h =
    rw (==_ne c b'\\' (λ e. ground arith), ==_ne c b'"' (λ e. ground arith)) refl

-- What `imap_canonicalize` makes of a string is read back by a server as the first `maxlen` bytes of
-- the string, up to the quote that closes it and no further, whatever bytes the string has. It has at
-- most twice as many bytes as `maxlen`.
pub read_quoted-imap_canonicalize :
    (raw : Bytes) (maxlen : ℕ) (rest : Bytes)
    → (read_quoted false (imap_canonicalize raw maxlen ++ b'"' ∷ rest)
        ≡ some (take maxlen raw, rest))
      × (length (imap_canonicalize raw maxlen) ≤ 2 * maxlen)
unfolding imap_canonicalize
read_quoted-imap_canonicalize [] zero rest = (unfold read_quoted in refl, omega arith)
read_quoted-imap_canonicalize [] (suc maxlen) rest = (unfold read_quoted in refl, omega arith)
read_quoted-imap_canonicalize (c ∷ raw) zero rest = (unfold read_quoted in refl, omega arith)
read_quoted-imap_canonicalize (c ∷ raw) (suc maxlen) rest =
    let (back, fits) = read_quoted-imap_canonicalize raw maxlen rest in
    let done : in_front c (read_quoted false (imap_canonicalize raw maxlen ++ b'"' ∷ rest))
        ≡ some (c ∷ take maxlen raw, rest) =
      ap (in_front c) back in
    elim (Bool-cases (c == b'\\' || c == b'"')) [
      | inl special ↦
          rw special (
            read_quoted_special c (imap_canonicalize raw maxlen ++ b'"' ∷ rest) ∙ done,
            omega arith,
          )
      | inr other ↦ rw other (
        read_quoted_other c (imap_canonicalize raw maxlen ++ b'"' ∷ rest) other ∙ done,
        omega arith,
      )
    ]
