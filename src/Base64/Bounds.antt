-- ===== src/Base64/Bounds.antt =====
-- What `from64tobits` writes, on every input.
use fetchmail.Prelude.{
  ℕ, ◌+◌, ◌≤◌, ◌≡◌, ◌⊎◌, inl, inr, none, some, [], ◌∷◌, ◌++◌, arith, ◌==◌, Bool-cases, Option-cases,
  length, length-append, Bytes, peek,
}
use fetchmail.Base64.{Decoded, group, put, again, decode_loop, skip_plus, from64tobits}

-- The bytes written stay within the limit, and a count that is returned is their number.
abbrev Sound : ℕ → Decoded → Type 0
Sound maxlen (out, none) = (maxlen ≡ 0) ⊎ (length out ≤ maxlen)
Sound maxlen (out, some n) = ((maxlen ≡ 0) ⊎ (length out ≤ maxlen)) × (n ≡ length out)

put-Sound :
    (maxlen : ℕ) (bs : Bytes) (len : ℕ) (out : Bytes)
    → Sound maxlen (out, some len)
    → Sound maxlen (put maxlen bs len out)
unfolding put
put-Sound maxlen [] len out s = s
put-Sound maxlen (b ∷ bs) len out s =
    ground (arith, put-Sound maxlen bs (len + 1) (out ++ b ∷ []), length-append out (b ∷ []))

again-Sound :
    (maxlen d4 : ℕ) (rest : Bytes) (k : ℕ → Bytes → Decoded) (d : Decoded)
    → ((len : ℕ) (out : Bytes) → Sound maxlen (out, some len) → Sound maxlen (k len out))
    → Sound maxlen d
    → Sound maxlen (again d4 rest k d)
unfolding again
again-Sound maxlen d4 rest k (out, none) hk s = s
again-Sound maxlen d4 rest k (out, some len) hk s = ground (arith, hk len out s)

decode_loop-Sound :
    (maxlen : ℕ) (s : Bytes) (len : ℕ) (out : Bytes)
    → Sound maxlen (out, some len)
    → Sound maxlen (decode_loop maxlen s len out)
unfolding decode_loop
decode_loop-Sound maxlen (d1 ∷ d2 ∷ d3 ∷ d4 ∷ rest) len out h =
    elim (Option-cases (group d1 d2 d3 d4)) [
      | inl e ↦ rw (e, decode_loop) h.0
      | inr (bs, e) ↦
          rw (e, decode_loop)
            (again-Sound maxlen d4 rest (decode_loop maxlen rest) _ (decode_loop-Sound maxlen rest)
              (put-Sound maxlen bs len out h))
    ]
decode_loop-Sound maxlen _ len out h = h.0

from64tobits-Sound : (s : Bytes) (maxlen : ℕ) → Sound maxlen (from64tobits s maxlen)
unfolding from64tobits
from64tobits-Sound s maxlen = elim (Bool-cases (peek (skip_plus s) == b'\r')) [
  | inl e ↦ rw e (ground arith)
  | inr e ↦ rw e (decode_loop-Sound maxlen (skip_plus s) 0 [] (ground arith))
]

-- `from64tobits` never writes more than `maxlen` bytes if `maxlen` is not 0, whether it succeeds
-- or returns -1, and on success it returns the number of bytes that it wrote.
pub from64tobits_bounds :
    (s : Bytes) (maxlen : ℕ)
    → ((maxlen ≡ 0) ⊎ (length (from64tobits s maxlen).0 ≤ maxlen))
      × ((n : ℕ) → (from64tobits s maxlen).1 ≡ some n → n ≡ length (from64tobits s maxlen).0)
from64tobits_bounds s maxlen = go (from64tobits s maxlen) (from64tobits-Sound s maxlen)
  where
    go :
        (d : Decoded)
        → Sound maxlen d
        → ((maxlen ≡ 0) ⊎ (length d.0 ≤ maxlen)) × ((n : ℕ) → d.1 ≡ some n → n ≡ length d.0)
    go (out, none) h = (h, λ n e. cc)
    go (out, some m) h = (h.0, λ n e. ground arith)
