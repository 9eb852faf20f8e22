-- ===== src/Base64/Length.antt =====
-- The number of bytes that `from64tobits` writes with no limit given.
use fetchmail.Prelude.{
  ℕ, ◌+◌, ◌*◌, ◌/◌, ◌≤◌, ◌≡◌, inl, inr, Bool, true, false, none, some, [], ◌∷◌, ◌++◌, arith, ◌==◌,
  if◌then◌else◌, Bool-cases, Option-cases, bind_inv, length, length-append, Bytes, peek,
}
use fetchmail.Base64.{decode64, Decoded, group, put, again, decode_loop, skip_plus, from64tobits}

three_at_most :
    (p q : Bool) (x y z : ℕ) (bs : Bytes)
    → some (if p then x ∷ [] else if q then x ∷ y ∷ [] else x ∷ y ∷ z ∷ []) ≡ some bs
    → length bs ≤ 3
three_at_most true q x y z bs h = ground arith
three_at_most false true x y z bs h = ground arith
three_at_most false false x y z bs h = ground arith

-- Three bytes at most for each four digits.
length-group : (d1 d2 d3 d4 : ℕ) (bs : Bytes) → group d1 d2 d3 d4 ≡ some bs → length bs ≤ 3
unfolding group
length-group d1 d2 d3 d4 bs h =
    let (v1, _, h1) = bind_inv (decode64 d1) _ bs h in
    let (v2, _, h2) = bind_inv (decode64 d2) _ bs h1 in
    let (v3, _, h3) = bind_inv (if d3 == b'=' then some 0 else decode64 d3) _ bs h2 in
    let (v4, _, h4) = bind_inv (if d4 == b'=' then some 0 else decode64 d4) _ bs h3 in
    three_at_most (d3 == b'=') (d4 == b'=') _ _ _ bs h4

-- Three bytes for each four digits read.
length-put :
    (bs : Bytes) (len : ℕ) (out : Bytes) → length (put 0 bs len out).0 ≤ length out + length bs
unfolding put
length-put [] len out = omega arith
length-put (b ∷ bs) len out =
    omega (arith, length-put bs (len + 1) (out ++ b ∷ []), length-append out (b ∷ []))

abbrev Within : ℕ → Decoded → Type 0
Within n d = length d.0 ≤ n

again-Within :
    (d4 n m : ℕ) (rest : Bytes) (k : ℕ → Bytes → Decoded) (d : Decoded)
    → Within n d
    → ((len : ℕ) (out : Bytes) → Within (length out + m) (k len out))
    → Within (n + m) (again d4 rest k d)
unfolding again
again-Within d4 n m rest k (out, none) w hk = omega arith
again-Within d4 n m rest k (out, some len) w hk = ground (arith, hk len out)

decode_loop-some :
    (d1 d2 d3 d4 : ℕ) (rest bs : Bytes) (len : ℕ) (out : Bytes)
    → group d1 d2 d3 d4 ≡ some bs
    → decode_loop 0 (d1 ∷ d2 ∷ d3 ∷ d4 ∷ rest) len out
      ≡ again d4 rest (decode_loop 0 rest) (put 0 bs len out)
unfolding decode_loop
decode_loop-some d1 d2 d3 d4 rest bs len out e = rw (e, decode_loop)

Within-mono : {n m : ℕ} (d : Decoded) → Within n d → n ≤ m → Within m d
Within-mono d w le = omega arith

decode_loop-Within :
    (s : Bytes) (len : ℕ) (out : Bytes)
    → Within (length out + length s / 4 * 3) (decode_loop 0 s len out)
decode_loop-Within (d1 ∷ d2 ∷ d3 ∷ d4 ∷ rest) len out = elim (Option-cases (group d1 d2 d3 d4)) [
  | inl e ↦ unfold decode_loop in rw (e, decode_loop) (omega arith)
  | inr (bs, e) ↦ rw (decode_loop-some d1 d2 d3 d4 rest bs len out e) (
      Within-mono (again d4 rest (decode_loop 0 rest) (put 0 bs len out))
        (again-Within d4 (length out + length bs) (length rest / 4 * 3) rest (decode_loop 0 rest)
          (put 0 bs len out) (length-put bs len out) (decode_loop-Within rest))
        (omega (arith, length-group d1 d2 d3 d4 bs e)))
]
decode_loop-Within _ len out = unfold decode_loop in omega arith

length-skip_plus : (s : Bytes) → length (skip_plus s) ≤ length s
unfolding skip_plus
length-skip_plus [] = omega arith
length-skip_plus (x ∷ []) = omega arith
length-skip_plus (x ∷ y ∷ s) = ground arith

pub length-from64tobits : (s : Bytes) → length (from64tobits s 0).0 ≤ length s / 4 * 3
unfolding from64tobits
length-from64tobits s = elim (Bool-cases (peek (skip_plus s) == b'\r')) [
  | inl e ↦ rw e (omega arith)
  | inr e ↦ rw e (
      Within-mono (decode_loop 0 (skip_plus s) 0 []) (decode_loop-Within (skip_plus s) 0 [])
        (omega (arith, length-skip_plus s)))
]
