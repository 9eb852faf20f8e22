-- ===== src/Unmime/Quoted.antt =====
-- unmime.c: `unhex`, `qp_char` and `DoOneQPLine`, the decoding of quoted-printable data.
use fetchmail.Prelude.{
  ℕ, zero, suc, ◌+◌, ◌-◌, ◌*◌, Bool, true, false, not, ◌&&◌, ◌||◌, Option, none, some, [], ◌∷◌,
  ◌++◌, ltb, leb, ◌==◌, if◌then◌else◌, ◌>>=◌, length, Bytes, codes, peek, next, starts_with,
}

-- `unhex`: 16 stands for an invalid digit.
unfoldable pub unhex : ℕ → ℕ
unhex c =
    if leb b'0' c && leb c b'9'
    then c - b'0'
    else if leb b'A' c && leb c b'F'
    then c - b'A' + 10
    else if leb b'a' c && leb c b'f'
    then c - b'a' + 10
    else 16

-- `qp_char`: the byte, or `none` for the return value 1.
unfoldable pub qp_char : ℕ → ℕ → Option ℕ
unfolding unhex
qp_char c1 c2 =
    if ltb 15 (unhex c1) || ltb 15 (unhex c2) then none else some (16 * unhex c1 + unhex c2)

-- `strchr`: the string before the byte, and from it on.
unfoldable pub strchr : ℕ → Bytes → Option (Bytes × Bytes)
strchr c [] = none
strchr c (x ∷ s) =
    if x == c then some ([], x ∷ s) else do (before, at) ← strchr c s; some (x ∷ before, at)

-- `if (*p_in == '\r') p_in++; if (*p_in == '\n') p_in++;`
unfoldable pub skip_eol : Bytes → Bytes
skip_eol s = let t = if peek s == b'\r' then next s else s in if peek t == b'\n' then next t else t

-- The loop, on the input from `p_in` and the output up to `p_out`, with the flag `ret`; `none` is
-- the end of the fuel. `s` is `p + 1`.
unfoldable pub qp_loop : ℕ → Bytes → Bytes → Bool → Option (Bytes × Bool)
qp_loop zero p_in out ret = none
qp_loop (suc fuel) p_in out ret = elim (peek p_in == 0) [
  | true ↦ some (out, ret)
  | false ↦ elim (strchr b'=' p_in) [
    | none ↦ qp_loop fuel [] (out ++ p_in) ret
    | some (before, at) ↦
        let s = next at in
        elim (peek s == 0 || peek s == b'\r' || peek s == b'\n') [
          | true ↦ qp_loop fuel (skip_eol s) (out ++ before) true
          | false ↦ elim (qp_char (peek s) (peek (next s))) [
            | some b ↦ qp_loop fuel (next (next s)) (out ++ (before ++ b ∷ [])) ret
            | none ↦ qp_loop fuel s (out ++ (before ++ b'=' ∷ [])) ret
          ]
        ]
  ]
]

-- The string in the buffer, the distance by which `*bufp` is advanced, and the flag returned.
pub record Line : Type 0 where
  pub text : Bytes
  pub advance : ℕ
  pub soft : Bool

abbrev pub finish : Option (Bytes × Bool) → Option Line
finish none = none
finish (some (out, ret)) = some (record { text = out; advance = length out; soft = ret })

-- `DoOneQPLine`. Each round eats a byte, so that the fuel is enough.
unfoldable pub do_one_qp_line : Bytes → Bool → Bool → Option Line
unfolding qp_loop strchr skip_eol qp_char starts_with
do_one_qp_line buf delimited issoftline =
    if delimited && not issoftline && starts_with (codes "=2E\r\n") buf
    then some (record { text = codes "..\r\n"; advance = 5; soft = false })
    else let p_in =
        if delimited && issoftline && starts_with (codes "..") buf then next buf else buf in
      finish (qp_loop (suc (length p_in)) p_in [] false)
