-- ===== src/Scan.antt =====
-- Numbers in strings, as the sources read and print them with `strtoul`, `sscanf` and `printf`, and
-- the searches of <string.h> that go with them. `long` has 64 bits and `int` has 32; an `int` is its
-- value modulo 2 ^ 32.
pub mod Laws
pub mod Substring
use fetchmail.Prelude.{
  ℕ, zero, suc, ◌+◌, ◌-◌, ◌*◌, ◌/◌, ◌%◌, ◌^◌, ◌≤◌, ◌<◌, bit_and, bit_or, bit_xor, ◌≡◌, refl, sym,
  ap, ◌∙◌, ◌≢◌, ◌↔◌, ◌⊎◌, inl, inr, Bool, true, false, not, ◌&&◌, ◌||◌, Option, none, some, List,
  [], ◌∷◌, ◌++◌, map, append_assoc, append-nil, arith, ltb, leb, ◌==◌, if◌then◌else◌, ltb→lt,
  lt→ltb, leb→le, ==_iff, tests, Bool-cases, Option-cases, bind_inv, ◌>>=◌, length, get_elem?, set,
  length-append, length-set, get_or, take, drop, replicate, length-replicate, length-map,
  take-append-drop, length-take, length-drop, get_elem?-append_left, get_elem?-append_right,
  get_elem?-replicate, take_all, get_elem?-set_self, get_elem?-set_ne, Bytes, codes, peek, next,
  All, All-append, Lacks, NoNul, ==_ne, IsByte, contains, is_space, to_lower, str_eq, str_case_eq,
  has_case_prefix, starts_with, str_eq_sound, str_eq_refl, every, every_lem,
}

-- `isdigit` and `isalpha` in the C locale.
unfoldable pub is_digit : ℕ → Bool
is_digit c = leb b'0' c && leb c b'9'

unfoldable pub is_alpha : ℕ → Bool
unfolding to_lower
is_alpha c = leb b'a' (to_lower c) && leb (to_lower c) b'z'

-- `s + strspn(s, set)`, where the set is given by its test, and the bytes before
-- `s + strcspn(s, set)`.
unfoldable pub skip_while : (ℕ → Bool) → Bytes → Bytes
skip_while p [] = []
skip_while p (c ∷ s) = let rest = skip_while p s in if p c then rest else c ∷ s

unfoldable pub take_while : (ℕ → Bool) → Bytes → Bytes
take_while p [] = []
take_while p (c ∷ s) = let rest = take_while p s in if p c then c ∷ rest else []

-- `strstr(s, p) != NULL`.
unfoldable pub strstr : Bytes → Bytes → Bool
unfolding starts_with
strstr [] p = starts_with p []
strstr (c ∷ s) p = starts_with p (c ∷ s) || strstr s p

-- The digits at the start of a string, of any number.
unfoldable pub digits_value : ℕ → Bytes → ℕ
unfolding is_digit
digits_value n [] = n
digits_value n (c ∷ s) =
    let rest = digits_value (n * 10 + (c - b'0')) s in if is_digit c then rest else n

-- White space and a sign: whether it is a minus, and the digits.
unfoldable pub signed : Bytes → Bool × Bytes
unfolding skip_while is_space
signed s =
    let t = skip_while is_space s in
    if peek t == b'-'
    then (true, next t)
    else if peek t == b'+'
    then (false, next t)
    else (false, t)

abbrev pub u64 : ℕ
u64 = 2 ^ 64

-- `strtoul(s, &end, 10)`: the value, whether `errno` is set, and `end`; `none` where there is no
-- number.
unfoldable pub strtoul : Bytes → Option (ℕ × Bool × Bytes)
unfolding signed digits_value is_digit skip_while
strtoul s =
    let (minus, t) = signed s in
    let v = digits_value 0 t in
    if not (is_digit (peek t))
    then none
    else if leb u64 v
    then some (u64 - 1, true, skip_while is_digit t)
    else some ((if minus then (u64 - v) % u64 else v), false, skip_while is_digit t)

-- `%u` and `%d` of `sscanf`: the value in 32 bits, and the rest.
unfoldable pub scan_u : Bytes → Option (ℕ × Bytes)
unfolding strtoul
scan_u s = do (v, range, rest) ← strtoul s; some (v % 2 ^ 32, rest)

unfoldable pub scan_d : Bytes → Option (ℕ × Bytes)
unfolding signed digits_value is_digit skip_while
scan_d s =
    let (minus, t) = signed s in
    let v = digits_value 0 t in
    if not (is_digit (peek t))
    then none
    else if minus
    then some ((u64 - (if leb (2 ^ 63) v then 2 ^ 63 else v)) % 2 ^ 32, skip_while is_digit t)
    else some ((if leb (2 ^ 63) v then 2 ^ 63 - 1 else v) % 2 ^ 32, skip_while is_digit t)

-- `%d` and `%u` of `printf`, at numbers that are not negative. A round divides by ten, so that the
-- number is fuel enough.
unfoldable pub decimal_loop : ℕ → ℕ → Bytes → Bytes
decimal_loop zero n acc = acc
decimal_loop (suc fuel) n acc =
    let rest = decimal_loop fuel (n / 10) ((b'0' + n % 10) ∷ acc) in
    if ltb n 10 then (b'0' + n) ∷ acc else rest

unfoldable pub decimal : ℕ → Bytes
unfolding decimal_loop
decimal n = decimal_loop (suc n) n []
