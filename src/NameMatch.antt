-- ===== src/NameMatch.antt =====
-- x509_name_match.c: whether a name of a certificate, perhaps with a wildcard, is that of a host.
pub mod Wildcard
use fetchmail.Prelude.{
  ℕ, zero, suc, ◌+◌, ◌-◌, ◌*◌, ◌/◌, ◌%◌, ◌^◌, ◌≤◌, ◌<◌, bit_and, bit_or, bit_xor, ◌≡◌, refl, sym,
  ap, ◌∙◌, ◌≢◌, ◌↔◌, ◌⊎◌, inl, inr, Bool, true, false, not, ◌&&◌, ◌||◌, Option, none, some, List,
  [], ◌∷◌, ◌++◌, map, append_assoc, append-nil, arith, ltb, leb, ◌==◌, if◌then◌else◌, ltb→lt,
  lt→ltb, leb→le, ==_iff, tests, Bool-cases, Option-cases, bind_inv, ◌>>=◌, length, get_elem?, set,
  length-append, length-set, get_or, take, drop, replicate, length-replicate, length-map,
  take-append-drop, length-take, length-drop, get_elem?-append_left, get_elem?-append_right,
  get_elem?-replicate, take_all, get_elem?-set_self, get_elem?-set_ne, Bytes, codes, peek, next,
  All, All-append, Lacks, NoNul, ==_ne, IsByte, contains, is_space, to_lower, str_eq, str_case_eq,
  has_case_prefix, starts_with, str_eq_sound, str_eq_refl, every, every_lem,
}

-- `strspn`.
unfoldable pub strspn : Bytes → Bytes → ℕ
unfolding contains
strspn [] set = 0
strspn (c ∷ s) set = let rest = strspn s set in if contains set c then suc rest else 0

abbrev pub dom : Bytes
dom = codes "0123456789."

-- The loop that counts the dots.
unfoldable pub number_dots : Bytes → ℕ
number_dots [] = 0
number_dots (c ∷ s) = if c == b'.' then suc (number_dots s) else number_dots s

-- The two tests for domain literals.
unfoldable pub wildcard_ok : Bytes → Bytes → Bool
unfolding strspn
wildcard_ok p1 p2 =
    not (strspn (if peek p1 == b'*' then next p1 else p1) dom == length p1)
    && not (strspn p2 dom == length p2)

-- The start of the comparison in `p2`.
unfoldable pub skip_front : Bytes → Bytes → Bytes
skip_front p1 p2 = if ltb (length p1) (length p2) then drop (length p2 - length p1) p2 else p2

-- `name_match`.
unfoldable pub name_match : Bytes → Bytes → Bool
unfolding wildcard_ok number_dots skip_front
name_match p1 p2 =
    if peek p1 == 0
    then false
    else if wildcard_ok p1 p2 && (peek p1 == b'*' && peek (next p1) == b'.')
    then str_case_eq (next p1)
        (if leb 2 (number_dots (next p1)) then skip_front (next p1) p2 else p2)
    else str_case_eq p1 p2
