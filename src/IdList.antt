-- ===== src/IdList.antt =====
-- idlist.c: lists of identifiers with a message number and a mark, and lists of pairs of names. A
-- pointer to an element is its position. The identifiers are not NULL, since strcmp reads them.
-- In a copy, the pointers to the identifiers are those of the original.

pub mod Search
use fetchmail.Prelude.{
  ℕ, zero, suc, ◌+◌, ◌-◌, ◌*◌, ◌/◌, ◌%◌, ◌^◌, ◌≤◌, ◌<◌, bit_and, bit_or, bit_xor, ◌≡◌, refl, sym,
  ap, ◌∙◌, ◌≢◌, ◌↔◌, ◌⊎◌, inl, inr, Bool, true, false, not, ◌&&◌, ◌||◌, Option, none, some, List,
  [], ◌∷◌, ◌++◌, map, append_assoc, append-nil, arith, ltb, leb, ◌==◌, if◌then◌else◌, ltb→lt,
  lt→ltb, leb→le, ==_iff, tests, Bool-cases, Option-cases, bind_inv, ◌>>=◌, length, get_elem?, set,
  length-append, length-set, get_or, take, drop, replicate, length-replicate, length-map,
  take-append-drop, length-take, length-drop, get_elem?-append_left, get_elem?-append_right,
  get_elem?-replicate, take_all, get_elem?-set_self, get_elem?-set_ne, Bytes, codes, peek, next,
  All, All-append, Lacks, NoNul, ==_ne, IsByte, contains, is_space, to_lower, str_eq, str_case_eq,
  has_case_prefix, starts_with, str_eq_sound, str_eq_refl, every, every_lem,
}

-- `int` and `long`.
pub data ℤ : Type 0 where
  pos : ℕ → ℤ
  negsuc : ℕ → ℤ

unfoldable pub same_number : ℤ → ℤ → Bool
same_number (pos a) (pos b) = a == b
same_number (negsuc a) (negsuc b) = a == b
same_number _ _ = false

-- `struct idlist` with `val.status`.
pub record Entry : Type 0 where
  pub id : Bytes
  pub num : ℤ
  pub mark : ℕ

-- `struct idlist` with `val.id2`.
pub record Pair : Type 0 where
  pub id : Bytes
  pub id2 : Option Bytes

-- `save_str`: the list, and the position of the new element.
unfoldable pub save_str : List Entry → Bytes → ℕ → List Entry × ℕ
save_str idl str status =
    (idl ++ (record { id = str; num = pos 0; mark = status }) ∷ [], length idl)

-- `save_str_pair`.
unfoldable pub save_str_pair : List Pair → Bytes → Option Bytes → List Pair
save_str_pair idl str1 str2 = idl ++ (record { id = str1; id2 = str2 }) ∷ []

-- `str_in_list`; `none` is NULL.
unfoldable pub str_in_list : List Entry → Bytes → Bool → Option ℕ
str_in_list [] str caseblind = none
str_in_list (e ∷ idl) str caseblind =
    let later = str_in_list idl str caseblind in
    if (if caseblind then str_case_eq str e.id else str_eq str e.id)
    then some 0
    else do n ← later; some (suc n)

-- The loops of `str_nr_in_list` and `str_nr_last_in_list`, from the number `nr`; -1 at first in
-- `ret`.
unfoldable pub nr_loop : ℕ → List Entry → Bytes → ℤ
nr_loop nr [] str = negsuc 0
nr_loop nr (e ∷ idl) str =
    let later = nr_loop (nr + 1) idl str in if str_eq str e.id then pos nr else later

unfoldable pub nr_last_loop : ℕ → ℤ → List Entry → Bytes → ℤ
nr_last_loop nr ret [] str = ret
nr_last_loop nr ret (e ∷ idl) str =
    nr_last_loop (nr + 1) (if str_eq str e.id then pos nr else ret) idl str

-- `str_nr_in_list` and `str_nr_last_in_list`; `none` is NULL for `str`.
unfoldable pub str_nr_in_list : List Entry → Option Bytes → ℤ
unfolding nr_loop
str_nr_in_list idl none = negsuc 0
str_nr_in_list idl (some str) = nr_loop 0 idl str

unfoldable pub str_nr_last_in_list : List Entry → Option Bytes → ℤ
unfolding nr_last_loop
str_nr_last_in_list idl none = negsuc 0
str_nr_last_in_list idl (some str) = nr_last_loop 0 (negsuc 0) idl str

-- `str_set_mark`.
unfoldable pub set_marks : List Entry → Bytes → ℕ → List Entry
set_marks [] str val = []
set_marks (e ∷ idl) str val =
    (if str_eq str e.id then record e { mark = val } else e) ∷ set_marks idl str val

unfoldable pub str_set_mark : List Entry → Option Bytes → ℕ → List Entry
unfolding set_marks
str_set_mark idl none val = idl
str_set_mark idl (some str) val = set_marks idl str val

-- `count_list`.
unfoldable pub count_loop : ℕ → List Entry → ℕ
count_loop i [] = i
count_loop i (e ∷ idl) = count_loop (i + 1) idl

unfoldable pub count_list : List Entry → ℕ
unfolding count_loop
count_list idl = count_loop 0 idl

-- `str_from_nr_list`.
unfoldable pub from_nr : List Entry → ℕ → Option Bytes
from_nr [] number = none
from_nr (e ∷ idl) zero = some e.id
from_nr (e ∷ idl) (suc number) = from_nr idl number

unfoldable pub str_from_nr_list : List Entry → ℤ → Option Bytes
unfolding from_nr
str_from_nr_list idl (pos number) = from_nr idl number
str_from_nr_list idl (negsuc n) = none

-- `id_find` and `str_find`.
unfoldable pub id_find : List Entry → ℤ → Option ℕ
unfolding same_number
id_find [] number = none
id_find (e ∷ idl) number =
    let later = id_find idl number in
    if same_number e.num number then some 0 else do n ← later; some (suc n)

unfoldable pub str_find : List Entry → ℤ → Option Bytes
unfolding same_number
str_find [] number = none
str_find (e ∷ idl) number =
    let later = str_find idl number in if same_number number e.num then some e.id else later

-- `idpair_find`.
unfoldable pub idpair_find : List Pair → Bytes → Option Bytes
unfolding str_case_eq
idpair_find [] id = none
idpair_find (p ∷ idl) id =
    let later = idpair_find idl id in
    if str_case_eq id p.id then elim (p.id2) [ none ↦ some p.id | some s ↦ some s ] else later

-- `delete_str`, with `UID_DELETED`: the list, and what is returned.
unfoldable pub delete_str : List Entry → ℤ → List Entry × ℕ
unfolding same_number
delete_str [] num = ([], 0)
delete_str (e ∷ idl) num =
    let later = delete_str idl num in
    if same_number e.num num then (record e { mark = 2 } ∷ idl, 1) else (e ∷ later.0, later.1)

-- `copy_str_list`.
unfoldable pub copy_str_list : List Entry → List Entry
copy_str_list [] = []
copy_str_list (e ∷ idl) = e ∷ copy_str_list idl
