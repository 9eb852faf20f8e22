-- ===== src/IdList/Search.antt =====
-- The searches in a list, and the changes of one element.
use fetchmail.Prelude.{
  ℕ, zero, suc, ◌+◌, ◌<◌, ◌≡◌, refl, sym, ap, ◌∙◌, ◌≢◌, inl, inr, Bool, true, false, Option, none,
  some, List, [], ◌∷◌, map, arith, if◌then◌else◌, Bool-cases, ◌>>=◌, length, get_elem?, Bytes,
  str_eq, str_case_eq, str_eq_sound, str_eq_refl,
}
use fetchmail.IdList.{
  ℤ, pos, negsuc, same_number, Entry, save_str, str_in_list, nr_loop, nr_last_loop, str_nr_in_list,
  str_nr_last_in_list, id_find, str_find, delete_str,
}

-- The identifier at a position.
abbrev pub id_at : List Entry → ℕ → Option Bytes
id_at idl i = get_elem? (map (λ e. e.id) idl) i

-- The first and the last position of an identifier; a negative number if there is none.
abbrev pub IsFirst : List Entry → Bytes → ℤ → Type 0
IsFirst idl str (pos n) = (id_at idl n ≡ some str) × ((i : ℕ) → i < n → id_at idl i ≢ some str)
IsFirst idl str (negsuc n) = (i : ℕ) → id_at idl i ≢ some str

abbrev pub IsLast : List Entry → Bytes → ℤ → Type 0
IsLast idl str (pos n) = (id_at idl n ≡ some str) × ((i : ℕ) → n < i → id_at idl i ≢ some str)
IsLast idl str (negsuc n) = (i : ℕ) → id_at idl i ≢ some str

-- A position as what is returned.
abbrev number : ℕ → ℤ → Option ℕ → ℤ
number nr ret none = ret
number nr ret (some n) = pos (nr + n)

abbrev shift : Option ℕ → Option ℕ
shift none = none
shift (some n) = some (suc n)

number-shift : (nr : ℕ) (ret : ℤ) (o : Option ℕ) → number (nr + 1) ret o ≡ number nr ret (shift o)
number-shift nr ret none = refl
number-shift nr ret (some n) = ap pos (omega arith)

unfoldable first : List Entry → Bytes → Option ℕ
first [] str = none
first (e ∷ idl) str = if str_eq str e.id then some 0 else shift (first idl str)

unfoldable last : List Entry → Bytes → Option ℕ
last [] str = none
last (e ∷ idl) str = elim (last idl str) [
  | none ↦ if str_eq str e.id then some 0 else none
  | some n ↦ some (suc n)
]

nr_loop-first :
    (nr : ℕ) (idl : List Entry) (str : Bytes)
    → nr_loop nr idl str ≡ number nr (negsuc 0) (first idl str)
unfolding nr_loop first
nr_loop-first nr [] str = refl
nr_loop-first nr (e ∷ idl) str = elim (Bool-cases (str_eq str e.id)) [
  | inl t ↦ rw t (ap pos (omega arith))
  | inr f ↦ rw f (nr_loop-first (nr + 1) idl str ∙ number-shift nr (negsuc 0) (first idl str))
]

nr_last_loop-last :
    (nr : ℕ) (ret : ℤ) (idl : List Entry) (str : Bytes)
    → nr_last_loop nr ret idl str ≡ number nr ret (last idl str)
unfolding nr_last_loop last
nr_last_loop-last nr ret [] str = refl
nr_last_loop-last nr ret (e ∷ idl) str =
    nr_last_loop-last (nr + 1) (if str_eq str e.id then pos nr else ret) idl str
    ∙ later (str_eq str e.id) (last idl str)
  where
    later :
        (b : Bool) (o : Option ℕ)
        → number (nr + 1) (if b then pos nr else ret) o
          ≡ number nr ret (elim o [ none ↦ (if b then some 0 else none) | some n ↦ some (suc n) ])
    later true none = ap pos (omega arith)
    later false none = refl
    later b (some n) = ap pos (omega arith)

not_equal : (a b : Bytes) → str_eq a b ≡ false → some b ≢ some a
not_equal a b f e = let self = str_eq_refl a in cc

-- With the position as an option.
abbrev as_int : Option ℕ → ℤ
as_int none = negsuc 0
as_int (some n) = pos n

number-as_int : (o : Option ℕ) → number 0 (negsuc 0) o ≡ as_int o
number-as_int none = refl
number-as_int (some n) = ap pos (omega arith)

first-IsFirst : (idl : List Entry) (str : Bytes) → IsFirst idl str (as_int (first idl str))
unfolding first
first-IsFirst [] str = λ i e. cc
first-IsFirst (e ∷ idl) str = elim (Bool-cases (str_eq str e.id)) [
  | inl t ↦ rw t (ap some (sym (str_eq_sound str e.id t)), λ i lt. absurd (omega arith))
  | inr f ↦ rw f (further (first idl str) (first-IsFirst idl str) (not_equal str e.id f))
]
  where
    further :
        (o : Option ℕ)
        → IsFirst idl str (as_int o)
        → some e.id ≢ some str
        → IsFirst (e ∷ idl) str (as_int (shift o))
    further none h ne = elim [ zero ↦ ne | suc i ↦ h i ]
    further (some n) (found, earlier) ne =
        (found, elim [ zero ↦ λ lt. ne | suc i ↦ λ lt. earlier i (omega arith) ])

last-IsLast : (idl : List Entry) (str : Bytes) → IsLast idl str (as_int (last idl str))
unfolding last
last-IsLast [] str = λ i e. cc
last-IsLast (e ∷ idl) str = go (last idl str) (last-IsLast idl str)
  where
    go :
        (o : Option ℕ)
        → IsLast idl str (as_int o)
        → IsLast (e ∷ idl) str (
            as_int
              (elim o [ none ↦ if str_eq str e.id then some 0 else none | some n ↦ some (suc n) ]))
    go none h = elim (Bool-cases (str_eq str e.id)) [
      | inl t ↦ rw t (
        ap some (sym (str_eq_sound str e.id t)),
        elim [ zero ↦ λ lt. absurd (omega arith) | suc i ↦ λ lt. h i ],
      )
      | inr f ↦ rw f (elim [ zero ↦ not_equal str e.id f | suc i ↦ h i ])
    ]
    go (some n) (found, later) =
        (found, elim [ zero ↦ λ lt. absurd (omega arith) | suc i ↦ λ lt. later i (omega arith) ])

-- `str_nr_in_list` returns the position of the first element with the identifier, and
-- `str_nr_last_in_list` that of the last one; both return a negative number if the list has none.
pub str_nr_in_list-IsFirst :
    (idl : List Entry) (str : Bytes)
    → IsFirst idl str (str_nr_in_list idl (some str))
      × IsLast idl str (str_nr_last_in_list idl (some str))
unfolding str_nr_in_list str_nr_last_in_list
str_nr_in_list-IsFirst idl str = (
  rw (nr_loop-first 0 idl str, number-as_int (first idl str)) (first-IsFirst idl str),
  rw (nr_last_loop-last 0 (negsuc 0) idl str, number-as_int (last idl str)) (last-IsLast idl str),
)

same_number-sym : (a b : ℤ) → same_number a b ≡ same_number b a
unfolding same_number
same_number-sym (pos a) (pos b) = ground arith
same_number-sym (negsuc a) (negsuc b) = ground arith
same_number-sym (pos a) (negsuc b) = refl
same_number-sym (negsuc a) (pos b) = refl

-- An element marked deleted.
abbrev pub marked_at : List Entry → ℕ → List Entry
marked_at [] n = []
marked_at (e ∷ idl) zero = record e { mark = 2 } ∷ idl
marked_at (e ∷ idl) (suc n) = e ∷ marked_at idl n

-- `str_find` returns the identifier of the element that `id_find` finds, and `delete_str` marks
-- this element, and no other, as deleted and returns 1; where `id_find` finds none, `str_find`
-- returns NULL and `delete_str` changes nothing and returns 0.
pub delete_str-id_find :
    (idl : List Entry) (num : ℤ)
    → (delete_str idl num
        ≡ elim (id_find idl num) [ none ↦ (idl, 0) | some n ↦ (marked_at idl n, 1) ])
      × (str_find idl num ≡ elim (id_find idl num) [ none ↦ none | some n ↦ id_at idl n ])
unfolding delete_str id_find str_find
delete_str-id_find [] num = (refl, refl)
delete_str-id_find (e ∷ idl) num = elim (Bool-cases (same_number e.num num)) [
  | inl t ↦ rw (same_number-sym num e.num, t) (refl, refl)
  | inr f ↦
      rw (same_number-sym num e.num, f) (further (id_find idl num) (delete_str-id_find idl num))
]
  where
    further :
        (o : Option ℕ)
        → (delete_str idl num ≡ elim o [ none ↦ (idl, 0) | some n ↦ (marked_at idl n, 1) ])
          × (str_find idl num ≡ elim o [ none ↦ none | some n ↦ id_at idl n ])
        → ((◌≡◌ {A = List Entry × ℕ}
              (e ∷ (delete_str idl num).0, (delete_str idl num).1)
              (elim (do n ← o; some (suc n)) [
                | none ↦ (e ∷ idl, 0)
                | some n ↦ (marked_at (e ∷ idl) n, 1)
              ]))
            × (str_find idl num
                ≡ elim (do n ← o; some (suc n)) [ none ↦ none | some n ↦ id_at (e ∷ idl) n ]))
    further none (d, s) = (rw d refl, s)
    further (some n) (d, s) = (rw d refl, s)

-- An element in front of a list to which one was appended.
behind :
    (here new : Bool) (o o' : Option ℕ) (k : ℕ)
    → o' ≡ elim o [ none ↦ (if new then some k else none) | some n ↦ some n ]
    → (if here then some 0 else (do n ← o'; some (suc n)))
      ≡ elim (if here then some 0 else (do n ← o; some (suc n))) [
        | none ↦ (if new then some (suc k) else none)
        | some n ↦ some n
      ]
behind true new o o' k e = refl
behind false true none o' k e = rw e refl
behind false false none o' k e = rw e refl
behind false new (some n) o' k e = rw e refl

-- The element that `save_str` appends is found by its identifier if no other one was, in the
-- position that is returned, and what was found before is found still.
pub str_in_list-save_str :
    (idl : List Entry) (str q : Bytes) (status : ℕ) (caseblind : Bool)
    → str_in_list (save_str idl str status).0 q caseblind ≡ elim (str_in_list idl q caseblind) [
      | none ↦
          if (if caseblind then str_case_eq q str else str_eq q str)
          then some (save_str idl str status).1
          else none
      | some n ↦ some n
    ]
unfolding save_str str_in_list
str_in_list-save_str [] str q status caseblind = refl
str_in_list-save_str (e ∷ idl) str q status caseblind =
    behind (if caseblind then str_case_eq q e.id else str_eq q e.id)
      (if caseblind then str_case_eq q str else str_eq q str) (str_in_list idl q caseblind) _
      (length idl) (str_in_list-save_str idl str q status caseblind)
