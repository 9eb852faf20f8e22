-- ===== src/Imap/Search.antt =====
-- imap.c: the numbers of the unseen messages in an answer to SEARCH, and how they are looked up. The
-- array `unseen_messages` is the list of its cells up to `unseen`.
use fetchmail.Prelude.{
  ℕ, zero, suc, ◌+◌, ◌-◌, ◌^◌, ◌≤◌, ◌<◌, ◌≡◌, refl, ap, ◌∙◌, ◌≢◌, ◌⊎◌, inl, inr, Bool, true, false,
  not, ◌&&◌, ◌||◌, Option, none, some, List, [], ◌∷◌, ◌++◌, arith, ltb, leb, ◌==◌, if◌then◌else◌,
  leb→le, Bool-cases, and_parts, length, length-append, Bytes, peek, All, All-append, ==_ne,
  is_space,
}
use fetchmail.Scan.{is_digit, skip_while, digits_value, u64, strtoul}
use fetchmail.Scan.Laws.{peek-skip_while, signed_digit, skip_while_stop}

pub record Found : Type 0 where
  pub unseen_messages : List ℕ
  pub startcount : ℕ

-- A number is stored, if it is fit.
unfoldable pub store_number : ℕ → Found → ℕ → Bool → Found
store_number count f um range =
    if not range && leb um (2 ^ 31 - 1) && leb um count
    then record {
      unseen_messages = f.unseen_messages ++ um ∷ [];
      startcount = if ltb um f.startcount then um else f.startcount;
    }
    else f

-- The loop over the numbers of an answer, from behind `* SEARCH`. Where `strtoul` finds no number,
-- `ep` is `cp`. A round that finds a number eats its digits, so that the length of the text is fuel
-- enough for an answer of numbers.
unfoldable pub search_loop : ℕ → ℕ → Found → Bytes → Option Found
unfolding skip_while is_space strtoul store_number
search_loop zero count f cp = none
search_loop (suc fuel) count f cp = elim (peek cp == 0 || leb count (length f.unseen_messages)) [
  | true ↦ some f
  | false ↦
      let at = skip_while is_space cp in
      elim (strtoul at) [
        | none ↦ if peek at == 0 then some f else search_loop fuel count f at
        | some (um, range, ep) ↦ search_loop fuel count (store_number count f um range) ep
      ]
]

-- `imap_is_old`.
unfoldable pub imap_is_old : List ℕ → ℕ → Bool
imap_is_old [] number = true
imap_is_old (m ∷ messages) number =
    let rest = imap_is_old messages number in if m == number then false else rest

-- The array is not overrun, its numbers are those of messages, or 0, and none is below `startcount`.
pub record IsFound (count : ℕ) (f : Found) : Type 0 where
  pub room : length f.unseen_messages ≤ count
  pub numbers : All (λ m. (m ≤ count) × (f.startcount ≤ m)) f.unseen_messages
  pub start : f.startcount ≤ count + 1

weaken :
    (count a b : ℕ) (ms : List ℕ)
    → b ≤ a
    → All (λ m. (m ≤ count) × (a ≤ m)) ms
    → All (λ m. (m ≤ count) × (b ≤ m)) ms
weaken count a b [] le h = tt
weaken count a b (m ∷ ms) le ((x, y), h) = ((x, omega arith), weaken count a b ms le h)

store_number-IsFound :
    (count : ℕ) (f : Found) (um : ℕ) (range : Bool)
    → length f.unseen_messages < count
    → IsFound count f
    → IsFound count (store_number count f um range)
unfolding store_number
store_number-IsFound count f um range lt v =
    elim (Bool-cases (not range && leb um (2 ^ 31 - 1) && leb um count)) [
      | inr unfit ↦ rw unfit v
      | inl fit ↦
          let le : um ≤ count = leb→le um count (and_parts _ _ fit).1 in
          elim (Bool-cases (ltb um f.startcount)) [
            | inl lower ↦
                rw (fit, lower)
                  (record {
                    room = omega (arith, length-append f.unseen_messages (um ∷ []));
                    numbers =
                        All-append _ f.unseen_messages (um ∷ [])
                          (weaken count f.startcount um f.unseen_messages (ground arith) v.numbers)
                          ((le, omega arith), tt);
                    start = omega arith;
                  })
            | inr higher ↦
                rw (fit, higher)
                  (record {
                    room = omega (arith, length-append f.unseen_messages (um ∷ []));
                    numbers =
                        All-append _ f.unseen_messages (um ∷ []) v.numbers ((le, ground arith), tt);
                    start = v.start;
                  })
          ]
    ]

-- Digits and white space.
abbrev pub IsNumbers : Bytes → Type 0
IsNumbers = All (λ c. (is_digit c || is_space c) ≡ true)

skip_while-IsNumbers :
    (p : ℕ → Bool) (s : Bytes)
    → IsNumbers s
    → IsNumbers (skip_while p s) × (length (skip_while p s) ≤ length s)
unfolding skip_while
skip_while-IsNumbers p [] a = (tt, omega arith)
skip_while-IsNumbers p (c ∷ s) (x, a) = elim (Bool-cases (p c)) [
  | inl h ↦ let (b, le) = skip_while-IsNumbers p s a in rw h (b, omega arith)
  | inr h ↦ rw h ((x, a), omega arith)
]

strtoul_digit :
    (s : Bytes)
    → is_digit (peek s) ≡ true
    → (v : ℕ) × (range : Bool) × (strtoul s ≡ some (v, range, skip_while is_digit s))
unfolding strtoul
strtoul_digit s d = elim (Bool-cases (leb u64 (digits_value 0 s))) [
  | inl large ↦ (u64 - 1, true, rw (signed_digit s d) (rw (d, large) refl))
  | inr small ↦ (digits_value 0 s, false, rw (signed_digit s d) (rw (d, small) refl))
]

skip_digit :
    (s : Bytes)
    → IsNumbers s
    → is_digit (peek s) ≡ true
    → IsNumbers (skip_while is_digit s) × (length (skip_while is_digit s) < length s)
unfolding skip_while
skip_digit [] a d = absurd (unfold is_digit in cc)
skip_digit (c ∷ s) (x, a) d =
    let (b, le) = skip_while-IsNumbers is_digit s a in rw d (b, omega arith)

-- Behind the white space stands a digit, or the end.
at_number :
    (s : Bytes) → IsNumbers s → (s ≡ []) ⊎ ((is_space (peek s) ≡ false) → is_digit (peek s) ≡ true)
at_number [] a = inl refl
at_number (c ∷ s) (x, a) = inr (or_swap (is_digit c) (is_space c) x)
  where
    or_swap : (a b : Bool) → (a || b) ≡ true → b ≡ false → a ≡ true
    or_swap true b h k = refl
    or_swap false b h k = cc

or_right : (a b : Bool) → (a || b) ≡ false → b ≡ false
or_right true b h = cc
or_right false b h = h

-- A round, behind the white space.
unfoldable pub after : ℕ → ℕ → Found → Bytes → Option Found
after fuel count f at = elim (strtoul at) [
  | none ↦ if peek at == 0 then some f else search_loop fuel count f at
  | some (um, range, ep) ↦ search_loop fuel count (store_number count f um range) ep
]

pub search_loop_step :
    (fuel count : ℕ) (f : Found) (cp : Bytes)
    → (peek cp == 0 || leb count (length f.unseen_messages)) ≡ false
    → search_loop (suc fuel) count f cp ≡ after fuel count f (skip_while is_space cp)
unfolding search_loop after
search_loop_step fuel count f cp on = rw (search_loop, on) refl

after_end : (fuel count : ℕ) (f : Found) → after fuel count f [] ≡ some f
unfolding after strtoul
after_end fuel count f = refl

pub after_number :
    (fuel count : ℕ) (f : Found) (at ep : Bytes) (um : ℕ) (range : Bool)
    → strtoul at ≡ some (um, range, ep)
    → after fuel count f at ≡ search_loop fuel count (store_number count f um range) ep
unfolding after
after_number fuel count f at ep um range e = rw (after, e) refl

after_nothing :
    (fuel count : ℕ) (f : Found) (at : Bytes)
    → strtoul at ≡ none
    → peek at ≢ 0
    → after fuel count f at ≡ search_loop fuel count f at
unfolding after
after_nothing fuel count f at e more = rw (after, e) (rw (==_ne (peek at) 0 more) refl)

search_loop-IsFound :
    (fuel count : ℕ) (f : Found) (cp : Bytes)
    → IsNumbers cp
    → length cp < fuel
    → IsFound count f
    → (g : Found) × (search_loop fuel count f cp ≡ some g) × IsFound count g
unfolding search_loop
search_loop-IsFound zero count f cp a lt v = elim lt [ ]
search_loop-IsFound (suc fuel) count f cp a lt v =
    let at = skip_while is_space cp in
    let (b, le) = skip_while-IsNumbers is_space cp a in
    elim (Bool-cases (peek cp == 0 || leb count (length f.unseen_messages))) [
      | inl over ↦ rw (search_loop, over) (f, refl, v)
      | inr on ↦ elim (at_number at b) [
        | inl end ↦ (
          f,
          search_loop_step fuel count f cp on
              ∙ ap (after fuel count f) end
              ∙ after_end fuel count f,
          v,
        )
        | inr digit ↦
            let d = digit (peek-skip_while is_space cp (unfold is_space in refl)) in
            let (um, range, number) = strtoul_digit at d in
            let (c, shorter) = skip_digit at b d in
            let full = or_right (peek cp == 0) (leb count (length f.unseen_messages)) on in
            let (g, e, w) =
              search_loop-IsFound fuel count (store_number count f um range)
                (skip_while is_digit at) c (omega arith)
                (store_number-IsFound count f um range (ground arith) v) in
            (
              g,
              search_loop_step fuel count f cp on
                  ∙ after_number fuel count f at (skip_while is_digit at) um range number
                  ∙ e,
              w,
            )
      ]
    ]

-- The loop over the numbers of an answer to SEARCH comes to an end, if the answer has nothing but
-- digits and white space. If there was room in the array, it is not overrun, its numbers are at
-- most the number of messages, and none is below `startcount`, which is at most one above the
-- number of messages. If there is room left, and the answer is not empty and begins neither with
-- white space nor with anything that `strtoul` takes for a number, then the loop never ends.
pub search_loop-ends :
    (count : ℕ) (f : Found) (cp : Bytes)
    → IsFound count f
    → (IsNumbers cp
        → (g : Found) × (search_loop (suc (length cp)) count f cp ≡ some g) × IsFound count g)
      × (length f.unseen_messages < count
          → peek cp ≢ 0
          → is_space (peek cp) ≡ false
          → strtoul cp ≡ none
          → (fuel : ℕ) → search_loop fuel count f cp ≡ none)
search_loop-ends count f cp v =
    (λ a. search_loop-IsFound (suc (length cp)) count f cp a (omega arith) v, stuck)
  where
    stuck :
        length f.unseen_messages < count
        → peek cp ≢ 0
        → is_space (peek cp) ≡ false
        → strtoul cp ≡ none
        → (fuel : ℕ) → search_loop fuel count f cp ≡ none
    stuck room more solid nothing zero = unfold search_loop in refl
    stuck room more solid nothing (suc fuel) =
        search_loop_step fuel count f cp (rw (==_ne (peek cp) 0 more) (ground arith))
        ∙ ap (after fuel count f) (skip_while_stop is_space cp solid)
        ∙ after_nothing fuel count f cp nothing more
        ∙ stuck room more solid nothing fuel
