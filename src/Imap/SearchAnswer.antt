-- ===== src/Imap/SearchAnswer.antt =====
-- imap.c: the numbers of an answer to SEARCH are read to the last one.
use fetchmail.Prelude.{
  ℕ, zero, suc, ◌+◌, ◌-◌, ◌^◌, ◌≤◌, ◌<◌, ◌≡◌, refl, sym, ap, ◌∙◌, ◌⊎◌, inl, inr, true, false, ◌&&◌,
  some, List, [], ◌∷◌, ◌++◌, append_assoc, append-nil, arith, ltb, leb, if◌then◌else◌, Bool-cases,
  length, length-append, Bytes, peek, All, is_space,
}
use fetchmail.Scan.{is_digit, skip_while, decimal}
use fetchmail.Scan.Laws.{skip_while_stop, strtoul-decimal, peek-decimal}
use fetchmail.Imap.Search.{Found, store_number, search_loop, search_loop_step, after_number, after}

-- The numbers in decimal, with a space before each of them.
unfoldable pub written : List ℕ → Bytes
written [] = []
written (n ∷ ns) = b' ' ∷ decimal n ++ written ns

-- A list has a number.
abbrev pub Holds : ℕ → List ℕ → Type 0
Holds n ns = (a : List ℕ) × (b : List ℕ) × (ns ≡ a ++ n ∷ b)

-- The lowest one of a number and those of a list.
abbrev pub IsLowest : ℕ → List ℕ → ℕ → Type 0
IsLowest start ns low = (low ≤ start) × All (λ n. low ≤ n) ns × ((low ≡ start) ⊎ Holds low ns)

IsLowest-cons :
    (start n : ℕ) (ns : List ℕ) (low : ℕ)
    → IsLowest (if ltb n start then n else start) ns low
    → IsLowest start (n ∷ ns) low
IsLowest-cons start n ns low (le, each, which) = elim (Bool-cases (ltb n start)) [
  | inl lower ↦
      let below : low ≤ n = rw lower at le in
      let is : (low ≡ n) ⊎ Holds low ns = rw lower at which in
      (
        ground arith,
        (below, each),
        inr (elim is [
          | inl here ↦ ([], ns, ap (λ m. m ∷ ns) (sym here))
          | inr (a, b, e) ↦ (n ∷ a, b, ap (◌∷◌ n) e)
        ]),
      )
  | inr higher ↦
      let below : low ≤ start = rw higher at le in
      let is : (low ≡ start) ⊎ Holds low ns = rw higher at which in
      (
        below,
        (ground arith, each),
        elim is [ inl old ↦ inl old | inr (a, b, e) ↦ inr (n ∷ a, b, ap (◌∷◌ n) e) ],
      )
]

no_digit_next : (ns : List ℕ) → is_digit (peek (written ns)) ≡ false
unfolding written is_digit
no_digit_next [] = refl
no_digit_next (n ∷ ns) = refl

digit_is_no_space : (c : ℕ) → is_digit c ≡ true → is_space c ≡ false
unfolding is_digit is_space
digit_is_no_space c d = ground arith

-- Behind a space stands the number.
behind_space : (n : ℕ) (t : Bytes) → skip_while is_space (b' ' ∷ decimal n ++ t) ≡ decimal n ++ t
unfolding skip_while is_space
behind_space n t =
    skip_while_stop is_space (decimal n ++ t)
      (digit_is_no_space (peek (decimal n ++ t)) (peek-decimal n t))

store_number-fit :
    (count : ℕ) (f : Found) (n : ℕ)
    → n ≤ count
    → count < 2 ^ 31
    → store_number count f n false ≡ record {
      unseen_messages = f.unseen_messages ++ n ∷ [];
      startcount = if ltb n f.startcount then n else f.startcount;
    }
unfolding store_number
store_number-fit count f n le lt =
    let fit : (leb n (2 ^ 31 - 1) && leb n count) ≡ true = ground arith in rw fit refl

search_loop-numbers :
    (ns : List ℕ) (fuel count : ℕ) (f : Found)
    → All (λ n. n ≤ count) ns
    → count < 2 ^ 31
    → length f.unseen_messages + length ns ≤ count
    → length (written ns) < fuel
    → (g : Found) × (search_loop fuel count f (written ns) ≡ some g)
      × (g.unseen_messages ≡ f.unseen_messages ++ ns)
      × IsLowest f.startcount ns g.startcount
unfolding search_loop written
search_loop-numbers ns zero count f a lt room enough = elim enough [ ]
search_loop-numbers [] (suc fuel) count f a lt room enough =
    (f, refl, sym (append-nil f.unseen_messages), (omega arith, tt, inl refl))
search_loop-numbers (n ∷ ns) (suc fuel) count f (le, a) lt room enough =
    let t = written ns in
    let now : Found = record {
      unseen_messages = f.unseen_messages ++ n ∷ [];
      startcount = if ltb n f.startcount then n else f.startcount;
    } in
    let (g, is, all, low) =
      search_loop-numbers ns fuel count now a lt
        (omega (arith, length-append f.unseen_messages (n ∷ [])))
        (omega (arith, length-append (decimal n) t)) in
    (
      g,
      search_loop_step fuel count f (b' ' ∷ decimal n ++ t) (ground arith)
          ∙ ap (after fuel count f) (behind_space n t)
          ∙ after_number fuel count f (decimal n ++ t) t n false
              (strtoul-decimal n t (omega arith) (no_digit_next ns))
          ∙ ap (λ h. search_loop fuel count h t) (store_number-fit count f n le lt)
          ∙ is,
      all ∙ append_assoc f.unseen_messages (n ∷ []) ns,
      IsLowest-cons f.startcount n ns g.startcount low,
    )

-- From an answer to SEARCH that has a list of numbers in decimal, a space before each of them, all of
-- them are stored, in their order, behind those that were in the array, and `startcount` becomes the
-- lowest one of them and what it was: if there is room for them in the array, none is above the number
-- of messages, and that is below 2 ^ 31. The length of the answer is fuel enough.
pub search_loop-written :
    (ns : List ℕ) (count : ℕ) (f : Found)
    → All (λ n. n ≤ count) ns
    → count < 2 ^ 31
    → length f.unseen_messages + length ns ≤ count
    → (g : Found) × (search_loop (suc (length (written ns))) count f (written ns) ≡ some g)
      × (g.unseen_messages ≡ f.unseen_messages ++ ns)
      × IsLowest f.startcount ns g.startcount
search_loop-written ns count f a lt room =
    search_loop-numbers ns (suc (length (written ns))) count f a lt room (omega arith)
