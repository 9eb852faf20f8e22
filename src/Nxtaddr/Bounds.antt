-- ===== src/Nxtaddr/Bounds.antt =====
-- The buffer of `nxtaddr`, its progress in the header, and its reads.
use fetchmail.Prelude.{
  ℕ, suc, ◌+◌, ◌-◌, ◌≤◌, ◌≡◌, refl, ap, Bool, true, false, not, ◌&&◌, [], ◌∷◌, arith, ◌==◌,
  if◌then◌else◌, ==_iff, length, length-append, Bytes, is_space,
}
use fetchmail.Nxtaddr.{
  State, start_hdr, skip_junk, bare_address, inside_dquote, inside_parens, inside_brackets,
  endit_all, Scan, Outcome, found, null, overrun, put, Step, go, stop, trim, end_of_header,
  in_bare_address, in_skip_junk, in_parens, in_brackets, step, is_parens, is_endit, scan, nxtaddr,
  nxtaddr_next, header_end,
}

-- The last byte of a header, 0 if there is none.
abbrev pub last_byte : Bytes → ℕ
last_byte [] = 0
last_byte (c ∷ []) = c
last_byte (c ∷ d ∷ s) = last_byte (d ∷ s)

-- 1 if no byte of an address was collected yet.
abbrev pub none_yet : Bytes → ℕ
none_yet [] = 1
none_yet (_ ∷ _) = 0

-- What a call may return at `hp`: an address that fits, with less of the header left; NULL; or
-- a read behind the end, which only a backslash at the end can cause.
abbrev pub IsSafe : ℕ → Bytes → Bytes → Outcome → Type 0
IsSafe size hp address (found a rest r) =
    (length a ≤ size - 1) × (length rest + none_yet address ≤ length hp) × (r.address ≡ [])
IsSafe size hp address (null rest r) = length rest ≤ length hp
IsSafe size hp address overrun = last_byte hp ≡ b'\\'

abbrev IsSafeStep : ℕ → Bytes → Bytes → Step → Type 0
IsSafeStep size hp address (go r) = length r.address ≤ size - 1
IsSafeStep size hp address (stop o) = IsSafe size hp address o

none_yet_le : (address : Bytes) → none_yet address ≤ 1
none_yet_le [] = omega arith
none_yet_le (_ ∷ _) = omega arith

put_fits :
    (size c : ℕ) (q : Scan) → length q.address ≤ size - 1 → length (put size c q).address ≤ size - 1
unfolding put
put_fits size c q h = ground (arith, length-append q.address (c ∷ []))

trimmed :
    (c : ℕ) (rest : Bytes) (n : ℕ)
    → length rest ≤ n
    → length (elim rest [ [] ↦ (if is_space c then [] else c ∷ []) | x ∷ r ↦ c ∷ x ∷ r ]) ≤ suc n
trimmed c [] n h = ground arith
trimmed c (x ∷ r) n h = omega arith

length-trim : (s : Bytes) → length (trim s) ≤ length s
unfolding trim
length-trim [] = omega arith
length-trim (c ∷ s) = trimmed c (trim s) (length s) (length-trim s)

end_of_header-IsSafe :
    (size : ℕ) (hp : Bytes) (q : Scan)
    → length q.address ≤ size - 1
    → IsSafe size hp q.address (end_of_header hp q)
unfolding end_of_header
end_of_header-IsSafe size hp q h = at_end q.address
  where
    at_end :
        (a : Bytes)
        → IsSafe size hp a (elim a [
          | [] ↦ null hp (record q { state = endit_all; address = [] })
          | _ ∷ _ ↦ found (trim q.address) hp (record q { state = endit_all; address = [] })
        ])
    at_end [] = omega arith
    at_end (c ∷ a) = (omega (arith, length-trim q.address), omega arith, refl)

-- Each branch of a test.
branches :
    {A : Type 0} (P : A → Type 0) (b : Bool) {x y : A}
    → (b ≡ true → P x)
    → (b ≡ false → P y)
    → P (if b then x else y)
branches P true p q = p refl
branches P false p q = q refl

comma_ends :
    (size : ℕ) (q : Scan) (c : ℕ) (s a : Bytes)
    → length q.address ≤ size - 1
    → IsSafeStep size (c ∷ s) a (elim a [
      | [] ↦ go q
      | _ ∷ _ ↦ stop (found q.address (c ∷ s) (record q { state = skip_junk; address = [] }))
    ])
comma_ends size q c s [] h = h
comma_ends size q c s (x ∷ a) h = (h, omega arith, refl)

in_bare_address-IsSafe :
    (size : ℕ) (q : Scan) (c : ℕ) (s : Bytes)
    → length q.address ≤ size - 1
    → IsSafeStep size (c ∷ s) q.address (in_bare_address size q c s)
unfolding in_bare_address
in_bare_address-IsSafe size q c s h =
    let P : Step → Type 0 = λ o. IsSafeStep size (c ∷ s) q.address o in
    branches P (c == b',') (λ e. comma_ends size q c s q.address h)
      (λ e.
        branches P (c == b'(') (λ e. h)
          (λ e.
            branches P (c == b'<') (λ e. omega arith)
              (λ e.
                branches P (c == b'"') (λ e. put_fits size c _ h)
                  (λ e. branches P (not (is_space c)) (λ e. put_fits size c q h) (λ e. h)))))

in_skip_junk-IsSafe :
    (size : ℕ) (q : Scan) (c : ℕ) (s : Bytes)
    → length q.address ≤ size - 1
    → IsSafeStep size (c ∷ s) q.address (in_skip_junk size q c s)
unfolding in_skip_junk
in_skip_junk-IsSafe size q c s h =
    let P : Step → Type 0 = λ o. IsSafeStep size (c ∷ s) q.address o in
    branches P (c == b'"') (λ e. put_fits size c _ h)
      (λ e.
        branches P (c == b'(') (λ e. h)
          (λ e.
            branches P (c == b'<') (λ e. omega arith)
              (λ e.
                branches P (not (c == b',') && not (is_space c))
                  (λ e. in_bare_address-IsSafe size (record q { state = bare_address }) c s h)
                  (λ e. h))))

in_brackets-IsSafe :
    (size : ℕ) (q : Scan) (c : ℕ) (s : Bytes)
    → length q.address ≤ size - 1
    → IsSafeStep size (c ∷ s) q.address (in_brackets size q c s)
unfolding in_brackets
in_brackets-IsSafe size q c s h =
    let P : Step → Type 0 = λ o. IsSafeStep size (c ∷ s) q.address o in
    branches P (c == b'>') (λ e. (h, omega (arith, none_yet_le q.address), refl))
      (λ e.
        branches P (c == b'<') (λ e. omega arith)
          (λ e. branches P (c == b'"') (λ e. put_fits size c _ h) (λ e. put_fits size c q h)))

step-IsSafe :
    (st : State) (size : ℕ) (q : Scan) (c : ℕ) (s : Bytes)
    → length q.address ≤ size - 1
    → IsSafeStep size (c ∷ s) q.address (step st size q c s)
unfolding step
step-IsSafe start_hdr size q c s h = ground arith
step-IsSafe skip_junk size q c s h = in_skip_junk-IsSafe size q c s h
step-IsSafe bare_address size q c s h = in_bare_address-IsSafe size q c s h
step-IsSafe inside_dquote size q c s h = ground (arith, put_fits size c q h)
step-IsSafe inside_parens size q c s h = unfold in_parens in h
step-IsSafe inside_brackets size q c s h = in_brackets-IsSafe size q c s h
step-IsSafe endit_all size q c s h = omega arith

-- What is safe one byte further is safe here.
earlier : (size c : ℕ) (s a b : Bytes) (o : Outcome) → IsSafe size s b o → IsSafe size (c ∷ s) a o
earlier size c s a b (found x rest r) (fits, less, reset) =
    (fits, omega (arith, none_yet_le a), reset)
earlier size c s a b (null rest r) h = omega arith
earlier size c [] a b overrun h = cc
earlier size c (d ∷ s) a b overrun h = h

-- The rest of the round after the `switch`.
round :
    (size c : ℕ) (s a : Bytes) (k : Scan → Outcome) (st : Step)
    → IsSafeStep size (c ∷ s) a st
    → ((r : Scan) → length r.address ≤ size - 1 → IsSafe size s r.address (k r))
    → IsSafe size (c ∷ s) a (elim st [ go r ↦ k r | stop o ↦ o ])
round size c s a k (go r) h safe = earlier size c s a r.address (k r) (safe r h)
round size c s a k (stop o) h safe = h

scan-IsSafe :
    (size : ℕ) (hp : Bytes) (q : Scan)
    → length q.address ≤ size - 1
    → IsSafe size hp q.address (scan size hp q)
unfolding scan
scan-IsSafe size [] q h = omega arith
scan-IsSafe size (c ∷ []) q h =
    let P : Outcome → Type 0 = λ o. IsSafe size (c ∷ []) q.address o in
    branches P (is_endit q.state) (λ e. omega arith)
      (λ e.
        branches P (header_end c []) (λ e. end_of_header-IsSafe size (c ∷ []) q h)
          (λ e.
            branches P (c == b'\\')
              (λ bs. branches P (is_parens q.state) (λ e. omega arith) (λ e. (==_iff c b'\\').0 bs))
              (λ e.
                round size c [] q.address (λ r. null [] r) (step q.state size q c [])
                  (step-IsSafe q.state size q c [] h) (λ r k. omega arith))))
scan-IsSafe size (c ∷ d ∷ s) q h =
    let P : Outcome → Type 0 = λ o. IsSafe size (c ∷ d ∷ s) q.address o in
    let two : Scan = put size d (put size c q) in
    let fits : length two.address ≤ size - 1 = put_fits size d _ (put_fits size c q h) in
    let far = scan-IsSafe size s two fits in
    branches P (is_endit q.state) (λ e. omega arith)
      (λ e.
        branches P (header_end c (d ∷ s)) (λ e. end_of_header-IsSafe size (c ∷ d ∷ s) q h)
          (λ e.
            branches P (c == b'\\')
              (λ bs.
                branches P (is_parens q.state)
                  (λ e. earlier size c (d ∷ s) q.address q.address _ (scan-IsSafe size (d ∷ s) q h))
                  (λ e.
                    earlier size c (d ∷ s) q.address [] _ (earlier size d s [] two.address _ far)))
              (λ e.
                round size c (d ∷ s) q.address (λ r. scan size (d ∷ s) r)
                  (step q.state size q c (d ∷ s)) (step-IsSafe q.state size q c (d ∷ s) h)
                  (λ r k. scan-IsSafe size (d ∷ s) r k))))

at_start :
    (size : ℕ) (hp a : Bytes) (o : Outcome) → a ≡ [] → IsSafe size hp a o → IsSafe size hp [] o
at_start size hp a o e h = rw e at h

-- An address that a call returns fits the buffer with its NUL, and leaves less of the header for
-- the next call, which starts with an empty buffer again. Reading behind the header's NUL needs a header whose last byte is a backslash.
pub nxtaddr-IsSafe :
    (size : ℕ) (hp : Bytes) (q : Scan) (old : State)
    → q.address ≡ []
    → IsSafe size hp [] (nxtaddr size hp old) × IsSafe size hp [] (nxtaddr_next size hp q)
unfolding nxtaddr nxtaddr_next
nxtaddr-IsSafe size hp q old e =
    let again : Scan = record q { parendepth = 0 } in
    (
      scan-IsSafe size hp _ (omega arith),
      at_start size hp q.address _ e (scan-IsSafe size hp again (omega (arith, ap length e))),
    )
