-- ===== src/Pop3/Sizes/Listing.antt =====
-- The sizes that a server lists are the ones that are stored.
use fetchmail.Prelude.{
  ℕ, ◌+◌, ◌-◌, ◌≤◌, ◌<◌, ◌≡◌, refl, sym, ap, ◌∙◌, Bool, true, false, some, List, [], ◌∷◌, ◌++◌,
  append_assoc, append-nil, arith, length, set, length-append, Bytes, codes, peek, All, ==_ne,
}
use fetchmail.Scan.{is_digit, strtoul, scan_u, decimal}
use fetchmail.Scan.Laws.{peek-decimal, strtoul-decimal}
use fetchmail.Transact.{
  line, Read, strip_last, chomp, received, recv_from, gen_recv, gen_send, gen_transact,
}
use fetchmail.Pop3.{pop3_ok, dotline, transact}
use fetchmail.Pop3.Answers.{Accepts, judge_line-Accepts}
use fetchmail.Pop3.Sizes.{scan_uu, list_line, sizes_loop, pop3_getsizes}
use fetchmail.UidDb.{u32}

strip_last-append : (b : ℕ) (s : Bytes) → strip_last b (s ++ b ∷ []) ≡ s
unfolding strip_last
strip_last-append b [] = ground arith
strip_last-append b (c ∷ []) = ap (◌∷◌ c) (strip_last-append b [])
strip_last-append b (c ∷ d ∷ s) = ap (◌∷◌ c) (strip_last-append b (d ∷ s))

chomp-append : (s : Bytes) → chomp (s ++ b'\r' ∷ b'\n' ∷ []) ≡ s
unfolding chomp
chomp-append s =
    rw (sym (append_assoc s (b'\r' ∷ []) (b'\n' ∷ [])), strip_last-append b'\n' (s ++ b'\r' ∷ []))
      (strip_last-append b'\r' s)

-- A line of the listing.
abbrev pub size_line : ℕ → ℕ → Bytes
size_line num size = decimal num ++ b' ' ∷ decimal size

-- The lines for the messages behind the first `k`.
abbrev pub listing : ℕ → List ℕ → List Read
listing k [] = []
listing k (x ∷ xs) = line (size_line (k + 1) x ++ codes "\r\n") ∷ listing (k + 1) xs

scan_u-decimal :
    (n : ℕ) (t : Bytes)
    → n < u32
    → is_digit (peek t) ≡ false
    → (scan_u (decimal n ++ t) ≡ some (n, t)) × (scan_u (b' ' ∷ decimal n ++ t) ≡ some (n, t))
unfolding scan_u
scan_u-decimal n t lt stop =
    let e = strtoul-decimal n t (omega arith) stop in
    let skipped : strtoul (b' ' ∷ decimal n ++ t) ≡ strtoul (decimal n ++ t) =
      unfold strtoul in refl in
    (
      rw e (ap (λ m. some (m, t)) (omega arith)),
      rw (skipped, e) (ap (λ m. some (m, t)) (omega arith)),
    )

scan_uu-size_line :
    (num size : ℕ) → num < u32 → size < u32 → scan_uu (size_line num size) ≡ some (num, size)
unfolding scan_uu
scan_uu-size_line num size bound small =
    let (first, skip) = scan_u-decimal num (b' ' ∷ decimal size) bound (unfold is_digit in refl) in
    let (value, second) = scan_u-decimal size [] small (unfold is_digit in refl) in
    let there : scan_u (b' ' ∷ decimal size) ≡ some (size, []) =
      rw (append-nil (decimal size)) at second in
    rw (scan_uu, first) (rw there refl)

list_line_stored :
    (count num size : ℕ) (buf : Bytes) (sizes : List ℕ)
    → scan_uu buf ≡ some (num, size)
    → 0 < num
    → num ≤ count
    → list_line count buf sizes ≡ set sizes (num - 1) size
unfolding list_line
list_line_stored count num size buf sizes e positive le = rw (list_line, e) (ground arith)

no_dot : (s : Bytes) → is_digit (peek s) ≡ true → dotline s ≡ false
unfolding dotline is_digit
no_dot s d = rw (==_ne (peek s) b'.' (λ e. ground arith)) refl

size_line_goes_on : (num size : ℕ) → dotline (size_line num size) ≡ false
size_line_goes_on num size = no_dot _ (peek-decimal num (b' ' ∷ decimal size))

sizes_loop_step :
    (count : ℕ) (s t : Bytes) (rs : List Read) (sizes new : List ℕ)
    → chomp s ≡ t
    → dotline t ≡ false
    → list_line count t sizes ≡ new
    → sizes_loop count (line s ∷ rs) sizes ≡ sizes_loop count rs new
unfolding sizes_loop received
sizes_loop_step count s t rs sizes new is goes stored = rw (sizes_loop, is) (rw (goes, stored) refl)

set-append :
    (pre old : List ℕ) (o x k : ℕ) → length pre ≡ k → set (pre ++ o ∷ old) k x ≡ pre ++ x ∷ old
set-append [] old o x k at = rw (← at) refl
set-append (p ∷ pre) old o x k at =
    rw (← at) (ap (◌∷◌ p) (set-append pre old o x (length pre) refl))

sizes_loop-listing :
    (xs old pre : List ℕ) (k count : ℕ) (last : Bytes) (rest : List Read)
    → length pre ≡ k
    → length old ≡ length xs
    → k + length xs ≤ count
    → count < u32
    → All (λ x. x < u32) xs
    → dotline (chomp last) ≡ true
    → sizes_loop count (listing k xs ++ line last ∷ rest) (pre ++ old) ≡ (0, pre ++ xs, rest)
sizes_loop-listing [] [] pre k count last rest at same le bound small dot =
    unfold sizes_loop received in rw dot refl
sizes_loop-listing [] (o ∷ old) pre k count last rest at same le bound small dot =
    absurd (omega arith)
sizes_loop-listing (x ∷ xs) [] pre k count last rest at same le bound small dot =
    absurd (omega arith)
sizes_loop-listing (x ∷ xs) (o ∷ old) pre k count last rest at same le bound (sx, small) dot =
    let stored =
      list_line_stored count (k + 1) x (size_line (k + 1) x) (pre ++ o ∷ old)
        (scan_uu-size_line (k + 1) x (omega arith) sx) (omega arith) (omega arith) in
    let cell : set (pre ++ o ∷ old) (k + 1 - 1) x ≡ (pre ++ x ∷ []) ++ old =
      set-append pre old o x (k + 1 - 1) (omega arith) ∙ sym (append_assoc pre (x ∷ []) old) in
    let step =
      sizes_loop_step count (size_line (k + 1) x ++ codes "\r\n") (size_line (k + 1) x)
        (listing (k + 1) xs ++ line last ∷ rest) (pre ++ o ∷ old) ((pre ++ x ∷ []) ++ old)
        (chomp-append (size_line (k + 1) x)) (size_line_goes_on (k + 1) x) (stored ∙ cell) in
    let later =
      sizes_loop-listing xs old (pre ++ x ∷ []) (k + 1) count last rest
        (omega (arith, length-append pre (x ∷ []))) (omega arith) (omega arith) bound small dot in
    step ∙ later ∙ ap (λ l. (0, l, rest)) (append_assoc pre (x ∷ []) xs)

transact-accepted :
    (stage : ℕ) (cmd ok text : Bytes) (input : List Read) (sent : List Bytes) (write_ok : ℕ → Bool)
    → write_ok (length sent) ≡ true
    → Accepts (chomp ok) text
    → transact stage (record { input = line ok ∷ input; sent = sent; write_ok = write_ok }) cmd ≡ (
      0,
      record { input = input; sent = sent ++ (cmd ++ codes "\r\n") ∷ []; write_ok = write_ok },
    )
unfolding transact gen_transact gen_send pop3_ok gen_recv recv_from received
transact-accepted stage cmd ok text input sent write_ok up accepted =
    rw (transact, up) (rw (judge_line-Accepts stage (chomp ok) text accepted) refl)

-- If LIST can be sent, the server accepts it and then gives the number and the size of each of the
-- `count` messages on a line of its own, in order and followed by a line with a dot, then
-- `pop3_getsizes` succeeds with exactly these sizes in its array, and has read the answer and no more.
-- The sizes and the count are below 2 ^ 32, and the array has a cell for each message.
pub pop3_getsizes-listing :
    (stage : ℕ) (xs old : List ℕ) (ok text last : Bytes) (rest : List Read) (sent : List Bytes)
    (write_ok : ℕ → Bool)
    → write_ok (length sent) ≡ true
    → Accepts (chomp ok) text
    → length old ≡ length xs
    → length xs < u32
    → All (λ x. x < u32) xs
    → dotline (chomp last) ≡ true
    → pop3_getsizes stage
        (record {
          input = line ok ∷ (listing 0 xs ++ line last ∷ rest);
          sent = sent;
          write_ok = write_ok;
        })
        (length xs)
        old
      ≡ (0, xs, record { input = rest; sent = sent ++ codes "LIST\r\n" ∷ []; write_ok = write_ok })
unfolding pop3_getsizes
pop3_getsizes-listing stage xs old ok text last rest sent write_ok up accepted same bound small
      dot =
    rw
      (
        pop3_getsizes,
        transact-accepted stage (codes "LIST") ok text (listing 0 xs ++ line last ∷ rest) sent
            write_ok up accepted,
      )
      (rw
        (sizes_loop-listing xs old [] 0 (length xs) last rest refl same (omega arith) bound small
          dot)
        refl)
