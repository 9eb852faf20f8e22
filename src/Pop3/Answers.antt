-- ===== src/Pop3/Answers.antt =====
-- What the answers of a POP3 server mean.
use fetchmail.Prelude.{
  ℕ, zero, suc, ◌-◌, ◌≤◌, ◌<◌, ◌≡◌, refl, sym, ap, ◌∙◌, ◌≢◌, ◌↔◌, ◌⊎◌, inl, inr, Bool, true, false,
  not, ◌&&◌, ◌||◌, some, List, [], ◌∷◌, ◌++◌, arith, ◌==◌, if◌then◌else◌, Bool-cases, length, take,
  Bytes, codes, peek, next, All, ==_ne, is_space, str_eq, starts_with, str_eq_sound, str_eq_refl,
}
use fetchmail.Scan.{is_digit, is_alpha, skip_while, take_while, u64, decimal}
use fetchmail.Scan.Substring.{Has, Tests, or_Tests, and_Tests, strstr_iff}
use fetchmail.Scan.Laws.{
  take_while-skip_while, peek-skip_while, skip_while-append, skip_while_stop, peek-decimal,
  strtoul-decimal,
}
use fetchmail.Transact.{
  closed, idle_timeout, ps_success, ps_authfail, ps_protocol, ps_lockbusy, ps_servbusy,
  ps_transient, stage_getauth, stage_fetch, line, chomp,
}
use fetchmail.Pop3.{
  Read, says_busy, says_locked, judge_err, judge_word, judge_line, pop3_ok, copy_id, parseuid,
}

-- A line that begins with `+OK`, and not with a longer word.
abbrev pub Accepts : Bytes → Bytes → Type 0
Accepts s text = (s ≡ codes "+OK" ++ text) × (is_alpha (peek text) ≡ false)

-- A line that tells of an error.
abbrev pub Refuses : Bytes → Type 0
Refuses s = starts_with (codes "-ERR") s ≡ true

-- The words for a mailbox that is in use, and for a server that is.
abbrev pub IsLocked : Bytes → Type 0
IsLocked s =
    ((((Has s (codes "lock") ⊎ Has s (codes "Lock")) ⊎ Has s (codes "LOCK")) ⊎ Has s (codes "wait"))
      ⊎ Has s (codes "[IN-USE]"))
    ⊎ Has s (codes "[LOGIN-DELAY]")

abbrev pub IsBusy : Bytes → Type 0
IsBusy s = (Has s (codes "Service") ⊎ Has s (codes "service")) × Has s (codes "unavailable")

-- Why a login is refused, by the text of the answer.
abbrev pub Diagnosis : Bytes → ℕ → Type 0
Diagnosis text code =
    (IsLocked text → code ≡ ps_lockbusy)
    × (¬ IsLocked text → IsBusy text → code ≡ ps_servbusy)
    × (¬ IsLocked text → ¬ IsBusy text → code ≡ ps_authfail)

-- The text behind the sign, the letters of the first word and one byte.
abbrev pub behind_word : Bytes → Bytes
behind_word s = next (skip_while is_alpha (next s))

-- What the code says of an answer in a stage of the query.
pub record Means (stage : ℕ) (s : Bytes) (code : ℕ) : Type 0 where
  pub accepted : (code ≡ ps_success) ↔ ((text : Bytes) × Accepts s text)
  pub in_fetch : Refuses s → stage ≡ stage_fetch → code ≡ ps_transient
  pub at_login : Refuses s → stage ≡ stage_getauth → Diagnosis (behind_word s) code
  pub elsewhere : Refuses s → stage ≢ stage_fetch → stage ≢ stage_getauth → code ≡ ps_protocol
  pub other : starts_with (codes "-ERR") s ≡ false → (code ≡ ps_success) ⊎ (code ≡ ps_protocol)

take_while-starts_with :
    (w s : Bytes)
    → All (λ c. is_alpha c ≡ true) w
    → starts_with w (take_while is_alpha s) ≡ starts_with w s
unfolding starts_with take_while
take_while-starts_with [] s a = refl
take_while-starts_with (x ∷ w) [] a = refl
take_while-starts_with (x ∷ w) (c ∷ s) (px, a) = elim (Bool-cases (is_alpha c)) [
  | inl h ↦ rw h (ap (λ b. (x == c) && b) (take_while-starts_with w s a))
  | inr h ↦ rw h (sym (rw (==_ne x c (λ e. cc)) refl))
]

alphas : All (λ c. is_alpha c ≡ true) (codes "ERR")
unfolding is_alpha
alphas = (refl, (refl, (refl, tt)))

-- The first word begins as the line does.
word_starts :
    (c : ℕ) (s : Bytes)
    → starts_with (codes "-ERR") (c ∷ take_while is_alpha s) ≡ starts_with (codes "-ERR") (c ∷ s)
unfolding starts_with
word_starts c s = ap (λ b. (b'-' == c) && b) (take_while-starts_with (codes "ERR") s alphas)

Accepts-word :
    (c : ℕ) (s : Bytes)
    → str_eq (c ∷ take_while is_alpha s) (codes "+OK") ≡ true
    → Accepts (c ∷ s) (skip_while is_alpha s)
Accepts-word c s e =
    let word : c ∷ take_while is_alpha s ≡ codes "+OK" = str_eq_sound _ _ e in
    let whole = take_while-skip_while is_alpha s in
    let split : c ∷ s ≡ c ∷ (take_while is_alpha s ++ skip_while is_alpha s) =
      ap (◌∷◌ c) (sym whole) in
    (
      split ∙ ap (λ w. w ++ skip_while is_alpha s) word,
      peek-skip_while is_alpha s (unfold is_alpha in refl),
    )

-- What is done with a line, by its first word.
judge_line_lem :
    (stage c : ℕ) (s : Bytes)
    → ((c == b'+' || c == b'-') ≡ true)
    → judge_line stage (c ∷ s) ≡ (
      judge_word stage (c ∷ take_while is_alpha s) (next (skip_while is_alpha s)),
      some (next (skip_while is_alpha s)),
    )
unfolding judge_line
judge_line_lem stage c s h = rw h refl

judge_word_ok : (stage : ℕ) (text : Bytes) → judge_word stage (codes "+OK") text ≡ ps_success
unfolding judge_word str_eq
judge_word_ok stage text = refl

ok_is_no_error : ¬ Refuses (codes "+OK")
unfolding starts_with
ok_is_no_error e = cc

judge_word_err :
    (stage : ℕ) (word text : Bytes)
    → Refuses word
    → judge_word stage word text ≡ judge_err stage text
unfolding judge_word
judge_word_err stage word text e = elim (Bool-cases (str_eq word (codes "+OK"))) [
  | inl ok ↦ absurd (ok_is_no_error (rw (str_eq_sound word (codes "+OK") ok) at e))
  | inr not_ok ↦ rw not_ok (rw e refl)
]

judge_word_other :
    (stage : ℕ) (word text : Bytes)
    → starts_with (codes "-ERR") word ≡ false
    → ((word ≡ codes "+OK") × (judge_word stage word text ≡ ps_success))
      ⊎ (judge_word stage word text ≡ ps_protocol)
unfolding judge_word
judge_word_other stage word text e = elim (Bool-cases (str_eq word (codes "+OK"))) [
  | inl ok ↦ inl (str_eq_sound word (codes "+OK") ok, rw ok refl)
  | inr not_ok ↦ inr (rw not_ok (rw e refl))
]

pub judge_line-Accepts :
    (stage : ℕ) (s text : Bytes)
    → Accepts s text
    → judge_line stage s ≡ (ps_success, some (next text))
judge_line-Accepts stage s text (is, stop) =
    let (word, behind) =
      skip_while-append is_alpha (codes "OK") text (unfold is_alpha in (refl, (refl, tt))) stop in
    rw (is, judge_line_lem stage b'+' (codes "OK" ++ text) refl, word, behind)
      (ap (λ n. (n, some (next text))) (judge_word_ok stage (next text)))

says_locked_iff : (s : Bytes) → Tests (says_locked s) (IsLocked s)
unfolding says_locked
says_locked_iff s =
    let two = or_Tests _ _ (strstr_iff s (codes "lock")) (strstr_iff s (codes "Lock")) in
    let three = or_Tests _ _ two (strstr_iff s (codes "LOCK")) in
    let four = or_Tests _ _ three (strstr_iff s (codes "wait")) in
    let five = or_Tests _ _ four (strstr_iff s (codes "[IN-USE]")) in
    or_Tests _ _ five (strstr_iff s (codes "[LOGIN-DELAY]"))

says_busy_iff : (s : Bytes) → Tests (says_busy s) (IsBusy s)
unfolding says_busy
says_busy_iff s =
    and_Tests _ _ (or_Tests _ _ (strstr_iff s (codes "Service")) (strstr_iff s (codes "service")))
      (strstr_iff s (codes "unavailable"))

login_code :
    {A B : Type 0} (a b : Bool)
    → Tests a A
    → Tests b B
    → let n = if a then ps_lockbusy else if b then ps_servbusy else ps_authfail in
      (A → n ≡ ps_lockbusy) × (¬ A → B → n ≡ ps_servbusy) × (¬ A → ¬ B → n ≡ ps_authfail)
login_code true b x y = (λ h. refl, λ h k. absurd (h (x.0 refl)), λ h k. absurd (h (x.0 refl)))
login_code false true x y =
    (λ h. absurd (let no = x.1 h in cc), λ h k. refl, λ h k. absurd (k (y.0 refl)))
login_code false false x y =
    (λ h. absurd (let no = x.1 h in cc), λ h k. absurd (let no = y.1 k in cc), λ h k. refl)

judge_err_cases :
    (stage : ℕ) (text : Bytes)
    → (stage ≡ stage_fetch → judge_err stage text ≡ ps_transient)
      × (stage ≡ stage_getauth → Diagnosis text (judge_err stage text))
      × (stage ≢ stage_fetch → stage ≢ stage_getauth → judge_err stage text ≡ ps_protocol)
      × (judge_err stage text ≢ ps_success)
unfolding judge_err
judge_err_cases stage text = (
  λ h. ground arith,
  λ h.
      rw h (
        login_code (says_locked text) (says_busy text) (says_locked_iff text) (says_busy_iff text)),
  λ h k. ground arith,
  λ e. ground arith,
)

word_accepted :
    (stage c : ℕ) (s text : Bytes)
    → judge_word stage (c ∷ take_while is_alpha s) text ≡ ps_success
    → (t : Bytes) × Accepts (c ∷ s) t
word_accepted stage c s text e =
    elim (Bool-cases (starts_with (codes "-ERR") (c ∷ take_while is_alpha s))) [
      | inl refused ↦
          absurd ((judge_err_cases stage text).3 (sym (judge_word_err stage _ text refused) ∙ e))
      | inr fine ↦ elim (judge_word_other stage _ text fine) [
        | inl (word, code) ↦
            (skip_while is_alpha s, Accepts-word c s (rw word (str_eq_refl (codes "+OK"))))
        | inr protocol ↦ absurd (omega arith)
      ]
    ]

-- The code for a line that begins with a sign.
word_Means :
    (stage c : ℕ) (s : Bytes)
    → let text = behind_word (c ∷ s) in
      ((t : Bytes)
        → Accepts (c ∷ s) t
        → judge_word stage (c ∷ take_while is_alpha s) text ≡ ps_success)
      → Means stage (c ∷ s) (judge_word stage (c ∷ take_while is_alpha s) text)
word_Means stage c s ok =
    let text : Bytes = behind_word (c ∷ s) in
    let refused : Refuses (c ∷ s)
        → judge_word stage (c ∷ take_while is_alpha s) text ≡ judge_err stage text =
      λ e. judge_word_err stage _ text (word_starts c s ∙ e) in
    let (fetch, login, else_where, no_success) = judge_err_cases stage text in
    record {
      accepted = (word_accepted stage c s text, λ a. ok a.0 a.1);
      in_fetch = λ e h. refused e ∙ fetch h;
      at_login = λ e h. rw (refused e) (login h);
      elsewhere = λ e h k. refused e ∙ else_where h k;
      other = λ e.
          elim (judge_word_other stage (c ∷ take_while is_alpha s) text (word_starts c s ∙ e)) [
            | inl (word, code) ↦ inl code
            | inr code ↦ inr code
          ];
    }

Refuses-sign : (c : ℕ) (s : Bytes) → Refuses (c ∷ s) → c ≡ b'-'
unfolding starts_with
Refuses-sign c s e = elim (Bool-cases (b'-' == c)) [
  | inl h ↦ ground arith
  | inr h ↦ absurd (let no_error = rw h at e in cc)
]

-- A line without a sign neither accepts nor refuses.
no_sign :
    (stage c : ℕ) (s : Bytes)
    → ((c == b'+' || c == b'-') ≡ false)
    → Means stage (c ∷ s) (judge_line stage (c ∷ s)).0
unfolding judge_line starts_with
no_sign stage c s h = rw h (record {
  accepted = (
    λ e. absurd (omega arith),
    λ a. absurd (let first : c ≡ b'+' = ap peek a.1.0 in ground arith),
  );
  in_fetch = λ e k. absurd (let first = Refuses-sign c s e in ground arith);
  at_login = λ e k. absurd (let first = Refuses-sign c s e in ground arith);
  elsewhere = λ e k l. refl;
  other = λ e. inr refl;
})

judge_line-Means : (stage : ℕ) (s : Bytes) → Means stage s (judge_line stage s).0
judge_line-Means stage [] = record {
  accepted = (
    λ e. absurd (unfold judge_line in omega arith),
    λ a. absurd (let first : 0 ≡ b'+' = ap peek a.1.0 in omega arith),
  );
  in_fetch = λ e k. absurd (unfold starts_with in cc);
  at_login = λ e k. absurd (unfold starts_with in cc);
  elsewhere = λ e k l. unfold judge_line in refl;
  other = λ e. inr (unfold judge_line in refl);
}
judge_line-Means stage (c ∷ s) = elim (Bool-cases (c == b'+' || c == b'-')) [
  | inr none_there ↦ no_sign stage c s none_there
  | inl sign ↦ rw (judge_line_lem stage c s sign) (
      word_Means stage c s (λ t a.
        ap (λ r. r.0) (sym (judge_line_lem stage c s sign) ∙ judge_line-Accepts stage (c ∷ s) t a)))
]

-- The code that `pop3_ok` returns for a line that was read is success exactly if the line begins
-- with `+OK` and no letter follows. For a line that begins with `-ERR` it is PS_TRANSIENT in
-- STAGE_FETCH, and PS_PROTOCOL in the stages but this and STAGE_GETAUTH. In STAGE_GETAUTH it is
-- PS_LOCKBUSY if one of `lock`, `Lock`, `LOCK`, `wait`, `[IN-USE]` and `[LOGIN-DELAY]` stands in
-- the text behind the sign, the letters that follow it and one byte more, otherwise PS_SERVBUSY if
-- `Service` or `service` and `unavailable` do, and otherwise PS_AUTHFAIL. For any other line it is
-- PS_SUCCESS or PS_PROTOCOL. The rest of the input is what follows the line. Where no line is read,
-- for a timeout, a closed connection or the end of the input, the code is not success.
pub pop3_ok-Means :
    (stage : ℕ) (s : Bytes) (input : List Read) (sent : List Bytes) (write_ok : ℕ → Bool)
    → Means stage
        (chomp s)
        (pop3_ok stage (record { input = line s ∷ input; sent = sent; write_ok = write_ok })).0
      × ((pop3_ok stage
            (record { input = line s ∷ input; sent = sent; write_ok = write_ok })).2.input
          ≡ input)
      × ((pop3_ok stage (record { input = closed ∷ input; sent = sent; write_ok = write_ok })).0
          ≢ ps_success)
      × ((pop3_ok stage
            (record { input = idle_timeout ∷ input; sent = sent; write_ok = write_ok })).0
          ≢ ps_success)
      × ((pop3_ok stage (record { input = []; sent = sent; write_ok = write_ok })).0 ≢ ps_success)
unfolding pop3_ok
pop3_ok-Means stage s input sent write_ok =
    (judge_line-Means stage (chomp s), refl, λ e. omega arith, λ e. omega arith, λ e. omega arith)

-- An identifier without white space.
abbrev pub IsWord : Bytes → Type 0
IsWord = All (λ c. is_space c ≡ false)

copy_id_word :
    (k : ℕ) (w rest : Bytes)
    → IsWord w
    → length w ≤ k
    → (rest ≡ []) ⊎ (is_space (peek rest) ≡ true)
    → take_while (λ c. not (is_space c)) (take k (w ++ rest)) ≡ w
unfolding take_while
copy_id_word zero [] rest a le end = refl
copy_id_word zero (c ∷ w) rest a le end = absurd (omega arith)
copy_id_word (suc k) [] [] a le end = refl
copy_id_word (suc k) [] (c ∷ rest) a le (inl e) = cc
copy_id_word (suc k) [] (c ∷ rest) a le (inr e) = rw e refl
copy_id_word (suc k) (c ∷ w) rest (p, a) le end =
    rw p (ap (◌∷◌ c) (copy_id_word k w rest a (omega arith) end))

digit_is_no_space : (c : ℕ) → is_digit c ≡ true → is_space c ≡ false
unfolding is_digit is_space
digit_is_no_space c d = ground arith

space_is_no_digit : (c : ℕ) → is_space c ≡ true → is_digit c ≡ false
unfolding is_digit is_space
space_is_no_digit c d = ground arith

space_is_no_end : (c : ℕ) → is_space c ≡ true → (c == 0) ≡ false
unfolding is_space
space_is_no_end c d = ground arith

-- The answer to UIDL for one message is read as its number and its identifier: the number is printed
-- in decimal and below 2 ^ 64, one white space byte of any kind follows, then the identifier, which
-- is not empty, has no white space and fits its buffer, and then nothing or white space.
pub parseuid-decimal :
    (n sep c : ℕ) (id rest : Bytes) (idsize : ℕ)
    → n < u64
    → is_space sep ≡ true
    → IsWord (c ∷ id)
    → length (c ∷ id) < idsize
    → (rest ≡ []) ⊎ (is_space (peek rest) ≡ true)
    → parseuid (decimal n ++ sep ∷ (c ∷ id ++ rest)) idsize ≡ some (n, c ∷ id)
unfolding parseuid copy_id
parseuid-decimal n sep c id rest idsize lt space word fits end =
    let behind : Bytes = c ∷ id ++ rest in
    let num : Bytes = decimal n ++ sep ∷ behind in
    let first : is_space (peek num) ≡ false =
      digit_is_no_space (peek num) (peek-decimal n (sep ∷ behind)) in
    rw (skip_while_stop is_space num first) (
      rw (strtoul-decimal n (sep ∷ behind) lt (space_is_no_digit sep space)) (
        rw (space, space_is_no_end sep space, skip_while_stop is_space behind word.0)
          (ap (λ w. some (n, w)) (copy_id_word (idsize - 1) (c ∷ id) rest word (omega arith) end))))
