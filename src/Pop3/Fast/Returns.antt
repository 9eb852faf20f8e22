-- ===== src/Pop3/Fast/Returns.antt =====
-- What pop3_getuidl takes from an answer.
use fetchmail.Prelude.{
  ==_iff, some_injective, ℕ, ◌≡◌, refl, sym, ap, ◌∙◌, inl, inr, Bool, Option, none, some, List, [],
  ◌∷◌, ◌==◌, Bool-cases, Bytes, All,
}
use mathlib.Core.Path.{subst}
use fetchmail.Transact.{
  chomp, ps_socket, gen_send, recv_from, received, ps_protocol, Read, line, gen_recv,
}
use fetchmail.UidDb.Trie.Search.{IsUid}
use fetchmail.Pop3.{parseuid, id_size, judge_line, Result, good, bad, pop3_ok, uid_of, pop3_getuidl}

-- If `pop3_getuidl` takes an identifier from an answer that begins so, then it is not empty and has
-- the bytes of a C string, and it is the identifier of the message.
abbrev pub GivesUid : (ℕ → Bytes) → ℕ → Read → Type 0
GivesUid uid stage r =
    (num : ℕ) (text id : Bytes)
    → (judge_line stage (received r).1).1 ≡ some text
    → uid_of num text ≡ good id
    → IsUid id × (id ≡ uid num)

-- The identifier is the one that `parseuid` finds in the text.
good_injective : (a b : Bytes) → good a ≡ good b → a ≡ b
good_injective a b e = ap (λ r. elim r [ good id ↦ id | bad ok ↦ [] ]) e

pub GivesUid-line :
    (uid : ℕ → Bytes) (stage : ℕ) (s text : Bytes) (gotnum : ℕ)
    → (judge_line stage (chomp s)).1 ≡ some text
    → parseuid text id_size ≡ some (gotnum, uid gotnum)
    → IsUid (uid gotnum)
    → GivesUid uid stage (line s)
unfolding uid_of received
GivesUid-line uid stage s text gotnum there read is_uid num text' id there' is =
    let found : Bytes = uid gotnum in
    let same : text ≡ text' = some_injective text text' (sym there ∙ there') in
    let read' : parseuid text' id_size ≡ some (gotnum, found) =
      subst (λ y. parseuid y id_size ≡ some (gotnum, found)) same read in
    elim (Bool-cases (gotnum == num)) [
      | inl right ↦
          let found_id : good found ≡ good id = rw (uid_of, read', right) at is in
          let same_id : found ≡ id = good_injective found id found_id in
          (subst IsUid same_id is_uid, sym same_id ∙ ap uid ((==_iff gotnum num).0 right))
      | inr wrong ↦ let no : bad ps_protocol ≡ good id = rw (uid_of, read', wrong) at is in cc
    ]

abbrev text_of : ℕ → Option Bytes → Result
text_of num none = bad ps_protocol
text_of num (some text) = uid_of num text

good_text :
    (num : ℕ) (arg : Option Bytes) (id : Bytes)
    → text_of num arg ≡ good id
    → (text : Bytes) × (arg ≡ some text) × (uid_of num text ≡ good id)
good_text num none id e = cc
good_text num (some text) id e = (text, refl, e)

pub getuidl-GivesUid :
    (uid : ℕ → Bytes) (stage num : ℕ) (input : List Read) (sent : List Bytes) (write_ok : ℕ → Bool)
    (id : Bytes)
    → All (GivesUid uid stage) input
    → (pop3_getuidl stage (record { input = input; sent = sent; write_ok = write_ok }) num).0
      ≡ good id
    → (IsUid id × (id ≡ uid num))
      × All
          (GivesUid uid stage)
          (pop3_getuidl stage
            (record { input = input; sent = sent; write_ok = write_ok })
            num).1.input
unfolding pop3_getuidl pop3_ok gen_recv recv_from gen_send
getuidl-GivesUid uid stage num [] sent write_ok id gives e =
    let no : bad ps_socket ≡ good id = e in cc
getuidl-GivesUid uid stage num (r ∷ rs) sent write_ok id (this, later) e =
    elim (Bool-cases ((received r).0 == 0)) [
      | inr lost ↦ let no : bad (received r).0 ≡ good id = rw (lost, lost) at e in cc
      | inl read ↦ elim (Bool-cases ((judge_line stage (received r).1).0 == 0)) [
        | inr refused ↦
            let no : bad (judge_line stage (received r).1).0 ≡ good id = rw (read, refused) at e in
            cc
        | inl fine ↦
            let taken : text_of num (judge_line stage (received r).1).1 ≡ good id =
              rw (read, fine) at e in
            let (text, there, is) = good_text num (judge_line stage (received r).1).1 id taken in
            (this num text id there is, rw (read, fine) later)
      ]
    ]
