-- ===== src/UidDb/Trie/Chain.antt =====
-- uid_db.c: the lists of the records with one identifier, and what `append_to_list` makes of them.
use fetchmail.Prelude.{
  some_injective, ℕ, zero, suc, ◌+◌, ◌≤◌, ◌<◌, ◌≡◌, refl, sym, ap, ◌∙◌, ◌⊎◌, inl, inr, none, some,
  List, [], ◌∷◌, ◌++◌, arith, ◌==◌, Bool-cases, Option-cases, ◌>>=◌, length, get_elem?, set,
  length-append, length-set, get_elem?-append_left, get_elem?-set_self, get_elem?-set_ne,
}
use fetchmail.UidDb.{Rec, UidDb}
use fetchmail.UidDb.Trie.{list_end, append_to_list}
use fetchmail.UidDb.Trie.Grown.{KeepsIds}
use fetchmail.UidDb.Trie.Search.{IsUid, AreRecords, ids_of}
use fetchmail.UidDb.Trie.Kept.{get_elem?_lt, KeepsWhat-set}

-- The lists of the records before `m` are among them.
abbrev pub AreChains : List Rec → ℕ → Type 0
AreChains recs m =
    (p : ℕ) (r : Rec)
    → get_elem? recs p ≡ some r
    → p < m
    → (j : ℕ) → r.next ≡ some j
    → (p < j) × (j < m)

get_elem?-some :
    (recs : List Rec) (i : ℕ) → i < length recs → (r : Rec) × (get_elem? recs i ≡ some r)
get_elem?-some [] i lt = absurd (omega arith)
get_elem?-some (r ∷ recs) zero lt = (r, refl)
get_elem?-some (r ∷ recs) (suc i) lt = get_elem?-some recs i (omega arith)

-- The end of a list is reached, within as many steps as there are records behind it.
list_end-AreChains :
    (fuel : ℕ) (recs : List Rec) (m i : ℕ)
    → AreChains recs m
    → m ≤ length recs
    → i < m
    → m ≤ i + fuel
    → (k : ℕ) × (list_end fuel recs i ≡ some k) × (k < m)
unfolding list_end
list_end-AreChains zero recs m i chains le lt enough = absurd (omega arith)
list_end-AreChains (suc fuel) recs m i chains le lt enough =
    let (r, at) = get_elem?-some recs i (omega arith) in
    elim (Option-cases r.next) [
      | inl stop ↦ (i, rw (at, ◌>>=◌, stop) refl, lt)
      | inr (j, to) ↦
          let (later, inside) = chains i r at lt j to in
          let (k, is, k_lt) = list_end-AreChains fuel recs m j chains le inside (omega arith) in
          (k, rw (at, ◌>>=◌, to) is, k_lt)
    ]

map-append : (recs more : List Rec) → ids_of (recs ++ more) ≡ ids_of recs ++ ids_of more
map-append [] more = refl
map-append (r ∷ recs) more = rw (map-append recs more) refl

pub ids_of-set :
    (recs : List Rec) (i : ℕ) (r s : Rec)
    → get_elem? recs i ≡ some r
    → s.id ≡ r.id
    → ids_of (set recs i s) ≡ ids_of recs
ids_of-set [] i r s at same = refl
ids_of-set (q ∷ recs) zero r s at same =
    let is : q ≡ r = some_injective q r at in rw (same, is) refl
ids_of-set (q ∷ recs) (suc i) r s at same = rw (ids_of-set recs i r s at same) refl

-- The records with a new one.
abbrev pub with_new : List Rec → Rec → List Rec
with_new recs r = recs ++ r ∷ []

new_cases :
    (recs : List Rec) (n : Rec) (p : ℕ) (r : Rec)
    → get_elem? (with_new recs n) p ≡ some r
    → (get_elem? recs p ≡ some r) ⊎ ((p ≡ length recs) × (n ≡ r))
new_cases [] n zero r at = inr (refl, some_injective n r at)
new_cases [] n (suc p) r at = cc
new_cases (q ∷ recs) n zero r at = inl at
new_cases (q ∷ recs) n (suc p) r at = elim (new_cases recs n p r at) [
  | inl old ↦ inl old
  | inr (is, same) ↦ inr (ap suc is, same)
]

pub AreRecords-new :
    (recs : List Rec) (n : Rec)
    → AreRecords recs
    → IsUid n.id
    → n.next ≡ none
    → AreRecords (with_new recs n)
AreRecords-new recs n are_records is_uid ends p r at = elim (new_cases recs n p r at) [
  | inl old ↦
      let (uid, chain) = are_records p r old in
      (
        uid,
        λ j to.
            let (later, inside) = chain j to in (later, omega (arith, length-append recs (n ∷ []))),
      )
  | inr (is, same) ↦ (
    rw (← same) is_uid,
    λ j to. let no : none ≡ some j = sym ends ∙ ap (λ x. x.next) same ∙ to in cc,
  )
]

pub KeepsIds-new : (recs : List Rec) (n : Rec) → KeepsIds recs (with_new recs n)
KeepsIds-new recs n p r at =
    (r, get_elem?-append_left recs (n ∷ []) p (get_elem?_lt recs p r at) ∙ at, refl)

pub ids_of-new : (recs : List Rec) (n : Rec) → ids_of (with_new recs n) ≡ ids_of recs ++ n.id ∷ []
ids_of-new recs n = map-append recs (n ∷ [])

pub AreChains-new :
    (recs : List Rec) (n : Rec) → AreRecords recs → AreChains (with_new recs n) (length recs)
AreChains-new recs n are_records p r at lt = elim (new_cases recs n p r at) [
  | inl old ↦ (are_records p r old).1
  | inr (is, _) ↦ absurd (omega arith)
]

AreRecords-set :
    (recs : List Rec) (k m : ℕ) (r : Rec)
    → AreRecords recs
    → get_elem? recs k ≡ some r
    → k < m
    → m < length recs
    → AreRecords (set recs k (record r { next = some m }))
AreRecords-set recs k m r are_records at before inside p q q_at =
    let s = record r { next = some m } in
    let longer = length-set recs k s in
    elim (Bool-cases (k == p)) [
      | inl here ↦
          let kp : k ≡ p = ground arith in
          let sq : s ≡ q = some_injective s q (
            sym (get_elem?-set_self recs k s (get_elem?_lt recs k r at))
            ∙ ap (get_elem? (set recs k s)) kp
            ∙ q_at) in
          rw (← sq) (
            (are_records k r at).0,
            λ j to.
                let mj = some_injective m j to in
                (omega (arith, mj, kp), omega (arith, longer, mj)),
          )
      | inr other ↦
          let old = sym (get_elem?-set_ne recs s (λ kp. ground arith)) ∙ q_at in
          let (uid, chain) = are_records p q old in
          (uid, λ j to. let (later, among) = chain j to in (later, omega (arith, longer)))
    ]

-- `append_to_list` puts the record at `m` at the end of the list of an older one.
pub append_to_list-AreRecords :
    (db : UidDb) (m first : ℕ)
    → AreRecords db.records
    → AreChains db.records m
    → m < length db.records
    → first < m
    → (new : UidDb) × (append_to_list db first m ≡ some new)
      × (new.pat_root ≡ db.pat_root)
      × (new.pat_nodes ≡ db.pat_nodes)
      × (ids_of new.records ≡ ids_of db.records)
      × KeepsIds db.records new.records
      × AreRecords new.records
unfolding append_to_list
append_to_list-AreRecords db m first are_records chains inside lt =
    let recs = db.records in
    let (k, is, k_lt) =
      list_end-AreChains (length recs) recs m first chains (omega arith) lt (omega arith) in
    let (r, at) = get_elem?-some recs k (omega arith) in
    let s = record r { next = some m } in
    (
      record db { records = set recs k s },
      rw (is, ◌>>=◌, at, ◌>>=◌) refl,
      refl,
      refl,
      ids_of-set recs k r s at refl,
      KeepsWhat-set (λ x. x.id) recs k r s at refl,
      AreRecords-set recs k m r are_records at k_lt inside,
    )
