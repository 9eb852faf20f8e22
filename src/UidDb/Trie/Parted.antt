-- ===== src/UidDb/Trie/Parted.antt =====
-- uid_db.c: a new fork, at the first bit in which an identifier differs from that at the end of its
-- path, leaves the identifiers of an abstract trie parted by the bits of the forks.
use fetchmail.Prelude.{
  ℕ, ◌≡◌, refl, sym, ◌∙◌, ◌≢◌, ◌⊎◌, inl, inr, Bool, not, arith, ltb, ltb→lt, tests, Bool-cases,
  Bytes,
}
use fetchmail.UidDb.Trie.{bit_set}
use fetchmail.UidDb.Trie.Tree.{
  not_same, Trie, nil, tip, fork, id_of, same_refl, same_cases, put, lookup, split, graft, HasId,
  AgreeBelow, IsParted, HasId-lookup,
}
use fetchmail.UidDb.Trie.Graft.{HasEnd-graft, HasEnd-put}

AgreeBelow-sym : (d : ℕ) (a b : Bytes) → AgreeBelow d a b → AgreeBelow d b a
AgreeBelow-sym d a b ab j lt = sym (ab j lt)

AgreeBelow-trans : (d : ℕ) (a b c : Bytes) → AgreeBelow d a b → AgreeBelow d b c → AgreeBelow d a c
AgreeBelow-trans d a b c ab bc j lt = ab j lt ∙ bc j lt

module _ (d : ℕ) (id : Bytes) (me pos : ℕ) where
  -- What the split needs of the identifiers behind the fork.
  abbrev Differs : Bytes → Type 0
  Differs a = AgreeBelow d a id × (bit_set d a ≡ not (bit_set d id))

  IsParted-split :
      (s : Trie)
      → IsParted s
      → ((a : Bytes) → HasId s a → Differs a)
      → IsParted (split d id me pos s)
  IsParted-split s parted differ = (
    λ b. elim (same_cases b (bit_set d id)) [
      | inl e ↦ rw (e, same_refl (bit_set d id)) tt
      | inr (other, e) ↦ rw other parted
    ],
    λ b a has. elim (same_cases b (bit_set d id)) [
      | inl e ↦ let it : a ≡ id = rw (e, same_refl (bit_set d id)) at has in rw (it, e) refl
      | inr (other, e) ↦ (differ a (rw other at has)).1 ∙ sym e
    ],
    λ a b has_a has_b.
        AgreeBelow-trans d a id b (near a has_a) (AgreeBelow-sym d b id (near b has_b)),
  )
    where
      near : (a : Bytes) → HasId (split d id me pos s) a → AgreeBelow d a id
      near a (b, has) = elim (same_cases b (bit_set d id)) [
        | inl e ↦ let it : a ≡ id = rw (e, same_refl (bit_set d id)) at has in rw it (λ j lt. refl)
        | inr (other, e) ↦ (differ a (rw other at has)).0
      ]

-- A subtree is put in place of another; it holds the same identifiers, and perhaps `id`.
IsParted-put :
    (id : Bytes) (i c : ℕ) (ch : Bool → Trie) (x : Trie) (w : Bytes)
    → IsParted (fork i c ch)
    → IsParted x
    → ((a : Bytes) → HasId x a → HasId (ch (bit_set c id)) a ⊎ (a ≡ id))
    → HasId (fork i c ch) w
    → AgreeBelow c w id
    → IsParted (fork i c (put (bit_set c id) x ch))
IsParted-put id i c ch x w (kids, sides, agree) parted from has near = (
  λ a. elim (same_cases a (bit_set c id)) [
    | inl at ↦ rw (at, same_refl (bit_set c id)) parted
    | inr (other, at) ↦ rw other (kids a)
  ],
  λ a k has_k. elim (HasEnd-put (λ e. k ≡ id_of e) (bit_set c id) x ch a has_k) [
    | inl (new, at) ↦ elim (from k new) [
      | inl old ↦ sides (bit_set c id) k old ∙ sym at
      | inr it ↦ rw (it, at) refl
    ]
    | inr old ↦ sides a k old
  ],
  λ j k has_j has_k.
      AgreeBelow-trans c j w k (to_end j has_j) (AgreeBelow-sym c k w (to_end k has_k)),
)
  where
    to_end : (k : Bytes) → HasId (fork i c (put (bit_set c id) x ch)) k → AgreeBelow c k w
    to_end k (b, has_k) = elim (HasEnd-put (λ e. k ≡ id_of e) (bit_set c id) x ch b has_k) [
      | inl (new, at) ↦ elim (from k new) [
        | inl old ↦ agree k w (bit_set c id, old) has
        | inr it ↦ rw it (AgreeBelow-sym c w id near)
      ]
      | inr old ↦ agree k w (b, old) has
    ]

module _ (d : ℕ) (id : Bytes) (me pos : ℕ) where
  pub IsParted-graft :
      (s : Trie)
      → IsParted s
      → Differs d id me pos (id_of (lookup id s))
      → IsParted (graft d id me pos s)
  IsParted-graft nil parted differ = IsParted-split d id me pos nil tt (λ a e. rw e differ)
  IsParted-graft (tip t rec k) parted differ =
      IsParted-split d id me pos (tip t rec k) tt (λ a e. rw e differ)
  IsParted-graft (fork i c ch) (kids, sides, agree) (near, apart) =
      let at_end = HasId-lookup id (ch (bit_set c id)) in
      let w = id_of (lookup id (ch (bit_set c id))) in
      elim (Bool-cases (ltb d c)) [
        | inl e ↦ rw e (
            IsParted-split d id me pos (fork i c ch) (kids, sides, agree)
              (λ a has.
                let with_end = agree a w has (bit_set c id, at_end) in
                (
                  λ j lt. with_end j (omega (tests, e)) ∙ near j lt,
                  with_end d (ltb→lt d c e) ∙ apart,
                )))
        | inr e ↦
            let other : c ≢ d = λ eq.
              let side = sides (bit_set c id) w at_end in
              let here : bit_set d id ≡ not (bit_set d id) = cc in not_same (bit_set d id) here in
            rw e (
              IsParted-put id i c ch (graft d id me pos (ch (bit_set c id))) w (kids, sides, agree)
                (IsParted-graft (ch (bit_set c id)) (kids (bit_set c id)) (near, apart))
                (λ a has. HasEnd-graft (λ x. a ≡ id_of x) d id me pos (ch (bit_set c id)) has)
                (bit_set c id, at_end) (λ j lt. near j (ground arith)))
      ]
