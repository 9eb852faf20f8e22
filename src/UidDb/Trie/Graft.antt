-- ===== src/UidDb/Trie/Graft.antt =====
-- uid_db.c: what a new fork in the abstract trie leaves as it was, and what it adds.
use fetchmail.Prelude.{ℕ, ◌≡◌, ◌⊎◌, inl, inr, Bool, not, ltb, Bool-cases, Bytes}
use fetchmail.UidDb.Trie.{bit_set}
use fetchmail.UidDb.Trie.Tree.{
  same_sound, same-not, Trie, nil, tip, fork, same, same_refl, same_cases, put, split, graft,
  HasEnd,
}

module _ (Q : Trie → Type 0) where
  pub HasEnd-put :
      (b : Bool) (x : Trie) (ch : Bool → Trie) (a : Bool)
      → HasEnd Q (put b x ch a)
      → (HasEnd Q x × (a ≡ b)) ⊎ HasEnd Q (ch a)
  HasEnd-put b x ch a has = elim (Bool-cases (same b a)) [
    | inl e ↦ inl (rw e at has, same_sound b a e)
    | inr e ↦ inr (rw e at has)
  ]

  put_new : (b : Bool) (x : Trie) (ch : Bool → Trie) → HasEnd Q x → HasEnd Q (put b x ch b)
  put_new b x ch has = rw (same_refl b) has

  put_kept :
      (b : Bool) (x : Trie) (ch : Bool → Trie)
      → (HasEnd Q (ch b) → HasEnd Q x)
      → (a : Bool) → HasEnd Q (ch a)
      → HasEnd Q (put b x ch a)
  put_kept b x ch more a has = elim (same_cases a b) [
    | inl e ↦ rw (e, same_refl b) (more (rw e at has))
    | inr (other, e) ↦ rw other has
  ]

  module _ (d : ℕ) (id : Bytes) (me pos : ℕ) where
    HasEnd-split : (s : Trie) → HasEnd Q (split d id me pos s) → HasEnd Q s ⊎ Q (tip me pos id)
    HasEnd-split s (b, has) = elim (HasEnd-put (bit_set d id) (tip me pos id) (λ _. s) b has) [
      | inl (e, at) ↦ inr e
      | inr e ↦ inl e
    ]

    split_kept : (s : Trie) → HasEnd Q s → HasEnd Q (split d id me pos s)
    split_kept s has = (not (bit_set d id), rw (same-not (bit_set d id)) has)

    pub HasEnd-graft : (s : Trie) → HasEnd Q (graft d id me pos s) → HasEnd Q s ⊎ Q (tip me pos id)
    HasEnd-graft nil has = HasEnd-split nil has
    HasEnd-graft (tip t rec k) has = HasEnd-split (tip t rec k) has
    HasEnd-graft (fork i c ch) has = elim (Bool-cases (ltb d c)) [
      | inl e ↦ HasEnd-split (fork i c ch) (rw e at has)
      | inr e ↦
          let (b, has') : HasEnd Q
              (fork i c (put (bit_set c id) (graft d id me pos (ch (bit_set c id))) ch)) =
            rw e at has in
          elim (HasEnd-put (bit_set c id) (graft d id me pos (ch (bit_set c id))) ch b has') [
            | inr old ↦ inl (b, old)
            | inl (new, at) ↦ elim (HasEnd-graft (ch (bit_set c id)) new) [
              | inl old ↦ inl (bit_set c id, old)
              | inr it ↦ inr it
            ]
          ]
    ]

    pub graft_kept : (s : Trie) → HasEnd Q s → HasEnd Q (graft d id me pos s)
    graft_kept nil has = split_kept nil has
    graft_kept (tip t rec k) has = split_kept (tip t rec k) has
    graft_kept (fork i c ch) (b, has) = elim (Bool-cases (ltb d c)) [
      | inl e ↦ rw e (split_kept (fork i c ch) (b, has))
      | inr e ↦ rw e (
        b,
        put_kept (bit_set c id) (graft d id me pos (ch (bit_set c id))) ch
            (graft_kept (ch (bit_set c id))) b has,
      )
    ]

    pub graft_new : (s : Trie) → Q (tip me pos id) → HasEnd Q (graft d id me pos s)
    graft_new nil it = (bit_set d id, put_new (bit_set d id) (tip me pos id) (λ _. nil) it)
    graft_new (tip t rec k) it =
        (bit_set d id, put_new (bit_set d id) (tip me pos id) (λ _. tip t rec k) it)
    graft_new (fork i c ch) it = elim (Bool-cases (ltb d c)) [
      | inl e ↦ rw e (bit_set d id, put_new (bit_set d id) (tip me pos id) (λ _. fork i c ch) it)
      | inr e ↦ rw e (
        bit_set c id,
        put_new (bit_set c id) (graft d id me pos (ch (bit_set c id))) ch
            (graft_new (ch (bit_set c id)) it),
      )
    ]
