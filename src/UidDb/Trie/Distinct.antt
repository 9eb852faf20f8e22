-- ===== src/UidDb/Trie/Distinct.antt =====
-- uid_db.c: the nodes of the abstract trie are different ones, and a new fork adds one.
use fetchmail.Prelude.{
  ℕ, suc, ◌+◌, ◌≡◌, refl, sym, ◌∙◌, ◌⊎◌, inl, inr, Bool, true, false, not, arith, ltb, Bool-cases,
  Bytes,
}
use fetchmail.UidDb.Trie.{bit_set}
use fetchmail.UidDb.Trie.Tree.{
  Trie, nil, tip, fork, same_refl, same_cases, put, split, graft, not_same,
}
use fetchmail.UidDb.Trie.Heap.{forks}
use fetchmail.UidDb.Trie.Climb.{In, AreDistinct}

In-put :
    (b : Bool) (x : Trie) (ch : Bool → Trie) (a : Bool) (j : ℕ)
    → In j (put b x ch a)
    → (In j x × (a ≡ b)) ⊎ (In j (ch a) × (a ≡ not b))
In-put b x ch a j has = elim (same_cases a b) [
  | inl e ↦ inl (rw (e, same_refl b) at has, e)
  | inr (other, e) ↦ inr (rw other at has, e)
]

not-not : (b : Bool) → not (not b) ≡ b
not-not true = refl
not-not false = refl

-- A subtree is put in place of one that has the same nodes, and perhaps `me`.
AreDistinct-put :
    (me i c : ℕ) (b : Bool) (x : Trie) (ch : Bool → Trie)
    → AreDistinct x
    → ((a : Bool) → AreDistinct (ch a))
    → ¬ In i x
    → ((a : Bool) → ¬ In i (ch a))
    → ((j : ℕ) → In j x → ¬ In j (ch (not b)))
    → AreDistinct (fork i c (put b x ch))
AreDistinct-put me i c b x ch distinct kids new old apart = (
  λ a. elim (same_cases a b) [
    | inl e ↦ rw (e, same_refl b) distinct
    | inr (other, e) ↦ rw other (kids a)
  ],
  λ a has. elim (In-put b x ch a i has) [ inl (has', e) ↦ new has' | inr (has', e) ↦ old a has' ],
  λ a j has has'. elim (In-put b x ch a j has) [
    | inl (in_x, e) ↦ elim (In-put b x ch (not a) j has') [
      | inl (_, e') ↦ absurd (not_same a (e ∙ sym e'))
      | inr (in_ch, e') ↦ apart j in_x (rw e' at in_ch)
    ]
    | inr (in_ch, e) ↦ elim (In-put b x ch (not a) j has') [
      | inl (in_x, e') ↦ apart j in_x (rw e at in_ch)
      | inr (_, e') ↦ absurd (not_same a (e ∙ sym e'))
    ]
  ],
)

module _ (d : ℕ) (id : Bytes) (me pos : ℕ) where
  In-split : (s : Trie) (j : ℕ) → In j (split d id me pos s) → In j s ⊎ (j ≡ me)
  In-split s j (inl e) = inr (sym e)
  In-split s j (inr (b, has)) = elim (In-put (bit_set d id) (tip me pos id) (λ _. s) b j has) [
    | inl (has', e) ↦ absurd has'
    | inr (has', e) ↦ inl has'
  ]

  In-graft : (s : Trie) (j : ℕ) → In j (graft d id me pos s) → In j s ⊎ (j ≡ me)
  In-graft nil j has = In-split nil j has
  In-graft (tip t p k) j has = In-split (tip t p k) j has
  In-graft (fork i c ch) j has = elim (Bool-cases (ltb d c)) [
    | inl e ↦ In-split (fork i c ch) j (rw e at has)
    | inr e ↦
        let deep : In j (fork i c (put (bit_set c id) (graft d id me pos (ch (bit_set c id))) ch)) =
          rw e at has in
        elim deep [
          | inl is ↦ inl (inl is)
          | inr (a, has') ↦
              elim (In-put (bit_set c id) (graft d id me pos (ch (bit_set c id))) ch a j has') [
                | inr (old, _) ↦ inl (inr (a, old))
                | inl (new, _) ↦ elim (In-graft (ch (bit_set c id)) j new) [
                  | inl old ↦ inl (inr (bit_set c id, old))
                  | inr it ↦ inr it
                ]
              ]
        ]
  ]

  AreDistinct-split : (s : Trie) → AreDistinct s → ¬ In me s → AreDistinct (split d id me pos s)
  AreDistinct-split s distinct new =
      AreDistinct-put me me d (bit_set d id) (tip me pos id) (λ _. s) tt (λ _. distinct) (λ e. e)
        (λ _. new) (λ j e. absurd e)

  pub AreDistinct-graft : (s : Trie) → AreDistinct s → ¬ In me s → AreDistinct (graft d id me pos s)
  AreDistinct-graft nil distinct new = AreDistinct-split nil tt new
  AreDistinct-graft (tip t p k) distinct new = AreDistinct-split (tip t p k) tt new
  AreDistinct-graft (fork i c ch) (kids, root, apart) new = elim (Bool-cases (ltb d c)) [
    | inl e ↦ rw e (AreDistinct-split (fork i c ch) (kids, root, apart) new)
    | inr e ↦ rw e (
        AreDistinct-put me i c (bit_set c id) (graft d id me pos (ch (bit_set c id))) ch
          (AreDistinct-graft (ch (bit_set c id)) (kids (bit_set c id))
            (λ has. new (inr (bit_set c id, has))))
          kids
          (λ has. elim (In-graft (ch (bit_set c id)) i has) [
            | inl old ↦ root (bit_set c id) old
            | inr it ↦ new (inl it)
          ])
          root
          (λ j has other. elim (In-graft (ch (bit_set c id)) j has) [
            | inl old ↦ apart (bit_set c id) j old other
            | inr it ↦ new (inr (not (bit_set c id), rw it at other))
          ]))
  ]

  forks-put :
      (b : Bool) (x : Trie) (ch : Bool → Trie)
      → forks (put b x ch true) + forks (put b x ch false) + forks (ch b)
        ≡ forks x + forks (ch true) + forks (ch false)
  forks-put true x ch = omega arith
  forks-put false x ch = omega arith

  forks-split : (s : Trie) → forks (split d id me pos s) ≡ suc (forks s)
  forks-split s = omega (arith, forks-put (bit_set d id) (tip me pos id) (λ _. s))

  pub forks-graft : (s : Trie) → forks (graft d id me pos s) ≡ suc (forks s)
  forks-graft nil = forks-split nil
  forks-graft (tip t p k) = forks-split (tip t p k)
  forks-graft (fork i c ch) = elim (Bool-cases (ltb d c)) [
    | inl e ↦ rw e (forks-split (fork i c ch))
    | inr e ↦
        let put_x = forks-put (bit_set c id) (graft d id me pos (ch (bit_set c id))) ch in
        let deep = forks-graft (ch (bit_set c id)) in rw e (omega arith)
  ]
