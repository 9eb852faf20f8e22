-- ===== src/UidDb/Trie/Tree.antt =====
-- uid_db.c: the abstract trie. A tree holds the identifiers at its tips; a fork tests one bit of an
-- identifier, and has a subtree for each value of the bit. `nil` is the missing left edge of the
-- first node; it stands for the identifier with no bit set.
use fetchmail.Prelude.{
  ℕ, ◌<◌, ◌≡◌, refl, sym, ◌≢◌, ◌⊎◌, inl, inr, Bool, true, false, not, [], ltb, if◌then◌else◌, Bytes,
}
use fetchmail.UidDb.Trie.{bit_set}

pub data Trie : Type 0 where
  nil : Trie
  tip : ℕ → ℕ → Bytes → Trie
  fork : ℕ → ℕ → (Bool → Trie) → Trie

abbrev pub id_of : Trie → Bytes
id_of nil = []
id_of (tip t rec id) = id
id_of (fork i c ch) = []

abbrev pub same : Bool → Bool → Bool
same true b = b
same false b = not b

pub same_refl : (b : Bool) → same b b ≡ true
same_refl true = refl
same_refl false = refl

pub same_sound : (b a : Bool) → same b a ≡ true → a ≡ b
same_sound true a e = e
same_sound false true e = cc
same_sound false false e = refl

pub same-not : (b : Bool) → same b (not b) ≡ false
same-not true = refl
same-not false = refl

pub not_same : (b : Bool) → b ≢ not b
not_same true e = cc
not_same false e = cc

pub same_cases : (a b : Bool) → (a ≡ b) ⊎ ((same b a ≡ false) × (a ≡ not b))
same_cases true true = inl refl
same_cases false false = inl refl
same_cases true false = inr (refl, refl)
same_cases false true = inr (refl, refl)

-- The subtrees, with one put for the value `b`.
abbrev pub put : Bool → Trie → (Bool → Trie) → Bool → Trie
put b s ch a = if same b a then s else ch a

-- The end of the path of an identifier.
abbrev pub lookup : Bytes → Trie → Trie
lookup id nil = nil
lookup id (tip t rec k) = tip t rec k
lookup id (fork i c ch) = lookup id (ch (bit_set c id))

-- The tree with a new fork at the bit `d` on the path of `id`, above the first fork behind that bit.
abbrev pub split : ℕ → Bytes → ℕ → ℕ → Trie → Trie
split d id me pos s = fork me d (put (bit_set d id) (tip me pos id) (λ _. s))

abbrev pub graft : ℕ → Bytes → ℕ → ℕ → Trie → Trie
graft d id me pos nil = split d id me pos nil
graft d id me pos (tip t rec k) = split d id me pos (tip t rec k)
graft d id me pos (fork i c ch) =
    let rest = graft d id me pos (ch (bit_set c id)) in
    if ltb d c then split d id me pos (fork i c ch) else fork i c (put (bit_set c id) rest ch)

-- Some end of a path is as `Q` says.
abbrev pub HasEnd : (Trie → Type 0) → Trie → Type 0
HasEnd Q nil = Q nil
HasEnd Q (tip t rec k) = Q (tip t rec k)
HasEnd Q (fork i c ch) = (b : Bool) × HasEnd Q (ch b)

-- The tree holds the identifier; and it does so at a tip, with that record.
abbrev pub HasId : Trie → Bytes → Type 0
HasId s id = HasEnd (λ e. id ≡ id_of e) s

abbrev pub IsTip : ℕ → Bytes → Trie → Type 0
IsTip pos id nil = ⊥
IsTip pos id (tip t rec k) = (pos ≡ rec) × (id ≡ k)
IsTip pos id (fork i c ch) = ⊥

abbrev pub HasTip : Trie → ℕ → Bytes → Type 0
HasTip s pos id = HasEnd (IsTip pos id) s

abbrev pub AgreeBelow : ℕ → Bytes → Bytes → Type 0
AgreeBelow d a b = (j : ℕ) → j < d → bit_set j a ≡ bit_set j b

-- A fork parts the identifiers that it holds by its bit, and they agree on the bits before it.
abbrev pub IsParted : Trie → Type 0
IsParted nil = Unit
IsParted (tip t rec k) = Unit
IsParted (fork i c ch) =
    ((b : Bool) → IsParted (ch b))
    × ((b : Bool) (id : Bytes) → HasId (ch b) id → bit_set c id ≡ b)
    × ((a b : Bytes) → HasId (fork i c ch) a → HasId (fork i c ch) b → AgreeBelow c a b)

-- The identifier at the end of a path is one of the tree's.
pub HasId-lookup : (id : Bytes) (s : Trie) → HasId s (id_of (lookup id s))
HasId-lookup id nil = refl
HasId-lookup id (tip t rec k) = refl
HasId-lookup id (fork i c ch) = (bit_set c id, HasId-lookup id (ch (bit_set c id)))

-- An identifier of the tree is at the end of its path.
pub lookup-HasId : (id : Bytes) (s : Trie) → IsParted s → HasId s id → id_of (lookup id s) ≡ id
lookup-HasId id nil parted has = sym has
lookup-HasId id (tip t rec k) parted has = sym has
lookup-HasId id (fork i c ch) (kids, sides, agree) (b, has) =
    rw (sides b id has) (lookup-HasId id (ch b) (kids b) has)
