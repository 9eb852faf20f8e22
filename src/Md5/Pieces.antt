-- ===== src/Md5/Pieces.antt =====
-- `MD5Update` against a digest that takes one byte after the other.
use fetchmail.Prelude.{
  ℕ, zero, suc, ◌+◌, ◌-◌, ◌*◌, ◌/◌, ◌%◌, ◌^◌, ◌≤◌, ◌<◌, ◌≡◌, refl, sym, ap, ◌∙◌, inl, inr, Bool,
  true, false, [], ◌∷◌, ◌++◌, arith, ltb, leb, ◌==◌, if◌then◌else◌, ltb→lt, leb→le, ==_iff,
  Bool-cases, length, length-append, take, drop, take-append-drop, length-take, length-drop, Bytes,
}
use fetchmail.Md5.{m32, Block, Ctx, over, blit, absorb, count, chunks, update_block, md5_update}

-- One byte is stored, and a full buffer is absorbed.
unfoldable pub feed : ℕ → ℕ → Block → Block
unfolding absorb blit
feed t c k =
    let stored = record k { input = blit k.input t (c ∷ []) } in
    if t == 63 then absorb stored else stored

-- All bytes of a string, the first at `t`.
unfoldable pub feeds : ℕ → Bytes → Block → Block
unfolding feed
feeds t [] k = k
feeds t (c ∷ s) k = feeds ((t + 1) % 64) s (feed t c k)

length-over : (u s : Bytes) → length (over u s) ≡ length u
unfolding over
length-over u [] = refl
length-over [] (c ∷ s) = refl
length-over (x ∷ u) (c ∷ s) = ap suc (length-over u s)

pub length-blit : (u : Bytes) (t : ℕ) (s : Bytes) → length (blit u t s) ≡ length u
unfolding blit
length-blit u zero s = length-over u s
length-blit [] (suc t) s = refl
length-blit (x ∷ u) (suc t) s = ap suc (length-blit u t s)

pub blit-nil : (u : Bytes) (t : ℕ) → blit u t [] ≡ u
unfolding blit over
blit-nil u zero = refl
blit-nil [] (suc t) = refl
blit-nil (x ∷ u) (suc t) = ap (◌∷◌ x) (blit-nil u t)

-- What is stored in two pieces.
pub blit-blit :
    (u : Bytes) (t : ℕ) (c : ℕ) (s : Bytes) → blit (blit u t (c ∷ [])) (suc t) s ≡ blit u t (c ∷ s)
unfolding blit over
blit-blit [] zero c s = refl
blit-blit (x ∷ u) zero c s = refl
blit-blit [] (suc t) c s = refl
blit-blit (x ∷ u) (suc t) c s = ap (◌∷◌ x) (blit-blit u t c s)

-- A piece that does not fill the buffer.
pub feeds_short :
    (t : ℕ) (s : Bytes) (k : Block)
    → t + length s < 64
    → feeds t s k ≡ record k { input = blit k.input t s }
unfolding feeds
feeds_short t [] k h = rw (blit-nil k.input t)
feeds_short t (c ∷ s) k h =
    let at : (t + 1) % 64 ≡ suc t = omega arith in
    let stored : feed t c k ≡ record k { input = blit k.input t (c ∷ []) } =
      unfold feed in ground arith in
    rw (
      at,
      stored,
      feeds_short (suc t) s (record k { input = blit k.input t (c ∷ []) }) (omega arith),
      blit-blit k.input t c s,
    )

-- A piece that fills it.
pub feeds_full :
    (t : ℕ) (c : ℕ) (s : Bytes) (k : Block)
    → t + suc (length s) ≡ 64
    → feeds t (c ∷ s) k ≡ absorb (record k { input = blit k.input t (c ∷ s) })
unfolding feeds
feeds_full t c [] k h = let at : t ≡ 63 = omega arith in unfold feed in rw at refl
feeds_full t c (d ∷ s) k h =
    let at : (t + 1) % 64 ≡ suc t = omega arith in
    let stored : feed t c k ≡ record k { input = blit k.input t (c ∷ []) } =
      unfold feed in ground arith in
    rw (at, stored)
      (feeds_full (suc t) d s (record k { input = blit k.input t (c ∷ []) }) (omega arith)
        ∙ rw (blit-blit k.input t c (d ∷ s)))

pub feeds-append :
    (t : ℕ) (r s : Bytes) (k : Block)
    → t < 64
    → feeds t (r ++ s) k ≡ feeds ((t + length r) % 64) s (feeds t r k)
unfolding feeds
feeds-append t [] s k h = let at : (t + 0) % 64 ≡ t = omega arith in rw at
feeds-append t (c ∷ r) s k h =
    let at : (t + suc (length r)) % 64 ≡ ((t + 1) % 64 + length r) % 64 = omega arith in
    rw at (feeds-append ((t + 1) % 64) r s (feed t c k) (omega arith))

same_room : (b : Bool) (k : Block) → length (if b then absorb k else k).input ≡ length k.input
unfolding absorb
same_room true k = refl
same_room false k = refl

length-feed : (t c : ℕ) (k : Block) → length (feed t c k).input ≡ length k.input
unfolding feed
length-feed t c k = same_room (t == 63) _ ∙ length-blit k.input t (c ∷ [])

pub length-feeds : (t : ℕ) (s : Bytes) (k : Block) → length (feeds t s k).input ≡ length k.input
unfolding feeds
length-feeds t [] k = refl
length-feeds t (c ∷ s) k = length-feeds ((t + 1) % 64) s (feed t c k) ∙ length-feed t c k

-- A string that fills the buffer, cut there.
pub feeds_cut :
    (t n : ℕ) (s : Bytes) (k : Block)
    → t < 64
    → n ≡ 64 - t
    → n ≤ length s
    → feeds t s k ≡ feeds 0 (drop n s) (absorb (record k { input = blit k.input t (take n s) }))
feeds_cut t zero s k lt e h = absurd (omega arith)
feeds_cut t (suc n) [] k lt e h = elim h [ ]
feeds_cut t (suc n) (c ∷ s) k lt e h =
    let front : length (take n s) ≡ n = omega (arith, length-take n s) in
    let whole : feeds t (c ∷ s) k ≡ feeds t ((c ∷ take n s) ++ drop n s) k =
      ap (λ r. feeds t (c ∷ r) k) (sym (take-append-drop n s)) in
    let at : (t + suc (length (take n s))) % 64 ≡ 0 = omega arith in
    whole
    ∙ feeds-append t (c ∷ take n s) (drop n s) k lt
    ∙ rw (at, feeds_full t c (take n s) k (omega arith))

chunks-feeds : (fuel : ℕ) (s : Bytes) (k : Block) → length s < fuel → chunks fuel s k ≡ feeds 0 s k
unfolding chunks
chunks-feeds zero s k h = elim h [ ]
chunks-feeds (suc fuel) s k h = elim (Bool-cases (leb 64 (length s))) [
  | inl e ↦
      rw (e, chunks)
        (chunks-feeds fuel (drop 64 s) _ (omega (arith, leb→le 64 (length s) e, length-drop 64 s))
          ∙ sym (feeds_cut 0 64 s k (omega arith) refl (leb→le 64 (length s) e)))
  | inr e ↦ rw (e, chunks) (sym (feeds_short 0 s k (ground arith)))
]

pub update_block-feeds : (t : ℕ) (s : Bytes) (k : Block) → t < 64 → update_block t s k ≡ feeds t s k
unfolding update_block
update_block-feeds t s k lt = elim (Bool-cases (t == 0)) [
  | inl e ↦ rw (e, (==_iff t 0).0 e) (chunks-feeds (suc (length s)) s k (omega arith))
  | inr e ↦ elim (Bool-cases (ltb (length s) (64 - t))) [
    | inl short ↦ rw (e, short) (sym (feeds_short t s k (omega (arith, ltb→lt _ _ short))))
    | inr long ↦
        rw (e, long)
          (chunks-feeds (suc (length s)) (drop (64 - t) s) _ (omega (arith, length-drop (64 - t) s))
            ∙ sym (feeds_cut t (64 - t) s k lt refl (ground arith)))
  ]
]

count-md5_update : (lo n : ℕ) → count ((lo + (n * 8) % m32) % m32) ≡ (count lo + n) % 64
count-md5_update lo n = omega arith

-- The high word of the count.
abbrev high : ℕ → ℕ → ℕ → ℕ
high lo hi n =
    ((if ltb ((lo + (n * 8) % m32) % m32) lo then (hi + 1) % m32 else hi) + n / 2 ^ 29) % m32

high_lem :
    (lo hi n : ℕ) → lo < m32 → hi < m32 → n < m32 → high lo hi n ≡ (hi + (lo + n * 8) / m32) % m32
high_lem lo hi n l h k = elim (Bool-cases (ltb ((lo + (n * 8) % m32) % m32) lo)) [
  | inl e ↦ rw e (omega (arith, ltb→lt _ _ e))
  | inr e ↦ let le : lo ≤ (lo + (n * 8) % m32) % m32 = ground arith in rw e (omega arith)
]

high-high :
    (lo hi a b : ℕ)
    → lo < m32
    → hi < m32
    → a + b < m32
    → high ((lo + (a * 8) % m32) % m32) (high lo hi a) b ≡ high lo hi (a + b)
high-high lo hi a b l h k =
    rw (high_lem lo hi a l h (omega arith), high_lem lo hi (a + b) l h k)
      (high_lem ((lo + (a * 8) % m32) % m32) ((hi + (lo + a * 8) / m32) % m32) b (omega arith)
          (omega arith) (omega arith)
        ∙ omega arith)

update_block-append :
    (lo : ℕ) (r s : Bytes) (k : Block)
    → update_block (count ((lo + (length r * 8) % m32) % m32)) s (update_block (count lo) r k)
      ≡ update_block (count lo) (r ++ s) k
update_block-append lo r s k = rw (count-md5_update lo (length r)) (
    rw
      (
        update_block-feeds (count lo) r k (omega arith),
        update_block-feeds (count lo) (r ++ s) k (omega arith),
        update_block-feeds ((count lo + length r) % 64) s (feeds (count lo) r k) (omega arith),
        feeds-append (count lo) r s k (omega arith),
      )
      refl)

abbrev ctx_of : Block → ℕ → ℕ → Ctx
ctx_of k lo hi = record { block = k; lo = lo; hi = hi }

ctx_path :
    {k k' : Block} {l l' h h' : ℕ} → k ≡ k' → l ≡ l' → h ≡ h' → ctx_of k l h ≡ ctx_of k' l' h'
ctx_path p q r = λ i. ctx_of (p i) (q i) (r i)

-- Digesting two pieces of a message one after the other is digesting the message: the context
-- is the same, its count of bits included, if the words of the count have 32 bits and the length
-- of the message is an `unsigned` number.
pub md5_update-append :
    (ctx : Ctx) (r s : Bytes)
    → ctx.lo < m32
    → ctx.hi < m32
    → length r + length s < m32
    → md5_update (md5_update ctx r) s ≡ md5_update ctx (r ++ s)
unfolding md5_update
md5_update-append ctx r s lo hi h =
    let len = length-append r s in
    let low : ((ctx.lo + (length r * 8) % m32) % m32 + (length s * 8) % m32) % m32
        ≡ (ctx.lo + (length (r ++ s) * 8) % m32) % m32 =
      omega (arith, len) in
    let top : high ((ctx.lo + (length r * 8) % m32) % m32) (high ctx.lo ctx.hi (length r))
          (length s)
        ≡ high ctx.lo ctx.hi (length (r ++ s)) =
      high-high ctx.lo ctx.hi (length r) (length s) lo hi h ∙ ap (high ctx.lo ctx.hi) (sym len) in
    ctx_path (update_block-append ctx.lo r s ctx.block) low top
