-- ===== src/Md5.antt =====
-- md5c.c: the MD5 digest. Memory is little-endian, where `byteReverse` changes nothing; the words
-- of a block are read as it puts them together. `unsigned` and `uint32_t` have 32 bits.

pub mod Bits
pub mod Hex
pub mod Padding
pub mod Pieces
pub mod Rfc
use fetchmail.Prelude.{
  ℕ, zero, suc, ◌+◌, ◌-◌, ◌*◌, ◌/◌, ◌%◌, ◌^◌, ◌≤◌, ◌<◌, bit_and, bit_or, bit_xor, ◌≡◌, refl, sym,
  ap, ◌∙◌, ◌≢◌, ◌↔◌, ◌⊎◌, inl, inr, Bool, true, false, not, ◌&&◌, ◌||◌, Option, none, some, List,
  [], ◌∷◌, ◌++◌, map, append_assoc, append-nil, arith, ltb, leb, ◌==◌, if◌then◌else◌, ltb→lt,
  lt→ltb, leb→le, ==_iff, tests, Bool-cases, Option-cases, bind_inv, ◌>>=◌, length, get_elem?, set,
  length-append, length-set, get_or, take, drop, replicate, length-replicate, length-map,
  take-append-drop, length-take, length-drop, get_elem?-append_left, get_elem?-append_right,
  get_elem?-replicate, take_all, get_elem?-set_self, get_elem?-set_ne, Bytes, codes, peek, next,
  All, All-append, Lacks, NoNul, ==_ne, IsByte, contains, is_space, to_lower, str_eq, str_case_eq,
  has_case_prefix, starts_with, str_eq_sound, str_eq_refl, every, every_lem,
}

-- `buf`, or the variables a, b, c, d in the roles w, x, y, z of a step.
pub record Quad : Type 0 where
  pub w : ℕ
  pub x : ℕ
  pub y : ℕ
  pub z : ℕ

-- `buf` and `u.in` of `struct MD5Context`.
pub record Block : Type 0 where
  pub buf : Quad
  pub input : Bytes

-- `struct MD5Context`, with `bits[0]` and `bits[1]`.
pub record Ctx : Type 0 where
  pub block : Block
  pub lo : ℕ
  pub hi : ℕ

abbrev pub m32 : ℕ
m32 = 2 ^ 32

abbrev pub f1 : ℕ → ℕ → ℕ → ℕ
f1 x y z = bit_xor z (bit_and x (bit_xor y z))

abbrev pub f2 : ℕ → ℕ → ℕ → ℕ
f2 x y z = f1 z x y

abbrev pub f3 : ℕ → ℕ → ℕ → ℕ
f3 x y z = bit_xor (bit_xor x y) z

-- `~z` flips the 32 bits.
abbrev pub f4 : ℕ → ℕ → ℕ → ℕ
f4 x y z = bit_xor y (bit_or x (bit_xor z (m32 - 1)))

-- `w<<s | w>>(32-s)`.
abbrev pub rotate : ℕ → ℕ → ℕ
rotate v s = bit_or ((v * 2 ^ s) % m32) (v / 2 ^ (32 - s))

-- `MD5STEP`, after which the last variable has the first role.
unfoldable pub md5_step : (ℕ → ℕ → ℕ → ℕ) → Quad → ℕ → ℕ → Quad
md5_step f q word s = record {
  w = q.z;
  x = (rotate ((q.w + f q.x q.y q.z + word) % m32) s + q.x) % m32;
  y = q.x;
  z = q.y;
}

-- The steps with one function: for each the word, the constant and the distance.
unfoldable pub md5_steps : (ℕ → ℕ → ℕ → ℕ) → List ℕ → List (ℕ × ℕ × ℕ) → Quad → Quad
unfolding md5_step
md5_steps f words [] q = q
md5_steps f words ((i, k, s) ∷ rows) q =
    md5_steps f words rows (md5_step f q ((get_or words i 0 + k) % m32) s)

abbrev pub steps_1 : List (ℕ × ℕ × ℕ)
steps_1 =
    (0, 0xd76aa478, 7)
    ∷ (1, 0xe8c7b756, 12)
    ∷ (2, 0x242070db, 17)
    ∷ (3, 0xc1bdceee, 22)
    ∷ (4, 0xf57c0faf, 7)
    ∷ (5, 0x4787c62a, 12)
    ∷ (6, 0xa8304613, 17)
    ∷ (7, 0xfd469501, 22)
    ∷ (8, 0x698098d8, 7)
    ∷ (9, 0x8b44f7af, 12)
    ∷ (10, 0xffff5bb1, 17)
    ∷ (11, 0x895cd7be, 22)
    ∷ (12, 0x6b901122, 7)
    ∷ (13, 0xfd987193, 12)
    ∷ (14, 0xa679438e, 17)
    ∷ (15, 0x49b40821, 22)
    ∷ []

abbrev pub steps_2 : List (ℕ × ℕ × ℕ)
steps_2 =
    (1, 0xf61e2562, 5)
    ∷ (6, 0xc040b340, 9)
    ∷ (11, 0x265e5a51, 14)
    ∷ (0, 0xe9b6c7aa, 20)
    ∷ (5, 0xd62f105d, 5)
    ∷ (10, 0x02441453, 9)
    ∷ (15, 0xd8a1e681, 14)
    ∷ (4, 0xe7d3fbc8, 20)
    ∷ (9, 0x21e1cde6, 5)
    ∷ (14, 0xc33707d6, 9)
    ∷ (3, 0xf4d50d87, 14)
    ∷ (8, 0x455a14ed, 20)
    ∷ (13, 0xa9e3e905, 5)
    ∷ (2, 0xfcefa3f8, 9)
    ∷ (7, 0x676f02d9, 14)
    ∷ (12, 0x8d2a4c8a, 20)
    ∷ []

abbrev pub steps_3 : List (ℕ × ℕ × ℕ)
steps_3 =
    (5, 0xfffa3942, 4)
    ∷ (8, 0x8771f681, 11)
    ∷ (11, 0x6d9d6122, 16)
    ∷ (14, 0xfde5380c, 23)
    ∷ (1, 0xa4beea44, 4)
    ∷ (4, 0x4bdecfa9, 11)
    ∷ (7, 0xf6bb4b60, 16)
    ∷ (10, 0xbebfbc70, 23)
    ∷ (13, 0x289b7ec6, 4)
    ∷ (0, 0xeaa127fa, 11)
    ∷ (3, 0xd4ef3085, 16)
    ∷ (6, 0x04881d05, 23)
    ∷ (9, 0xd9d4d039, 4)
    ∷ (12, 0xe6db99e5, 11)
    ∷ (15, 0x1fa27cf8, 16)
    ∷ (2, 0xc4ac5665, 23)
    ∷ []

abbrev pub steps_4 : List (ℕ × ℕ × ℕ)
steps_4 =
    (0, 0xf4292244, 6)
    ∷ (7, 0x432aff97, 10)
    ∷ (14, 0xab9423a7, 15)
    ∷ (5, 0xfc93a039, 21)
    ∷ (12, 0x655b59c3, 6)
    ∷ (3, 0x8f0ccc92, 10)
    ∷ (10, 0xffeff47d, 15)
    ∷ (1, 0x85845dd1, 21)
    ∷ (8, 0x6fa87e4f, 6)
    ∷ (15, 0xfe2ce6e0, 10)
    ∷ (6, 0xa3014314, 15)
    ∷ (13, 0x4e0811a1, 21)
    ∷ (4, 0xf7537e82, 6)
    ∷ (11, 0xbd3af235, 10)
    ∷ (2, 0x2ad7d2bb, 15)
    ∷ (9, 0xeb86d391, 21)
    ∷ []

-- `MD5Transform`.
unfoldable pub md5_transform : Quad → List ℕ → Quad
unfolding md5_steps
md5_transform buf words =
    let r_1 = md5_steps f1 words steps_1 buf in
    let r_2 = md5_steps f2 words steps_2 r_1 in
    let r_3 = md5_steps f3 words steps_3 r_2 in
    let r_4 = md5_steps f4 words steps_4 r_3 in
    record {
      w = (buf.w + r_4.w) % m32;
      x = (buf.x + r_4.x) % m32;
      y = (buf.y + r_4.y) % m32;
      z = (buf.z + r_4.z) % m32;
    }

-- `byteReverse`: the words of a buffer.
unfoldable pub words_of : Bytes → List ℕ
words_of (a ∷ b ∷ c ∷ d ∷ s) =
    bit_or (bit_or (d * 2 ^ 8) c * 2 ^ 16) (bit_or (b * 2 ^ 8) a) ∷ words_of s
words_of _ = []

-- `memmove` to the start of a buffer, and to a place in it.
unfoldable pub over : Bytes → Bytes → Bytes
over u [] = u
over [] (c ∷ s) = []
over (x ∷ u) (c ∷ s) = c ∷ over u s

unfoldable pub blit : Bytes → ℕ → Bytes → Bytes
unfolding over
blit u zero s = over u s
blit [] (suc t) s = []
blit (x ∷ u) (suc t) s = x ∷ blit u t s

-- The buffer is full: `byteReverse(ctx->u.in, 16); MD5Transform(ctx->buf, ctx->u.in32)`.
unfoldable pub absorb : Block → Block
absorb k = record k { buf = md5_transform k.buf (words_of k.input) }

-- The bytes in the buffer.
abbrev pub count : ℕ → ℕ
count lo = lo / 8 % 64

-- The loop on chunks of 64 bytes and what remains; the length is fuel enough.
unfoldable pub chunks : ℕ → Bytes → Block → Block
unfolding absorb blit
chunks zero s k = k
chunks (suc fuel) s k = elim (leb 64 (length s)) [
  | true ↦ chunks fuel (drop 64 s) (absorb (record k { input = blit k.input 0 (take 64 s) }))
  | false ↦ record k { input = blit k.input 0 s }
]

-- The part of `MD5Update` behind the count of bits.
unfoldable pub update_block : ℕ → Bytes → Block → Block
unfolding chunks absorb blit
update_block t s k =
    if t == 0
    then chunks (suc (length s)) s k
    else if ltb (length s) (64 - t)
    then record k { input = blit k.input t s }
    else let full = absorb (record k { input = blit k.input t (take (64 - t) s) }) in
      chunks (suc (length s)) (drop (64 - t) s) full

-- `MD5Init`, which leaves the buffer as it is.
unfoldable pub md5_init : Bytes → Ctx
md5_init input = record {
  block = record {
    buf = record { w = 0x67452301; x = 0xefcdab89; y = 0x98badcfe; z = 0x10325476 };
    input = input;
  };
  lo = 0;
  hi = 0;
}

-- `MD5Update`.
unfoldable pub md5_update : Ctx → Bytes → Ctx
unfolding update_block
md5_update ctx s =
    let len = length s in
    let lo = (ctx.lo + (len * 8) % m32) % m32 in
    let carried = if ltb lo ctx.lo then (ctx.hi + 1) % m32 else ctx.hi in
    record {
      block = update_block (count ctx.lo) s ctx.block;
      lo = lo;
      hi = (carried + len / 2 ^ 29) % m32;
    }

-- A word in memory.
abbrev pub store : ℕ → Bytes
store v = v % 256 ∷ v / 256 % 256 ∷ v / 65536 % 256 ∷ v / 16777216 % 256 ∷ []

abbrev pub store_quad : Quad → Bytes
store_quad q = store q.w ++ store q.x ++ store q.y ++ store q.z

-- The padding of `MD5Final`: the block whose first 56 bytes are ready.
unfoldable pub pad : ℕ → Block → Block
unfolding absorb blit
pad n k =
    let marked = blit k.input n (0x80 ∷ []) in
    let left = 64 - 1 - n in
    let full = absorb (record k { input = blit marked (n + 1) (replicate left 0) }) in
    if ltb left 8
    then record full { input = blit full.input 0 (replicate 56 0) }
    else record k { input = blit marked (n + 1) (replicate (left - 8) 0) }

-- `MD5Final`: the digest. `in32[14]` and `in32[15]` are the count of bits.
unfoldable pub md5_final : Ctx → Bytes
unfolding pad md5_transform words_of
md5_final ctx =
    let k = pad (count ctx.lo) ctx.block in
    store_quad (md5_transform k.buf (take 14 (words_of k.input) ++ ctx.lo ∷ ctx.hi ∷ []))
