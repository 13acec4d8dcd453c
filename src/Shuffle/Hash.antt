-- ===== src/Shuffle/Hash.antt =====
-- src/common/hash_function.hpp: MurmurHash3 of a byte sequence, scaled to a number of partitions.
-- A 32-bit load takes four bytes, the lowest first (a little-endian machine).
use m3bp.Prelude.{
  ℕ, ◌+◌, ◌-◌, ◌*◌, ◌/◌, ◌%◌, ◌^◌, ◌<◌, ◌≤◌, ◌≡◌, Option, none, some, List, [], ◌∷◌, arith, leb,
  if◌then◌else◌, bit_or, bit_xor, length, word,
}
use m3bp.Prelude.Words.{bit_xor-lt}

abbrev pub u32 : ℕ
u32 = 2 ^ 32

abbrev mul32 : ℕ → ℕ → ℕ
mul32 a b = (a * b) % u32

-- `(x << k) | (x >> (32 - k))`.
abbrev rotl : ℕ → ℕ → ℕ
rotl x k = bit_or ((x * 2 ^ k) % u32) (x / 2 ^ (32 - k))

unfoldable pub scramble : ℕ → ℕ
scramble k1 = mul32 (rotl (mul32 k1 0xcc9e2d51) 15) 0x1b873593

-- One round of the loop over the blocks.
unfoldable pub mix_block : ℕ → ℕ → ℕ
mix_block h1 block = (mul32 (rotl (bit_xor h1 (scramble block)) 13) 5 + 0xe6546b64) % u32

-- The switch on the bytes that are left, at most three, each case falling through to the next.
unfoldable pub mix_tail : ℕ → List ℕ → ℕ
mix_tail h1 [] = h1
mix_tail h1 (a ∷ []) = bit_xor h1 (scramble (bit_xor 0 a))
mix_tail h1 (a ∷ b ∷ []) = bit_xor h1 (scramble (bit_xor (bit_xor 0 (b * 2 ^ 8)) a))
mix_tail h1 (a ∷ b ∷ c ∷ rest) =
    bit_xor h1 (scramble (bit_xor (bit_xor (bit_xor 0 (c * 2 ^ 16)) (b * 2 ^ 8)) a))

-- The blocks of four bytes, then the tail.
unfoldable pub mix_all : ℕ → List ℕ → ℕ
unfolding scramble mix_block mix_tail
mix_all h1 (a ∷ b ∷ c ∷ d ∷ rest) =
    mix_all (mix_block h1 (a + b * 2 ^ 8 + c * 2 ^ 16 + d * 2 ^ 24)) rest
mix_all h1 tail = mix_tail h1 tail

unfoldable pub finalize : ℕ → ℕ → ℕ
finalize h1 length =
    let a = bit_xor h1 (length % u32) in
    let b = mul32 (bit_xor a (a / 2 ^ 16)) 0x85ebca6b in
    let c = mul32 (bit_xor b (b / 2 ^ 13)) 0xc2b2ae35 in bit_xor c (c / 2 ^ 16)

unfoldable pub hash_byte_sequence : List ℕ → ℕ → Option ℕ
hash_byte_sequence bytes modulo =
    if leb modulo 0xffffffff
    then some ((finalize (mix_all 0x7a2be187 bytes) (length bytes) * modulo) % word / 2 ^ 32)
    else none

finalize-lt : (h1 n : ℕ) → finalize h1 n < u32
unfolding finalize
finalize-lt h1 n = bit_xor-lt 32 _ _ (omega arith) (omega arith)

scaled-lt :
    (h modulo : ℕ) → h < u32 → 0 < modulo → modulo < u32 → (h * modulo) % word / 2 ^ 32 < modulo
scaled-lt h modulo a b c =
    let t : h * modulo + modulo ≤ u32 * modulo = grind arith in omega (arith, t)

-- With at least one partition and fewer than 2 ^ 32, the hash of any bytes is one of them.
pub hash_byte_sequence-lt :
    (bytes : List ℕ) (modulo : ℕ)
    → 0 < modulo
    → modulo < u32
    → (p : ℕ) × (hash_byte_sequence bytes modulo ≡ some p) × (p < modulo)
unfolding hash_byte_sequence
hash_byte_sequence-lt bytes modulo h g =
    let hashed = finalize (mix_all 0x7a2be187 bytes) (length bytes) in
    (
      (hashed * modulo) % word / 2 ^ 32,
      ground arith,
      scaled-lt hashed modulo (finalize-lt _ (length bytes)) h g,
    )
