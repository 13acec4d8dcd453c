-- ===== src/Shuffle/Examples.antt =====
-- The hash of src/common/hash_function.hpp of a few bytes.
use m3bp.Prelude.{ℕ, ◌<◌, ◌≡◌, some, List, [], ◌∷◌, arith}
use m3bp.Shuffle.Hash.{hash_byte_sequence, hash_byte_sequence-lt}

abbrev five_bytes : List ℕ
five_bytes = 104 ∷ 101 ∷ 108 ∷ 108 ∷ 111 ∷ []

hash_byte_sequence-lt_example : (p : ℕ) × (hash_byte_sequence five_bytes 12 ≡ some p) × (p < 12)
hash_byte_sequence-lt_example = hash_byte_sequence-lt five_bytes 12 (omega arith) (omega arith)
