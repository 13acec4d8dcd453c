-- ===== src/Memory/Records.antt =====
-- The records that a value-only buffer of src/memory/serialized_buffer.hpp holds. Of the buffer the
-- parts that its accessors give: the data, the offsets and the count in the header.
use m3bp.Prelude.{ℕ, zero, suc, ◌+◌, ◌-◌, ◌<◌, ◌≤◌, ◌≡◌, refl, List, [], ◌∷◌, ◌++◌, arith, word}
use m3bp.Prelude.Words.{◌+w◌}
use m3bp.Memory.Arrays.{Array, slice}

pub record ValueBuffer : Type 0 where
  pub record_count : ℕ
  pub values_offsets : Array
  pub values_data : Array

-- `allocate_value_only_buffer`: what was asked for is taken as the extent of the parts; what they
-- held before is an argument.
unfoldable pub new_values :
    (offsets bytes : ℕ → ℕ) → (maximum_record_count total_record_size : ℕ) → ValueBuffer
new_values offsets bytes maximum_record_count total_record_size = record {
  record_count = 0;
  values_offsets = record { size = maximum_record_count +w 1; at = offsets };
  values_data = record { size = total_record_size; at = bytes };
}

-- `n` records from the `i`th on.
abbrev pub records_from : (offsets bytes : ℕ → ℕ) → (i n : ℕ) → List (List ℕ)
records_from offsets bytes i zero = []
records_from offsets bytes i (suc n) =
    slice bytes (offsets i) (offsets (i + 1) - offsets i) ∷ records_from offsets bytes (i + 1) n

unfoldable pub records : ValueBuffer → List (List ℕ)
records b = records_from b.values_offsets.at b.values_data.at 0 b.record_count

-- The offsets ascend, within the data.
pub record IsValues (b : ValueBuffer) : Type 0 where
  pub room : b.record_count < b.values_offsets.size
  pub ordered : (i : ℕ) → i < b.record_count → b.values_offsets.at i ≤ b.values_offsets.at (i + 1)
  pub within : b.values_offsets.at b.record_count ≤ b.values_data.size
  pub small : b.values_data.size < word

-- Offsets that ascend one by one ascend.
pub ascending :
    (f : ℕ → ℕ) (n i j : ℕ) → ((k : ℕ) → k < n → f k ≤ f (k + 1)) → i + j ≤ n → f i ≤ f (i + j)
ascending f n i zero h bound = grind arith
ascending f n i (suc j) h bound =
    let before : f i ≤ f (i + j) = ascending f n i j h (omega arith) in
    let step : f (i + j) ≤ f (i + j + 1) = h (i + j) (omega arith) in grind arith

pub records_from-cong :
    (f d g e : ℕ → ℕ) (a b n : ℕ)
    → ((j : ℕ)
        → j < n
        → slice d (f (a + j)) (f (a + j + 1) - f (a + j))
          ≡ slice e (g (b + j)) (g (b + j + 1) - g (b + j)))
    → records_from f d a n ≡ records_from g e b n
records_from-cong f d g e a b zero h = refl
records_from-cong f d g e a b (suc n) h =
    let head : slice d (f a) (f (a + 1) - f a) ≡ slice e (g b) (g (b + 1) - g b) =
      grind (arith, h 0 (omega arith)) in
    let tail : records_from f d (a + 1) n ≡ records_from g e (b + 1) n =
      records_from-cong f d g e (a + 1) (b + 1) n (λ j k. grind (arith, h (suc j) (omega arith))) in
    cc

pub records_from-append :
    (f d : ℕ → ℕ) (a m n : ℕ)
    → records_from f d a (m + n) ≡ records_from f d a m ++ records_from f d (a + m) n
records_from-append f d a zero n = grind arith
records_from-append f d a (suc m) n =
    let rest : records_from f d (a + 1) (m + n)
        ≡ records_from f d (a + 1) m ++ records_from f d (a + 1 + m) n =
      records_from-append f d (a + 1) m n in
    grind arith

-- Only the offsets matter, not how they are given.
pub records_from-same :
    (f g d : ℕ → ℕ) (a n : ℕ) → ((j : ℕ) → f j ≡ g j) → records_from f d a n ≡ records_from g d a n
records_from-same f g d a n h =
    records_from-cong f d g d a a n (λ j k. rw (h (a + j), h (a + j + 1)) refl)
