-- ===== src/Shuffle/Dealt.antt =====
-- What src/tasks/shuffle/shuffle_logical_task.cpp is to write to each partition: of the first
-- records of a buffer those that belong to it, in their order.
use m3bp.Prelude.{
  ℕ, zero, suc, ◌+◌, ◌-◌, ◌*◌, ◌<◌, ◌≤◌, ◌≡◌, refl, true, false, Option, none, some, List, [], ◌++◌,
  length, length-append, append-nil, ◌==◌, if◌then◌else◌, arith, word, Bool-cases, inl, inr,
}
use m3bp.Memory.Arrays.{slice}
use m3bp.Memory.Bytes.{word_bytes, length-slice}
use m3bp.Shuffle.Partition.{KeyValueBuffer, key_hash}
use m3bp.Shuffle.Hash.{u32}

module _ (src : KeyValueBuffer) (partition_count : ℕ) where
  abbrev pub offset_of : ℕ → ℕ
  offset_of i = src.values_offsets.at i

  abbrev pub key_length_of : ℕ → ℕ
  key_length_of i = src.key_lengths.at i

  abbrev pub length_of : ℕ → ℕ
  length_of i = src.values_offsets.at (i + 1) - src.values_offsets.at i

  abbrev pub or_zero : Option ℕ → ℕ
  or_zero none = 0
  or_zero (some p) = p

  -- The partition of the `i`th record.
  unfoldable pub partition_of : ℕ → ℕ
  partition_of i = or_zero (key_hash src partition_count (offset_of i) (key_length_of i))

  -- The record as it is written: its length, the length of its key, its bytes.
  unfoldable pub chunk : ℕ → List ℕ
  chunk i =
      word_bytes 8 (length_of i)
      ++ word_bytes 8 (key_length_of i)
      ++ slice src.values_data.at (offset_of i) (length_of i)

  -- What the first `i` records give to partition `p`.
  unfoldable pub dealt : (p i : ℕ) → List ℕ
  unfolding chunk partition_of
  dealt p zero = []
  dealt p (suc i) = dealt p i ++ (if partition_of i == p then chunk i else [])

  abbrev pub size_sum : (p i : ℕ) → ℕ
  size_sum p zero = 0
  size_sum p (suc i) = size_sum p i + (if partition_of i == p then length_of i else 0)

  abbrev pub record_sum : (p i : ℕ) → ℕ
  record_sum p zero = 0
  record_sum p (suc i) = record_sum p i + (if partition_of i == p then 1 else 0)

  abbrev pub byte_sum : (p i : ℕ) → ℕ
  byte_sum p i = size_sum p i + (16 * record_sum p i)

  pub length-chunk : (i : ℕ) → length (chunk i) ≡ length_of i + 16
  unfolding chunk
  length-chunk i = omega (arith, length-slice src.values_data.at (offset_of i) (length_of i))

  pub length-dealt : (p i : ℕ) → length (dealt p i) ≡ byte_sum p i
  unfolding dealt
  length-dealt p zero = refl
  length-dealt p (suc i) = elim (Bool-cases (partition_of i == p)) [
    | inl hit ↦
        rw hit
          (omega (arith, length-append (dealt p i) (chunk i), length-dealt p i, length-chunk i))
    | inr miss ↦ rw miss (omega (arith, length-append (dealt p i) [], length-dealt p i))
  ]

  pub dealt-zero : (p : ℕ) → dealt p 0 ≡ []
  unfolding dealt
  dealt-zero p = refl

  pub dealt-hit : (p i : ℕ) → (partition_of i == p) ≡ true → dealt p (suc i) ≡ dealt p i ++ chunk i
  unfolding dealt
  dealt-hit p i hit = rw hit refl

  pub dealt-miss : (p i : ℕ) → (partition_of i == p) ≡ false → dealt p (suc i) ≡ dealt p i
  unfolding dealt
  dealt-miss p i miss = rw miss (append-nil (dealt p i))

  -- What the first `i` records give to the partitions before `p`.
  abbrev pub before : (p i : ℕ) → ℕ
  before zero i = 0
  before (suc p) i = before p i + byte_sum p i

  -- Where partition `p` starts.
  abbrev pub start_of : ℕ → ℕ
  start_of p = before p src.record_count

-- The source: its offsets ascend, within the data, keys are parts of records; sizes do not overflow.
pub record IsKeyValues (src : KeyValueBuffer) (partition_count : ℕ) : Type 0 where
  pub offsets_room : src.record_count < src.values_offsets.size
  pub keys_room : src.record_count ≤ src.key_lengths.size
  pub ordered :
      (i : ℕ) → i < src.record_count → src.values_offsets.at i ≤ src.values_offsets.at (i + 1)
  pub keys : (i : ℕ) → i < src.record_count → src.key_lengths.at i ≤ length_of src partition_count i
  pub within : src.values_offsets.at src.record_count ≤ src.values_data.size
  pub small : src.values_data.size + (16 * src.record_count) < word
  pub some_partition : 0 < partition_count
  pub partitions : partition_count < u32
