-- ===== src/Shuffle/DealingExamples.antt =====
-- Two records, and two partitions.
use m3bp.Prelude.{ℕ, ◌+◌, ◌<◌, ◌≡◌, some, List, arith, ◌==◌, if◌then◌else◌}
use m3bp.Shuffle.Partition.{KeyValueBuffer, ShuffleBuffer, partition_fragment}
use m3bp.Shuffle.Dealt.{IsKeyValues}
use m3bp.Shuffle.Reading.{partition_pointers}
use m3bp.Shuffle.RoundTrip.{members, Finds}
use m3bp.Shuffle.Dealing.{partition_fragment_lem}

-- The key 1 with the value 2 3, and the key 4 5 with an empty value.
abbrev two_records : KeyValueBuffer
two_records = record {
  record_count = 2;
  values_offsets = record { size = 3; at = λ k. if k == 0 then 0 else if k == 1 then 3 else 5 };
  key_lengths = record { size = 2; at = λ k. if k == 0 then 1 else 2 };
  values_data = record { size = 5; at = λ k. k + 1 };
}

two_records-IsKeyValues : IsKeyValues two_records 2
two_records-IsKeyValues = record {
  offsets_room = omega arith;
  keys_room = omega arith;
  ordered = λ i h. ground arith;
  keys = λ i h. ground arith;
  within = omega arith;
  small = omega arith;
  some_partition = omega arith;
  partitions = omega arith;
}

abbrev junk : ℕ → ℕ
junk _ = 99

partition_fragment_lem_example :
    (dst : ShuffleBuffer) × (partition_fragment junk junk two_records 2 ≡ some dst)
    × ((p : ℕ)
        → p < 2
        → (ptrs : List ℕ) × (partition_pointers dst p ≡ some ptrs)
          × Finds two_records 2 dst.contents ptrs (members two_records 2 p 2))
partition_fragment_lem_example =
    partition_fragment_lem junk junk two_records 2 two_records-IsKeyValues
