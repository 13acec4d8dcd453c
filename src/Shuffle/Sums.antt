-- ===== src/Shuffle/Sums.antt =====
-- The first loop of `partition_fragment` in src/tasks/shuffle/shuffle_logical_task.cpp.
use m3bp.Prelude.{
  ℕ, zero, suc, ◌+◌, ◌-◌, ◌%◌, ◌^◌, ◌<◌, ◌≤◌, ◌≡◌, refl, ap, subst, ◌∙◌, true, some, ◌==◌, leb,
  if◌then◌else◌, arith, word, Bool-cases, inl, inr,
}
use m3bp.Prelude.Words.{◌+w◌, ◌-w◌}
use m3bp.Memory.Arrays.{Array, read, write, read_lem, write_lem, slice}
use m3bp.Memory.Records.{ascending}
use m3bp.Shuffle.Partition.{KeyValueBuffer, Sums, key_hash, sum_records}
use m3bp.Shuffle.Dealt.{
  offset_of, key_length_of, length_of, partition_of, size_sum, record_sum, IsKeyValues,
}
use m3bp.Shuffle.Hash.{hash_byte_sequence-lt}

-- The sums after `i` records.
pub record SumsAt (src : KeyValueBuffer) (partition_count i : ℕ) (s : Sums) : Type 0 where
  pub counts_size : s.record_counts.size ≡ partition_count
  pub sums_size : s.size_sums.size ≡ partition_count
  pub partitions_size : s.partitions.size ≡ src.record_count
  pub counted :
      (p : ℕ) → p < partition_count → s.record_counts.at p ≡ record_sum src partition_count p i
  pub summed : (p : ℕ) → p < partition_count → s.size_sums.at p ≡ size_sum src partition_count p i
  pub assigned : (j : ℕ) → j < i → s.partitions.at j ≡ partition_of src partition_count j

-- A counter that is right is right again after one is raised.
bump :
    (f g : ℕ → ℕ) (q p x y : ℕ)
    → f p ≡ g p
    → f q ≡ g q
    → x ≡ y
    → g q + y < word
    → (if q == p then f q +w x else f p) ≡ g p + (if q == p then y else 0)
bump f g q p x y right right' same small = elim (Bool-cases (q == p)) [
  | inl hit ↦
      let one : q ≡ p = ground arith in let alike : g q ≡ g p = ap g one in rw hit (omega arith)
  | inr miss ↦ rw miss (omega arith)
]

module _ (src : KeyValueBuffer) (pc : ℕ) (ok : IsKeyValues src pc) where
  pub offsets_lem :
      (i : ℕ)
      → i ≤ src.record_count
      → (offset_of src pc 0 ≤ offset_of src pc i) × (offset_of src pc i ≤ src.values_data.size)
  offsets_lem i h =
      let f = src.values_offsets.at in
      let n = src.record_count in
      let low : f 0 ≤ f (0 + i) = ascending f n 0 i ok.ordered (omega arith) in
      let high : f i ≤ f (i + (n - i)) = ascending f n i (n - i) ok.ordered (omega arith) in
      let last : f (i + (n - i)) ≡ f n = ap f (omega arith) in
      (grind arith, omega (arith, ok.within))

  pub partition_of_lem :
      (i : ℕ)
      → i < src.record_count
      → (key_hash src pc (offset_of src pc i) (key_length_of src pc i)
          ≡ some (partition_of src pc i))
        × (partition_of src pc i < pc)
  unfolding partition_of key_hash
  partition_of_lem i h =
      let off = offset_of src pc i in
      let len = key_length_of src pc i in
      let (p, e, less) =
        hash_byte_sequence-lt (slice src.values_data.at off len) pc ok.some_partition
          ok.partitions in
      let fits : leb (off + len) src.values_data.size ≡ true =
        ground (arith, (offsets_lem (i + 1) (omega arith)).1, ok.keys i h, ok.ordered i h) in
      rw (fits, e) (refl, less)

  pub sums_bound :
      (p i : ℕ)
      → i ≤ src.record_count
      → (size_sum src pc p i ≤ offset_of src pc i - offset_of src pc 0)
        × (record_sum src pc p i ≤ i)
  sums_bound p zero h = (omega arith, omega arith)
  sums_bound p (suc i) h =
      let (sizes, counts) = sums_bound p i (omega arith) in
      let step : offset_of src pc i ≤ offset_of src pc (i + 1) = ok.ordered i (omega arith) in
      let next : src.values_offsets.at (i + 1) ≡ src.values_offsets.at (suc i) =
        ap src.values_offsets.at (omega arith) in
      let low = (offsets_lem i (omega arith)).0 in (ground arith, ground arith)

  sum_step :
      (i left offset next key_length p count size : ℕ) (s : Sums) (counts sums partitions : Array)
      → read src.values_offsets i ≡ some offset
      → read src.values_offsets (i + 1) ≡ some next
      → read src.key_lengths i ≡ some key_length
      → key_hash src pc offset key_length ≡ some p
      → p % 2 ^ 32 ≡ p
      → read s.record_counts p ≡ some count
      → write p (count +w 1) s.record_counts ≡ some counts
      → read s.size_sums p ≡ some size
      → write p (size +w (next -w offset)) s.size_sums ≡ some sums
      → write i p s.partitions ≡ some partitions
      → sum_records src pc i (suc left) s
        ≡ sum_records src pc
            (i + 1)
            left
            (record { record_counts = counts; size_sums = sums; partitions = partitions })
  unfolding sum_records
  sum_step i left offset next key_length p count size s counts sums partitions a b c d e f g h k l =
      rw (a, b, c, d, e, f, g, h, k, l) refl

  -- The state after one more record.
  abbrev summed_with : ℕ → Sums → Sums
  summed_with i s =
      let p = partition_of src pc i in
      record {
        record_counts = record s.record_counts {
          at = λ k. if p == k then s.record_counts.at p +w 1 else s.record_counts.at k;
        };
        size_sums = record s.size_sums {
          at = λ k.
              if p == k
              then s.size_sums.at p +w (offset_of src pc (i + 1) -w offset_of src pc i)
              else s.size_sums.at k;
        };
        partitions = record s.partitions { at = λ k. if i == k then p else s.partitions.at k };
      }

  summed-SumsAt :
      (i : ℕ) (s : Sums)
      → i < src.record_count
      → SumsAt src pc i s
      → SumsAt src pc (suc i) (summed_with i s)
  summed-SumsAt i s h at =
      let q = partition_of src pc i in
      let q_less : q < pc = (partition_of_lem i h).1 in
      let (sizes, counts) = sums_bound q i (omega arith) in
      let (low, high) = offsets_lem i (omega arith) in
      let (low', high') = offsets_lem (i + 1) (omega arith) in
      let step : offset_of src pc i ≤ offset_of src pc (i + 1) = ok.ordered i h in
      let length_is : offset_of src pc (i + 1) -w offset_of src pc i ≡ length_of src pc i =
        omega (arith, ok.small) in
      record {
        counts_size = at.counts_size;
        sums_size = at.sums_size;
        partitions_size = at.partitions_size;
        counted = λ p less.
            bump s.record_counts.at (λ r. record_sum src pc r i) q p 1 1 (at.counted p less)
              (at.counted q q_less) refl (omega (arith, ok.small));
        summed = λ p less.
            bump s.size_sums.at (λ r. size_sum src pc r i) q p _ (length_of src pc i)
              (at.summed p less) (at.summed q q_less) length_is (omega (arith, ok.small));
        assigned = λ j less. elim (Bool-cases (i == j)) [
          | inl hit ↦ rw hit (ap (partition_of src pc) (ground arith))
          | inr miss ↦ rw miss (at.assigned j (ground arith))
        ];
      }

  pub sum_records_lem :
      (i left : ℕ) (s : Sums)
      → i + left ≡ src.record_count
      → SumsAt src pc i s
      → (s' : Sums) × (sum_records src pc i left s ≡ some s') × SumsAt src pc src.record_count s'
  unfolding sum_records
  sum_records_lem i zero s sum at = (s, refl, subst (λ (k : ℕ). SumsAt src pc k s) (omega arith) at)
  sum_records_lem i (suc left) s sum at =
      let h : i < src.record_count = omega arith in
      let (hashed, less) = partition_of_lem i h in
      let p = partition_of src pc i in
      let (s', e, done) = sum_records_lem (i + 1) left (summed_with i s) (omega arith) (
        subst (λ (k : ℕ). SumsAt src pc k (summed_with i s)) (omega arith)
          (summed-SumsAt i s h at)) in
      (
        s',
        sum_step i left _ _ _ p _ _ s _ _ _
              (read_lem src.values_offsets i (omega (arith, ok.offsets_room)))
              (read_lem src.values_offsets (i + 1) (omega (arith, ok.offsets_room)))
              (read_lem src.key_lengths i (omega (arith, ok.keys_room))) hashed
              (omega (arith, ok.partitions))
              (read_lem s.record_counts p (omega (arith, at.counts_size)))
              (write_lem p _ s.record_counts (omega (arith, at.counts_size)))
              (read_lem s.size_sums p (omega (arith, at.sums_size)))
              (write_lem p _ s.size_sums (omega (arith, at.sums_size)))
              (write_lem i p s.partitions (omega (arith, at.partitions_size)))
            ∙ e,
        done,
      )
