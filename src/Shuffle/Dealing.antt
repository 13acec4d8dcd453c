-- ===== src/Shuffle/Dealing.antt =====
-- `partition_fragment` of src/tasks/shuffle/shuffle_logical_task.cpp as a whole.
use m3bp.Prelude.{
  ℕ, suc, ◌+◌, ◌-◌, ◌*◌, ◌<◌, ◌≤◌, ◌≡◌, refl, ap, subst, sym, ◌∙◌, some, List, length, ◌==◌,
  if◌then◌else◌, arith, word,
}
use m3bp.Prelude.Words.{◌+w◌, ◌-w◌, ◌*w◌}
use m3bp.Memory.Arrays.{Array, read, write, read_lem, write_lem}
use m3bp.Memory.Bytes.{Holds}
use m3bp.Shuffle.Partition.{
  KeyValueBuffer, ShuffleBuffer, Sums, zeros, sum_records, lay_out, copy_records,
  partition_fragment,
}
use m3bp.Shuffle.Dealt.{offset_of, dealt, dealt-zero, length-dealt, byte_sum, start_of, IsKeyValues}
use m3bp.Shuffle.Sums.{offsets_lem, sum_records_lem}
use m3bp.Shuffle.Starts.{put_at, start_of_bound, lay_out_lem}
use m3bp.Shuffle.Filling.{start_of_le, copy_records_lem}
use m3bp.Shuffle.Reading.{scan_pointers, partition_pointers}
use m3bp.Shuffle.RoundTrip.{
  members, members-AllBelow, chunks, chunks-members, length-chunks, Finds, scan_pointers_lem,
}

-- Each partition lies between its offsets.
record IsDealt (src : KeyValueBuffer) (pc : ℕ) (dst : ShuffleBuffer) : Type 0 where
  pub offsets_size : dst.offsets.size ≡ pc + 1
  pub starts : (p : ℕ) → p ≤ pc → dst.offsets.at p ≡ start_of src pc p
  pub inside : start_of src pc pc ≤ dst.contents.size
  pub small : dst.contents.size < word
  pub held :
      (p : ℕ) → p < pc → Holds dst.contents.at (start_of src pc p) (dealt src pc p src.record_count)

module _ (before before' : ℕ → ℕ) (src : KeyValueBuffer) (pc : ℕ) (ok : IsKeyValues src pc) where
  partition_steps :
      (sums : Sums) (first last total : ℕ) (zeroed offsets cur filled : Array)
      → sum_records src pc 0 src.record_count (record {
        record_counts = zeros pc;
        size_sums = zeros pc;
        partitions = zeros src.record_count;
      })
        ≡ some sums
      → read src.values_offsets 0 ≡ some first
      → read src.values_offsets src.record_count ≡ some last
      → last -w first +w 16 *w src.record_count ≡ total
      → write 0 0 (record { size = pc +w 1; at = before }) ≡ some zeroed
      → lay_out sums 0 pc zeroed (zeros pc) ≡ some (offsets, cur)
      → copy_records src sums.partitions 0 src.record_count cur
          (record { size = total; at = before' })
        ≡ some filled
      → partition_fragment before before' src pc
        ≡ some (record { offsets = offsets; contents = filled })
  unfolding partition_fragment
  partition_steps sums first last total zeroed offsets cur filled a b c d e f g =
      rw (a, b, c, d, e, f, g) refl

  dealt_lem :
      (dst : ShuffleBuffer) × (partition_fragment before before' src pc ≡ some dst)
      × IsDealt src pc dst
  dealt_lem =
      let n = src.record_count in
      let first = offset_of src pc 0 in
      let last = offset_of src pc n in
      let total = last - first + (16 * n) in
      let (low, high) = offsets_lem src pc ok n (omega arith) in
      let (sums, e₁, at) = sum_records_lem src pc ok 0 n _ (omega arith) (record {
        counts_size = refl;
        sums_size = refl;
        partitions_size = refl;
        counted = λ p h. refl;
        summed = λ p h. refl;
        assigned = λ j h. absurd (omega arith);
      }) in
      let wide : pc +w 1 ≡ pc + 1 = omega (arith, ok.partitions) in
      let zeroed : Array = record { size = pc + 1; at = λ k. if 0 == k then 0 else before k } in
      let (offsets, cur, e₂, size, cur_size, starts, cursors) =
        lay_out_lem src pc ok sums at 0 pc zeroed (zeros pc) (omega arith) refl refl
          (λ p h. put_at before (start_of src pc) 0 p 0 refl (λ miss. absurd (ground arith)))
          (λ p h. absurd (omega arith)) in
      let (filled, e₃, cur', done) =
        copy_records_lem src pc ok sums at 0 n cur (record { size = total; at = before' })
          (omega arith)
          (record {
            cur_size = cur_size;
            room = refl;
            cursor = λ p h. omega (arith, cursors p h);
            held = λ p h. subst (Holds before' (start_of src pc p)) (sym (dealt-zero src pc p)) tt;
          }) in
      (
        record { offsets = offsets; contents = filled },
        partition_steps sums first last total zeroed offsets cur filled e₁
            (read_lem src.values_offsets 0 (omega (arith, ok.offsets_room)))
            (read_lem src.values_offsets n ok.offsets_room) (omega (arith, ok.small))
            (ap (λ (k : ℕ). write 0 0 (record { size = k; at = before })) wide
              ∙ write_lem 0 0 (record { size = pc + 1; at = before }) (omega arith))
            e₂ e₃,
        record {
          offsets_size = size;
          starts = starts;
          inside = omega (arith, start_of_bound src pc ok pc, done.room);
          small = omega (arith, done.room, ok.small);
          held = done.held;
        },
      )

  pointers_steps :
      (dst : ShuffleBuffer) (p start end fuel : ℕ) (ptrs : List ℕ)
      → read dst.offsets p ≡ some start
      → read dst.offsets (p + 1) ≡ some end
      → end -w start ≡ fuel
      → scan_pointers dst.contents fuel start end ≡ some ptrs
      → partition_pointers dst p ≡ some ptrs
  unfolding partition_pointers
  pointers_steps dst p start end fuel ptrs a b c d = rw (a, b, c) d

  found_lem :
      (dst : ShuffleBuffer) (p : ℕ)
      → IsDealt src pc dst
      → p < pc
      → (ptrs : List ℕ) × (partition_pointers dst p ≡ some ptrs)
        × Finds src pc dst.contents ptrs (members src pc p src.record_count)
  found_lem dst p d h =
      let n = src.record_count in
      let js = members src pc p n in
      let start = start_of src pc p in
      let end = start_of src pc (suc p) in
      let sized : length (chunks src pc js) ≡ byte_sum src pc p n =
        ap (λ (l : List ℕ). length l) (sym (chunks-members src pc p n)) ∙ length-dealt src pc p n in
      let long = length-chunks src pc js in
      let inside = start_of_le src pc ok p pc h (omega arith) in
      let one_more : p + 1 ≡ suc p = omega arith in
      let (ptrs, e, finds) =
        scan_pointers_lem src pc ok dst.contents d.small js (byte_sum src pc p n) start end
          (members-AllBelow src pc p n) (omega arith) (omega arith) (omega (arith, d.inside))
          (subst (Holds dst.contents.at start) (chunks-members src pc p n) (d.held p h)) in
      (
        ptrs,
        pointers_steps dst p start end (byte_sum src pc p n) ptrs
            (read_lem dst.offsets p (omega (arith, d.offsets_size))
              ∙ ap some (d.starts p (omega arith)))
            (read_lem dst.offsets (p + 1) (omega (arith, d.offsets_size))
              ∙ ap some (d.starts (p + 1) (omega arith) ∙ ap (start_of src pc) one_more))
            (omega (arith, d.inside, d.small)) e,
        finds,
      )

  -- For a well-formed buffer and a number of partitions from 1 to 2 ^ 32 - 1, dealing its records out
  -- succeeds with every access in range, whatever the fresh memory held, and the loop that reads a
  -- partition back succeeds and finds just its records, in the order of the buffer.
  pub partition_fragment_lem :
      (dst : ShuffleBuffer) × (partition_fragment before before' src pc ≡ some dst)
      × ((p : ℕ)
          → p < pc
          → (ptrs : List ℕ) × (partition_pointers dst p ≡ some ptrs)
            × Finds src pc dst.contents ptrs (members src pc p src.record_count))
  partition_fragment_lem =
      let (dst, e, is_dealt) = dealt_lem in (dst, e, λ p h. found_lem dst p is_dealt h)
