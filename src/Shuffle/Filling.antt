-- ===== src/Shuffle/Filling.antt =====
-- The state of the third loop of `partition_fragment` in
-- src/tasks/shuffle/shuffle_logical_task.cpp.
use m3bp.Prelude.{
  ℕ, zero, suc, ◌+◌, ◌-◌, ◌*◌, ◌<◌, ◌≤◌, ◌≡◌, ◌⊎◌, inl, inr, refl, ap, subst, sym, ◌∙◌, true, false,
  some, length, ◌==◌, if◌then◌else◌, arith, Bool-cases, dec_lt, ==_refl,
}
use m3bp.Memory.Arrays.{Array, read_lem, write_lem}
use m3bp.Memory.Bytes.{Holds, Holds-same, Holds-append}
use m3bp.Memory.Records.{ascending}
use m3bp.Shuffle.Partition.{KeyValueBuffer, Sums, copy_records}
use m3bp.Shuffle.Dealt.{
  offset_of, length_of, key_length_of, partition_of, chunk, dealt, length-dealt, dealt-hit,
  dealt-miss, byte_sum, start_of, IsKeyValues,
}
use m3bp.Shuffle.Sums.{SumsAt, offsets_lem, partition_of_lem}
use m3bp.Shuffle.Starts.{start_of_bound, put_at}
use m3bp.Shuffle.Copied.{copy_step, written_lem}

-- After `i` records.
pub record CopiedAt (src : KeyValueBuffer) (pc i : ℕ) (cur contents : Array) : Type 0 where
  pub cur_size : cur.size ≡ pc
  pub room :
      contents.size
      ≡ offset_of src pc src.record_count - offset_of src pc 0 + (16 * src.record_count)
  pub cursor : (p : ℕ) → p < pc → cur.at p ≡ start_of src pc p + byte_sum src pc p i
  pub held : (p : ℕ) → p < pc → Holds contents.at (start_of src pc p) (dealt src pc p i)

module _ (src : KeyValueBuffer) (pc : ℕ) (ok : IsKeyValues src pc) where
  byte_sum-suc :
      (p i : ℕ)
      → byte_sum src pc p (suc i)
        ≡ byte_sum src pc p i + (if partition_of src pc i == p then length_of src pc i + 16 else 0)
  byte_sum-suc p i = ground arith

  byte_sum-hit :
      (p i : ℕ)
      → (partition_of src pc i == p) ≡ true
      → byte_sum src pc p (suc i) ≡ byte_sum src pc p i + (length_of src pc i + 16)
  byte_sum-hit p i hit = ground arith

  byte_sum-miss :
      (p i : ℕ)
      → (partition_of src pc i == p) ≡ false
      → byte_sum src pc p (suc i) ≡ byte_sum src pc p i
  byte_sum-miss p i miss = ground arith

  byte_sum_le :
      (p i : ℕ) → i ≤ src.record_count → byte_sum src pc p i ≤ byte_sum src pc p src.record_count
  byte_sum_le p i h =
      let f = byte_sum src pc p in
      let n = src.record_count in
      let grown : f i ≤ f (i + (n - i)) =
        ascending f n i (n - i) (λ k less. omega (arith, byte_sum-suc p k, ap f (one_more k)))
          (omega arith) in
      let whole : f (i + (n - i)) ≡ f n = ap f (omega arith) in omega arith
    where
      one_more : (k : ℕ) → k + 1 ≡ suc k
      one_more k = omega arith

  -- Where one partition ends another starts.
  pub start_of_le : (p q : ℕ) → p < q → q < pc + 1 → start_of src pc (suc p) ≤ start_of src pc q
  start_of_le p q less bound =
      let f = start_of src pc in
      let up : f (suc p) ≤ f (suc p + (q - suc p)) =
        ascending f pc (suc p) (q - suc p) (λ k h. omega (arith, ap f (one_more k)))
          (omega arith) in
      let there : f (suc p + (q - suc p)) ≡ f q = ap f (omega arith) in omega arith
    where
      one_more : (k : ℕ) → k + 1 ≡ suc k
      one_more k = omega arith

  module _ (i : ℕ) (h : i < src.record_count) (cur contents copied : Array)
      (at : CopiedAt src pc i cur contents) (size : copied.size ≡ contents.size)
      (put : Holds copied.at (cur.at (partition_of src pc i)) (chunk src pc i))
      (outside : (k : ℕ)
        → (k < cur.at (partition_of src pc i))
          ⊎ (cur.at (partition_of src pc i) + (length_of src pc i + 16) ≤ k)
        → copied.at k ≡ contents.at k) where
    -- What a partition held before lies outside the new record.
    far_lem :
        (p k : ℕ)
        → p < pc
        → start_of src pc p ≤ k
        → k < start_of src pc p + byte_sum src pc p i
        → (k < cur.at (partition_of src pc i))
          ⊎ (cur.at (partition_of src pc i) + (length_of src pc i + 16) ≤ k)
    far_lem p k less low high =
        let q = partition_of src pc i in
        let (_, q_less) = partition_of_lem src pc ok i h in
        let cursor : cur.at q ≡ start_of src pc q + byte_sum src pc q i = at.cursor q q_less in
        let grown = byte_sum-hit q i (==_refl q) in
        let within : byte_sum src pc q (suc i) ≤ byte_sum src pc q src.record_count =
          byte_sum_le q (suc i) (omega arith) in
        let within' : byte_sum src pc p i ≤ byte_sum src pc p src.record_count =
          byte_sum_le p i (omega arith) in
        elim (dec_lt q p) [
          | yes before_p ↦
              inr (omega (arith, start_of_le q p before_p (omega arith), cursor, grown, within))
          | no not_before ↦ elim (dec_lt p q) [
            | yes after_p ↦
                inl (omega (arith, start_of_le p q after_p (omega arith), cursor, within'))
            | no not_after ↦
                let one : p ≡ q = omega (arith, not_before, not_after) in
                inl (
                  omega (
                    arith,
                    cursor,
                    ap (start_of src pc) one,
                    ap (λ (r : ℕ). byte_sum src pc r i) one,
                  ))
          ]
        ]

    copied_held : (p : ℕ) → p < pc → Holds copied.at (start_of src pc p) (dealt src pc p (suc i))
    copied_held p less =
        let q = partition_of src pc i in
        let (_, q_less) = partition_of_lem src pc ok i h in
        let sizes = length-dealt src pc p i in
        let old : Holds copied.at (start_of src pc p) (dealt src pc p i) =
          Holds-same copied.at contents.at (start_of src pc p) (dealt src pc p i)
            (λ k low high. outside k (far_lem p k less low (omega arith))) (at.held p less) in
        elim (Bool-cases (q == p)) [
          | inl hit ↦
              let one : q ≡ p = ground arith in
              let here : cur.at q ≡ start_of src pc p + length (dealt src pc p i) = omega (
                arith,
                at.cursor q q_less,
                ap (start_of src pc) one,
                ap (λ (r : ℕ). byte_sum src pc r i) one,
              ) in
              subst (Holds copied.at (start_of src pc p)) (sym (dealt-hit src pc p i hit)) (
                Holds-append copied.at (start_of src pc p) (dealt src pc p i) (chunk src pc i) old
                  (subst (λ (r : ℕ). Holds copied.at r (chunk src pc i)) here put))
          | inr miss ↦
              subst (Holds copied.at (start_of src pc p)) (sym (dealt-miss src pc p i miss)) old
        ]

    copied-CopiedAt :
        CopiedAt src pc
          (suc i)
          (record cur {
            at = λ k.
                if partition_of src pc i == k
                then cur.at (partition_of src pc i) + (length_of src pc i + 16)
                else cur.at k;
          })
          copied
    copied-CopiedAt = record {
      cur_size = at.cur_size;
      room = size ∙ at.room;
      cursor = λ p less.
          let q = partition_of src pc i in
          let (_, q_less) = partition_of_lem src pc ok i h in
          put_at cur.at (λ r. start_of src pc r + byte_sum src pc r (suc i)) q p
            (cur.at q + (length_of src pc i + 16))
            (omega (arith, at.cursor q q_less, byte_sum-hit q i (==_refl q)))
            (λ miss. omega (arith, at.cursor p less, byte_sum-miss p i miss));
      held = copied_held;
    }

  module _ (s : Sums) (sums : SumsAt src pc src.record_count s) where
    pub copy_records_lem :
        (i left : ℕ) (cur contents : Array)
        → i + left ≡ src.record_count
        → CopiedAt src pc i cur contents
        → (contents' : Array) × (copy_records src s.partitions i left cur contents ≡ some contents')
          × (cur' : Array) × CopiedAt src pc src.record_count cur' contents'
    unfolding copy_records
    copy_records_lem i zero cur contents sum at =
        (contents, refl, cur, subst (λ (k : ℕ). CopiedAt src pc k cur contents) (omega arith) at)
    copy_records_lem i (suc left) cur contents sum at =
        let h : i < src.record_count = omega arith in
        let q = partition_of src pc i in
        let n = length_of src pc i in
        let (_, q_less) = partition_of_lem src pc ok i h in
        let start = cur.at q in
        let room : start + (n + 16) ≤ contents.size = omega (
          arith,
          at.cursor q q_less,
          at.room,
          byte_sum-hit q i (==_refl q),
          byte_sum_le q (suc i) (omega arith),
          start_of_bound src pc ok (suc q),
        ) in
        let whole = offsets_lem src pc ok src.record_count (omega arith) in
        let here = offsets_lem src pc ok i (omega arith) in
        let there = offsets_lem src pc ok (i + 1) (omega arith) in
        let (headed, keyed, copied, e₁, e₂, e₃, size, put, outside) =
          written_lem src pc ok i start contents h room in
        let cur₁ : Array = record cur { at = λ k. if q == k then start + (n + 16) else cur.at k } in
        let one_more : suc i ≡ i + 1 = omega arith in
        let (contents', e, cur', done) = copy_records_lem (i + 1) left cur₁ copied (omega arith) (
          subst (λ (k : ℕ). CopiedAt src pc k cur₁ copied) one_more
            (copied-CopiedAt i h cur contents copied at size put outside)) in
        (
          contents',
          copy_step src pc ok i left q (offset_of src pc i) (offset_of src pc (i + 1))
                (key_length_of src pc i) start n (start + 8) (start + 16) (start + (n + 16))
                s.partitions cur contents headed keyed copied cur₁
                (read_lem s.partitions i (omega (arith, sums.partitions_size))
                  ∙ ap some (sums.assigned i h))
                (read_lem src.values_offsets i (omega (arith, ok.offsets_room)))
                (read_lem src.values_offsets (i + 1) (omega (arith, ok.offsets_room)))
                (read_lem src.key_lengths i (omega (arith, ok.keys_room)))
                (read_lem cur q (omega (arith, at.cur_size)))
                (omega (arith, ok.small, ok.ordered i h, here, there))
                (
                  omega (arith, ok.small, at.room, whole),
                  omega (arith, ok.small, at.room, whole),
                  omega (arith, ok.small, at.room, whole),
                )
                e₁ e₂ e₃ (write_lem q _ cur (omega (arith, at.cur_size)))
              ∙ e,
          cur',
          done,
        )
