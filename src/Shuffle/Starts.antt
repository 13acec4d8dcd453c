-- ===== src/Shuffle/Starts.antt =====
-- Where the partitions start in a buffer of src/tasks/shuffle/shuffle_logical_task.cpp: the second
-- loop of `partition_fragment`.
use m3bp.Prelude.{
  ℕ, zero, suc, ◌+◌, ◌-◌, ◌*◌, ◌<◌, ◌≤◌, ◌≡◌, refl, ap, ◌∙◌, false, some, ◌==◌, ltb, if◌then◌else◌,
  arith, Bool-cases, inl, inr,
}
use m3bp.Prelude.Words.{◌+w◌, ◌*w◌}
use m3bp.Memory.Arrays.{Array, read, write, read_lem, write_lem}
use m3bp.Shuffle.Partition.{KeyValueBuffer, Sums, lay_out}
use m3bp.Shuffle.Dealt.{
  offset_of, length_of, partition_of, size_sum, record_sum, before, start_of, IsKeyValues,
}
use m3bp.Shuffle.Sums.{SumsAt, offsets_lem}

-- One entry is written.
pub put_at :
    (f g : ℕ → ℕ) (k p v : ℕ)
    → v ≡ g k
    → ((k == p) ≡ false → f p ≡ g p)
    → (if k == p then v else f p) ≡ g p
put_at f g k p v new old = elim (Bool-cases (k == p)) [
  | inl hit ↦ rw hit (new ∙ ap g (ground arith))
  | inr miss ↦ rw miss (old miss)
]

module _ (src : KeyValueBuffer) (pc : ℕ) (ok : IsKeyValues src pc) where
  -- A record lengthens one partition.
  before-suc :
      (p i : ℕ)
      → before src pc p (suc i)
        ≡ before src pc p i + (if ltb (partition_of src pc i) p then length_of src pc i + 16 else 0)
  before-suc zero i = ground arith
  before-suc (suc p) i = ground (arith, before-suc p i)

  before-zero : (p : ℕ) → before src pc p 0 ≡ 0
  before-zero zero = refl
  before-zero (suc p) = omega (arith, before-zero p)

  before_bound :
      (p i : ℕ)
      → i ≤ src.record_count
      → before src pc p i ≤ offset_of src pc i - offset_of src pc 0 + (16 * i)
  before_bound p zero h = omega (arith, before-zero p)
  before_bound p (suc i) h =
      let step : offset_of src pc i ≤ offset_of src pc (i + 1) = ok.ordered i (omega arith) in
      let next : src.values_offsets.at (i + 1) ≡ src.values_offsets.at (suc i) =
        ap src.values_offsets.at (omega arith) in
      let low = (offsets_lem src pc ok i (omega arith)).0 in
      ground (arith, before-suc p i, before_bound p i (omega arith))

  -- All partitions fit.
  pub start_of_bound :
      (p : ℕ)
      → start_of src pc p
        ≤ offset_of src pc src.record_count - offset_of src pc 0 + (16 * src.record_count)
  start_of_bound p = before_bound p src.record_count (omega arith)

  lay_out_step :
      (i left start size count start' : ℕ) (s : Sums) (offsets cur offsets' cur' : Array)
      → read offsets i ≡ some start
      → read s.size_sums i ≡ some size
      → read s.record_counts i ≡ some count
      → start +w size +w 16 *w count ≡ start'
      → write (i + 1) start' offsets ≡ some offsets'
      → write i start cur ≡ some cur'
      → lay_out s i (suc left) offsets cur ≡ lay_out s (i + 1) left offsets' cur'
  unfolding lay_out
  lay_out_step i left start size count start' s offsets cur offsets' cur' a b c d e f =
      rw (a, b, c, d, e, f) refl

  module _ (s : Sums) (sums : SumsAt src pc src.record_count s) where
    pub lay_out_lem :
        (i left : ℕ) (offsets cur : Array)
        → i + left ≡ pc
        → offsets.size ≡ pc + 1
        → cur.size ≡ pc
        → ((p : ℕ) → p ≤ i → offsets.at p ≡ start_of src pc p)
        → ((p : ℕ) → p < i → cur.at p ≡ start_of src pc p)
        → (offsets' : Array) × (cur' : Array) × (lay_out s i left offsets cur
            ≡ some (offsets', cur'))
          × (offsets'.size ≡ pc + 1)
          × (cur'.size ≡ pc)
          × ((p : ℕ) → p ≤ pc → offsets'.at p ≡ start_of src pc p)
          × ((p : ℕ) → p < pc → cur'.at p ≡ start_of src pc p)
    unfolding lay_out
    lay_out_lem i zero offsets cur sum size size' at at' =
        (offsets, cur, refl, size, size', λ p h. at p (omega arith), λ p h. at' p (omega arith))
    lay_out_lem i (suc left) offsets cur sum size size' at at' =
        let start = start_of src pc i in
        let offsets₁ : Array = record offsets {
          at = λ k. if i + 1 == k then start_of src pc (suc i) else offsets.at k;
        } in
        let cur₁ : Array = record cur { at = λ k. if i == k then start else cur.at k } in
        let one_more : suc i ≡ i + 1 = omega arith in
        let (offsets', cur', e, size₂, size₃, at₂, at₃) =
          lay_out_lem (i + 1) left offsets₁ cur₁ (omega arith) size size'
            (λ p h.
              put_at offsets.at (start_of src pc) (i + 1) p (start_of src pc (suc i))
                (ap (start_of src pc) one_more) (λ miss. at p (ground arith)))
            (λ p h.
              put_at cur.at (start_of src pc) i p start refl (λ miss. at' p (ground arith))) in
        let bound = start_of_bound (suc i) in
        let whole = (offsets_lem src pc ok src.record_count (omega arith)).1 in
        (
          offsets',
          cur',
          lay_out_step i left start (size_sum src pc i src.record_count)
                (record_sum src pc i src.record_count) (start_of src pc (suc i)) s offsets cur
                offsets₁ cur₁ (read_lem offsets i (omega arith) ∙ ap some (at i (omega arith)))
                (read_lem s.size_sums i (omega (arith, sums.sums_size))
                  ∙ ap some (sums.summed i (omega arith)))
                (read_lem s.record_counts i (omega (arith, sums.counts_size))
                  ∙ ap some (sums.counted i (omega arith)))
                (omega (arith, ok.small)) (write_lem (i + 1) _ offsets (omega arith))
                (write_lem i _ cur (omega arith))
              ∙ e,
          size₂,
          size₃,
          at₂,
          at₃,
        )
