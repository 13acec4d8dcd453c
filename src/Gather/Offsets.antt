-- ===== src/Gather/Offsets.antt =====
-- The offsets that src/tasks/gather/gather_logical_task.cpp writes behind those of a buffer.
use m3bp.Prelude.{
  ℕ, zero, suc, ◌+◌, ◌-◌, ◌<◌, ◌≤◌, ◌≡◌, refl, ◌∙◌, some, leb, ◌==◌, ◌&&◌, if◌then◌else◌, arith,
  word,
}
use m3bp.Prelude.Words.{◌+w◌, ◌-w◌}
use m3bp.Memory.Arrays.{Array, read_lem, write_lem}
use m3bp.Gather.Task.{append_offsets}

-- A sum that fits, though its parts may wrap.
rebased : (b x y : ℕ) → y ≤ x → x < word → b + (x - y) < word → b +w x -w y ≡ b + (x - y)
rebased b x y h g k = omega arith

module _ (src : Array) (base_count count : ℕ) (room : count < src.size)
    (ordered : (j : ℕ) → j < count + 1 → (src.at 0 ≤ src.at j) × (src.at j < word)) where
  append_offsets_step :
      (i left : ℕ) (dst : Array)
      → 0 < i
      → i < count + 1
      → base_count + count < dst.size
      → base_count + count < word
      → ((j : ℕ) → j < count + 1 → dst.at base_count + (src.at j - src.at 0) < word)
      → append_offsets src base_count i (suc left) dst
        ≡ append_offsets src base_count (i + 1) left (record dst {
          at = λ k.
              if base_count + i == k then dst.at base_count + (src.at i - src.at 0) else dst.at k;
        })
  unfolding append_offsets
  append_offsets_step i left dst pos bound fits small within =
      let value = dst.at base_count + (src.at i - src.at 0) in
      let (low, high) = ordered i (omega arith) in
      let exact : dst.at base_count +w src.at i -w src.at 0 ≡ value =
        rebased (dst.at base_count) (src.at i) (src.at 0) low high (within i (omega arith)) in
      let index : base_count +w i ≡ base_count + i = omega arith in
      rw
        (
          read_lem dst base_count (omega arith),
          read_lem src i (omega arith),
          read_lem src 0 (omega arith),
          exact,
          index,
          write_lem (base_count + i) value dst (omega arith),
        )
        refl

  pub append_offsets_lem :
      (i left : ℕ) (dst : Array)
      → 0 < i
      → i + left ≡ count + 1
      → base_count + count < dst.size
      → base_count + count < word
      → ((j : ℕ) → j < count + 1 → dst.at base_count + (src.at j - src.at 0) < word)
      → (dst' : Array) × (append_offsets src base_count i left dst ≡ some dst')
        × (dst'.size ≡ dst.size)
        × ((k : ℕ)
            → dst'.at k ≡ (
                if leb (base_count + i) k && leb k (base_count + count)
                then dst.at base_count + (src.at (k - base_count) - src.at 0)
                else dst.at k))
  unfolding append_offsets
  append_offsets_lem i zero dst pos sum fits small within = (dst, refl, refl, λ k. ground arith)
  append_offsets_lem i (suc left) dst pos sum fits small within =
      let value = dst.at base_count + (src.at i - src.at 0) in
      let one : Array = record dst { at = λ k. if base_count + i == k then value else dst.at k } in
      let base_kept : one.at base_count ≡ dst.at base_count = ground arith in
      let (dst', e, size, at_k) =
        append_offsets_lem (i + 1) left one (omega arith) (omega arith) fits small
          (λ j h. omega (arith, within j h, base_kept)) in
      (
        dst',
        append_offsets_step i left dst pos (omega arith) fits small within ∙ e,
        size,
        λ k. grind (arith, at_k k, base_kept),
      )
