-- ===== src/Shuffle/Copied.antt =====
-- The third loop of `partition_fragment` in src/tasks/shuffle/shuffle_logical_task.cpp: the records
-- are written to their partitions.
use m3bp.Prelude.{
  ℕ, suc, ◌+◌, ◌-◌, ◌<◌, ◌≤◌, ◌≡◌, ◌⊎◌, inl, inr, refl, ap, subst, ◌∙◌, true, some, List, ◌++◌,
  length, length-append, ltb, leb, ◌&&◌, if◌then◌else◌, arith,
}
use m3bp.Prelude.Words.{◌+w◌, ◌-w◌}
use m3bp.Memory.Arrays.{Array, read, write, copy, copy_lem, slice}
use m3bp.Memory.Bytes.{
  write_word, write_word_lem, word_bytes, put_bytes, put_bytes_outside, put_bytes-Holds, Holds,
  Holds-same, Holds-append, Holds-slice,
}
use m3bp.Shuffle.Partition.{KeyValueBuffer, copy_records}
use m3bp.Shuffle.Dealt.{offset_of, length_of, key_length_of, chunk, IsKeyValues}
use m3bp.Shuffle.Sums.{offsets_lem}

-- Two words and `n` bytes after them.
module _ (c c' d : ℕ → ℕ) (start from n : ℕ) (w v : List ℕ) (w_length : length w ≡ 8)
    (v_length : length v ≡ 8)
    (copied : (k : ℕ)
      → c' k ≡ (
          if leb (start + 16) k && ltb k (start + 16 + n)
          then d (from + (k - (start + 16)))
          else put_bytes (start + 8) v (put_bytes start w c) k)) where
  early : (k : ℕ) → k < start + 16 → c' k ≡ put_bytes (start + 8) v (put_bytes start w c) k
  early k h = ground (arith, copied k)

  written-Holds : Holds c' start (w ++ v ++ slice d from n)
  written-Holds =
      let first : Holds c' start w =
        Holds-same c' (put_bytes start w c) start w
          (λ k low high.
            early k (omega (arith, w_length))
            ∙ put_bytes_outside (start + 8) v (put_bytes start w c) k
                (inl (omega (arith, w_length))))
          (put_bytes-Holds start w c) in
      let second : Holds c' (start + 8) v =
        Holds-same c' (put_bytes (start + 8) v (put_bytes start w c)) (start + 8) v
          (λ k low high. early k (omega (arith, v_length)))
          (put_bytes-Holds (start + 8) v (put_bytes start w c)) in
      let third : Holds c' (start + 16) (slice d from n) =
        Holds-slice c' d (start + 16) from n (λ j h.
          let there : from + (start + 16 + j - (start + 16)) ≡ from + j = omega arith in
          let lower : leb (start + 16) (start + 16 + j) ≡ true = ground arith in
          let upper : ltb (start + 16 + j) (start + 16 + n) ≡ true = ground arith in
          copied (start + 16 + j) ∙ rw (lower, upper) (ap d there)) in
      Holds-append c' start (w ++ v) (slice d from n)
        (Holds-append c' start w v first
          (subst (λ (q : ℕ). Holds c' q v) (omega (arith, w_length)) second))
        (subst (λ (q : ℕ). Holds c' q (slice d from n))
          (omega (arith, length-append w v, w_length, v_length)) third)

  written_outside : (k : ℕ) → (k < start) ⊎ (start + (n + 16) ≤ k) → c' k ≡ c k
  written_outside k far =
      let kept : c' k ≡ put_bytes (start + 8) v (put_bytes start w c) k = elim far [
        | inl low ↦ ground (arith, copied k)
        | inr high ↦ ground (arith, copied k)
      ] in
      let after : put_bytes (start + 8) v (put_bytes start w c) k ≡ put_bytes start w c k =
        put_bytes_outside (start + 8) v (put_bytes start w c) k
          (elim far [ inl low ↦ inl (omega arith) | inr high ↦ inr (omega (arith, v_length)) ]) in
      kept
      ∙ after
      ∙ put_bytes_outside start w c k
          (elim far [ inl low ↦ inl low | inr high ↦ inr (omega (arith, w_length)) ])

module _ (src : KeyValueBuffer) (pc : ℕ) (ok : IsKeyValues src pc) where
  pub copy_step :
      (i left p offset next key_length start n start₁ start₂ start₃ : ℕ)
      (partitions cur contents headed keyed copied cur' : Array)
      → read partitions i ≡ some p
      → read src.values_offsets i ≡ some offset
      → read src.values_offsets (i + 1) ≡ some next
      → read src.key_lengths i ≡ some key_length
      → read cur p ≡ some start
      → next -w offset ≡ n
      → (start +w 8 ≡ start₁) × (start +w 16 ≡ start₂) × (start +w (n +w 16) ≡ start₃)
      → write_word start n contents ≡ some headed
      → write_word start₁ key_length headed ≡ some keyed
      → copy start₂ src.values_data offset n keyed ≡ some copied
      → write p start₃ cur ≡ some cur'
      → copy_records src partitions i (suc left) cur contents
        ≡ copy_records src partitions (i + 1) left cur' copied
  unfolding copy_records
  copy_step i left p offset next key_length start n start₁ start₂ start₃ partitions cur contents
        headed keyed copied cur' a b c d e f (g, h, k) l m o q =
      rw (a, b, c, d, e, f, g, h, k, l, m, o, q) refl

  -- One record is written, and nothing else.
  pub written_lem :
      (i start : ℕ) (contents : Array)
      → i < src.record_count
      → start + (length_of src pc i + 16) ≤ contents.size
      → (headed : Array) × (keyed : Array) × (copied : Array) × (write_word start
            (length_of src pc i)
            contents
          ≡ some headed)
        × (write_word (start + 8) (key_length_of src pc i) headed ≡ some keyed)
        × (copy (start + 16) src.values_data (offset_of src pc i) (length_of src pc i) keyed
            ≡ some copied)
        × (copied.size ≡ contents.size)
        × Holds copied.at start (chunk src pc i)
        × ((k : ℕ)
            → (k < start) ⊎ (start + (length_of src pc i + 16) ≤ k)
            → copied.at k ≡ contents.at k)
  unfolding chunk
  written_lem i start contents h fits =
      let n = length_of src pc i in
      let len = key_length_of src pc i in
      let from = offset_of src pc i in
      let headed : Array = record contents { at = put_bytes start (word_bytes 8 n) contents.at } in
      let keyed : Array = record contents {
        at = put_bytes (start + 8) (word_bytes 8 len) headed.at;
      } in
      let (copied, e, size, at_k) =
        copy_lem (start + 16) from n src.values_data keyed
          (omega (
            arith,
            (offsets_lem src pc ok (i + 1) (omega arith)).1,
            (offsets_lem src pc ok i (omega arith)).1,
            ok.ordered i h,
          ))
          (omega arith) in
      (
        headed,
        keyed,
        copied,
        write_word_lem start n contents (omega arith),
        write_word_lem (start + 8) len headed (omega arith),
        e,
        size,
        written-Holds contents.at copied.at src.values_data.at start from n (word_bytes 8 n)
            (word_bytes 8 len) refl refl at_k,
        written_outside contents.at copied.at src.values_data.at start from n (word_bytes 8 n)
            (word_bytes 8 len) refl refl at_k,
      )
