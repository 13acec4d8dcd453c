-- ===== src/Memory/Regions.antt =====
-- The parts of a buffer of src/memory/serialized_buffer.cpp, as its constructor finds them, do not
-- overlap, are aligned, and lie inside the block that was asked for.
use m3bp.Prelude.{
  ℕ, ◌+◌, ◌*◌, ◌%◌, ◌<◌, ◌≤◌, ◌≡◌, refl, none, some, ◌==◌, if◌then◌else◌, word, arith,
}
use m3bp.Prelude.Words.{◌+w◌, ◌*w◌, bit_and-mask8, bit_and-mask16}
use m3bp.Memory.Layout.{
  align_ceil, Block, SerializedBuffer, allocate_value_only_buffer, allocate_key_value_buffer,
}

-- Rounding up gives the least multiple that is not below.
pub align_ceil-eight :
    (x : ℕ)
    → x + 7 < word
    → (x ≤ align_ceil x 8) × (align_ceil x 8 < x + 8) × (align_ceil x 8 % 8 ≡ 0)
unfolding align_ceil
align_ceil-eight x h = omega (arith, bit_and-mask8 (x +w 7) (omega arith))

pub align_ceil-sixteen :
    (x : ℕ)
    → x + 15 < word
    → (x ≤ align_ceil x 16) × (align_ceil x 16 < x + 16) × (align_ceil x 16 % 16 ≡ 0)
unfolding align_ceil
align_ceil-sixteen x h = omega (arith, bit_and-mask16 (x +w 15) (omega arith))

-- The values part that begins at `header` and ends at `end`.
pub record ValuesFit (b : SerializedBuffer) (header end total maximum_record_count : ℕ)
    : Type 0 where
  pub data_at : ℕ
  pub offsets : ℕ
  pub header_is : b.values_header ≡ some header
  pub data_is : b.values_data ≡ some data_at
  pub offsets_is : b.values_offsets ≡ some offsets
  pub data_aligned : data_at % 16 ≡ 0
  pub offsets_aligned : offsets % 8 ≡ 0
  pub header_fits : header + 24 ≤ data_at
  pub data_fits : data_at + total ≤ offsets
  pub offsets_fit : offsets + 8 * (maximum_record_count + 1) ≡ end

-- A value-only buffer has no keys, no key lengths and no groups.
pub allocate_value_only_buffer-ValuesFit :
    (maximum_record_count total : ℕ) (block : Block)
    → 8 * maximum_record_count + total + 128 < word
    → let (size, b) = allocate_value_only_buffer maximum_record_count total block in
      ValuesFit b 16 size total maximum_record_count
      × (b.keys_header ≡ none)
      × (b.values_key_lengths ≡ none)
      × (b.values_group_offsets ≡ none)
unfolding allocate_value_only_buffer
allocate_value_only_buffer-ValuesFit maximum_record_count total block h = (
  record {
    data_at = align_ceil 40 16;
    offsets = align_ceil 40 16 +w align_ceil total 8;
    header_is = ground (arith, align_ceil-sixteen 40, align_ceil-eight total);
    data_is = ground (arith, align_ceil-sixteen 40, align_ceil-eight total);
    offsets_is = ground (arith, align_ceil-sixteen 40, align_ceil-eight total);
    data_aligned = omega (arith, align_ceil-sixteen 40 (omega arith));
    offsets_aligned =
        omega (arith, align_ceil-sixteen 40 (omega arith), align_ceil-eight total (omega arith));
    header_fits = omega (arith, align_ceil-sixteen 40 (omega arith));
    data_fits =
        omega (arith, align_ceil-sixteen 40 (omega arith), align_ceil-eight total (omega arith));
    offsets_fit =
        omega (arith, align_ceil-sixteen 40 (omega arith), align_ceil-eight total (omega arith));
  },
  refl,
  ground (arith, align_ceil-sixteen 40, align_ceil-eight total),
  ground (arith, align_ceil-sixteen 40, align_ceil-eight total),
)

-- A key-value buffer has the lengths of its keys behind the offsets of its values, unless it is for
-- no record: then the constructor takes it for a value-only buffer.
pub allocate_key_value_buffer-ValuesFit :
    (maximum_record_count total : ℕ) (block : Block)
    → 16 * maximum_record_count + total + 128 < word
    → let (size, b) = allocate_key_value_buffer maximum_record_count total block in
      (end : ℕ) × ValuesFit b 16 end total maximum_record_count
      × (end + 8 * maximum_record_count ≡ size)
      × (b.keys_header ≡ none)
      × (b.values_key_lengths ≡ (if maximum_record_count == 0 then none else some end))
      × (b.values_group_offsets ≡ none)
unfolding allocate_key_value_buffer
allocate_key_value_buffer-ValuesFit maximum_record_count total block h = (
  align_ceil 40 16 +w align_ceil total 8 +w (maximum_record_count +w 1) *w 8,
  record {
    data_at = align_ceil 40 16;
    offsets = align_ceil 40 16 +w align_ceil total 8;
    header_is = ground (arith, align_ceil-sixteen 40, align_ceil-eight total);
    data_is = ground (arith, align_ceil-sixteen 40, align_ceil-eight total);
    offsets_is = ground (arith, align_ceil-sixteen 40, align_ceil-eight total);
    data_aligned = omega (arith, align_ceil-sixteen 40 (omega arith));
    offsets_aligned =
        omega (arith, align_ceil-sixteen 40 (omega arith), align_ceil-eight total (omega arith));
    header_fits = omega (arith, align_ceil-sixteen 40 (omega arith));
    data_fits =
        omega (arith, align_ceil-sixteen 40 (omega arith), align_ceil-eight total (omega arith));
    offsets_fit =
        omega (arith, align_ceil-sixteen 40 (omega arith), align_ceil-eight total (omega arith));
  },
  omega (arith, align_ceil-sixteen 40 (omega arith), align_ceil-eight total (omega arith)),
  refl,
  ground (arith, align_ceil-sixteen 40, align_ceil-eight total),
  ground (arith, align_ceil-sixteen 40, align_ceil-eight total),
)
