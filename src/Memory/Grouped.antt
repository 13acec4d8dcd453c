-- ===== src/Memory/Grouped.antt =====
-- The parts of a grouped buffer of src/memory/serialized_buffer.cpp.
use m3bp.Prelude.{ℕ, ◌+◌, ◌*◌, ◌%◌, ◌<◌, ◌≤◌, ◌≡◌, ◌≢◌, ap, none, some, word, arith}
use m3bp.Prelude.Words.{◌+w◌, ◌-w◌, ◌*w◌}
use m3bp.Memory.Layout.{
  align_ceil, Block, SerializedBuffer, allocate_grouped_buffer, KeyParts, ValueParts, parse_keys,
  parse_values, store, store_common_header,
}
use m3bp.Memory.Regions.{align_ceil-eight, align_ceil-sixteen, ValuesFit}

-- The keys part, which begins behind the common header and ends at `end`.
pub record KeysFit (b : SerializedBuffer) (end total maximum_group_count : ℕ) : Type 0 where
  pub data_at : ℕ
  pub offsets : ℕ
  pub header_is : b.keys_header ≡ some 16
  pub data_is : b.keys_data ≡ some data_at
  pub offsets_is : b.keys_offsets ≡ some offsets
  pub data_aligned : data_at % 16 ≡ 0
  pub offsets_aligned : offsets % 8 ≡ 0
  pub header_fits : 32 ≤ data_at
  pub data_fits : data_at + total ≤ offsets
  pub offsets_fit : offsets + 8 * (maximum_group_count + 1) ≡ end

-- What the constructor makes of the words that it reads.
parse_keys_lem :
    (block : Block) (size groups offsets next : ℕ)
    → 0 < block 0
    → block 16 ≡ size
    → block 24 ≡ groups
    → align_ceil 32 16 +w size ≡ offsets
    → offsets +w (8 *w (groups +w 1)) ≡ next
    → parse_keys block ≡ record {
      keys_header = some 16;
      keys_data = some (align_ceil 32 16);
      keys_offsets = some offsets;
      group_count = groups;
      next = next;
    }
unfolding parse_keys
parse_keys_lem block size groups offsets next p e f g h = rw (← h, ← g, ← f, ← e) (ground arith)

parse_values_lem :
    (block : Block) (k : KeyParts) (header size records offsets after : ℕ)
    → k.next ≡ header
    → 0 < block 0
    → 0 < block 8
    → block header ≡ size
    → block (header +w 8) ≡ records
    → align_ceil (header +w 24) 16 +w size ≡ offsets
    → offsets +w (8 *w (records +w 1)) ≡ after
    → after ≢ 16 +w block 0 +w block 8
    → parse_values block k ≡ record {
      values_header = some header;
      values_data = some (align_ceil (header +w 24) 16);
      values_offsets = some offsets;
      values_key_lengths = none;
      values_group_offsets = some after;
    }
unfolding parse_values
parse_values_lem block k header size records offsets after n p q e f g h ne =
    rw (← h, ← g, ← f, ← e, ← n) (ground arith)

-- The words of the headers, wherever the values header is behind the keys header.
written_reads :
    (header filled size groups records keys value : ℕ) (block : Block)
    → 32 ≤ header
    → header + 24 < word
    → let b = store (header +w 16) 0 (
        store (header +w 8) records (
          store header filled
            (store 24 groups (store 16 size (store 8 value (store 0 keys block)))))) in
      (b 0 ≡ keys)
      × (b 8 ≡ value)
      × (b 16 ≡ size)
      × (b 24 ≡ groups)
      × (b header ≡ filled)
      × (b (header +w 8) ≡ records)
written_reads header filled size groups records keys value block h k =
    (ground arith, ground arith, ground arith, ground arith, ground arith, ground arith)

module _ (records groups total_keys total_values : ℕ) (block : Block)
    (h : 8 * records + 16 * groups + total_keys + total_values + 256 < word) where
  abbrev keys_at : ℕ
  keys_at = align_ceil 32 16

  abbrev keys_end : ℕ
  keys_end = keys_at +w align_ceil total_keys 8

  abbrev header : ℕ
  header = keys_end +w (groups +w 1) *w 8

  abbrev values_at : ℕ
  values_at = align_ceil (header +w 24) 16

  abbrev values_end : ℕ
  values_end = values_at +w align_ceil total_values 8

  abbrev groups_at : ℕ
  groups_at = values_end +w (records +w 1) *w 8

  header_bounds : (32 ≤ keys_at) × (keys_at < 48) × (keys_at % 16 ≡ 0)
  header_bounds = omega (arith, align_ceil-sixteen 32 (omega arith))

  keys_bounds :
      (keys_at + total_keys ≤ keys_end) × (keys_end < keys_at + total_keys + 8) × (keys_end % 8 ≡ 0)
  keys_bounds = omega (arith, header_bounds, align_ceil-eight total_keys (omega arith))

  header_is : (header ≡ keys_end + 8 * (groups + 1))
  header_is = omega (arith, header_bounds, keys_bounds)

  values_bounds : (header + 24 ≤ values_at) × (values_at < header + 40) × (values_at % 16 ≡ 0)
  values_bounds = omega (
    arith,
    header_bounds,
    keys_bounds,
    header_is,
    align_ceil-sixteen (header +w 24) (omega (arith, header_bounds, keys_bounds, header_is)),
  )

  values_end_bounds :
      (values_at + total_values ≤ values_end)
      × (values_end < values_at + total_values + 8)
      × (values_end % 8 ≡ 0)
  values_end_bounds = omega (
    arith,
    header_bounds,
    keys_bounds,
    header_is,
    values_bounds,
    align_ceil-eight total_values (omega arith),
  )

  groups_at_is : groups_at ≡ values_end + 8 * (records + 1)
  groups_at_is =
      omega (arith, header_bounds, keys_bounds, header_is, values_bounds, values_end_bounds)

  abbrev size : ℕ
  size = groups_at +w (groups +w 1) *w 8

  size_is : size ≡ groups_at + 8 * (groups + 1)
  size_is =
      omega (
        arith, header_bounds, keys_bounds, header_is, values_bounds, values_end_bounds,
        groups_at_is,
      )

  -- The block once the headers are written.
  abbrev written : Block
  written = store (header +w 16) 0 (
      store (header +w 8) records (
        store header (values_end -w values_at) (
          store 24 groups (
            store 16 (keys_end -w keys_at)
              (store_common_header (header -w 16) (size -w header) block)))))

  sizes :
      (32 ≤ header)
      × (size < word)
      × (header < values_at)
      × (values_end < groups_at)
      × (groups_at < size)
  sizes = omega (
    arith, header_bounds, keys_bounds, header_is, values_bounds, values_end_bounds, groups_at_is,
    size_is,
  )

  reads :
      (written 0 ≡ header -w 16)
      × (written 8 ≡ size -w header)
      × (written 16 ≡ keys_end -w keys_at)
      × (written 24 ≡ groups)
      × (written header ≡ values_end -w values_at)
      × (written (header +w 8) ≡ records)
  reads =
      written_reads header (values_end -w values_at) (keys_end -w keys_at) groups records
        (header -w 16) (size -w header) block sizes.0
        (omega (arith, sizes, values_bounds, values_end_bounds))

  keys_parsed : parse_keys written ≡ record {
    keys_header = some 16;
    keys_data = some keys_at;
    keys_offsets = some keys_end;
    group_count = groups;
    next = header;
  }
  keys_parsed =
      parse_keys_lem written (keys_end -w keys_at) groups keys_end header
        (omega (arith, reads.0, sizes, values_end_bounds, header_is, header_bounds, keys_bounds))
        reads.2 reads.3 (omega (arith, header_bounds, keys_bounds))
        (omega (arith, header_is, header_bounds, keys_bounds))

  values_parsed :
      (k : KeyParts)
      → k.next ≡ header
      → parse_values written k ≡ record {
        values_header = some header;
        values_data = some values_at;
        values_offsets = some values_end;
        values_key_lengths = none;
        values_group_offsets = some groups_at;
      }
  values_parsed k n =
      parse_values_lem written k header (values_end -w values_at) records values_end groups_at n
        (omega (arith, reads.0, sizes, values_end_bounds, header_bounds))
        (omega (arith, reads.1, sizes, values_end_bounds)) reads.4 reads.5
        (omega (arith, values_bounds, values_end_bounds, sizes))
        (omega (arith, groups_at_is, sizes))
        (omega (arith, reads.0, reads.1, sizes, values_end_bounds, header_bounds))

  next_is : (parse_keys written).next ≡ header
  next_is = ap (λ (k : KeyParts). k.next) keys_parsed

  -- A grouped buffer has its keys, its values and the offsets of its groups, in this order, each
  -- aligned and inside the block, with no key lengths.
  pub allocate_grouped_buffer-Fits :
      let (size, b) = allocate_grouped_buffer records groups total_keys total_values block in
      (keys_stop values_stop : ℕ) × KeysFit b keys_stop total_keys groups
      × ValuesFit b keys_stop values_stop total_values records
      × (b.values_key_lengths ≡ none)
      × (b.values_group_offsets ≡ some values_stop)
      × (values_stop + 8 * (groups + 1) ≡ size)
  unfolding allocate_grouped_buffer
  allocate_grouped_buffer-Fits =
      let found = values_parsed (parse_keys written) next_is in
      (
        header,
        groups_at,
        record {
          data_at = keys_at;
          offsets = keys_end;
          header_is = ap (λ (k : KeyParts). k.keys_header) keys_parsed;
          data_is = ap (λ (k : KeyParts). k.keys_data) keys_parsed;
          offsets_is = ap (λ (k : KeyParts). k.keys_offsets) keys_parsed;
          data_aligned = header_bounds.2;
          offsets_aligned = keys_bounds.2;
          header_fits = header_bounds.0;
          data_fits = keys_bounds.0;
          offsets_fit = omega (arith, header_is);
        },
        record {
          data_at = values_at;
          offsets = values_end;
          header_is = ap (λ (v : ValueParts). v.values_header) found;
          data_is = ap (λ (v : ValueParts). v.values_data) found;
          offsets_is = ap (λ (v : ValueParts). v.values_offsets) found;
          data_aligned = values_bounds.2;
          offsets_aligned = values_end_bounds.2;
          header_fits = values_bounds.0;
          data_fits = values_end_bounds.0;
          offsets_fit = omega (arith, groups_at_is);
        },
        ap (λ (v : ValueParts). v.values_key_lengths) found,
        ap (λ (v : ValueParts). v.values_group_offsets) found,
        omega (
          arith, groups_at_is, header_bounds, keys_bounds, header_is, values_bounds,
          values_end_bounds,
        ),
      )
