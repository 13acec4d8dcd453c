-- ===== src/Memory/Layout.antt =====
-- src/memory/serialized_buffer.cpp: how a buffer is laid out in one block of memory, and how its
-- parts are found again from the headers in it. A pointer is an offset from the start of the
-- block, and a null pointer `none`. Headers are read and written by words of 8 bytes;
-- alignof(max_align_t) is 16 and sizeof(size_type) 8.
use m3bp.Prelude.{ℕ, ◌-◌, Option, none, some, ◌==◌, if◌then◌else◌, word, bit_and, ltb}
use m3bp.Prelude.Words.{◌+w◌, ◌-w◌, ◌*w◌}

-- `(x + align - 1) & ~(align - 1)`.
unfoldable pub align_ceil : ℕ → ℕ → ℕ
align_ceil x align = bit_and (x +w (align - 1)) (word - align)

-- The word at each offset of the block.
abbrev pub Block : Type 0
Block = ℕ → ℕ

abbrev pub store : ℕ → ℕ → Block → Block
store at value block i = if at == i then value else block i

-- What a buffer object holds: where its parts are.
pub record SerializedBuffer : Type 0 where
  pub block : Block
  pub common_header : Option ℕ
  pub keys_header : Option ℕ
  pub values_header : Option ℕ
  pub keys_data : Option ℕ
  pub keys_offsets : Option ℕ
  pub values_data : Option ℕ
  pub values_offsets : Option ℕ
  pub values_key_lengths : Option ℕ
  pub values_group_offsets : Option ℕ

-- The fields of the headers, by their offsets in them.
abbrev pub key_buffer_size : Block → ℕ
key_buffer_size block = block 0

abbrev pub value_buffer_size : Block → ℕ
value_buffer_size block = block 8

abbrev pub data_buffer_size : ℕ → Block → ℕ
data_buffer_size header block = block header

abbrev pub header_record_count : ℕ → Block → ℕ
header_record_count header block = block (header +w 8)

-- The parts that a keys header brings, and the offset after them.
pub record KeyParts : Type 0 where
  pub keys_header : Option ℕ
  pub keys_data : Option ℕ
  pub keys_offsets : Option ℕ
  pub group_count : ℕ
  pub next : ℕ

unfoldable pub parse_keys : Block → KeyParts
parse_keys block =
    if ltb 0 (key_buffer_size block)
    then (let header : ℕ = 16 in
        let data_at = align_ceil (header +w 16) 16 in
        let offsets = data_at +w data_buffer_size header block in
        let groups = header_record_count header block in
        record {
          keys_header = some header;
          keys_data = some data_at;
          keys_offsets = some offsets;
          group_count = groups;
          next = offsets +w (8 *w (groups +w 1));
        })
    else record {
      keys_header = none;
      keys_data = none;
      keys_offsets = none;
      group_count = 0;
      next = 16;
    }

pub record ValueParts : Type 0 where
  pub values_header : Option ℕ
  pub values_data : Option ℕ
  pub values_offsets : Option ℕ
  pub values_key_lengths : Option ℕ
  pub values_group_offsets : Option ℕ

unfoldable pub parse_values : Block → KeyParts → ValueParts
parse_values block k =
    if ltb 0 (value_buffer_size block)
    then (let header = k.next in
        let data_at = align_ceil (header +w 24) 16 in
        let offsets = data_at +w data_buffer_size header block in
        let after = offsets +w (8 *w (header_record_count header block +w 1)) in
        let tail = 16 +w key_buffer_size block +w value_buffer_size block in
        record {
          values_header = some header;
          values_data = some data_at;
          values_offsets = some offsets;
          values_key_lengths =
              if after == tail
              then none
              else if key_buffer_size block == 0
              then some after
              else none;
          values_group_offsets =
              if after == tail
              then none
              else if key_buffer_size block == 0
              then none
              else some after;
        })
    else record {
      values_header = none;
      values_data = none;
      values_offsets = none;
      values_key_lengths = none;
      values_group_offsets = none;
    }

-- The constructor from a locked block.
unfoldable pub open_buffer : Block → SerializedBuffer
unfolding parse_keys parse_values
open_buffer block =
    let k = parse_keys block in
    let v = parse_values block k in
    record {
      block = block;
      common_header = some 0;
      keys_header = k.keys_header;
      values_header = v.values_header;
      keys_data = k.keys_data;
      keys_offsets = k.keys_offsets;
      values_data = v.values_data;
      values_offsets = v.values_offsets;
      values_key_lengths = v.values_key_lengths;
      values_group_offsets = v.values_group_offsets;
    }

-- Where the values part goes that starts at `header`.
pub record ValueLayout : Type 0 where
  pub data_at : ℕ
  pub offsets : ℕ
  pub end : ℕ

unfoldable pub value_layout : (header total_size maximum_record_count : ℕ) → ValueLayout
value_layout header total_size maximum_record_count =
    let data_at = align_ceil (header +w 24) 16 in
    let offsets = data_at +w align_ceil total_size 8 in
    record {
      data_at = data_at;
      offsets = offsets;
      end = offsets +w ((maximum_record_count +w 1) *w 8);
    }

abbrev pub store_values_header : ℕ → ValueLayout → ℕ → Block → Block
store_values_header header v maximum_record_count block =
    store (header +w 16) 0
      (store (header +w 8) maximum_record_count (store header (v.offsets -w v.data_at) block))

abbrev pub store_common_header : ℕ → ℕ → Block → Block
store_common_header keys values block = store 8 values (store 0 keys block)

-- Each allocation gives the size that it asks the memory manager for, and the buffer. What the
-- block held before is an argument.
unfoldable pub allocate_value_only_buffer :
    (maximum_record_count total_record_size : ℕ) → Block → ℕ × SerializedBuffer
unfolding value_layout open_buffer
allocate_value_only_buffer maximum_record_count total_record_size block =
    let header : ℕ = 16 in
    let v = value_layout header total_record_size maximum_record_count in
    let buffer_size = v.end in
    (
      buffer_size,
      open_buffer (
          store_values_header header v maximum_record_count
            (store_common_header 0 (buffer_size -w header) block)),
    )

unfoldable pub allocate_key_value_buffer :
    (maximum_record_count total_record_size : ℕ) → Block → ℕ × SerializedBuffer
unfolding value_layout open_buffer
allocate_key_value_buffer maximum_record_count total_record_size block =
    let header : ℕ = 16 in
    let v = value_layout header total_record_size maximum_record_count in
    let buffer_size = v.end +w (maximum_record_count *w 8) in
    (
      buffer_size,
      open_buffer (
          store_values_header header v maximum_record_count
            (store_common_header 0 (buffer_size -w header) block)),
    )

unfoldable pub allocate_grouped_buffer :
    (maximum_record_count maximum_group_count total_key_size total_value_size : ℕ)
    → Block
    → ℕ × SerializedBuffer
unfolding value_layout open_buffer
allocate_grouped_buffer maximum_record_count maximum_group_count total_key_size total_value_size
      block =
    let keys_header : ℕ = 16 in
    let keys_data = align_ceil (keys_header +w 16) 16 in
    let keys_offsets = keys_data +w align_ceil total_key_size 8 in
    let values_header = keys_offsets +w ((maximum_group_count +w 1) *w 8) in
    let v = value_layout values_header total_value_size maximum_record_count in
    let buffer_size = v.end +w ((maximum_group_count +w 1) *w 8) in
    (
      buffer_size,
      open_buffer (
          store_values_header values_header v maximum_record_count (
            store (keys_header +w 8) maximum_group_count (
              store keys_header (keys_offsets -w keys_data) (
                store_common_header (values_header -w keys_header) (buffer_size -w values_header)
                  block)))),
    )
