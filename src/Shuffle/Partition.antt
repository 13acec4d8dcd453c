-- ===== src/Shuffle/Partition.antt =====
-- `partition_fragment` of src/tasks/shuffle/shuffle_logical_task.cpp: the records of a buffer are
-- dealt out to the partitions, in a buffer with one part for each (shuffle_buffer.hpp).
use m3bp.Prelude.{ℕ, zero, suc, ◌+◌, ◌%◌, ◌^◌, Option, none, some, ◌>>=◌, leb, if◌then◌else◌}
use m3bp.Prelude.Words.{◌+w◌, ◌-w◌, ◌*w◌}
use m3bp.Memory.Arrays.{Array, read, write, copy, slice}
use m3bp.Memory.Bytes.{write_word}
use m3bp.Shuffle.Hash.{hash_byte_sequence}

-- The parts of a key-value buffer that its accessors give.
pub record KeyValueBuffer : Type 0 where
  pub record_count : ℕ
  pub values_offsets : Array
  pub key_lengths : Array
  pub values_data : Array

pub record ShuffleBuffer : Type 0 where
  pub offsets : Array
  pub contents : Array

-- The vectors of the first loop.
pub record Sums : Type 0 where
  pub record_counts : Array
  pub size_sums : Array
  pub partitions : Array

abbrev pub zeros : ℕ → Array
zeros n = record { size = n; at = λ _. 0 }

unfoldable pub key_hash : KeyValueBuffer → (partition_count offset key_length : ℕ) → Option ℕ
unfolding hash_byte_sequence
key_hash src partition_count offset key_length =
    if leb (offset + key_length) src.values_data.size
    then hash_byte_sequence (slice src.values_data.at offset key_length) partition_count
    else none

-- The loops run over `left` records or partitions, from the `i`th on.
unfoldable pub sum_records : KeyValueBuffer → (partition_count i left : ℕ) → Sums → Option Sums
unfolding key_hash
sum_records src partition_count i zero sums = some sums
sum_records src partition_count i (suc left) sums = do
  offset ← read src.values_offsets i
  next ← read src.values_offsets (i + 1)
  key_length ← read src.key_lengths i
  hashed ← key_hash src partition_count offset key_length
  let p = hashed % 2 ^ 32
  count ← read sums.record_counts p
  record_counts ← write p (count +w 1) sums.record_counts
  size ← read sums.size_sums p
  size_sums ← write p (size +w (next -w offset)) sums.size_sums
  partitions ← write i p sums.partitions
  sum_records src partition_count (i + 1) left
      (record { record_counts = record_counts; size_sums = size_sums; partitions = partitions })

unfoldable pub lay_out :
    Sums → (i left : ℕ) → (offsets cur_offsets : Array) → Option (Array × Array)
lay_out sums i zero offsets cur_offsets = some (offsets, cur_offsets)
lay_out sums i (suc left) offsets cur_offsets = do
  start ← read offsets i
  size ← read sums.size_sums i
  count ← read sums.record_counts i
  offsets' ← write (i + 1) (start +w size +w 16 *w count) offsets
  cur_offsets' ← write i start cur_offsets
  lay_out sums (i + 1) left offsets' cur_offsets'

unfoldable pub copy_records :
    KeyValueBuffer
    → (partitions : Array) → (i left : ℕ) → (cur_offsets contents : Array) → Option Array
unfolding write_word copy
copy_records src partitions i zero cur_offsets contents = some contents
copy_records src partitions i (suc left) cur_offsets contents = do
  p ← read partitions i
  offset ← read src.values_offsets i
  next ← read src.values_offsets (i + 1)
  key_length ← read src.key_lengths i
  start ← read cur_offsets p
  let record_length = next -w offset
  headed ← write_word start record_length contents
  keyed ← write_word (start +w 8) key_length headed
  copied ← copy (start +w 16) src.values_data offset record_length keyed
  cur_offsets' ← write p (start +w (record_length +w 16)) cur_offsets
  copy_records src partitions (i + 1) left cur_offsets' copied

-- What the fresh memory held before is an argument.
unfoldable pub partition_fragment :
    (offsets contents : ℕ → ℕ) → KeyValueBuffer → (partition_count : ℕ) → Option ShuffleBuffer
unfolding sum_records lay_out copy_records
partition_fragment offsets contents src partition_count = do
  let n = src.record_count
  sums ← sum_records src partition_count 0 n (record {
    record_counts = zeros partition_count;
    size_sums = zeros partition_count;
    partitions = zeros n;
  })
  first ← read src.values_offsets 0
  last ← read src.values_offsets n
  let total_buffer_size = last -w first +w 16 *w n
  zeroed ← write 0 0 (record { size = partition_count +w 1; at = offsets })
  laid ← lay_out sums 0 partition_count zeroed (zeros partition_count)
  filled ←
      copy_records src sums.partitions 0 n laid.1
        (record { size = total_buffer_size; at = contents })
  some (record { offsets = laid.0; contents = filled })
