-- ===== src/Shuffle/Reading.antt =====
-- How `sort_records` of src/tasks/shuffle/shuffle_logical_task.cpp finds the records of a partition
-- again, and the accessors of src/tasks/shuffle/msd_radix_sort.hpp.
use m3bp.Prelude.{
  ℕ, zero, suc, ◌+◌, true, false, Option, none, some, List, [], ◌∷◌, ◌==◌, if◌then◌else◌, ◌>>=◌,
}
use m3bp.Prelude.Words.{◌+w◌, ◌-w◌}
use m3bp.Memory.Arrays.{Array, read, slice}
use m3bp.Memory.Bytes.{read_word}
use m3bp.Shuffle.Partition.{ShuffleBuffer}

abbrev pub get_record_length : Array → ℕ → Option ℕ
get_record_length contents ptr = read_word contents ptr

abbrev pub get_key_length : Array → ℕ → Option ℕ
get_key_length contents ptr = read_word contents (ptr +w 8)

-- A key and its value.
abbrev pub Record : Type 0
Record = List ℕ × List ℕ

-- The key and the value behind a pointer, as the accessors give them.
unfoldable pub record_at : Array → ℕ → Option Record
record_at contents ptr = do
  size ← get_record_length contents ptr
  key_length ← get_key_length contents ptr
  some (
    slice contents.at (ptr +w 16) key_length,
    slice contents.at (ptr +w 16 +w key_length) (size -w key_length),
  )

-- The `while` loop over a partition. Each round goes on by at least 16 bytes.
unfoldable pub scan_pointers : Array → (fuel ptr end : ℕ) → Option (List ℕ)
scan_pointers contents zero ptr end = if ptr == end then some [] else none
scan_pointers contents (suc rest) ptr end = elim (ptr == end) [
  | true ↦ some []
  | false ↦ do
    size ← get_record_length contents ptr
    pointers ← scan_pointers contents rest (ptr +w (size +w 16)) end
    some (ptr ∷ pointers)
]

-- The pointers of one partition in one fragment.
unfoldable pub partition_pointers : ShuffleBuffer → (partition : ℕ) → Option (List ℕ)
partition_pointers sb partition = do
  start ← read sb.offsets partition
  end ← read sb.offsets (partition + 1)
  scan_pointers sb.contents (end -w start) start end
