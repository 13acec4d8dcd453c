-- ===== src/Gather/Filled.antt =====
-- A buffer that `run_gather` of src/tasks/gather/gather_logical_task.cpp fills.
use m3bp.Prelude.{
  ℕ, ◌+◌, ◌-◌, ◌<◌, ◌≤◌, ◌≡◌, refl, ap, ◌∙◌, some, List, ◌++◌, leb, ◌==◌, ◌&&◌, if◌then◌else◌,
  arith, word,
}
use m3bp.Prelude.Words.{◌+w◌, ◌-w◌}
use m3bp.Memory.Arrays.{Array, read, write, copy, read_lem, write_lem, copy_lem}
use m3bp.Memory.Records.{ValueBuffer, IsValues, records, records_from, ascending}
use m3bp.Gather.Task.{append_offsets, append_serialized_buffer}
use m3bp.Gather.Offsets.{append_offsets_lem}
use m3bp.Gather.Append.{joined_lem}

-- The bytes that the records of a buffer take.
abbrev pub used_bytes : ValueBuffer → ℕ
used_bytes b = b.values_offsets.at b.record_count - b.values_offsets.at 0

-- The offsets once the first one is set.
abbrev pub zeroed : ValueBuffer → ℕ → ℕ
zeroed b k = if 0 == k then 0 else b.values_offsets.at k

-- A buffer that is being filled.
pub record Filled (bytes : ℕ) (held : List (List ℕ)) (b : ValueBuffer) : Type 0 where
  pub used : zeroed b b.record_count ≡ bytes
  pub ordered : (i : ℕ) → i < b.record_count → zeroed b i ≤ zeroed b (i + 1)
  pub held_is : records_from (zeroed b) b.values_data.at 0 b.record_count ≡ held

pub source_offsets :
    (src : ValueBuffer)
    → IsValues src
    → (j : ℕ) → j < src.record_count + 1
    → (src.values_offsets.at 0 ≤ src.values_offsets.at j)
      × (src.values_offsets.at j ≤ src.values_offsets.at src.record_count)
      × (src.values_offsets.at src.record_count < word)
source_offsets src ok j h =
    let f = src.values_offsets.at in
    let n = src.record_count in
    let low : f 0 ≤ f (0 + j) = ascending f n 0 j ok.ordered (omega arith) in
    let high : f j ≤ f (j + (n - j)) = ascending f n j (n - j) ok.ordered (omega arith) in
    let last : f (j + (n - j)) ≡ f n = ap f (omega arith) in
    (grind arith, omega arith, omega (arith, ok.within, ok.small))

-- The steps of an append, one after the other.
append_steps :
    (dst src : ValueBuffer) (z offs bytes' : Array) (base first last n total : ℕ)
    → write 0 0 dst.values_offsets ≡ some z
    → append_offsets src.values_offsets dst.record_count 1 src.record_count z ≡ some offs
    → read offs dst.record_count ≡ some base
    → read src.values_offsets 0 ≡ some first
    → read src.values_offsets src.record_count ≡ some last
    → last -w first ≡ n
    → copy base src.values_data first n dst.values_data ≡ some bytes'
    → dst.record_count +w src.record_count ≡ total
    → append_serialized_buffer dst src
      ≡ some (record { record_count = total; values_offsets = offs; values_data = bytes' })
unfolding append_serialized_buffer
append_steps dst src z offs bytes' base first last n total a b c d e f g h =
    rw (a, b, c, d, e, f, g, h) refl

pub append_serialized_buffer_lem :
    (bytes : ℕ) (held : List (List ℕ)) (dst src : ValueBuffer)
    → Filled bytes held dst
    → IsValues src
    → dst.record_count + src.record_count < dst.values_offsets.size
    → dst.record_count + src.record_count < word
    → bytes + used_bytes src ≤ dst.values_data.size
    → dst.values_data.size < word
    → (dst' : ValueBuffer) × (append_serialized_buffer dst src ≡ some dst')
      × Filled (bytes + used_bytes src) (held ++ records src) dst'
      × (dst'.record_count ≡ dst.record_count + src.record_count)
      × (dst'.values_offsets.size ≡ dst.values_offsets.size)
      × (dst'.values_data.size ≡ dst.values_data.size)
      × (dst'.values_offsets.at 0 ≡ 0)
unfolding append_serialized_buffer records
append_serialized_buffer_lem bytes held dst src filled ok fits small room whole =
    let cd = dst.record_count in
    let cs = src.record_count in
    let f = src.values_offsets.at in
    let z : Array = record dst.values_offsets { at = zeroed dst } in
    let (offs, e, size, at_k) =
      append_offsets_lem src.values_offsets cd cs ok.room
        (λ j h. let (a, b, c) = source_offsets src ok j h in (a, omega arith)) 1 cs z (omega arith)
        (omega arith) fits small
        (λ j h. let (a, b, c) = source_offsets src ok j h in omega (arith, filled.used)) in
    let (low, high, last) = source_offsets src ok 0 (omega arith) in
    let base : offs.at cd ≡ bytes = ground (arith, at_k cd, filled.used) in
    let (bytes', copied, same, byte) =
      copy_lem bytes (f 0) (used_bytes src) src.values_data dst.values_data
        (omega (arith, ok.within)) room in
    let dst' : ValueBuffer = record {
      record_count = cd + cs;
      values_offsets = offs;
      values_data = bytes';
    } in
    let offsets : (k : ℕ)
        → zeroed dst' k ≡ (
            if leb (cd + 1) k && leb k (cd + cs)
            then bytes + (f (k - cd) - f 0)
            else zeroed dst k) =
      λ k. ground (arith, at_k k, at_k 0, filled.used) in
    let joined =
      joined_lem (zeroed dst) (zeroed dst') f dst.values_data.at bytes'.at src.values_data.at cd cs
        bytes offsets byte filled.used filled.ordered ok.ordered in
    (
      dst',
      append_steps dst src z offs bytes' bytes (f 0) (f cs) (used_bytes src) (cd + cs)
          (write_lem 0 0 dst.values_offsets (omega arith)) e
          (read_lem offs cd (omega arith) ∙ ap some base)
          (read_lem src.values_offsets 0 (omega (arith, ok.room)))
          (read_lem src.values_offsets cs ok.room) (omega arith) copied (omega arith),
      record {
        used = joined.0;
        ordered = joined.1;
        held_is = joined.2 ∙ ap (λ (l : List (List ℕ)). l ++ records src) filled.held_is;
      },
      refl,
      size,
      same,
      ground (arith, at_k 0),
    )
