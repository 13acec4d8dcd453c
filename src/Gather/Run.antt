-- ===== src/Gather/Run.antt =====
-- `run_gather` of src/tasks/gather/gather_logical_task.cpp and its loops.
use m3bp.Prelude.{
  ℕ, ◌+◌, ◌<◌, ◌≤◌, ◌≡◌, refl, sym, ap, ◌∙◌, true, Option, some, List, [], ◌∷◌, ◌++◌, length, ◌==◌,
  arith, word, ◌⊎◌, inl, inr, append-nil, append_assoc,
}
use m3bp.Prelude.Words.{◌+w◌, ◌-w◌}
use m3bp.Memory.Arrays.{read_lem}
use m3bp.Memory.Records.{
  ValueBuffer, IsValues, records, records_from, records_from-same, new_values,
}
use m3bp.Gather.Task.{GatherTask, compute_actual_values_size, append_all, total_sizes, run_gather}
use m3bp.Gather.Filled.{used_bytes, zeroed, Filled, source_offsets, append_serialized_buffer_lem}

abbrev pub AllValues : List ValueBuffer → Type 0
AllValues [] = Unit
AllValues (src ∷ sources) = IsValues src × AllValues sources

abbrev pub total_count : List ValueBuffer → ℕ
total_count [] = 0
total_count (src ∷ sources) = src.record_count + total_count sources

abbrev pub total_bytes : List ValueBuffer → ℕ
total_bytes [] = 0
total_bytes (src ∷ sources) = used_bytes src + total_bytes sources

abbrev pub all_records : List ValueBuffer → List (List ℕ)
all_records [] = []
all_records (src ∷ sources) = records src ++ all_records sources

Filled-same :
    {bytes bytes' : ℕ} {held held' : List (List ℕ)} {b : ValueBuffer}
    → bytes ≡ bytes'
    → held ≡ held'
    → Filled bytes held b
    → Filled bytes' held' b
Filled-same same alike filled = record {
  used = filled.used ∙ same;
  ordered = filled.ordered;
  held_is = filled.held_is ∙ alike;
}

append_all_lem :
    (bytes : ℕ) (held : List (List ℕ)) (dst : ValueBuffer) (sources : List ValueBuffer)
    → Filled bytes held dst
    → AllValues sources
    → dst.record_count + total_count sources < dst.values_offsets.size
    → dst.record_count + total_count sources < word
    → bytes + total_bytes sources ≤ dst.values_data.size
    → dst.values_data.size < word
    → (dst' : ValueBuffer) × (append_all dst sources ≡ some dst')
      × Filled (bytes + total_bytes sources) (held ++ all_records sources) dst'
      × (dst'.record_count ≡ dst.record_count + total_count sources)
      × (dst'.values_offsets.size ≡ dst.values_offsets.size)
      × (dst'.values_data.size ≡ dst.values_data.size)
      × ((dst.values_offsets.at 0 ≡ 0) ⊎ (0 < length sources) → dst'.values_offsets.at 0 ≡ 0)
unfolding append_all
append_all_lem bytes held dst [] filled ok fits small room whole = (
  dst,
  refl,
  Filled-same (omega arith) (sym (append-nil held)) filled,
  omega arith,
  refl,
  refl,
  λ h. elim h [ inl z ↦ z | inr n ↦ absurd (omega arith) ],
)
append_all_lem bytes held dst (src ∷ sources) filled ok fits small room whole =
    let (dst₁, e, filled₁, count, offsets, size, first) =
      append_serialized_buffer_lem bytes held dst src filled ok.0 (omega arith) (omega arith)
        (omega arith) whole in
    let (dst₂, e', filled₂, count', offsets', size', first') =
      append_all_lem (bytes + used_bytes src) (held ++ records src) dst₁ sources filled₁ ok.1
        (omega arith) (omega arith) (omega arith) (omega arith) in
    (
      dst₂,
      rw e e',
      Filled-same (omega arith) (append_assoc held (records src) (all_records sources)) filled₂,
      omega arith,
      offsets' ∙ offsets,
      size' ∙ size,
      λ _. first' (inl first),
    )

some_pair : {a b c d : ℕ} → a ≡ c → b ≡ d → ◌≡◌ {A = Option (ℕ × ℕ)} (some (a, b)) (some (c, d))
some_pair e f = cc

total_sizes_lem :
    (sources : List ValueBuffer) (count size : ℕ)
    → AllValues sources
    → count + total_count sources < word
    → size + total_bytes sources < word
    → total_sizes sources count size
      ≡ some (count + total_count sources, size + total_bytes sources)
unfolding total_sizes compute_actual_values_size
total_sizes_lem [] count size ok fits small = some_pair (omega arith) (omega arith)
total_sizes_lem (src ∷ sources) count size ok fits small =
    let (low, high, last) = source_offsets src ok.0 0 (omega arith) in
    let bytes : src.values_offsets.at src.record_count -w src.values_offsets.at 0 ≡ used_bytes src =
      omega arith in
    let counts : count +w src.record_count ≡ count + src.record_count = omega arith in
    let sizes : size +w used_bytes src ≡ size + used_bytes src = omega arith in
    rw
      (
        read_lem src.values_offsets src.record_count ok.0.room,
        read_lem src.values_offsets 0 (omega (arith, ok.0.room)),
        bytes,
        counts,
        sizes,
        total_sizes_lem sources (count + src.record_count) (size + used_bytes src) ok.1
            (omega arith) (omega arith),
      )
      (some_pair (omega arith) (omega arith))

-- All sources are well formed, and the sizes do not overflow.
pub record IsGatherable (sources : List ValueBuffer) : Type 0 where
  pub values : AllValues sources
  pub counts : total_count sources + 1 < word
  pub sizes : total_bytes sources < word

-- The offsets in use once the first one is 0.
held_lem :
    (dst : ValueBuffer) (sources : List ValueBuffer)
    → (0 < length sources → dst.values_offsets.at 0 ≡ 0)
    → records_from (zeroed dst) dst.values_data.at 0 (total_count sources) ≡ all_records sources
    → records_from dst.values_offsets.at dst.values_data.at 0 (total_count sources)
      ≡ all_records sources
held_lem dst [] first held = refl
held_lem dst (src ∷ sources) first held =
    let zero_at : dst.values_offsets.at 0 ≡ 0 = first (omega arith) in
    records_from-same dst.values_offsets.at (zeroed dst) dst.values_data.at 0
      (total_count (src ∷ sources)) (λ j. grind (arith, zero_at))
    ∙ held

-- What a filled buffer holds, for its number of records `n`.
gathered_lem :
    (dst : ValueBuffer) (sources : List ValueBuffer) (n : ℕ)
    → IsGatherable sources
    → n ≡ total_count sources
    → Filled (total_bytes sources) (all_records sources) dst
    → dst.record_count ≡ n
    → dst.values_offsets.size ≡ n + 1
    → dst.values_data.size ≡ total_bytes sources
    → (0 < length sources → dst.values_offsets.at 0 ≡ 0)
    → (records (record dst { record_count = n }) ≡ all_records sources)
      × (0 < length sources → IsValues (record dst { record_count = n }))
unfolding records
gathered_lem dst sources n ok is_n filled count room size start = (
  rw is_n (
      held_lem dst sources start (
        ap (records_from (zeroed dst) dst.values_data.at 0) (sym is_n ∙ sym count)
        ∙ filled.held_is)),
  λ h.
      let zero_at : dst.values_offsets.at 0 ≡ 0 = start h in
      let same : (j : ℕ) → dst.values_offsets.at j ≡ zeroed dst j = λ j. grind (arith, zero_at) in
      record {
        room = omega arith;
        ordered = λ i less. omega (arith, same i, same (i + 1), filled.ordered i (omega arith));
        within = omega (arith, same n, filled.used, ap (zeroed dst) count);
        small = omega (arith, ok.sizes);
      },
)

run_steps :
    (offsets bytes : ℕ → ℕ) (sources : List ValueBuffer) (t : GatherTask) (n m : ℕ)
    (dst : ValueBuffer)
    → length sources ≡ length t.inputs
    → total_sizes sources 0 0 ≡ some (n, m)
    → append_all (new_values offsets bytes n m) sources ≡ some dst
    → run_gather offsets bytes sources t
      ≡ some (record dst { record_count = n }, record t { inputs = [] })
unfolding run_gather
run_steps offsets bytes sources t n m dst same e f =
    let met : (length sources == length t.inputs) ≡ true = ground arith in rw (met, e, f) refl

-- Of well-formed buffers, as many as the task has received and small enough together, gathering
-- succeeds and keeps within every array: the fragment holds the records of the buffers, one after
-- the other, is well formed if there was a buffer, and the inputs are given up.
pub run_gather_lem :
    (offsets bytes : ℕ → ℕ) (sources : List ValueBuffer) (t : GatherTask)
    → IsGatherable sources
    → length sources ≡ length t.inputs
    → (dst : ValueBuffer) × (run_gather offsets bytes sources t
        ≡ some (dst, record t { inputs = [] }))
      × (records dst ≡ all_records sources)
      × (0 < length sources → IsValues dst)
unfolding run_gather new_values records
run_gather_lem offsets bytes sources t ok same =
    let n = total_count sources in
    let fresh = new_values offsets bytes n (total_bytes sources) in
    let (dst, e, filled, count, room, size, first) =
      append_all_lem 0 [] fresh sources
        (record { used = refl; ordered = λ i h. absurd (omega arith); held_is = refl }) ok.values
        (omega (arith, ok.counts)) (omega (arith, ok.counts)) (omega arith) ok.sizes in
    let total : total_sizes sources 0 0 ≡ some (n, total_bytes sources) =
      total_sizes_lem sources 0 0 ok.values (omega (arith, ok.counts)) (omega (arith, ok.sizes))
      ∙ some_pair (omega arith) (omega arith) in
    let is_n : dst.record_count ≡ n = omega arith in
    let whole : Filled (total_bytes sources) (all_records sources) dst =
      Filled-same (omega arith) refl filled in
    let (held, valid) =
      gathered_lem dst sources n ok refl whole is_n (omega (arith, ok.counts)) size
        (λ h. first (inr h)) in
    (
      record dst { record_count = n },
      run_steps offsets bytes sources t n (total_bytes sources) dst same total e,
      held,
      valid,
    )
