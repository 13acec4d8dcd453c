-- ===== src/Gather/Task.antt =====
-- src/tasks/gather/gather_logical_task.cpp.
use m3bp.Prelude.{
  ℕ, zero, suc, ◌+◌, not, ◌||◌, Option, none, some, List, [], ◌∷◌, ◌++◌, length, ◌==◌,
  if◌then◌else◌, ◌>>=◌,
}
use m3bp.Prelude.Words.{◌+w◌, ◌-w◌}
use m3bp.Memory.Manager.{MemoryReference}
use m3bp.Memory.Arrays.{Array, read, write, copy}
use m3bp.Memory.Records.{ValueBuffer, new_values}
use m3bp.Scheduler.Locality.{any_worker}
use m3bp.Scheduler.State.{Scheduler}
use m3bp.Scheduler.Operations.{create_physical_task, commit_task}

pub record GatherTask : Type 0 where
  pub task_id : ℕ
  pub entry_task : ℕ
  pub barrier_task : ℕ
  pub terminal_task : ℕ
  pub inputs : List MemoryReference

unfoldable pub compute_actual_values_size : ValueBuffer → Option ℕ
compute_actual_values_size sb = do
  last ← read sb.values_offsets sb.record_count
  first ← read sb.values_offsets 0
  some (last -w first)

-- The loop over the offsets, with `left` to go from the `i`th.
unfoldable pub append_offsets :
    (src : Array) → (base_count i left : ℕ) → (dst : Array) → Option Array
append_offsets src base_count i zero dst = some dst
append_offsets src base_count i (suc left) dst = do
  base ← read dst base_count
  offset ← read src i
  first ← read src 0
  dst' ← write (base_count +w i) (base +w offset -w first) dst
  append_offsets src base_count (i + 1) left dst'

unfoldable pub append_serialized_buffer : (dst src : ValueBuffer) → Option ValueBuffer
unfolding append_offsets
append_serialized_buffer dst src = do
  zeroed ← write 0 0 dst.values_offsets
  offsets ← append_offsets src.values_offsets dst.record_count 1 src.record_count zeroed
  base ← read offsets dst.record_count
  first ← read src.values_offsets 0
  last ← read src.values_offsets src.record_count
  bytes ← copy base src.values_data first (last -w first) dst.values_data
  some (record {
    record_count = dst.record_count +w src.record_count;
    values_offsets = offsets;
    values_data = bytes;
  })

-- The sums of the loop over the sources.
unfoldable pub total_sizes : List ValueBuffer → (count size : ℕ) → Option (ℕ × ℕ)
unfolding compute_actual_values_size
total_sizes [] count size = some (count, size)
total_sizes (src ∷ sources) count size = do
  bytes ← compute_actual_values_size src
  total_sizes sources (count +w src.record_count) (size +w bytes)

unfoldable pub append_all : ValueBuffer → List ValueBuffer → Option ValueBuffer
unfolding append_serialized_buffer
append_all dst [] = some dst
append_all dst (src ∷ sources) = do dst' ← append_serialized_buffer dst src; append_all dst' sources

-- `sources` are the locked inputs. The result is the fragment that is handed on, at port 0 and
-- partition 0; what its memory held before is an argument.
unfoldable pub run_gather :
    (offsets bytes : ℕ → ℕ)
    → (sources : List ValueBuffer) → GatherTask
    → Option (ValueBuffer × GatherTask)
unfolding total_sizes new_values append_all
run_gather offsets bytes sources t = if not (length sources == length t.inputs) then none else do
  total ← total_sizes sources 0 0
  dst ← append_all (new_values offsets bytes total.0 total.1) sources
  some (record dst { record_count = total.0 }, record t { inputs = [] })

unfoldable pub create_gather_task : (command : ℕ) → GatherTask → Scheduler → GatherTask × Scheduler
create_gather_task command t s =
    let (s', id) = create_physical_task t.task_id command any_worker s in
    (record t { entry_task = id; barrier_task = id; terminal_task = id }, s')

unfoldable pub commit_gather_task : (ℕ → ℕ) → GatherTask → Scheduler → Option Scheduler
commit_gather_task draw t s = commit_task draw t.entry_task s

unfoldable pub receive_fragment :
    (port partition : ℕ) → MemoryReference → GatherTask → Option GatherTask
receive_fragment port partition mobj t =
    if not (port == 0) || not (partition == 0)
    then none
    else some (record t { inputs = t.inputs ++ mobj ∷ [] })
