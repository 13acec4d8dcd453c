-- ===== src/Shuffle/Task.antt =====
-- The physical tasks of src/tasks/shuffle/shuffle_logical_task.cpp and
-- src/tasks/value_sort/value_sort_logical_task.cpp. `draw` is that of the scheduler, and `worker`
-- what `random_worker_from_node` drew.
use m3bp.Prelude.{
  ℕ, zero, suc, ◌+◌, true, not, ◌||◌, Option, none, some, List, [], ◌∷◌, ◌++◌, ◌==◌, if◌then◌else◌,
  ◌>>=◌,
}
use m3bp.Memory.Manager.{MemoryReference}
use m3bp.Scheduler.Locality.{LocalityOption, any_worker}
use m3bp.Scheduler.State.{Scheduler}
use m3bp.Scheduler.Operations.{create_physical_task, add_dependency, commit_task}

pub data ShuffleCommand : Type 0 where
  no_command shuffle_barrier_command : ShuffleCommand
  shuffle_partition_command value_sort_command : MemoryReference → ShuffleCommand
  shuffle_sort_command : (partition : ℕ) → (sources : List MemoryReference) → ShuffleCommand

pub record ShuffleTask : Type 0 where
  pub task_id : ℕ
  pub entry_task : ℕ
  pub barrier_task : ℕ
  pub terminal_task : ℕ
  pub partition_count : ℕ
  pub partitioned_buffers : List MemoryReference

unfoldable pub create_shuffle_tasks :
    (ShuffleCommand → ℕ) → ShuffleTask → Scheduler → Option (ShuffleTask × Scheduler)
create_shuffle_tasks object t s = do
  let entry = create_physical_task t.task_id (object no_command) any_worker s
  let barrier = create_physical_task t.task_id (object shuffle_barrier_command) any_worker entry.0
  let terminal = create_physical_task t.task_id (object no_command) any_worker barrier.0
  linked ← add_dependency entry.1 barrier.1 terminal.0
  linked' ← add_dependency barrier.1 terminal.1 linked
  some (
    record t { entry_task = entry.1; barrier_task = barrier.1; terminal_task = terminal.1 },
    linked',
  )

unfoldable pub commit_shuffle_tasks : (ℕ → ℕ) → ShuffleTask → Scheduler → Option Scheduler
commit_shuffle_tasks draw t s = do
  s₁ ← commit_task draw t.entry_task s
  s₂ ← commit_task draw t.barrier_task s₁
  commit_task draw t.terminal_task s₂

-- A task that waits for `before`, and that `after` waits for, is created and committed.
unfoldable pub commit_between :
    (ℕ → ℕ)
    → (task_id command : ℕ) → LocalityOption
    → (before after : ℕ) → Scheduler
    → Option Scheduler
commit_between draw task_id command option before after s = do
  let created = create_physical_task task_id command option s
  s₁ ← add_dependency before created.1 created.0
  s₂ ← add_dependency created.1 after s₁
  commit_task draw created.1 s₂

unfoldable pub receive_shuffle_fragment :
    (ShuffleCommand → ℕ)
    → (ℕ → ℕ)
    → (worker port partition : ℕ) → MemoryReference
    → ShuffleTask
    → Scheduler
    → Option Scheduler
unfolding commit_between
receive_shuffle_fragment object draw worker port partition mobj t s =
    if not (port == 0) || not (partition == 0)
    then none
    else commit_between draw t.task_id (object (shuffle_partition_command mobj))
        (record { recommended_worker = worker; is_stealable = true }) t.entry_task t.barrier_task s

-- The end of `partition_fragment`: the buffer is kept for the sort.
abbrev pub keep_buffer : MemoryReference → ShuffleTask → ShuffleTask
keep_buffer mobj t = record t { partitioned_buffers = t.partitioned_buffers ++ mobj ∷ [] }

-- The loop over the partitions, with `left` to go from `p`.
unfoldable pub sort_task_loop :
    (ShuffleCommand → ℕ) → (ℕ → ℕ) → (p left : ℕ) → ShuffleTask → Scheduler → Option Scheduler
unfolding commit_between
sort_task_loop object draw p zero t s = some s
sort_task_loop object draw p (suc left) t s = do
  s' ←
      commit_between draw t.task_id (object (shuffle_sort_command p t.partitioned_buffers))
        any_worker t.barrier_task t.terminal_task s
  sort_task_loop object draw (p + 1) left t s'

unfoldable pub create_sort_tasks :
    (ShuffleCommand → ℕ) → (ℕ → ℕ) → ShuffleTask → Scheduler → Option (ShuffleTask × Scheduler)
unfolding sort_task_loop
create_sort_tasks object draw t s = do
  s' ← sort_task_loop object draw 0 t.partition_count t s
  some (record t { partitioned_buffers = [] }, s')

-- The value sort has no barrier of its own.
pub record ValueSortTask : Type 0 where
  pub task_id : ℕ
  pub entry_task : ℕ
  pub barrier_task : ℕ
  pub terminal_task : ℕ

unfoldable pub create_value_sort_tasks :
    (ShuffleCommand → ℕ) → ValueSortTask → Scheduler → Option (ValueSortTask × Scheduler)
create_value_sort_tasks object t s = do
  let entry = create_physical_task t.task_id (object no_command) any_worker s
  let terminal = create_physical_task t.task_id (object no_command) any_worker entry.0
  linked ← add_dependency entry.1 terminal.1 terminal.0
  some (
    record t { entry_task = entry.1; barrier_task = entry.1; terminal_task = terminal.1 },
    linked,
  )

unfoldable pub commit_value_sort_tasks : (ℕ → ℕ) → ValueSortTask → Scheduler → Option Scheduler
commit_value_sort_tasks draw t s = do
  s' ← commit_task draw t.entry_task s
  commit_task draw t.terminal_task s'

unfoldable pub receive_value_sort_fragment :
    (ShuffleCommand → ℕ)
    → (ℕ → ℕ)
    → (worker port : ℕ) → MemoryReference
    → ValueSortTask
    → Scheduler
    → Option Scheduler
unfolding commit_between
receive_value_sort_fragment object draw worker port mobj t s =
    if not (port == 0)
    then none
    else commit_between draw t.task_id (object (value_sort_command mobj))
        (record { recommended_worker = worker; is_stealable = true }) t.entry_task t.terminal_task s
