-- ===== src/Process/Commands.antt =====
-- How src/tasks/process creates the physical tasks of a process task: at most `max_concurrency` of
-- them are committed at a time, and the others wait in a queue. `object` gives the number of the
-- object of each command; `draw` is that of the scheduler.
use m3bp.Prelude.{
  ℕ, zero, suc, ◌+◌, Bool, true, false, Option, none, some, List, [], ◌∷◌, ◌++◌, length, get_elem?,
  set, replicate, ltb, ◌==◌, if◌then◌else◌, ◌>>=◌, wrap_pred, wrap_suc, not, ◌||◌,
}
use m3bp.Graph.FlowGraph.{InputPort, is_scatter_gather}
use m3bp.Memory.Manager.{MemoryReference, null_reference}
use m3bp.Scheduler.Locality.{LocalityOption, any_worker}
use m3bp.Scheduler.State.{Scheduler}
use m3bp.Scheduler.Operations.{create_physical_task, add_dependency, commit_task}
use m3bp.Process.State.{ProcessTask}

pub data Command : Type 0 where
  global_initialize_command process_barrier_command global_finalize_command : Command
  thread_local_finalize_command : Command
  input_process_run_command : (physical_task_id : ℕ) → Command
  one_to_one_process_run_command : (input : MemoryReference) (port : ℕ) → Command
  scatter_gather_process_run_command : (inputs : List MemoryReference) (partition : ℕ) → Command

unfoldable pub create_physical_tasks :
    (Command → ℕ) → ProcessTask → Scheduler → Option (ProcessTask × Scheduler)
create_physical_tasks object t s = do
  let entry = create_physical_task t.task_id (object global_initialize_command) any_worker s
  let barrier = create_physical_task t.task_id (object process_barrier_command) any_worker entry.0
  let terminal =
      create_physical_task t.task_id (object global_finalize_command) any_worker barrier.0
  linked ← add_dependency entry.1 barrier.1 terminal.0
  linked' ← add_dependency barrier.1 terminal.1 linked
  some (
    record t { entry_task = entry.1; barrier_task = barrier.1; terminal_task = terminal.1 },
    linked',
  )

unfoldable pub commit_physical_tasks : (ℕ → ℕ) → ProcessTask → Scheduler → Option Scheduler
commit_physical_tasks draw t s = do
  s₁ ← commit_task draw t.entry_task s
  s₂ ← commit_task draw t.barrier_task s₁
  commit_task draw t.terminal_task s₂

unfoldable pub commit_process_command :
    (ℕ → ℕ) → ℕ → ProcessTask → Scheduler → Option (ProcessTask × Scheduler)
commit_process_command draw task t s =
    if t.remaining_concurrency == 0
    then some (record t { task_queue = t.task_queue ++ task ∷ [] }, s)
    else do
      s' ← commit_task draw task s
      some (record t { remaining_concurrency = wrap_pred t.remaining_concurrency }, s')

-- The `while` loop of `notify_completion`, on the queue and the remaining concurrency.
unfoldable pub drain_queue : (ℕ → ℕ) → List ℕ → ℕ → Scheduler → Option (List ℕ × ℕ × Scheduler)
drain_queue draw [] remaining s = some ([], remaining, s)
drain_queue draw (task ∷ queue) remaining s = elim (ltb 0 remaining) [
  | true ↦ do s' ← commit_task draw task s; drain_queue draw queue (wrap_pred remaining) s'
  | false ↦ some (task ∷ queue, remaining, s)
]

unfoldable pub notify_completion :
    (ℕ → ℕ) → ProcessTask → Scheduler → Option (ProcessTask × Scheduler)
unfolding drain_queue
notify_completion draw t s = do
  r ← drain_queue draw t.task_queue (wrap_suc t.remaining_concurrency) s
  some (record t { task_queue = r.0; remaining_concurrency = r.1 }, r.2)

-- A run command stands between the entry task and the barrier.
unfoldable pub create_run_task :
    (Command → ℕ)
    → (ℕ → ℕ)
    → Command
    → LocalityOption
    → ProcessTask
    → Scheduler
    → Option (ProcessTask × Scheduler)
unfolding commit_process_command
create_run_task object draw command option t s = do
  let created = create_physical_task t.task_id (object command) option s
  s₁ ← add_dependency t.entry_task created.1 created.0
  s₂ ← add_dependency created.1 t.barrier_task s₁
  commit_process_command draw created.1 t s₂

-- `after_global_initialize` of a task with no shuffled or one-to-one input: the loop over
-- `task_count`, with `left` to go.
unfoldable pub create_input_tasks :
    (Command → ℕ)
    → (ℕ → ℕ)
    → (left i : ℕ) → ProcessTask
    → Scheduler
    → Option (ProcessTask × Scheduler)
unfolding create_run_task
create_input_tasks object draw zero i t s = some (t, s)
create_input_tasks object draw (suc left) i t s = do
  r ← create_run_task object draw (input_process_run_command i) any_worker t s
  create_input_tasks object draw left (i + 1) r.0 r.1

unfoldable pub after_global_initialize :
    (Command → ℕ)
    → (ℕ → ℕ)
    → (task_count : ℕ) → ProcessTask
    → Scheduler
    → Option (ProcessTask × Scheduler)
unfolding create_input_tasks
after_global_initialize object draw task_count t s = create_input_tasks object draw task_count 0 t s

-- The loop over the threads, whose flags are given from `i` on: each that was set up is finalized
-- by a task that only its worker may take.
unfoldable pub create_finalizers :
    (Command → ℕ)
    → (ℕ → ℕ)
    → List Bool
    → (i : ℕ) → ProcessTask
    → Scheduler
    → Option (ProcessTask × Scheduler)
unfolding commit_process_command
create_finalizers object draw [] i t s = some (t, s)
create_finalizers object draw (false ∷ flags) i t s =
    create_finalizers object draw flags (i + 1) t s
create_finalizers object draw (true ∷ flags) i t s = do
  let option : LocalityOption = record { recommended_worker = i; is_stealable = false }
  let created = create_physical_task t.task_id (object thread_local_finalize_command) option s
  s' ← add_dependency created.1 t.terminal_task created.0
  r ← commit_process_command draw created.1 t s'
  create_finalizers object draw flags (i + 1) r.0 r.1

unfoldable pub create_thread_local_finalizers :
    (Command → ℕ) → (ℕ → ℕ) → ProcessTask → Scheduler → Option (ProcessTask × Scheduler)
unfolding create_finalizers
create_thread_local_finalizers object draw t s =
    create_finalizers object draw t.thread_local_initialized 0 t s

-- A broadcast fragment is kept for all commands; it comes before the processor is set up.
unfoldable pub receive_broadcast : (port : ℕ) → MemoryReference → ProcessTask → Option ProcessTask
receive_broadcast port mobj t =
    if t.global_initialized || not (ltb port (length t.broadcast_inputs))
    then none
    else some (record t { broadcast_inputs = set t.broadcast_inputs port mobj })

-- `worker` is what `random_worker_from_node` drew for the fragment.
unfoldable pub receive_one_to_one :
    (Command → ℕ)
    → (ℕ → ℕ)
    → (worker port partition : ℕ) → MemoryReference
    → ProcessTask
    → Scheduler
    → Option (ProcessTask × Scheduler)
unfolding create_run_task
receive_one_to_one object draw worker port partition mobj t s =
    if not (partition == 0)
    then none
    else create_run_task object draw (one_to_one_process_run_command mobj port)
        (record { recommended_worker = worker; is_stealable = true }) t s

-- The fragments of each partition, by port, and how many of them are still to come.
pub record ScatterGather : Type 0 where
  pub base : ProcessTask
  pub partitioned_pool : List (List MemoryReference)
  pub waiting_counters : List ℕ

abbrev pub scatter_gather_count : List InputPort → ℕ
scatter_gather_count [] = 0
scatter_gather_count (p ∷ ports) =
    (if is_scatter_gather p.movement then 1 else 0) + scatter_gather_count ports

unfoldable pub new_scatter_gather : ProcessTask → (partition_count : ℕ) → ScatterGather
new_scatter_gather t partition_count = record {
  base = t;
  partitioned_pool = replicate partition_count (replicate (length t.input_ports) null_reference);
  waiting_counters = replicate partition_count (scatter_gather_count t.input_ports);
}

-- The fragment is stored, and the last one of a partition makes its command, which takes the pool
-- of the partition away.
unfoldable pub receive_scatter_gather :
    (Command → ℕ)
    → (ℕ → ℕ)
    → (worker port partition : ℕ) → MemoryReference
    → ScatterGather
    → Scheduler
    → Option (ScatterGather × Scheduler)
unfolding create_run_task
receive_scatter_gather object draw worker port partition mobj g s = do
  pool ← get_elem? g.partitioned_pool partition
  _ ← get_elem? pool port
  iport ← get_elem? g.base.input_ports port
  count ← get_elem? g.waiting_counters partition
  let pool' = set pool port mobj
  let left = wrap_pred count
  if not (is_scatter_gather iport.movement)
      then none
      else if left == 0
      then (do
        r ←
            create_run_task object draw (scatter_gather_process_run_command pool' partition)
              (record { recommended_worker = worker; is_stealable = true }) g.base s
        some (
          record {
            base = r.0;
            partitioned_pool = set g.partitioned_pool partition [];
            waiting_counters = set g.waiting_counters partition left;
          },
          r.1,
        ))
      else some (
        record g {
          partitioned_pool = set g.partitioned_pool partition pool';
          waiting_counters = set g.waiting_counters partition left;
        },
        s,
      )
