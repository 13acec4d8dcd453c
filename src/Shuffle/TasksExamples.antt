-- ===== src/Shuffle/TasksExamples.antt =====
-- A shuffle with two partitions, whose barrier and terminal tasks have been created.
use m3bp.Prelude.{ℕ, some, [], ◌∷◌}
use m3bp.Memory.Manager.{null_reference}
use m3bp.Scheduler.Locality.{any_worker}
use m3bp.Scheduler.State.{Places, Scheduler, PhysicalVertex}
use m3bp.Scheduler.Operations.{init, create_physical_task}
use m3bp.Shuffle.Task.{ShuffleCommand, ShuffleTask}

abbrev one_worker : Places
one_worker = record { max_concurrency = 1; node_count = 1; thread_mapping = λ _. some 0 }

abbrev with_barrier : Scheduler
with_barrier = (create_physical_task 4 7 any_worker (init one_worker)).0

abbrev with_terminal : Scheduler
with_terminal = (create_physical_task 4 7 any_worker with_barrier).0

abbrev terminal_vertex : PhysicalVertex
terminal_vertex = record {
  predecessor_count = 1;
  successors = [];
  locality_option = any_worker;
  physical_task = some (record { logical_task_id = 4; physical_task_id = 1; command = 7 });
}

abbrev barrier_vertex : PhysicalVertex
barrier_vertex = record {
  predecessor_count = 1;
  successors = [];
  locality_option = any_worker;
  physical_task = some (record { logical_task_id = 4; physical_task_id = 0; command = 7 });
}

abbrev the_shuffle : ShuffleTask
the_shuffle = record {
  task_id = 4;
  entry_task = 0;
  barrier_task = 0;
  terminal_task = 1;
  partition_count = 2;
  partitioned_buffers = null_reference ∷ [];
}

abbrev number : ShuffleCommand → ℕ
number _ = 7

abbrev first : ℕ → ℕ
first _ = 0
