-- ===== src/Scheduler/State.antt =====
-- The state of src/scheduler/scheduler.cpp: the tasks that wait in the dependency graph, the
-- queues of those that may run, and the counters.
use m3bp.Prelude.{ℕ, Bool, Option, List}
use m3bp.Scheduler.Locality.{LocalityOption}

-- A command is known by the number of its object.
pub record PhysicalTask : Type 0 where
  pub logical_task_id : ℕ
  pub physical_task_id : ℕ
  pub command : ℕ

-- The task is moved out of its vertex when it is queued, which leaves a null pointer.
pub record PhysicalVertex : Type 0 where
  pub predecessor_count : ℕ
  pub successors : List ℕ
  pub locality_option : LocalityOption
  pub physical_task : Option PhysicalTask

-- What the scheduler asks of its LocalityManager: the number of workers, that of nodes, and the
-- node of each worker, `none` where the lookup is out of range.
pub record Places : Type 0 where
  pub max_concurrency : ℕ
  pub node_count : ℕ
  pub thread_mapping : ℕ → Option ℕ

pub record Scheduler : Type 0 where
  pub places : Places
  pub synchronizers : List Bool
  pub stealable_queues : List (List PhysicalTask)
  pub unstealable_queues : List (List PhysicalTask)
  pub vertices : List (ℕ × PhysicalVertex)
  pub created_task_count : ℕ
  pub unfinished_task_count : ℕ
  pub exception : Option ℕ
