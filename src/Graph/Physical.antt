-- ===== src/Graph/Physical.antt =====
-- `create_physical_tasks` of src/graph/logical_graph.cpp: the tasks of all components, their edges
-- in the scheduler, and their commits.
use m3bp.Prelude.{ℕ, Option, some, List, [], ◌∷◌, get_elem?, ◌>>=◌}
use m3bp.Graph.LogicalGraph.{PhysicalSuccessor, entry, barrier, terminal, Edge}
use m3bp.Scheduler.State.{Scheduler}
use m3bp.Scheduler.Operations.{add_dependency}
use m3bp.Process.State.{ProcessTask}
use m3bp.Process.Commands.{Command, create_physical_tasks, commit_physical_tasks}
use m3bp.Shuffle.Task.{
  ShuffleCommand, ShuffleTask, ValueSortTask, create_shuffle_tasks, commit_shuffle_tasks,
  create_value_sort_tasks, commit_value_sort_tasks,
}
use m3bp.Gather.Task.{GatherTask, create_gather_task, commit_gather_task}

-- A task of the graph, by its class.
pub data AnyTask : Type 0 where
  process_task : ProcessTask → AnyTask
  shuffle_task : ShuffleTask → AnyTask
  gather_task : GatherTask → AnyTask
  value_sort_task : ValueSortTask → AnyTask

-- The numbers of the objects of the commands.
pub record Objects : Type 0 where
  pub process : Command → ℕ
  pub shuffle : ShuffleCommand → ℕ
  pub gather : ℕ

-- The virtual methods.
unfoldable pub create_any : Objects → AnyTask → Scheduler → Option (AnyTask × Scheduler)
unfolding create_physical_tasks create_shuffle_tasks create_gather_task create_value_sort_tasks
create_any o (process_task t) s = do
  r ← create_physical_tasks o.process t s
  some (process_task r.0, r.1)
create_any o (shuffle_task t) s = do
  r ← create_shuffle_tasks o.shuffle t s
  some (shuffle_task r.0, r.1)
create_any o (gather_task t) s =
    let r = create_gather_task o.gather t s in some (gather_task r.0, r.1)
create_any o (value_sort_task t) s = do
  r ← create_value_sort_tasks o.shuffle t s
  some (value_sort_task r.0, r.1)

unfoldable pub commit_any : (ℕ → ℕ) → AnyTask → Scheduler → Option Scheduler
unfolding commit_physical_tasks commit_shuffle_tasks commit_gather_task commit_value_sort_tasks
commit_any draw (process_task t) s = commit_physical_tasks draw t s
commit_any draw (shuffle_task t) s = commit_shuffle_tasks draw t s
commit_any draw (gather_task t) s = commit_gather_task draw t s
commit_any draw (value_sort_task t) s = commit_value_sort_tasks draw t s

abbrev pub terminal_of : AnyTask → ℕ
terminal_of (process_task t) = t.terminal_task
terminal_of (shuffle_task t) = t.terminal_task
terminal_of (gather_task t) = t.terminal_task
terminal_of (value_sort_task t) = t.terminal_task

abbrev pub successor_of : PhysicalSuccessor → AnyTask → ℕ
successor_of entry (process_task t) = t.entry_task
successor_of entry (shuffle_task t) = t.entry_task
successor_of entry (gather_task t) = t.entry_task
successor_of entry (value_sort_task t) = t.entry_task
successor_of barrier (process_task t) = t.barrier_task
successor_of barrier (shuffle_task t) = t.barrier_task
successor_of barrier (gather_task t) = t.barrier_task
successor_of barrier (value_sort_task t) = t.barrier_task
successor_of terminal t = terminal_of t

unfoldable pub create_all : Objects → List AnyTask → Scheduler → Option (List AnyTask × Scheduler)
unfolding create_any
create_all o [] s = some ([], s)
create_all o (t ∷ tasks) s = do
  r ← create_any o t s
  rest ← create_all o tasks r.1
  some (r.0 ∷ rest.0, rest.1)

unfoldable pub link_all : List Edge → List AnyTask → Scheduler → Option Scheduler
link_all [] tasks s = some s
link_all (e ∷ edges) tasks s = do
  producer ← get_elem? tasks e.producer.task_id
  consumer ← get_elem? tasks e.consumer.task_id
  s' ← add_dependency (terminal_of producer) (successor_of e.physical_successor consumer) s
  link_all edges tasks s'

unfoldable pub commit_all : (ℕ → ℕ) → List AnyTask → Scheduler → Option Scheduler
unfolding commit_any
commit_all draw [] s = some s
commit_all draw (t ∷ tasks) s = do s' ← commit_any draw t s; commit_all draw tasks s'

unfoldable pub create_graph_tasks :
    Objects → (ℕ → ℕ) → List AnyTask → List Edge → Scheduler → Option (List AnyTask × Scheduler)
unfolding create_all link_all commit_all
create_graph_tasks o draw tasks edges s = do
  created ← create_all o tasks s
  linked ← link_all edges created.0 created.1
  committed ← commit_all draw created.0 linked
  some (created.0, committed)
