-- ===== src/Graph/Ordered.antt =====
-- The order that `create_physical_tasks` of src/graph/logical_graph.cpp puts the tasks in.
use m3bp.Prelude.{ℕ, ◌+◌, ◌≡◌, some, List, [], ◌∷◌, get_elem?}
use m3bp.Graph.LogicalGraph.{Edge}
use m3bp.Scheduler.State.{Scheduler}
use m3bp.Process.Linked.{IsLinked, KeepsEdges, IsLinked-kept}
use m3bp.Graph.Physical.{
  AnyTask, process_task, shuffle_task, gather_task, value_sort_task, terminal_of, successor_of,
}

-- The task is the same but for the physical tasks that it now names.
abbrev pub IsLaidOut : AnyTask → AnyTask → Type 0
IsLaidOut (process_task t) (process_task t') = t' ≡ record t {
  entry_task = t'.entry_task;
  barrier_task = t'.barrier_task;
  terminal_task = t'.terminal_task;
}
IsLaidOut (shuffle_task t) (shuffle_task t') = t' ≡ record t {
  entry_task = t'.entry_task;
  barrier_task = t'.barrier_task;
  terminal_task = t'.terminal_task;
}
IsLaidOut (gather_task t) (gather_task t') = t' ≡ record t {
  entry_task = t'.entry_task;
  barrier_task = t'.barrier_task;
  terminal_task = t'.terminal_task;
}
IsLaidOut (value_sort_task t) (value_sort_task t') = t' ≡ record t {
  entry_task = t'.entry_task;
  barrier_task = t'.barrier_task;
  terminal_task = t'.terminal_task;
}
IsLaidOut t t' = ⊥

abbrev pub AllLaidOut : List AnyTask → List AnyTask → Type 0
AllLaidOut [] [] = Unit
AllLaidOut (t ∷ tasks) (t' ∷ tasks') = IsLaidOut t t' × AllLaidOut tasks tasks'
AllLaidOut tasks tasks' = ⊥

-- How many physical tasks a task has.
abbrev pub size_of : AnyTask → ℕ
size_of (process_task t) = 3
size_of (shuffle_task t) = 3
size_of (gather_task t) = 1
size_of (value_sort_task t) = 2

-- The entry task is before the barrier and the barrier before the terminal task, where a task has
-- them.
abbrev pub IsInOrder : AnyTask → Scheduler → Type 0
IsInOrder (process_task t) s =
    IsLinked t.entry_task t.barrier_task s × IsLinked t.barrier_task t.terminal_task s
IsInOrder (shuffle_task t) s =
    IsLinked t.entry_task t.barrier_task s × IsLinked t.barrier_task t.terminal_task s
IsInOrder (gather_task t) s = (t.barrier_task ≡ t.entry_task) × (t.terminal_task ≡ t.entry_task)
IsInOrder (value_sort_task t) s =
    (t.barrier_task ≡ t.entry_task) × IsLinked t.entry_task t.terminal_task s

pub IsInOrder-kept :
    (t : AnyTask) (s s' : Scheduler) → KeepsEdges s s' → IsInOrder t s → IsInOrder t s'
IsInOrder-kept (process_task t) s s' keeps h =
    (IsLinked-kept _ _ s s' keeps h.0, IsLinked-kept _ _ s s' keeps h.1)
IsInOrder-kept (shuffle_task t) s s' keeps h =
    (IsLinked-kept _ _ s s' keeps h.0, IsLinked-kept _ _ s s' keeps h.1)
IsInOrder-kept (gather_task t) s s' keeps h = h
IsInOrder-kept (value_sort_task t) s s' keeps h = (h.0, IsLinked-kept _ _ s s' keeps h.1)

-- The physical tasks of all of them.
abbrev pub size_of_all : List AnyTask → ℕ
size_of_all [] = 0
size_of_all (t ∷ tasks) = size_of t + size_of_all tasks

abbrev pub AllInOrder : List AnyTask → Scheduler → Type 0
AllInOrder [] s = Unit
AllInOrder (t ∷ tasks) s = IsInOrder t s × AllInOrder tasks s

pub AllInOrder-kept :
    (tasks : List AnyTask) (s s' : Scheduler)
    → KeepsEdges s s'
    → AllInOrder tasks s
    → AllInOrder tasks s'
AllInOrder-kept [] s s' keeps h = tt
AllInOrder-kept (t ∷ tasks) s s' keeps h =
    (IsInOrder-kept t s s' keeps h.0, AllInOrder-kept tasks s s' keeps h.1)

-- An edge makes its task of the consumer wait for the terminal task of the producer.
pub record IsJoined (tasks : List AnyTask) (e : Edge) (s : Scheduler) : Type 0 where
  pub producer : AnyTask
  pub consumer : AnyTask
  pub made : get_elem? tasks e.producer.task_id ≡ some producer
  pub used : get_elem? tasks e.consumer.task_id ≡ some consumer
  pub linked : IsLinked (terminal_of producer) (successor_of e.physical_successor consumer) s

abbrev pub AllJoined : List Edge → List AnyTask → Scheduler → Type 0
AllJoined [] tasks s = Unit
AllJoined (e ∷ edges) tasks s = IsJoined tasks e s × AllJoined edges tasks s

pub AllJoined-kept :
    (edges : List Edge) (tasks : List AnyTask) (s s' : Scheduler)
    → KeepsEdges s s'
    → AllJoined edges tasks s
    → AllJoined edges tasks s'
AllJoined-kept [] tasks s s' keeps h = tt
AllJoined-kept (e ∷ edges) tasks s s' keeps (j, h) = (
  record {
    producer = j.producer;
    consumer = j.consumer;
    made = j.made;
    used = j.used;
    linked = IsLinked-kept _ _ s s' keeps j.linked;
  },
  AllJoined-kept edges tasks s s' keeps h,
)
