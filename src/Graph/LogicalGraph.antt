-- ===== src/Graph/LogicalGraph.antt =====
-- src/graph/logical_graph.cpp and src/tasks/logical_task_base.cpp: the tasks that a run consists of
-- and the edges between them.
use m3bp.Prelude.{
  ℕ, zero, suc, ◌+◌, ◌-◌, ◌&&◌, Option, none, some, List, [], ◌∷◌, ◌++◌, length, get_or, set,
  replicate, ltb, if◌then◌else◌, max_id,
}
use m3bp.Graph.FlowGraph.{Name}

-- The classes of tasks, with what their constructors take. A processor is known by its vertex.
pub data TaskKind : Type 0 where
  one_to_one_process : (processor max_concurrency : ℕ) → TaskKind
  scatter_gather_process : (processor max_concurrency partition_count : ℕ) → TaskKind
  input_process : (processor max_concurrency : ℕ) → TaskKind
  shuffle : (partition_count : ℕ) → TaskKind
  gather : TaskKind
  value_sort : (comparator : ℕ) → TaskKind

-- `successors` has, for each output port, the task and input port of each receiver.
pub record LogicalTask : Type 0 where
  pub kind : TaskKind
  pub task_id : ℕ
  pub task_name : Name
  pub successors : List (List (ℕ × ℕ))

-- A task is made with no identifier.
abbrev pub new_task : TaskKind → Name → LogicalTask
new_task kind name = record { kind = kind; task_id = max_id; task_name = name; successors = [] }

pub record Port : Type 0 where
  pub task_id : ℕ
  pub port_id : ℕ

pub data PhysicalSuccessor : Type 0 where
  entry barrier terminal : PhysicalSuccessor

pub record Edge : Type 0 where
  pub producer : Port
  pub consumer : Port
  pub physical_successor : PhysicalSuccessor

pub record LogicalGraph : Type 0 where
  pub logical_tasks : List LogicalTask
  pub edges : List Edge

abbrev pub empty_graph : LogicalGraph
empty_graph = record { logical_tasks = []; edges = [] }

unfoldable pub add_logical_task : LogicalTask → LogicalGraph → LogicalGraph × ℕ
add_logical_task task g =
    let id = length g.logical_tasks in
    (record g { logical_tasks = g.logical_tasks ++ record task { task_id = id } ∷ [] }, id)

-- `resize` to at least `n` entries.
abbrev pub resize_up {ℓ} : {A : Type ℓ} → ℕ → List (List A) → List (List A)
resize_up n l = l ++ replicate (n - length l) []

unfoldable pub add_successor : (dst_task dst_port src_port : ℕ) → LogicalTask → LogicalTask
add_successor dst_task dst_port src_port task =
    let ports = resize_up (src_port + 1) task.successors in
    record task {
      successors = set ports src_port (get_or ports src_port [] ++ (dst_task, dst_port) ∷ []);
    }

unfoldable pub modify_task : ℕ → (LogicalTask → LogicalTask) → List LogicalTask → List LogicalTask
modify_task i f [] = []
modify_task zero f (t ∷ tasks) = f t ∷ tasks
modify_task (suc i) f (t ∷ tasks) = t ∷ modify_task i f tasks

-- Both ends of an edge exist, by assertion.
unfoldable pub add_edge : Port → Port → PhysicalSuccessor → LogicalGraph → Option LogicalGraph
add_edge producer consumer physical_successor g =
    let n = length g.logical_tasks in
    if ltb producer.task_id n && ltb consumer.task_id n
    then some (record {
      logical_tasks =
          modify_task producer.task_id
            (add_successor consumer.task_id consumer.port_id producer.port_id) g.logical_tasks;
      edges =
          g.edges
          ++ record {
            producer = producer;
            consumer = consumer;
            physical_successor = physical_successor;
          }
            ∷ [];
    })
    else none
