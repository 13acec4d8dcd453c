-- ===== src/Graph/Examples.antt =====
-- Graphs of two processors joined by a shuffle, from src/graph.
use m3bp.Prelude.{ℕ, ◌+◌, ◌≤◌, ◌≡◌, refl, true, Option, none, some, List, [], ◌∷◌, arith}
use m3bp.Graph.LogicalGraph.{
  input_process, modify_task, LogicalTask, new_task, barrier, LogicalGraph, empty_graph,
  add_logical_task, add_edge,
}
use m3bp.Graph.FlowGraph.{scatter_gather, broadcast, PortDescriptor, Vertex, FlowGraph}
use m3bp.Graph.WellFormed.{AreVertices}
use m3bp.Graph.Build.{build_logical_graph-IsGraph}
use m3bp.Graph.Builder.{port, Configuration, normalize_port_set, build_logical_graph}
use m3bp.Graph.Edges.{task_count, IsGraph, IsJoined, add_logical_task-IsGraph, add_edge-IsGraph}

abbrev reader : LogicalTask
reader = new_task (input_process 0 4) (b'r' ∷ [])

empty_graph-IsGraph : IsGraph empty_graph
empty_graph-IsGraph = record { numbered = λ i t e. absurd (ground arith); within = tt }

abbrev one_task : LogicalGraph
one_task = (add_logical_task reader empty_graph).0

abbrev two_tasks : LogicalGraph
two_tasks = (add_logical_task reader one_task).0

one_task-IsGraph : IsGraph one_task
one_task-IsGraph = (add_logical_task-IsGraph reader empty_graph empty_graph-IsGraph).0

two_tasks-IsGraph : IsGraph two_tasks
two_tasks-IsGraph = (add_logical_task-IsGraph reader one_task one_task-IsGraph).0

task_count-two_tasks : task_count two_tasks ≡ 2
unfolding add_logical_task
task_count-two_tasks = refl

add_edge-IsGraph_example :
    (g' : LogicalGraph) × (add_edge (port 0 0) (port 1 0) barrier two_tasks ≡ some g')
    × IsGraph g'
    × (task_count g' ≡ task_count two_tasks)
    × IsJoined (port 0 0) (port 1 0) barrier two_tasks g'
add_edge-IsGraph_example =
    add_edge-IsGraph (port 0 0) (port 1 0) barrier two_tasks two_tasks-IsGraph
      (omega (arith, task_count-two_tasks)) (omega (arith, task_count-two_tasks))

add_logical_task-IsGraph_example :
    let (g', id) = add_logical_task reader one_task in
    IsGraph g' × (id ≡ task_count one_task) × (task_count g' ≡ task_count one_task + 1)
add_logical_task-IsGraph_example = add_logical_task-IsGraph reader one_task one_task-IsGraph

-- A reader whose records are shuffled to a reducer and broadcast to it.
abbrev reader_vertex : Vertex
reader_vertex = record {
  name = b'r' ∷ [];
  input_ports = [];
  output_ports = record { name = b'o' ∷ []; has_key = true } ∷ [];
  sources = [];
}

abbrev from_reader : List PortDescriptor
from_reader = record { vertex_id = 0; port_id = 0 } ∷ []

abbrev reducer_vertex : Vertex
reducer_vertex = record {
  name = b'm' ∷ [];
  input_ports =
      record { name = b'i' ∷ []; movement = scatter_gather; value_comparator = some 7 }
      ∷ record { name = b'j' ∷ []; movement = broadcast; value_comparator = none }
      ∷ [];
  output_ports = [];
  sources = from_reader ∷ from_reader ∷ [];
}

abbrev two_vertices : FlowGraph
two_vertices = reader_vertex ∷ reducer_vertex ∷ []

abbrev two_partitions : Configuration
two_partitions = record { max_concurrency = 4; partition_count = 2 }

two_vertices-AreVertices : AreVertices two_vertices two_vertices
two_vertices-AreVertices = (
  refl,
  tt,
  (
    refl,
    (
      (λ e. absurd (ground arith)),
      ((b'r' ∷ b'.' ∷ b'o' ∷ [], refl), tt),
      ((λ e. absurd (ground arith)), ((b'r' ∷ b'.' ∷ b'o' ∷ [], refl), tt), tt),
    ),
    tt,
  ),
)

build_logical_graph-IsGraph_example :
    (g : LogicalGraph) × (build_logical_graph two_partitions two_vertices ≡ some g)
    × IsGraph g
    × (2 ≤ task_count g)
build_logical_graph-IsGraph_example =
    build_logical_graph-IsGraph two_partitions two_vertices two_vertices-AreVertices

-- The two processors, the shuffle, the gather and the sort task.
abbrev tasks_built : Option LogicalGraph → ℕ
tasks_built none = 0
tasks_built (some g) = task_count g

five_tasks : tasks_built (build_logical_graph two_partitions two_vertices) ≡ 5
unfolding build_logical_graph normalize_port_set add_edge add_logical_task modify_task
five_tasks = refl
