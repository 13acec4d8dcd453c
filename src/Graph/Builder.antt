-- ===== src/Graph/Builder.antt =====
-- src/graph/logical_graph_builder.cpp: one task for each processor, one shuffle and one gather task
-- for each set of output ports that is read that way, and the edges.
use m3bp.Prelude.{
  ℕ, ◌+◌, Bool, true, false, ◌&&◌, ◌||◌, Option, none, some, List, [], ◌∷◌, ◌++◌, length, get_elem?,
  ltb, ◌==◌, if◌then◌else◌, ◌>>=◌,
}
use m3bp.Graph.FlowGraph.{
  Name, Movement, one_to_one, scatter_gather, broadcast, InputPort, PortDescriptor, Vertex,
  FlowGraph, is_scatter_gather,
}
use m3bp.Graph.LogicalGraph.{
  TaskKind, one_to_one_process, scatter_gather_process, input_process, shuffle, gather, value_sort,
  new_task, Port, PhysicalSuccessor, entry, barrier, terminal, LogicalGraph, empty_graph,
  add_logical_task, add_edge,
}

abbrev pub PortKey : Type 0
PortKey = ℕ × ℕ

abbrev pub PortSet : Type 0
PortSet = List PortKey

pub record Configuration : Type 0 where
  pub max_concurrency : ℕ
  pub partition_count : ℕ

-- The maps from port sets are association lists, the newest entry first.
pub record Builder : Type 0 where
  pub graph : LogicalGraph
  pub shuffle_nodes : List (PortSet × ℕ)
  pub gather_nodes : List (PortSet × ℕ)

abbrev pub is_one_to_one : Movement → Bool
is_one_to_one one_to_one = true
is_one_to_one _ = false

abbrev pub any_port : (Movement → Bool) → List InputPort → Bool
any_port test [] = false
any_port test (port ∷ ports) = test port.movement || any_port test ports

-- A processor may not have ports of both movements, by assertion.
unfoldable pub create_process_task : Configuration → ℕ → List InputPort → Option TaskKind
create_process_task config processor ports =
    if any_port is_one_to_one ports && any_port is_scatter_gather ports
    then none
    else some (
        if any_port is_one_to_one ports
        then one_to_one_process processor config.max_concurrency
        else if any_port is_scatter_gather ports
        then scatter_gather_process processor config.max_concurrency config.partition_count
        else input_process processor config.max_concurrency)

unfoldable pub create_processor_nodes :
    Configuration → List Vertex → LogicalGraph → Option LogicalGraph
create_processor_nodes config [] g = some g
create_processor_nodes config (v ∷ vertices) g = do
  kind ← create_process_task config (length g.logical_tasks) v.input_ports
  create_processor_nodes config vertices (add_logical_task (new_task kind v.name) g).0

-- `std::sort` on pairs: the order of pairs is total, so its result is that of any sort.
abbrev pub key_lt : PortKey → PortKey → Bool
key_lt a b = ltb a.0 b.0 || (a.0 == b.0 && ltb a.1 b.1)

unfoldable pub insert_key : PortKey → PortSet → PortSet
insert_key k [] = k ∷ []
insert_key k (x ∷ xs) = elim (key_lt x k) [ true ↦ x ∷ insert_key k xs | false ↦ k ∷ x ∷ xs ]

unfoldable pub normalize_port_set : List PortDescriptor → PortSet
unfolding insert_key
normalize_port_set [] = []
normalize_port_set (port ∷ ports) =
    insert_key (port.vertex_id, port.port_id) (normalize_port_set ports)

abbrev pub eq_port_set : PortSet → PortSet → Bool
eq_port_set [] [] = true
eq_port_set (a ∷ as_) (b ∷ bs) = (a.0 == b.0) && (a.1 == b.1) && eq_port_set as_ bs
eq_port_set _ _ = false

unfoldable pub find_node : PortSet → List (PortSet × ℕ) → Option ℕ
find_node ps [] = none
find_node ps ((key, id) ∷ nodes) = if eq_port_set key ps then some id else find_node ps nodes

-- "(a.x+b.y)": the names of the ports, `none` where one does not exist.
abbrev pub port_name : FlowGraph → PortKey → Option Name
port_name vertices p = do
  v ← get_elem? vertices p.0
  port ← get_elem? v.output_ports p.1
  some (v.name ++ b'.' ∷ port.name)

unfoldable pub join_port_names : FlowGraph → Bool → PortSet → Option Name
join_port_names vertices is_first [] = some (b')' ∷ [])
join_port_names vertices is_first (p ∷ ps) = do
  name ← port_name vertices p
  rest ← join_port_names vertices false ps
  some ((if is_first then [] else b'+' ∷ []) ++ name ++ rest)

unfoldable pub concat_port_names : FlowGraph → PortSet → Option Name
unfolding join_port_names
concat_port_names vertices ps = do names ← join_port_names vertices true ps; some (b'(' ∷ names)

abbrev pub shuffle_suffix : Name
shuffle_suffix = b'.' ∷ b's' ∷ b'h' ∷ b'u' ∷ b'f' ∷ b'f' ∷ b'l' ∷ b'e' ∷ []

abbrev pub gather_suffix : Name
gather_suffix = b'.' ∷ b'g' ∷ b'a' ∷ b't' ∷ b'h' ∷ b'e' ∷ b'r' ∷ []

abbrev value_sort_suffix : Name
value_sort_suffix = b'v' ∷ b'a' ∷ b'l' ∷ b'u' ∷ b'e' ∷ b'_' ∷ b's' ∷ b'o' ∷ b'r' ∷ b't' ∷ []

abbrev pub port : ℕ → ℕ → Port
port task_id port_id = record { task_id = task_id; port_id = port_id }

-- An edge from each port of the set to port 0 of the node.
unfoldable pub connect_sources :
    PhysicalSuccessor → PortSet → ℕ → LogicalGraph → Option LogicalGraph
connect_sources succ [] node g = some g
connect_sources succ (p ∷ ps) node g = do
  g' ← add_edge (port p.0 p.1) (port node 0) succ g
  connect_sources succ ps node g'

unfoldable pub create_node :
    FlowGraph
    → TaskKind
    → Name
    → PhysicalSuccessor
    → PortSet
    → LogicalGraph
    → Option (LogicalGraph × ℕ)
unfolding concat_port_names
create_node vertices kind suffix succ ps g = do
  names ← concat_port_names vertices ps
  let added = add_logical_task (new_task kind (names ++ suffix)) g
  g' ← connect_sources succ ps added.1 added.0
  some (g', added.1)

unfoldable pub create_shuffle_node : Configuration → FlowGraph → PortSet → Builder → Option Builder
unfolding find_node create_node
create_shuffle_node config vertices ps b = elim (find_node ps b.shuffle_nodes) [
  | some id ↦ some b
  | none ↦ do
    r ← create_node vertices (shuffle config.partition_count) shuffle_suffix barrier ps b.graph
    some (record b { graph = r.0; shuffle_nodes = (ps, r.1) ∷ b.shuffle_nodes })
]

unfoldable pub create_gather_node : FlowGraph → PortSet → Builder → Option Builder
unfolding find_node create_node
create_gather_node vertices ps b = elim (find_node ps b.gather_nodes) [
  | some id ↦ some b
  | none ↦ do
    r ← create_node vertices gather gather_suffix entry ps b.graph
    some (record b { graph = r.0; gather_nodes = (ps, r.1) ∷ b.gather_nodes })
]

-- The loop over the input ports of a vertex; `sources` is in step with the ports.
unfoldable pub create_port_nodes :
    Configuration
    → FlowGraph
    → List InputPort
    → List (List PortDescriptor)
    → Builder
    → Option Builder
create_port_nodes config vertices [] sources b = some b
create_port_nodes config vertices (iport ∷ iports) [] b = none
create_port_nodes config vertices (iport ∷ iports) (srcs ∷ sources) b = do
  b' ← elim iport.movement [
    | scatter_gather ↦ create_shuffle_node config vertices (normalize_port_set srcs) b
    | broadcast ↦ create_gather_node vertices (normalize_port_set srcs) b
    | _ ↦ some b
  ]
  create_port_nodes config vertices iports sources b'

unfoldable pub create_intermediate_nodes :
    Configuration → FlowGraph → List Vertex → Builder → Option Builder
create_intermediate_nodes config vertices [] b = some b
create_intermediate_nodes config vertices (v ∷ rest) b = do
  b' ← create_port_nodes config vertices v.input_ports v.sources b
  create_intermediate_nodes config vertices rest b'

-- One-to-one: an edge from each source to the port.
unfoldable pub connect_one_to_one : List PortDescriptor → ℕ → ℕ → LogicalGraph → Option LogicalGraph
connect_one_to_one [] i j g = some g
connect_one_to_one (src ∷ srcs) i j g = do
  g' ← add_edge (port src.vertex_id src.port_id) (port i j) barrier g
  connect_one_to_one srcs i j g'

-- Scatter-gather with a comparator: a sort task stands between the shuffle task and the port.
unfoldable pub connect_sorted : ℕ → Name → ℕ → ℕ → ℕ → LogicalGraph → Option LogicalGraph
connect_sorted comparator name node i j g = do
  let added = add_logical_task (new_task (value_sort comparator) name) g
  g' ← add_edge (port node 0) (port added.1 0) terminal added.0
  add_edge (port added.1 0) (port i j) barrier g'

-- The edges into input port `j` of vertex `i`.
unfoldable pub create_port_edges :
    ℕ → ℕ → Vertex → InputPort → List PortDescriptor → Builder → Option LogicalGraph
unfolding find_node connect_sorted
create_port_edges i j v iport srcs b =
    let ps = normalize_port_set srcs in
    elim iport.movement [
      | one_to_one ↦ connect_one_to_one srcs i j b.graph
      | broadcast ↦ do
        node ← find_node ps b.gather_nodes
        add_edge (port node 0) (port i j) entry b.graph
      | _ ↦ do
        node ← find_node ps b.shuffle_nodes
        elim iport.value_comparator [
          | some comparator ↦
              connect_sorted comparator
                (v.name ++ (b'.' ∷ (iport.name ++ (b'.' ∷ value_sort_suffix)))) node i j b.graph
          | none ↦ add_edge (port node 0) (port i j) barrier b.graph
        ]
    ]

unfoldable pub create_vertex_edges :
    ℕ → ℕ → Vertex → List InputPort → List (List PortDescriptor) → Builder → Option Builder
create_vertex_edges i j v [] sources b = some b
create_vertex_edges i j v (iport ∷ iports) [] b = none
create_vertex_edges i j v (iport ∷ iports) (srcs ∷ sources) b = do
  g ← create_port_edges i j v iport srcs b
  create_vertex_edges i (j + 1) v iports sources (record b { graph = g })

unfoldable pub create_edges : ℕ → List Vertex → Builder → Option Builder
create_edges i [] b = some b
create_edges i (v ∷ rest) b = do
  b' ← create_vertex_edges i 0 v v.input_ports v.sources b
  create_edges (i + 1) rest b'

unfoldable pub build_logical_graph : Configuration → FlowGraph → Option LogicalGraph
unfolding create_process_task create_processor_nodes create_shuffle_node create_gather_node
    connect_sources create_port_nodes create_intermediate_nodes connect_one_to_one create_port_edges
    create_vertex_edges create_edges
build_logical_graph config vertices = do
  g ← create_processor_nodes config vertices empty_graph
  b ←
      create_intermediate_nodes config vertices vertices
        (record { graph = g; shuffle_nodes = []; gather_nodes = [] })
  done ← create_edges 0 vertices b
  some done.graph
