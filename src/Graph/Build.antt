-- ===== src/Graph/Build.antt =====
-- Every well-formed flow graph has a logical graph, in src/graph/logical_graph_builder.cpp.
use m3bp.Prelude.{
  ℕ, ◌+◌, ◌<◌, ◌≤◌, ◌≡◌, ◌≢◌, refl, false, ◌&&◌, Option, none, some, List, [], ◌∷◌, length,
  if◌then◌else◌, ◌>>=◌, arith,
}
use m3bp.Graph.FlowGraph.{
  Name, Movement, undefined, one_to_one, scatter_gather, broadcast, InputPort, PortDescriptor,
  Vertex, FlowGraph, is_scatter_gather,
}
use m3bp.Graph.LogicalGraph.{
  LogicalGraph, empty_graph, new_task, value_sort, add_logical_task, barrier, entry, terminal,
  add_edge, TaskKind, one_to_one_process, scatter_gather_process, input_process,
}
use m3bp.Graph.Builder.{
  PortSet, Configuration, Builder, find_node, normalize_port_set, port, create_process_task,
  create_processor_nodes, connect_one_to_one, connect_sorted, create_port_edges,
  create_vertex_edges, create_edges, build_logical_graph, any_port, is_one_to_one,
}
use m3bp.Graph.Edges.{task_count, IsGraph, add_logical_task-IsGraph, add_edge-IsGraph}
use m3bp.Graph.WellFormed.{AllSources, ArePorts, AreVertices, IsNamed-lt}
use m3bp.Graph.Nodes.{IsBuilder, HasNode, HaveNodes, AllHaveNodes, create_intermediate_nodes_lem}

create_process_task_lem :
    (config : Configuration) (processor : ℕ) (ports : List InputPort)
    → any_port is_one_to_one ports && any_port is_scatter_gather ports ≡ false
    → (kind : TaskKind) × (create_process_task config processor ports ≡ some kind)
unfolding create_process_task
create_process_task_lem config processor ports unmixed = (
  if any_port is_one_to_one ports
      then one_to_one_process processor config.max_concurrency
      else if any_port is_scatter_gather ports
      then scatter_gather_process processor config.max_concurrency config.partition_count
      else input_process processor config.max_concurrency,
  rw (create_process_task, unmixed) refl,
)

create_processor_nodes_lem :
    (config : Configuration) (vertices : FlowGraph) (rest : List Vertex) (g : LogicalGraph)
    → AreVertices vertices rest
    → IsGraph g
    → (g' : LogicalGraph) × (create_processor_nodes config rest g ≡ some g')
      × IsGraph g'
      × (task_count g' ≡ task_count g + length rest)
unfolding create_processor_nodes
create_processor_nodes_lem config vertices [] g h ok = (g, refl, ok, omega arith)
create_processor_nodes_lem config vertices (v ∷ rest) g (unmixed, _, hs) ok =
    let (kind, made) =
      create_process_task_lem config (length g.logical_tasks) v.input_ports unmixed in
    let (ok₁, _, more) = add_logical_task-IsGraph (new_task kind v.name) g ok in
    let (g', e, ok', size) =
      create_processor_nodes_lem config vertices rest (add_logical_task (new_task kind v.name) g).0
        hs ok₁ in
    (g', rw made e, ok', omega (arith, size, more))

-- A graph that grew out of `g`.
abbrev Extended : LogicalGraph → LogicalGraph → Type 0
Extended g g' = IsGraph g' × (task_count g ≤ task_count g')

connect_one_to_one_lem :
    (vertices : FlowGraph) (srcs : List PortDescriptor) (i j : ℕ) (g : LogicalGraph)
    → AllSources vertices srcs
    → length vertices ≤ task_count g
    → i < task_count g
    → IsGraph g
    → (g' : LogicalGraph) × (connect_one_to_one srcs i j g ≡ some g') × Extended g g'
unfolding connect_one_to_one
connect_one_to_one_lem vertices [] i j g h room below ok = (g, refl, (ok, omega arith))
connect_one_to_one_lem vertices (src ∷ srcs) i j g (h, hs) room below ok =
    let (g₁, e, ok₁, same, _) =
      add_edge-IsGraph (port src.vertex_id src.port_id) (port i j) barrier g ok
        (omega (arith, IsNamed-lt vertices (src.vertex_id, src.port_id) h)) below in
    let (g₂, f, (ok₂, more)) =
      connect_one_to_one_lem vertices srcs i j g₁ hs (omega (arith, same)) (omega (arith, same))
        ok₁ in
    (g₂, rw e f, (ok₂, omega (arith, more, same)))

connect_sorted_lem :
    (comparator : ℕ) (name : Name) (node i j : ℕ) (g : LogicalGraph)
    → node < task_count g
    → i < task_count g
    → IsGraph g
    → (g' : LogicalGraph) × (connect_sorted comparator name node i j g ≡ some g') × Extended g g'
unfolding connect_sorted
connect_sorted_lem comparator name node i j g hn hi ok =
    let task = new_task (value_sort comparator) name in
    let added = add_logical_task task g in
    let (ok₁, id, more) = add_logical_task-IsGraph task g ok in
    let (g₂, e, ok₂, same, _) =
      add_edge-IsGraph (port node 0) (port added.1 0) terminal added.0 ok₁ (omega (arith, more))
        (omega (arith, more, id)) in
    let (g₃, f, ok₃, same', _) =
      add_edge-IsGraph (port added.1 0) (port i j) barrier g₂ ok₂ (omega (arith, more, same, id))
        (omega (arith, more, same)) in
    (g₃, rw e f, (ok₃, omega (arith, more, same, same')))

-- The edges into one port, by its movement and comparator.
abbrev edges_of_port :
    ℕ → ℕ → Name → Movement → Option ℕ → List PortDescriptor → Builder → Option LogicalGraph
edges_of_port i j name m c srcs b =
    let ps = normalize_port_set srcs in
    elim m [
      | one_to_one ↦ connect_one_to_one srcs i j b.graph
      | broadcast ↦ do
        node ← find_node ps b.gather_nodes
        add_edge (port node 0) (port i j) entry b.graph
      | _ ↦ do
        node ← find_node ps b.shuffle_nodes
        elim c [
          | some comparator ↦ connect_sorted comparator name node i j b.graph
          | none ↦ add_edge (port node 0) (port i j) barrier b.graph
        ]
    ]

edges_of_port_lem :
    (vertices : FlowGraph) (i j : ℕ) (name : Name) (m : Movement) (c : Option ℕ)
    (srcs : List PortDescriptor) (b : Builder)
    → m ≢ undefined
    → AllSources vertices srcs
    → i < length vertices
    → HasNode m (normalize_port_set srcs) b
    → IsBuilder vertices b
    → (g' : LogicalGraph) × (edges_of_port i j name m c srcs b ≡ some g') × Extended b.graph g'
edges_of_port_lem vertices i j name undefined c srcs b moves h hi node ok = absurd (moves refl)
edges_of_port_lem vertices i j name one_to_one c srcs b moves h hi node ok =
    connect_one_to_one_lem vertices srcs i j b.graph h ok.room (omega (arith, ok.room)) ok.is_graph
edges_of_port_lem vertices i j name broadcast c srcs b moves h hi (id, e) ok =
    let (g, f, ok', same, _) =
      add_edge-IsGraph (port id 0) (port i j) entry b.graph ok.is_graph (ok.gathers _ id e)
        (omega (arith, ok.room)) in
    (g, rw e f, (ok', omega (arith, same)))
edges_of_port_lem vertices i j name scatter_gather none srcs b moves h hi (id, e) ok =
    let (g, f, ok', same, _) =
      add_edge-IsGraph (port id 0) (port i j) barrier b.graph ok.is_graph (ok.shuffles _ id e)
        (omega (arith, ok.room)) in
    (g, rw e f, (ok', omega (arith, same)))
edges_of_port_lem vertices i j name scatter_gather (some c) srcs b moves h hi (id, e) ok =
    let (g, f, more) =
      connect_sorted_lem c name id i j b.graph (ok.shuffles _ id e) (omega (arith, ok.room))
        ok.is_graph in
    (g, rw e f, more)

create_port_edges_lem :
    (vertices : FlowGraph) (i j : ℕ) (v : Vertex) (iport : InputPort) (srcs : List PortDescriptor)
    (b : Builder)
    → iport.movement ≢ undefined
    → AllSources vertices srcs
    → i < length vertices
    → HasNode iport.movement (normalize_port_set srcs) b
    → IsBuilder vertices b
    → (g' : LogicalGraph) × (create_port_edges i j v iport srcs b ≡ some g') × Extended b.graph g'
unfolding create_port_edges
create_port_edges_lem vertices i j v iport srcs b =
    edges_of_port_lem vertices i j _ iport.movement iport.value_comparator srcs b

-- More edges leave the nodes where they are.
Extended-IsBuilder :
    (vertices : FlowGraph) (b : Builder) (g : LogicalGraph)
    → IsBuilder vertices b
    → Extended b.graph g
    → IsBuilder vertices (record b { graph = g })
Extended-IsBuilder vertices b g ok (ok', more) = record {
  is_graph = ok';
  room = omega (arith, ok.room);
  shuffles = λ ps id e. omega (arith, ok.shuffles ps id e);
  gathers = λ ps id e. omega (arith, ok.gathers ps id e);
}

HasNode-graph :
    (m : Movement) (ps : PortSet) (b : Builder) (g : LogicalGraph)
    → HasNode m ps b
    → HasNode m ps (record b { graph = g })
HasNode-graph undefined ps b g h = h
HasNode-graph one_to_one ps b g h = h
HasNode-graph scatter_gather ps b g h = h
HasNode-graph broadcast ps b g h = h

HaveNodes-graph :
    (iports : List InputPort) (sources : List (List PortDescriptor)) (b : Builder)
    (g : LogicalGraph)
    → HaveNodes iports sources b
    → HaveNodes iports sources (record b { graph = g })
HaveNodes-graph [] sources b g h = tt
HaveNodes-graph (iport ∷ iports) [] b g h = tt
HaveNodes-graph (iport ∷ iports) (srcs ∷ sources) b g h = (
  HasNode-graph iport.movement (normalize_port_set srcs) b g h.0,
  HaveNodes-graph iports sources b g h.1,
)

AllHaveNodes-graph :
    (rest : List Vertex) (b : Builder) (g : LogicalGraph)
    → AllHaveNodes rest b
    → AllHaveNodes rest (record b { graph = g })
AllHaveNodes-graph [] b g h = tt
AllHaveNodes-graph (v ∷ rest) b g h =
    (HaveNodes-graph v.input_ports v.sources b g h.0, AllHaveNodes-graph rest b g h.1)

-- The edges of a vertex and of all: only the graph of the builder changes.
create_vertex_edges_lem :
    (vertices : FlowGraph) (i j : ℕ) (v : Vertex) (iports : List InputPort)
    (sources : List (List PortDescriptor)) (b : Builder)
    → ArePorts vertices iports sources
    → i < length vertices
    → HaveNodes iports sources b
    → IsBuilder vertices b
    → (g : LogicalGraph) × (create_vertex_edges i j v iports sources b
        ≡ some (record b { graph = g }))
      × Extended b.graph g
unfolding create_vertex_edges
create_vertex_edges_lem vertices i j v [] sources b h hi nodes ok =
    (b.graph, refl, (ok.is_graph, omega arith))
create_vertex_edges_lem vertices i j v (iport ∷ iports) [] b h hi nodes ok = absurd h
create_vertex_edges_lem vertices i j v (iport ∷ iports) (srcs ∷ sources) b (m, h, hs) hi nodes ok =
    let (g, e, more) = create_port_edges_lem vertices i j v iport srcs b m h hi nodes.0 ok in
    let (g', f, more') =
      create_vertex_edges_lem vertices i (j + 1) v iports sources (record b { graph = g }) hs hi
        (HaveNodes-graph iports sources b g nodes.1) (Extended-IsBuilder vertices b g ok more) in
    (g', rw e f, (more'.0, omega (arith, more.1, more'.1)))

create_edges_lem :
    (vertices : FlowGraph) (i : ℕ) (rest : List Vertex) (b : Builder)
    → AreVertices vertices rest
    → i + length rest ≤ length vertices
    → AllHaveNodes rest b
    → IsBuilder vertices b
    → (g : LogicalGraph) × (create_edges i rest b ≡ some (record b { graph = g }))
      × Extended b.graph g
unfolding create_edges
create_edges_lem vertices i [] b h hi nodes ok = (b.graph, refl, (ok.is_graph, omega arith))
create_edges_lem vertices i (v ∷ rest) b (_, h, hs) hi nodes ok =
    let (g, e, more) =
      create_vertex_edges_lem vertices i 0 v v.input_ports v.sources b h (omega arith) nodes.0 ok in
    let (g', f, more') =
      create_edges_lem vertices (i + 1) rest (record b { graph = g }) hs (omega arith)
        (AllHaveNodes-graph rest b g nodes.1) (Extended-IsBuilder vertices b g ok more) in
    (g', rw e f, (more'.0, omega (arith, more.1, more'.1)))

-- If each input port of a flow graph has a movement and sources that exist, and no vertex has
-- both one-to-one and scatter-gather ports, then the builder succeeds: every assert holds, every
-- node that is looked up is there, and the result is in order, with a task for each vertex.
pub build_logical_graph-IsGraph :
    (config : Configuration) (vertices : FlowGraph)
    → AreVertices vertices vertices
    → (g : LogicalGraph) × (build_logical_graph config vertices ≡ some g)
      × IsGraph g
      × (length vertices ≤ task_count g)
unfolding build_logical_graph
build_logical_graph-IsGraph config vertices h =
    let (g, e, ok, size) =
      create_processor_nodes_lem config vertices vertices empty_graph h
        (record { numbered = λ i t e. absurd (ground arith); within = tt }) in
    let b : Builder = record { graph = g; shuffle_nodes = []; gather_nodes = [] } in
    let (c, f, ok_c, _, nodes) =
      create_intermediate_nodes_lem config vertices vertices b h (record {
        is_graph = ok;
        room = omega (arith, size);
        shuffles = λ ps id e. absurd (ground arith);
        gathers = λ ps id e. absurd (ground arith);
      }) in
    let (g', k, more) = create_edges_lem vertices 0 vertices c h (omega arith) nodes ok_c in
    (g', rw (e, f, k) refl, more.0, omega (arith, more.1, ok_c.room))
