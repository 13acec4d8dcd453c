-- ===== src/Graph/FlowGraph.antt =====
-- src/api/internal/flow_graph_impl.hpp, vertex.hpp and the ports of src/api: processors joined by
-- edges from output ports to input ports.
use m3bp.Prelude.{
  ℕ, zero, suc, ◌+◌, Bool, true, false, not, ◌&&◌, Option, none, some, List, [], ◌∷◌, ◌++◌, length,
  get_elem?, get_or, set, replicate, if◌then◌else◌, ◌>>=◌,
}

-- Names are byte strings.
abbrev pub Name : Type 0
Name = List ℕ

pub data Movement : Type 0 where
  undefined one_to_one scatter_gather broadcast : Movement

-- A comparator is known by the number of its object.
pub record InputPort : Type 0 where
  pub name : Name
  pub movement : Movement
  pub value_comparator : Option ℕ

pub record OutputPort : Type 0 where
  pub name : Name
  pub has_key : Bool

pub record PortDescriptor : Type 0 where
  pub vertex_id : ℕ
  pub port_id : ℕ

-- A vertex: a processor with its ports, and the sources of each of its input ports.
pub record Vertex : Type 0 where
  pub name : Name
  pub input_ports : List InputPort
  pub output_ports : List OutputPort
  pub sources : List (List PortDescriptor)

abbrev pub FlowGraph : Type 0
FlowGraph = List Vertex

unfoldable pub new_vertex : Name → List InputPort → List OutputPort → Vertex
new_vertex name input_ports output_ports = record {
  name = name;
  input_ports = input_ports;
  output_ports = output_ports;
  sources = replicate (length input_ports) [];
}

unfoldable pub add_vertex : Name → List InputPort → List OutputPort → FlowGraph → FlowGraph × ℕ
unfolding new_vertex
add_vertex name input_ports output_ports graph =
    (graph ++ new_vertex name input_ports output_ports ∷ [], length graph)

-- The two exceptions of `add_edge`, both std::invalid_argument.
pub data EdgeError : Type 0 where
  invalid_descriptor mismatched_port_specifications : EdgeError

pub data EdgeResult : Type 0 where
  ok : FlowGraph → EdgeResult
  err : EdgeError → EdgeResult

abbrev pub find_input : PortDescriptor → FlowGraph → Option InputPort
find_input port graph = do v ← get_elem? graph port.vertex_id; get_elem? v.input_ports port.port_id

abbrev pub find_output : PortDescriptor → FlowGraph → Option OutputPort
find_output port graph = do
  v ← get_elem? graph port.vertex_id
  get_elem? v.output_ports port.port_id

abbrev pub is_scatter_gather : Movement → Bool
is_scatter_gather scatter_gather = true
is_scatter_gather _ = false

unfoldable pub add_source : PortDescriptor → ℕ → Vertex → Vertex
add_source producer port v = record v {
  sources = set v.sources port (get_or v.sources port [] ++ producer ∷ []);
}

unfoldable pub modify_vertex : ℕ → (Vertex → Vertex) → FlowGraph → FlowGraph
modify_vertex i f [] = []
modify_vertex zero f (v ∷ graph) = f v ∷ graph
modify_vertex (suc i) f (v ∷ graph) = v ∷ modify_vertex i f graph

-- The descriptors are valid if they name ports that are there.
unfoldable pub add_edge : PortDescriptor → PortDescriptor → FlowGraph → EdgeResult
add_edge producer consumer graph = elim (find_output producer graph) [
  | none ↦ err invalid_descriptor
  | some oport ↦ elim (find_input consumer graph) [
    | none ↦ err invalid_descriptor
    | some iport ↦
        if is_scatter_gather iport.movement && not oport.has_key
        then err mismatched_port_specifications
        else ok (modify_vertex consumer.vertex_id (add_source producer consumer.port_id) graph)
  ]
]

-- The marks of the depth-first search.
pub record Marks : Type 0 where
  pub done : List Bool
  pub in_stack : List Bool

-- The loops over the sources of a vertex, which stop at the first cycle found.
unfoldable pub visit_sources :
    (ℕ → Marks → Option (Bool × Marks)) → List PortDescriptor → Marks → Option (Bool × Marks)
visit_sources visit [] marks = some (false, marks)
visit_sources visit (src ∷ rest) marks = do
  r ← visit src.vertex_id marks
  elim r.0 [ true ↦ some (true, r.1) | false ↦ visit_sources visit rest r.1 ]

abbrev pub all_sources : List (List PortDescriptor) → List PortDescriptor
all_sources [] = []
all_sources (ports ∷ rest) = ports ++ all_sources rest

-- The recursion takes fuel: `none` is out of fuel, or a source that does not exist.
unfoldable pub has_cycle_recur : ℕ → FlowGraph → ℕ → Marks → Option (Bool × Marks)
has_cycle_recur zero graph u marks = none
has_cycle_recur (suc fuel) graph u marks = elim (get_or marks.in_stack u false) [
  | true ↦ some (true, marks)
  | false ↦ elim (get_or marks.done u false) [
    | true ↦ some (false, marks)
    | false ↦ do
      v ← get_elem? graph u
      r ←
          visit_sources (has_cycle_recur fuel graph) (all_sources v.sources)
            (record { done = set marks.done u true; in_stack = set marks.in_stack u true })
      if r.0
          then some (true, r.1)
          else some (false, record r.1 { in_stack = set r.1.in_stack u false })
  ]
]

-- The loop over the vertices, with `left` to go.
unfoldable pub cycle_loop : (left i fuel : ℕ) → FlowGraph → Marks → Option Bool
cycle_loop zero i fuel graph marks = some false
cycle_loop (suc left) i fuel graph marks = elim (get_or marks.done i false) [
  | true ↦ cycle_loop left (i + 1) fuel graph marks
  | false ↦ do
    r ← has_cycle_recur fuel graph i marks
    elim r.0 [ true ↦ some true | false ↦ cycle_loop left (i + 1) fuel graph r.1 ]
]

-- Each level of the recursion marks one vertex more, so this fuel is enough.
unfoldable pub has_cycle : FlowGraph → Option Bool
unfolding has_cycle_recur visit_sources cycle_loop
has_cycle graph =
    let n = length graph in
    cycle_loop n 0 (n + 1) graph (record { done = replicate n false; in_stack = replicate n false })
