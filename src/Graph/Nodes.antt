-- ===== src/Graph/Nodes.antt =====
-- The shuffle and gather tasks of src/graph/logical_graph_builder.cpp: each set of ports that is
-- read that way gets one.
use m3bp.Prelude.{
  ℕ, ◌+◌, ◌<◌, ◌≤◌, ◌≡◌, refl, sym, ap, subst, true, Option, some, List, [], ◌∷◌, ◌++◌, length,
  if◌then◌else◌, ◌>>=◌, arith, Option-cases, Bool-cases, ◌∙◌, inl, inr,
}
use m3bp.Graph.FlowGraph.{
  Name, Movement, undefined, one_to_one, scatter_gather, broadcast, InputPort, PortDescriptor,
  Vertex, FlowGraph,
}
use m3bp.Graph.LogicalGraph.{
  TaskKind, shuffle, gather, PhysicalSuccessor, barrier, entry, LogicalGraph, add_logical_task,
  new_task,
}
use m3bp.Graph.Builder.{
  PortSet, Configuration, Builder, eq_port_set, find_node, normalize_port_set, connect_sources,
  create_node, port, create_shuffle_node, create_gather_node, create_port_nodes,
  create_intermediate_nodes, shuffle_suffix, gather_suffix,
}
use m3bp.Graph.Edges.{task_count, IsGraph, add_logical_task-IsGraph, add_edge-IsGraph}
use m3bp.Graph.WellFormed.{
  AllNamed, ArePorts, AreVertices, IsNamed-lt, concat_port_names-some, normalize_port_set-AllNamed,
}

abbrev pub Found : PortSet → List (PortSet × ℕ) → Type 0
Found ps nodes = (id : ℕ) × (find_node ps nodes ≡ some id)

-- The nodes are tasks below `n`.
abbrev pub NodesWithin : ℕ → List (PortSet × ℕ) → Type 0
NodesWithin n nodes = (ps : PortSet) (id : ℕ) → find_node ps nodes ≡ some id → id < n

-- What is found stays found.
abbrev pub Grows : List (PortSet × ℕ) → List (PortSet × ℕ) → Type 0
Grows old new = (ps : PortSet) → Found ps old → Found ps new

eq_port_set_refl : (ps : PortSet) → eq_port_set ps ps ≡ true
eq_port_set_refl [] = refl
eq_port_set_refl (p ∷ ps) = ground (arith, eq_port_set_refl ps)

find_node-cons :
    (ps qs : PortSet) (id : ℕ) (nodes : List (PortSet × ℕ))
    → find_node ps ((qs, id) ∷ nodes) ≡ (if eq_port_set qs ps then some id else find_node ps nodes)
unfolding find_node
find_node-cons ps qs id nodes = refl

Found-cons : (ps : PortSet) (id : ℕ) (nodes : List (PortSet × ℕ)) → Found ps ((ps, id) ∷ nodes)
Found-cons ps id nodes = (id, ground (arith, find_node-cons ps ps id nodes, eq_port_set_refl ps))

Grows-cons : (ps : PortSet) (id : ℕ) (nodes : List (PortSet × ℕ)) → Grows nodes ((ps, id) ∷ nodes)
Grows-cons ps id nodes qs (i, e) = elim (Bool-cases (eq_port_set ps qs)) [
  | inl same ↦ (id, ground (arith, find_node-cons qs ps id nodes, same))
  | inr other ↦ (i, ground (arith, find_node-cons qs ps id nodes, other, e))
]

NodesWithin-cons :
    (n : ℕ) (ps : PortSet) (nodes : List (PortSet × ℕ))
    → NodesWithin n nodes
    → NodesWithin (n + 1) ((ps, n) ∷ nodes)
NodesWithin-cons n ps nodes w qs id e = elim (Bool-cases (eq_port_set ps qs)) [
  | inl same ↦ ground (arith, find_node-cons qs ps n nodes, same, e)
  | inr other ↦
      let old : find_node qs nodes ≡ some id =
        ground (arith, find_node-cons qs ps n nodes, other, e) in
      omega (arith, w qs id old)
]

-- The edges from ports of the processors to a node.
connect_sources-IsGraph :
    (succ : PhysicalSuccessor) (vertices : FlowGraph) (ps : PortSet) (node : ℕ) (g : LogicalGraph)
    → AllNamed vertices ps
    → length vertices ≤ task_count g
    → node < task_count g
    → IsGraph g
    → (g' : LogicalGraph) × (connect_sources succ ps node g ≡ some g')
      × IsGraph g'
      × (task_count g' ≡ task_count g)
unfolding connect_sources
connect_sources-IsGraph succ vertices [] node g h room below ok = (g, refl, ok, refl)
connect_sources-IsGraph succ vertices (p ∷ ps) node g (h, hs) room below ok =
    let (g₁, e, ok₁, same, _) =
      add_edge-IsGraph (port p.0 p.1) (port node 0) succ g ok
        (omega (arith, IsNamed-lt vertices p h)) below in
    let (g₂, f, ok₂, same₂) =
      connect_sources-IsGraph succ vertices ps node g₁ hs (omega (arith, same))
        (omega (arith, same)) ok₁ in
    (g₂, rw e f, ok₂, same₂ ∙ same)

create_node-IsGraph :
    (vertices : FlowGraph) (kind : TaskKind) (suffix : Name) (succ : PhysicalSuccessor)
    (ps : PortSet) (g : LogicalGraph)
    → AllNamed vertices ps
    → length vertices ≤ task_count g
    → IsGraph g
    → (g' : LogicalGraph) × (create_node vertices kind suffix succ ps g ≡ some (g', task_count g))
      × IsGraph g'
      × (task_count g' ≡ task_count g + 1)
unfolding create_node
create_node-IsGraph vertices kind suffix succ ps g h room ok =
    let (names, e) = concat_port_names-some vertices ps h in
    let task = new_task kind (names ++ suffix) in
    let (ok₁, id, more) = add_logical_task-IsGraph task g ok in
    let (g₂, f, ok₂, same) =
      connect_sources-IsGraph succ vertices ps (add_logical_task task g).1
        (add_logical_task task g).0 h (omega (arith, more)) (omega (arith, id, more)) ok₁ in
    (g₂, rw (e, f, id) refl, ok₂, omega (arith, same, more))

-- A builder in order: its graph is, the processors are its first tasks, and its nodes are tasks.
pub record IsBuilder (vertices : FlowGraph) (b : Builder) : Type 0 where
  pub is_graph : IsGraph b.graph
  pub room : length vertices ≤ task_count b.graph
  pub shuffles : NodesWithin (task_count b.graph) b.shuffle_nodes
  pub gathers : NodesWithin (task_count b.graph) b.gather_nodes

-- From one builder to a later one no node is lost.
abbrev pub Later : Builder → Builder → Type 0
Later b b' = Grows b.shuffle_nodes b'.shuffle_nodes × Grows b.gather_nodes b'.gather_nodes

Later-refl : (b : Builder) → Later b b
Later-refl b = (λ ps f. f, λ ps f. f)

Later-trans : (a b c : Builder) → Later a b → Later b c → Later a c
Later-trans a b c f g = (λ ps h. g.0 ps (f.0 ps h), λ ps h. g.1 ps (f.1 ps h))

NodesWithin-mono :
    (m n : ℕ) (nodes : List (PortSet × ℕ)) → m ≤ n → NodesWithin m nodes → NodesWithin n nodes
NodesWithin-mono m n nodes h w ps id e = omega (arith, w ps id e)

create_shuffle_node_lem :
    (config : Configuration) (vertices : FlowGraph) (ps : PortSet) (b : Builder)
    → AllNamed vertices ps
    → IsBuilder vertices b
    → (b' : Builder) × (create_shuffle_node config vertices ps b ≡ some b')
      × IsBuilder vertices b'
      × Later b b'
      × Found ps b'.shuffle_nodes
unfolding create_shuffle_node
create_shuffle_node_lem config vertices ps b h ok =
    elim (Option-cases (find_node ps b.shuffle_nodes)) [
      | inr (id, e) ↦ (b, rw (create_shuffle_node, e) refl, ok, Later-refl b, (id, e))
      | inl e ↦
          let (g, f, ok', more) =
            create_node-IsGraph vertices (shuffle config.partition_count) shuffle_suffix barrier ps
              b.graph h ok.room ok.is_graph in
          let n = task_count b.graph in
          (
            record b { graph = g; shuffle_nodes = (ps, n) ∷ b.shuffle_nodes },
            rw (create_shuffle_node, e)
                (ap
                  (λ o. o >>= λ (r : LogicalGraph × ℕ).
                    some (record b { graph = r.0; shuffle_nodes = (ps, r.1) ∷ b.shuffle_nodes }))
                  f),
            record {
              is_graph = ok';
              room = omega (arith, ok.room, more);
              shuffles =
                  subst (λ m. NodesWithin m ((ps, n) ∷ b.shuffle_nodes)) (sym more)
                    (NodesWithin-cons n ps b.shuffle_nodes ok.shuffles);
              gathers = NodesWithin-mono n _ b.gather_nodes (omega (arith, more)) ok.gathers;
            },
            (Grows-cons ps n b.shuffle_nodes, λ qs found. found),
            Found-cons ps n b.shuffle_nodes,
          )
    ]

create_gather_node_lem :
    (vertices : FlowGraph) (ps : PortSet) (b : Builder)
    → AllNamed vertices ps
    → IsBuilder vertices b
    → (b' : Builder) × (create_gather_node vertices ps b ≡ some b')
      × IsBuilder vertices b'
      × Later b b'
      × Found ps b'.gather_nodes
unfolding create_gather_node
create_gather_node_lem vertices ps b h ok = elim (Option-cases (find_node ps b.gather_nodes)) [
  | inr (id, e) ↦ (b, rw (create_gather_node, e) refl, ok, Later-refl b, (id, e))
  | inl e ↦
      let (g, f, ok', more) =
        create_node-IsGraph vertices gather gather_suffix entry ps b.graph h ok.room ok.is_graph in
      let n = task_count b.graph in
      (
        record b { graph = g; gather_nodes = (ps, n) ∷ b.gather_nodes },
        rw (create_gather_node, e)
            (ap
              (λ o. o >>= λ (r : LogicalGraph × ℕ).
                some (record b { graph = r.0; gather_nodes = (ps, r.1) ∷ b.gather_nodes }))
              f),
        record {
          is_graph = ok';
          room = omega (arith, ok.room, more);
          shuffles = NodesWithin-mono n _ b.shuffle_nodes (omega (arith, more)) ok.shuffles;
          gathers =
              subst (λ m. NodesWithin m ((ps, n) ∷ b.gather_nodes)) (sym more)
                (NodesWithin-cons n ps b.gather_nodes ok.gathers);
        },
        (λ qs found. found, Grows-cons ps n b.gather_nodes),
        Found-cons ps n b.gather_nodes,
      )
]

-- The node that an input port reads from is there.
abbrev pub HasNode : Movement → PortSet → Builder → Type 0
HasNode scatter_gather ps b = Found ps b.shuffle_nodes
HasNode broadcast ps b = Found ps b.gather_nodes
HasNode _ ps b = Unit

abbrev pub HaveNodes : List InputPort → List (List PortDescriptor) → Builder → Type 0
HaveNodes [] sources b = Unit
HaveNodes (iport ∷ iports) [] b = Unit
HaveNodes (iport ∷ iports) (srcs ∷ sources) b =
    HasNode iport.movement (normalize_port_set srcs) b × HaveNodes iports sources b

abbrev pub AllHaveNodes : List Vertex → Builder → Type 0
AllHaveNodes [] b = Unit
AllHaveNodes (v ∷ rest) b = HaveNodes v.input_ports v.sources b × AllHaveNodes rest b

HasNode-Later :
    (m : Movement) (ps : PortSet) (b c : Builder) → Later b c → HasNode m ps b → HasNode m ps c
HasNode-Later undefined ps b c l h = h
HasNode-Later one_to_one ps b c l h = h
HasNode-Later scatter_gather ps b c l h = l.0 ps h
HasNode-Later broadcast ps b c l h = l.1 ps h

HaveNodes-Later :
    (iports : List InputPort) (sources : List (List PortDescriptor)) (b c : Builder)
    → Later b c
    → HaveNodes iports sources b
    → HaveNodes iports sources c
HaveNodes-Later [] sources b c l h = tt
HaveNodes-Later (iport ∷ iports) [] b c l h = tt
HaveNodes-Later (iport ∷ iports) (srcs ∷ sources) b c l h = (
  HasNode-Later iport.movement (normalize_port_set srcs) b c l h.0,
  HaveNodes-Later iports sources b c l h.1,
)

-- One round of the loop over the input ports.
abbrev node_of_port : Configuration → FlowGraph → Movement → PortSet → Builder → Option Builder
node_of_port config vertices m ps b = elim m [
  | scatter_gather ↦ create_shuffle_node config vertices ps b
  | broadcast ↦ create_gather_node vertices ps b
  | _ ↦ some b
]

node_of_port_lem :
    (config : Configuration) (vertices : FlowGraph) (m : Movement) (ps : PortSet) (b : Builder)
    → AllNamed vertices ps
    → IsBuilder vertices b
    → (b' : Builder) × (node_of_port config vertices m ps b ≡ some b')
      × IsBuilder vertices b'
      × Later b b'
      × HasNode m ps b'
node_of_port_lem config vertices undefined ps b h ok = (b, refl, ok, Later-refl b, tt)
node_of_port_lem config vertices one_to_one ps b h ok = (b, refl, ok, Later-refl b, tt)
node_of_port_lem config vertices scatter_gather ps b h ok =
    create_shuffle_node_lem config vertices ps b h ok
node_of_port_lem config vertices broadcast ps b h ok = create_gather_node_lem vertices ps b h ok

create_port_nodes_lem :
    (config : Configuration) (vertices : FlowGraph) (iports : List InputPort)
    (sources : List (List PortDescriptor)) (b : Builder)
    → ArePorts vertices iports sources
    → IsBuilder vertices b
    → (b' : Builder) × (create_port_nodes config vertices iports sources b ≡ some b')
      × IsBuilder vertices b'
      × Later b b'
      × HaveNodes iports sources b'
unfolding create_port_nodes
create_port_nodes_lem config vertices [] sources b h ok = (b, refl, ok, Later-refl b, tt)
create_port_nodes_lem config vertices (iport ∷ iports) [] b h ok = absurd h
create_port_nodes_lem config vertices (iport ∷ iports) (srcs ∷ sources) b (_, h, hs) ok =
    let ps = normalize_port_set srcs in
    let (c, e, ok_c, l, found) =
      node_of_port_lem config vertices iport.movement ps b
        (normalize_port_set-AllNamed vertices srcs h) ok in
    let (d, f, ok_d, k, rest) = create_port_nodes_lem config vertices iports sources c hs ok_c in
    (
      d,
      ap (λ o. o >>= create_port_nodes config vertices iports sources) e ∙ f,
      ok_d,
      Later-trans b c d l k,
      (HasNode-Later iport.movement ps c d k found, rest),
    )

-- After the loop over all vertices each port has its node.
pub create_intermediate_nodes_lem :
    (config : Configuration) (vertices : FlowGraph) (rest : List Vertex) (b : Builder)
    → AreVertices vertices rest
    → IsBuilder vertices b
    → (b' : Builder) × (create_intermediate_nodes config vertices rest b ≡ some b')
      × IsBuilder vertices b'
      × Later b b'
      × AllHaveNodes rest b'
unfolding create_intermediate_nodes
create_intermediate_nodes_lem config vertices [] b h ok = (b, refl, ok, Later-refl b, tt)
create_intermediate_nodes_lem config vertices (v ∷ rest) b (_, h, hs) ok =
    let (c, e, ok_c, l, found) =
      create_port_nodes_lem config vertices v.input_ports v.sources b h ok in
    let (d, f, ok_d, k, all) = create_intermediate_nodes_lem config vertices rest c hs ok_c in
    (
      d,
      rw e f,
      ok_d,
      Later-trans b c d l k,
      (HaveNodes-Later v.input_ports v.sources c d k found, all),
    )
