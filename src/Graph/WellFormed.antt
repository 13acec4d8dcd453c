-- ===== src/Graph/WellFormed.antt =====
-- The flow graphs that a logical graph can be made of, in src/graph/logical_graph_builder.cpp.
use m3bp.Prelude.{
  ℕ, zero, suc, ◌<◌, ◌≡◌, ◌≢◌, refl, Bool, true, false, ◌&&◌, some, List, [], ◌∷◌, ◌++◌, length,
  get_elem?, if◌then◌else◌, arith, Option-cases, inl, inr,
}
use m3bp.Graph.FlowGraph.{
  Name, undefined, InputPort, PortDescriptor, Vertex, FlowGraph, is_scatter_gather,
}
use m3bp.Graph.Builder.{
  PortKey, PortSet, is_one_to_one, any_port, key_lt, insert_key, normalize_port_set, port_name,
  join_port_names, concat_port_names,
}

-- The output port exists.
abbrev pub IsNamed : FlowGraph → PortKey → Type 0
IsNamed vertices p = (name : Name) × (port_name vertices p ≡ some name)

abbrev pub AllNamed : FlowGraph → PortSet → Type 0
AllNamed vertices [] = Unit
AllNamed vertices (p ∷ ps) = IsNamed vertices p × AllNamed vertices ps

abbrev pub AllSources : FlowGraph → List PortDescriptor → Type 0
AllSources vertices [] = Unit
AllSources vertices (src ∷ srcs) =
    IsNamed vertices (src.vertex_id, src.port_id) × AllSources vertices srcs

-- Each input port has a movement, and sources that exist.
abbrev pub ArePorts : FlowGraph → List InputPort → List (List PortDescriptor) → Type 0
ArePorts vertices [] sources = Unit
ArePorts vertices (iport ∷ iports) [] = ⊥
ArePorts vertices (iport ∷ iports) (srcs ∷ sources) =
    (iport.movement ≢ undefined) × AllSources vertices srcs × ArePorts vertices iports sources

-- No vertex has ports of both movements.
abbrev pub AreVertices : FlowGraph → List Vertex → Type 0
AreVertices vertices [] = Unit
AreVertices vertices (v ∷ rest) =
    (any_port is_one_to_one v.input_ports && any_port is_scatter_gather v.input_ports ≡ false)
    × ArePorts vertices v.input_ports v.sources
    × AreVertices vertices rest

get_elem?-lt {ℓ} : {A : Type ℓ} (l : List A) (i : ℕ) (x : A) → get_elem? l i ≡ some x → i < length l
get_elem?-lt [] i x e = absurd (ground arith)
get_elem?-lt (y ∷ l) zero x e = omega arith
get_elem?-lt (y ∷ l) (suc i) x e = omega (arith, get_elem?-lt l i x e)

pub IsNamed-lt : (vertices : FlowGraph) (p : PortKey) → IsNamed vertices p → p.0 < length vertices
IsNamed-lt vertices p (name, e) = elim (Option-cases (get_elem? vertices p.0)) [
  | inl gone ↦ absurd (ground (arith, gone))
  | inr (v, f) ↦ get_elem?-lt vertices p.0 v f
]

either_AllNamed :
    (vertices : FlowGraph) (b : Bool) (ps qs : PortSet)
    → AllNamed vertices ps
    → AllNamed vertices qs
    → AllNamed vertices (elim b [ true ↦ ps | false ↦ qs ])
either_AllNamed vertices true ps qs h k = h
either_AllNamed vertices false ps qs h k = k

insert_key-AllNamed :
    (vertices : FlowGraph) (p : PortKey) (ps : PortSet)
    → IsNamed vertices p
    → AllNamed vertices ps
    → AllNamed vertices (insert_key p ps)
unfolding insert_key
insert_key-AllNamed vertices p [] h hs = (h, tt)
insert_key-AllNamed vertices p (q ∷ qs) h hs =
    either_AllNamed vertices (key_lt q p) (q ∷ insert_key p qs) (p ∷ q ∷ qs)
      (hs.0, insert_key-AllNamed vertices p qs h hs.1) (h, hs)

pub normalize_port_set-AllNamed :
    (vertices : FlowGraph) (srcs : List PortDescriptor)
    → AllSources vertices srcs
    → AllNamed vertices (normalize_port_set srcs)
unfolding normalize_port_set
normalize_port_set-AllNamed vertices [] h = tt
normalize_port_set-AllNamed vertices (src ∷ srcs) h =
    insert_key-AllNamed vertices (src.vertex_id, src.port_id) (normalize_port_set srcs) h.0
      (normalize_port_set-AllNamed vertices srcs h.1)

join_port_names-some :
    (vertices : FlowGraph) (is_first : Bool) (ps : PortSet)
    → AllNamed vertices ps
    → (name : Name) × (join_port_names vertices is_first ps ≡ some name)
unfolding join_port_names
join_port_names-some vertices is_first [] h = (b')' ∷ [], refl)
join_port_names-some vertices is_first (p ∷ ps) ((name, e), hs) =
    let (rest, f) = join_port_names-some vertices false ps hs in
    ((if is_first then [] else b'+' ∷ []) ++ name ++ rest, rw (e, f) refl)

-- A set of ports that exist has a name.
pub concat_port_names-some :
    (vertices : FlowGraph) (ps : PortSet)
    → AllNamed vertices ps
    → (name : Name) × (concat_port_names vertices ps ≡ some name)
unfolding concat_port_names
concat_port_names-some vertices ps h =
    let (names, e) = join_port_names-some vertices true ps h in (b'(' ∷ names, rw e refl)
