-- ===== src/Graph/Client.antt =====
-- What a client does to the flow graph of src/api/internal/flow_graph_impl.hpp.
use m3bp.Prelude.{◌≡◌, ◌⊎◌, true, false, not, ◌&&◌, none, some, length, get_elem?, set}
use m3bp.Graph.FlowGraph.{
  InputPort, OutputPort, PortDescriptor, Vertex, FlowGraph, invalid_descriptor,
  mismatched_port_specifications, EdgeResult, ok, err, find_input, find_output, is_scatter_gather,
  add_source,
}
use m3bp.Graph.WellFormed.{AreVertices}

-- What each outcome of `add_edge` tells.
abbrev pub Tells : PortDescriptor → PortDescriptor → FlowGraph → EdgeResult → Type 0
Tells producer consumer g (ok g') =
    AreVertices g' g'
    × (length g' ≡ length g)
    × ((iport : InputPort) × (oport : OutputPort) × (find_input consumer g ≡ some iport)
        × (find_output producer g ≡ some oport)
        × (is_scatter_gather iport.movement && not oport.has_key ≡ false))
    × ((v : Vertex) × (get_elem? g consumer.vertex_id ≡ some v)
        × (g' ≡ set g consumer.vertex_id (add_source producer consumer.port_id v)))
Tells producer consumer g (err invalid_descriptor) =
    (find_output producer g ≡ none) ⊎ (find_input consumer g ≡ none)
Tells producer consumer g (err mismatched_port_specifications) =
    (iport : InputPort) × (oport : OutputPort) × (find_input consumer g ≡ some iport)
    × (find_output producer g ≡ some oport)
    × (is_scatter_gather iport.movement ≡ true)
    × (oport.has_key ≡ false)
