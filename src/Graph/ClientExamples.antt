-- ===== src/Graph/ClientExamples.antt =====
-- Edges from a producer without keys.
use m3bp.Prelude.{false, none, [], ◌∷◌}
use m3bp.Graph.FlowGraph.{scatter_gather, InputPort, OutputPort, PortDescriptor, FlowGraph}

abbrev out_port : OutputPort
out_port = record { name = b'o' ∷ []; has_key = false }

abbrev in_port : InputPort
in_port = record { name = b'i' ∷ []; movement = scatter_gather; value_comparator = none }

abbrev unkeyed : FlowGraph
unkeyed =
    record { name = b'r' ∷ []; input_ports = []; output_ports = out_port ∷ []; sources = [] }
    ∷ record { name = b's' ∷ []; input_ports = in_port ∷ []; output_ports = []; sources = [] ∷ [] }
    ∷ []

abbrev from_first : PortDescriptor
from_first = record { vertex_id = 0; port_id = 0 }

abbrev to_second : PortDescriptor
to_second = record { vertex_id = 1; port_id = 0 }
