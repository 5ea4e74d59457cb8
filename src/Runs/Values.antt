-- ===== src/Runs/Values.antt =====
-- backend/graph/executor.py: the values on the ports of a run, and the inputs of a node.
use lluna.Prelude.{String, Option, none, some, List, [], ◌∷◌, ◌++◌}
use lluna.Prelude.Key.{Key, string_key, pair_key}
use lluna.Prelude.Dict.{Dict, get?, get_or, put}
use lluna.Json.{Json}
use lluna.Graph.Schema.{WorkflowEdge, PortDefinition}

pub record ArtifactRecord : Type 0 where
  pub artifact_id : String
  pub content_hash : String

-- An `atom` is neither an artifact nor a `dict` nor a `list`.
mutual
  pub data Value : Type 0 where
    artifact : ArtifactRecord → Value
    by_port : Ports → Value
    sequence : Values → Value
    atom : Json → Value

  pub data Ports : Type 0 where
    no_port : Ports
    on_port : String → Value → Ports → Ports

  pub data Values : Type 0 where
    no_value : Values
    next : Value → Values → Values

unfoldable pub elements : Values → List Value
elements no_value = []
elements (next v vs) = v ∷ elements vs

unfoldable pub values_of : List Value → Values
values_of [] = no_value
values_of (v ∷ vs) = next v (values_of vs)

unfoldable mutual
  pub artifact_values : Value → List ArtifactRecord
  artifact_values (artifact found) = found ∷ []
  artifact_values (by_port ports) = port_artifacts ports
  artifact_values (sequence vs) = all_artifacts vs
  artifact_values (atom json) = []

  pub port_artifacts : Ports → List ArtifactRecord
  port_artifacts no_port = []
  port_artifacts (on_port name v ports) = artifact_values v ++ port_artifacts ports

  pub all_artifacts : Values → List ArtifactRecord
  all_artifacts no_value = []
  all_artifacts (next v vs) = artifact_values v ++ all_artifacts vs

-- `value if isinstance(value, (list, tuple)) else [value]`
unfoldable pub listed : Value → List Value
unfolding elements
listed (sequence vs) = elements vs
listed v = v ∷ []

unfoldable pub combined : List Value → List Value
unfolding listed
combined [] = []
combined (v ∷ vs) = listed v ++ combined vs

-- One connected value is passed on, several are joined to a list.
unfoldable pub joined : List Value → Option Value
unfolding combined values_of
joined [] = none
joined (v ∷ []) = some v
joined (v ∷ w ∷ vs) = some (sequence (values_of (combined (v ∷ w ∷ vs))))

-- A node and one of its output ports.
abbrev pub Source : Type 0
Source = String × String

instance abbrev pub source_key : Key Source
source_key = pair_key string_key string_key

abbrev pub Store : Type 0
Store = Dict Source Value

-- The sources of each input port of each node.
abbrev pub Incoming : Type 0
Incoming = Dict String (Dict String (List Source))

unfoldable pub add_edge : WorkflowEdge → Incoming → Incoming
unfolding get_or put
add_edge edge incoming =
    let ports = get_or [] edge.target_node_id incoming in
    let sources = get_or [] edge.target_port_id ports in
    put edge.target_node_id
      (put edge.target_port_id (sources ++ (edge.source_node_id, edge.source_port_id) ∷ []) ports)
      incoming

unfoldable pub add_edges : List WorkflowEdge → Incoming → Incoming
unfolding add_edge
add_edges [] incoming = incoming
add_edges (edge ∷ edges) incoming = add_edges edges (add_edge edge incoming)

abbrev pub incoming_of : List WorkflowEdge → Incoming
incoming_of edges = add_edges edges []

-- `[values[source] for source in sources if source in values]`
unfoldable pub connected : Store → List Source → List Value
unfolding get?
connected values [] = []
connected values (source ∷ sources) = elim (get? source values) [
  | none ↦ connected values sources
  | some v ↦ v ∷ connected values sources
]

unfoldable pub input_values : Store → Dict String (List Source) → Dict String Value
unfolding connected joined
input_values values [] = []
input_values values ((port_id, sources) ∷ ports) = elim (joined (connected values sources)) [
  | none ↦ input_values values ports
  | some v ↦ (port_id, v) ∷ input_values values ports
]

unfoldable pub store_ports : String → Ports → Store → Store
unfolding put
store_ports node_id no_port values = values
store_ports node_id (on_port name v ports) values =
    store_ports node_id ports (put (node_id, name) v values)

unfoldable pub store_outputs : String → List PortDefinition → Value → Store → Store
unfolding put
store_outputs node_id [] v values = values
store_outputs node_id (p ∷ outputs) v values =
    store_outputs node_id outputs v (put (node_id, p.id) v values)

-- A `dict` has one value for each port; another result, but for None, is on every output port.
unfoldable pub store_result : String → List PortDefinition → Option Value → Store → Store
unfolding store_ports store_outputs
store_result node_id outputs none values = values
store_result node_id outputs (some (by_port ports)) values = store_ports node_id ports values
store_result node_id outputs (some v) values = store_outputs node_id outputs v values
