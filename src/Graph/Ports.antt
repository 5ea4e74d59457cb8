-- ===== src/Graph/Ports.antt =====
-- Finding a port, and what a node that does not run can supply (backend/graph/validation.py).

use lluna.Prelude.{
  String, Bool, true, false, not, ◌||◌, Option, none, some, List, [], ◌∷◌, if◌then◌else◌,
}
use lluna.Prelude.Key.{string_key, ◌==◌}
use lluna.Json.{Json, null, object, array, nil, Record, truthy, or_else, lookup, entries}
use lluna.Graph.Schema.{WorkflowNode, NodeDefinition, PortDefinition}

-- `_port`
unfoldable pub port : List PortDefinition → String → Option PortDefinition
port [] port_id = none
port (item ∷ ports) port_id = if item.id == port_id then some item else port ports port_id

-- `_has_completed_boundary_output`
unfoldable pub is_none : Json → Bool
is_none null = true
is_none value = false

unfoldable pub holds_port : Json → String → Bool
unfolding is_none entries
holds_port (object outputs) port_id = not (is_none (lookup port_id (entries outputs)))
holds_port value port_id = false

unfoldable pub has_stored_result : Record → String → Bool
unfolding holds_port is_none
has_stored_result result port_id =
    holds_port (lookup "outputs" result) port_id
    || not (is_none (lookup port_id result))
    || not (is_none (lookup "value" result))
    || truthy
        (or_else (lookup "artifactIds" result) (or_else (lookup "artifact_ids" result) (array nil)))

unfoldable pub has_completed_boundary_output : WorkflowNode → NodeDefinition → String → Bool
unfolding has_stored_result is_none
has_completed_boundary_output node definition port_id =
    let stored : Bool = elim node.result [
      | none ↦ has_stored_result [] port_id
      | some result ↦ has_stored_result result port_id
    ] in
    elim definition.adapter [
      | none ↦ stored
      | some adapter ↦
          if adapter == "llava_config"
          then true
          else if adapter == "literal"
          then not (is_none (lookup "value" node.parameters))
          else stored
    ]
