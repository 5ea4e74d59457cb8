-- ===== src/Graph/Batches.antt =====
-- `_batch_node_ids` and `_repeated_processor_nodes` of backend/graph/validation.py.
use mathlib.Core.Option
use lluna.Prelude.{
  ℕ, ◌+◌, String, Bool, true, false, ◌&&◌, ◌||◌, Option, none, some, List, [], ◌∷◌, ◌++◌, ltb,
  if◌then◌else◌, select,
}
use lluna.Prelude.Key.{string_key, ◌==◌}
use lluna.Prelude.Dict.{Dict, get?, get_or, put}
use lluna.Prelude.Sets.{elem, add, update}
use lluna.Graph.Schema.{
  WorkflowNode, WorkflowEdge, WorkflowDocument, NodeDefinition, processor, Registry,
}
use lluna.Graph.Scope.{parents}
use lluna.Graph.Order.{topological_order}
use lluna.Graph.Compiler.{node_table}
use lluna.Graph.Ports.{port}

-- `_batch_node_ids`
abbrev pub is_multiple : NodeDefinition → String → Bool
is_multiple definition port_id = elim (port definition.inputs port_id) [
  | none ↦ false
  | some p ↦ p.multiple
]

abbrev pub incoming : WorkflowDocument → String → List WorkflowEdge
incoming workflow node_id = select (λ edge. edge.target_node_id == node_id) workflow.edges

-- How many edges come in at each port.
unfoldable pub count_ports : Dict String ℕ → List WorkflowEdge → Dict String ℕ
count_ports counts [] = counts
count_ports counts (edge ∷ edges) =
    count_ports (put edge.target_port_id (get_or 0 edge.target_port_id counts + 1) counts) edges

unfoldable pub any_queue_port : NodeDefinition → Dict String ℕ → Bool
any_queue_port definition [] = false
any_queue_port definition ((port_id, count) ∷ counts) =
    (ltb 1 count && is_multiple definition port_id) || any_queue_port definition counts

unfoldable pub takes_queue : List String → NodeDefinition → List WorkflowEdge → Bool
takes_queue batch definition [] = false
takes_queue batch definition (edge ∷ edges) =
    (elem edge.source_node_id batch && is_multiple definition edge.target_port_id)
    || takes_queue batch definition edges

abbrev pub loads_images : NodeDefinition → Bool
loads_images definition = elim definition.adapter [
  | none ↦ false
  | some adapter ↦ adapter == "load_images"
]

module _ (registry : Registry) (workflow : WorkflowDocument) where
  unfoldable pub is_batch : List String → WorkflowNode → String → Bool
  unfolding any_queue_port count_ports takes_queue
  is_batch batch node node_id = elim (registry node.schema_id) [
    | none ↦ false
    | some definition ↦
        let edges = incoming workflow node_id in
        loads_images definition
        || any_queue_port definition (count_ports [] edges)
        || takes_queue batch definition edges
  ]

  -- The loop over the order; `none` is the KeyError of `nodes[node_id]`.
  unfoldable pub collect_batch : List String → List String → Option (List String)
  unfolding is_batch
  collect_batch batch [] = some batch
  collect_batch batch (node_id ∷ order) = elim (get? node_id (node_table [] workflow.nodes)) [
    | none ↦ none
    | some node ↦
        collect_batch (if is_batch batch node node_id then add node_id batch else batch) order
  ]

  unfoldable pub batch_node_ids : List String → Option (List String)
  unfolding collect_batch
  batch_node_ids node_ids =
      Option.bind (topological_order workflow.edges node_ids) (collect_batch [])

  -- `_repeated_processor_nodes`
  unfoldable pub inherited :
      List String → Dict String (List String) → List String → List String → List String
  inherited node_ids path_schemas found [] = found
  inherited node_ids path_schemas found (parent ∷ rest) =
      inherited node_ids path_schemas
        (if elem parent node_ids then update found (get_or [] parent path_schemas) else found) rest

  unfoldable pub is_processor : WorkflowNode → Bool
  is_processor node = elim (registry node.schema_id) [
    | none ↦ false
    | some definition ↦ elim definition.kind [ processor ↦ true | _ ↦ false ]
  ]

  unfoldable pub collect_repeated :
      List String → Dict String (List String) → List String → List String → Option (List String)
  unfolding is_processor inherited
  collect_repeated node_ids path_schemas repeated [] = some repeated
  collect_repeated node_ids path_schemas repeated (node_id ∷ order) =
      elim (get? node_id (node_table [] workflow.nodes)) [
        | none ↦ none
        | some node ↦
            let before =
              inherited node_ids path_schemas [] (get_or [] node_id (parents workflow)) in
            collect_repeated node_ids
              (put node_id (if is_processor node then add node.schema_id before else before)
                path_schemas)
              (if is_processor node && elem node.schema_id before
                then repeated ++ node_id ∷ []
                else repeated)
              order
      ]

  unfoldable pub repeated_processor_nodes : List String → List String → Option (List String)
  unfolding collect_repeated
  repeated_processor_nodes node_ids ordered = collect_repeated node_ids [] [] ordered
