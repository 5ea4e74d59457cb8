-- ===== src/Graph/Connections.antt =====
-- The edge loop of `validate_workflow` (backend/graph/validation.py).
pub mod Sound
use mathlib.Core.Option
use lluna.Prelude.{
  ℕ, ◌+◌, String, Bool, true, false, not, ◌&&◌, ◌||◌, Option, none, some, List, [], ◌∷◌, ◌++◌, leb,
  ltb, length, nat_beq, if◌then◌else◌, select, map,
}
use lluna.Prelude.Key.{Key, string_key, pair_key, ◌==◌}
use lluna.Prelude.Dict.{Dict, get?, get_or, put}
use lluna.Prelude.Sets.{elem, add, update}
use lluna.Json.{
  Json, null, object, array, Items, nil, Record, Conversions, truthy, or_else, lookup, entries,
}
use lluna.Graph.Schema.{
  WorkflowNode, WorkflowEdge, WorkflowDocument, NodeDefinition, PortDefinition, NodeKind, processor,
  Registry, ids, ports_compatible,
}
use lluna.Graph.Issues.{
  ValidationIssue, error, warning, Code, global, on_node, on_edge, flag, flat_map, no_errors,
}
use lluna.Graph.Scope.{scoped_node_ids, parents, has_kind_output, has_preview, ends}
use lluna.Graph.Order.{topological_order}
use lluna.Graph.Compiler.{node_table}
use lluna.Graph.Parameters.{Services, check_node}
use lluna.Graph.Ports.{port, has_completed_boundary_output}
use lluna.Graph.Batches.{batch_node_ids, repeated_processor_nodes}

-- What the edge loop keeps.
pub record EdgeState : Type 0 where
  pub seen_edges : List String
  pub connected_inputs : Dict (String × String) ℕ
  pub issues : List ValidationIssue

instance abbrev pub input_key : Key (String × String)
input_key = pair_key string_key string_key

-- What the ends of an edge are found to be.
pub data Resolution : Type 0 where
  dangling untyped portless : Resolution
  joined :
      (source : WorkflowNode) (source_definition : NodeDefinition) (source_port : PortDefinition)
      (target : WorkflowNode) (target_port : PortDefinition)
      → Resolution

abbrev pub note : EdgeState → WorkflowEdge → EdgeState
note state edge = record {
  seen_edges = add edge.id state.seen_edges;
  connected_inputs = state.connected_inputs;
  issues =
      state.issues ++ flag (elem edge.id state.seen_edges) (on_edge Code.duplicate_edge_id edge.id);
}

abbrev pub report : EdgeState → List ValidationIssue → EdgeState
report state issues = record {
  seen_edges = state.seen_edges;
  connected_inputs = state.connected_inputs;
  issues = state.issues ++ issues;
}

abbrev pub connect : EdgeState → String × String → EdgeState
connect state key = record {
  seen_edges = state.seen_edges;
  connected_inputs = put key (get_or 0 key state.connected_inputs + 1) state.connected_inputs;
  issues = state.issues;
}

module _ (registry : Registry) (nodes : Dict String WorkflowNode) where
  resolve_ports :
      WorkflowEdge → WorkflowNode → NodeDefinition → WorkflowNode → NodeDefinition → Resolution
  resolve_ports edge source source_definition target target_definition =
      elim (port source_definition.outputs edge.source_port_id) [
        | none ↦ portless
        | some source_port ↦ elim (port target_definition.inputs edge.target_port_id) [
          | none ↦ portless
          | some target_port ↦ joined source source_definition source_port target target_port
        ]
      ]

  resolve_definitions : WorkflowEdge → WorkflowNode → WorkflowNode → Resolution
  unfolding resolve_ports
  resolve_definitions edge source target = elim (registry source.schema_id) [
    | none ↦ untyped
    | some source_definition ↦ elim (registry target.schema_id) [
      | none ↦ untyped
      | some target_definition ↦
          resolve_ports edge source source_definition target target_definition
    ]
  ]

  unfoldable pub resolve : WorkflowEdge → Resolution
  unfolding resolve_definitions
  resolve edge = elim (get? edge.source_node_id nodes) [
    | none ↦ dangling
    | some source ↦ elim (get? edge.target_node_id nodes) [
      | none ↦ dangling
      | some target ↦ resolve_definitions edge source target
    ]
  ]

  module _ (validation_ids batch_nodes : List String) where
    -- The issues of a connection between known ports; `count` is how often its input is connected
    -- with it.
    unfoldable pub connection_issues :
        WorkflowEdge
        → WorkflowNode
        → NodeDefinition
        → PortDefinition
        → WorkflowNode
        → PortDefinition
        → ℕ
        → List ValidationIssue
    connection_issues edge source source_definition source_port target target_port count =
        flag (not (ports_compatible source_port.type target_port.type))
          (on_edge Code.incompatible_ports edge.id)
        ++ flag (elem source.id batch_nodes && not target_port.multiple)
            (on_edge Code.batch_to_scalar edge.id)
        ++ flag (ltb 1 count && not target_port.multiple) (record {
          severity = error;
          code = Code.duplicate_input;
          node_id = some target.id;
          edge_id = some edge.id;
        })
        ++ flag
            (not (elem source.id validation_ids)
              && target_port.required
              && not (has_completed_boundary_output source source_definition source_port.id))
            (record {
              severity = error;
              code = Code.boundary_input_unavailable;
              node_id = some target.id;
              edge_id = some edge.id;
            })

    -- What follows once the ends are known.
    unfoldable pub check_ends : EdgeState → WorkflowEdge → Resolution → EdgeState
    unfolding connection_issues
    check_ends state edge dangling = report state (on_edge Code.dangling_edge edge.id ∷ [])
    check_ends state edge untyped = state
    check_ends state edge portless = report state (on_edge Code.unknown_port edge.id ∷ [])
    check_ends state edge (joined source source_definition source_port target target_port) =
        let key : String × String = (target.id, target_port.id) in
        let connected : EdgeState = connect state key in
        report connected (
          connection_issues edge source source_definition source_port target target_port
            (get_or 0 key connected.connected_inputs))

    -- The loop over the edges.
    unfoldable pub check_edges : EdgeState → List WorkflowEdge → EdgeState
    unfolding check_ends
    check_edges state [] = state
    check_edges state (edge ∷ edges) =
        check_edges
          (if elem edge.target_node_id validation_ids
            then check_ends (note state edge) edge (resolve edge)
            else state)
          edges
