-- ===== src/Graph/Validation.antt =====
-- `validate_workflow` of backend/graph/validation.py. The texts of the issues are left out.
pub mod Passing
pub mod Sound
pub mod Ready
pub mod Total
use mathlib.Core.Option
use lluna.Prelude.{
  ℕ, ◌+◌, String, Bool, true, false, not, ◌&&◌, ◌||◌, Option, none, some, List, [], ◌∷◌, ◌++◌, leb,
  ltb, length, nat_beq, if◌then◌else◌, select, map,
}
use lluna.Prelude.Key.{Key, string_key, pair_key, ◌==◌}
use lluna.Prelude.Dict.{Dict, get?, get_or, put}
use lluna.Prelude.Sets.{elem, add, update}
use lluna.Json.{
  Json, null, object, array, Items, nil, Record, Conversions, truthy, or_else, lookup, entries,
}
use lluna.Graph.Schema.{
  WorkflowNode, WorkflowEdge, WorkflowDocument, NodeDefinition, PortDefinition, NodeKind, processor,
  Registry, ids, ports_compatible,
}
use lluna.Graph.Issues.{
  ValidationIssue, error, warning, Code, global, on_node, on_edge, flag, flat_map, no_errors,
}
use lluna.Graph.Scope.{scoped_node_ids, parents, has_kind_output, has_preview, ends}
use lluna.Graph.Order.{topological_order}
use lluna.Graph.Compiler.{node_table}
use lluna.Graph.Parameters.{Services, check_node}
use lluna.Graph.Ports.{port, has_completed_boundary_output}
use lluna.Graph.Batches.{batch_node_ids, repeated_processor_nodes}
use lluna.Graph.Connections.{EdgeState, input_key, check_edges}

pub record ValidationResult : Type 0 where
  pub valid : Bool
  pub issues : List ValidationIssue

-- How often an id is given to a node.
unfoldable pub count_id : String → List String → ℕ
count_id id [] = 0
count_id id (x ∷ xs) = (if id == x then 1 else 0) + count_id id xs

-- `duplicate_node_ids & validation_ids`
unfoldable pub any_duplicate : List String → List String → Bool
unfolding count_id
any_duplicate all [] = false
any_duplicate all (id ∷ validation_ids) =
    ltb 1 (count_id id all) || any_duplicate all validation_ids

unfoldable pub is_empty : List String → Bool
is_empty [] = true
is_empty (x ∷ xs) = false

module _ (registry : Registry) (mode : String) (active validation_ids : List String) where
  unfoldable pub port_issues :
      Dict (String × String) ℕ → WorkflowNode → PortDefinition → List ValidationIssue
  port_issues connected node p =
      flag (p.required && nat_beq (get_or 0 (node.id, p.id) connected) 0)
        (on_node error Code.missing_input node.id)

  -- One turn of the second loop over the nodes.
  unfoldable pub check_inputs : Dict (String × String) ℕ → WorkflowNode → List ValidationIssue
  unfolding port_issues flat_map
  check_inputs connected node = elim (registry node.schema_id) [
    | none ↦ []
    | some definition ↦
        let unused =
          flag (mode == "all" && not (elem node.id active))
            (on_node warning Code.unused_node node.id) in
        let missing = flat_map (port_issues connected node) definition.inputs in
        if node.disabled
        then []
        else unused ++ (if elem node.id validation_ids then missing else [])
  ]

module _ (registry : Registry) (workflow : WorkflowDocument) where
  -- A cycle, or else the operations that occur twice on a path.
  unfoldable pub issues_of_order : List String → List String → Option (List ValidationIssue)
  unfolding repeated_processor_nodes
  issues_of_order validation_ids ordered = elim (nat_beq (length ordered) (length validation_ids)) [
    | false ↦ some (global error Code.cycle ∷ [])
    | true ↦
        Option.map (map (on_node error Code.repeated_operation))
          (repeated_processor_nodes registry workflow validation_ids ordered)
  ]

  unfoldable pub order_issues : List String → Option (List ValidationIssue)
  unfolding issues_of_order
  order_issues validation_ids =
      Option.bind (topological_order workflow.edges validation_ids) (issues_of_order validation_ids)

  any_output : List WorkflowNode → Bool
  any_output [] = false
  any_output (node ∷ nodes) = has_kind_output registry node || any_output nodes

  any_endpoint : List WorkflowNode → Bool
  any_endpoint [] = false
  any_endpoint (node ∷ nodes) =
      (has_preview registry node && ends registry workflow node) || any_endpoint nodes

  unfoldable pub output_issues : String → List ValidationIssue
  unfolding any_output any_endpoint is_empty
  output_issues mode =
      flag
        (mode == "all"
          && not (is_empty (ids workflow))
          && not (any_output workflow.nodes)
          && not (any_endpoint workflow.nodes))
        (global warning Code.no_output)

abbrev pub verdict : List ValidationIssue → ValidationResult
verdict issues = record { valid = no_errors issues; issues = issues }

module _ (registry : Registry) (workflow : WorkflowDocument) where
  abbrev pub scope_of : Bool → List String → List String
  scope_of include_unrelated active = if include_unrelated then update [] (ids workflow) else active

  unfoldable pub edge_state : List String → List String → EdgeState
  unfolding check_edges node_table
  edge_state validation_ids batch_nodes =
      check_edges registry (node_table [] workflow.nodes) validation_ids batch_nodes
        (record { seen_edges = []; connected_inputs = []; issues = [] }) workflow.edges

module _ (python : Conversions) (services : Services) (registry : Registry)
    (workflow : WorkflowDocument) where
  -- All issues in the order of the code, for the nodes in scope and the queues among them.
  unfoldable pub all_issues :
      String → List String → List String → List String → List ValidationIssue → List ValidationIssue
  unfolding is_empty any_duplicate check_node flat_map edge_state check_inputs output_issues
  all_issues mode active validation_ids batch_nodes ordering =
      let edges : EdgeState = edge_state registry workflow validation_ids batch_nodes in
      flag ((mode == "from" || mode == "selected") && is_empty active)
        (global error Code.no_selection)
      ++ flag (any_duplicate (ids workflow) validation_ids) (global error Code.duplicate_node_id)
      ++ flat_map (check_node python services registry validation_ids) workflow.nodes
      ++ edges.issues
      ++ flat_map (check_inputs registry mode active validation_ids edges.connected_inputs)
          workflow.nodes
      ++ ordering
      ++ output_issues registry workflow mode

  -- `none` is an exception: a KeyError of `nodes[node_id]`, or fuel that ran out.
  unfoldable pub validate_workflow : String → List String → Bool → Option ValidationResult
  unfolding all_issues batch_node_ids order_issues no_errors
  validate_workflow mode selected_node_ids include_unrelated =
      Option.bind (scoped_node_ids registry workflow mode selected_node_ids) λ active.
        let validation_ids = scope_of registry workflow include_unrelated active in
        Option.bind (batch_node_ids registry workflow validation_ids) λ batch_nodes.
          Option.bind (order_issues registry workflow validation_ids)
            λ ordering. some (verdict (all_issues mode active validation_ids batch_nodes ordering))
