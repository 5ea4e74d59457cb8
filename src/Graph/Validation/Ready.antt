-- ===== src/Graph/Validation/Ready.antt =====
-- What the nodes of a workflow that `validate_workflow` finds valid are like.

use lluna.Prelude.{
  ℕ, ◌≤◌, String, Bool, true, false, not, ◌&&◌, some, List, [], ◌∷◌, ◌++◌, ◌≡◌, inl, inr, refl,
  subst, arith, nat_beq, if◌then◌else◌, Option-cases,
}
use lluna.Prelude.Key.{string_key, ◌==◌}
use lluna.Prelude.Dict.{Dict, get_or}
use lluna.Prelude.Sets.{elem}
use lluna.Json.{Conversions}
use lluna.Graph.Schema.{
  WorkflowNode, WorkflowEdge, WorkflowDocument, NodeDefinition, PortDefinition, Registry,
}
use lluna.Graph.Issues.{
  no_errors, no_errors-right, no_errors-flag, no_errors-two_flags, on_node, warning,
  no_errors-flat_map, Member, flat_map, flag, Code, error, is_warning,
}
use lluna.Graph.Compiler.{node_table}
use lluna.Graph.Parameters.{Services, check_node, enabled_issues, definition_issues}
use lluna.Graph.Connections.{input_key}
use lluna.Graph.Connections.Sound.{connects, connects_of_connections, connected_lem}
use lluna.Graph.Validation.{
  ValidationResult, validate_workflow, scope_of, edge_state, check_inputs, port_issues,
}
use lluna.Graph.Validation.Passing.{valid-Run, Scoped}

module _ (python : Conversions) (services : Services) (registry : Registry)
    (workflow : WorkflowDocument) where
  -- An enabled node in scope of a known type: its version is right, it is available, and each of
  -- its required inputs has an edge from a known port.
  abbrev pub IsReady : List String → WorkflowNode → NodeDefinition → Type 0
  IsReady validation_ids node definition =
      (node.schema_version ≡ definition.schema_version)
      × (definition.available ≡ true)
      × ((p : PortDefinition)
          → node.disabled ≡ false
          → Member p definition.inputs
          → p.required ≡ true
          → (before : List WorkflowEdge) × (edge : WorkflowEdge) × (rest : List WorkflowEdge)
            × (workflow.edges ≡ before ++ edge ∷ rest)
            × (connects registry (node_table [] workflow.nodes) validation_ids [] (node.id, p.id)
                  edge
                ≡ true))

  check_node_lem :
      (validation_ids : List String) (node : WorkflowNode)
      → elem node.id validation_ids ≡ true
      → no_errors (check_node python services registry validation_ids node) ≡ true
      → (definition : NodeDefinition) × (registry node.schema_id ≡ some definition)
        × (node.schema_version ≡ definition.schema_version)
        × (definition.available ≡ true)
  unfolding check_node definition_issues no_errors is_warning
  check_node_lem validation_ids node e h = elim (Option-cases (registry node.schema_id)) [
    | inl g ↦ ground arith
    | inr (definition, g) ↦
        let sound : no_errors (definition_issues python services registry node definition) ≡ true =
          ground arith in
        let flags =
          no_errors-two_flags (not (nat_beq node.schema_version definition.schema_version))
            (not definition.available) (on_node error Code.node_version node.id)
            (on_node error Code.node_unavailable node.id)
            (if node.disabled then [] else enabled_issues python services registry node definition)
            refl refl sound in
        (definition, g, ground arith, ground arith)
  ]

  check_inputs_lem :
      (mode : String) (active validation_ids : List String) (connected : Dict (String × String) ℕ)
      (node : WorkflowNode) (definition : NodeDefinition) (p : PortDefinition)
      → registry node.schema_id ≡ some definition
      → elem node.id validation_ids ≡ true
      → no_errors (check_inputs registry mode active validation_ids connected node) ≡ true
      → node.disabled ≡ false
      → Member p definition.inputs
      → p.required ≡ true
      → 1 ≤ get_or 0 (node.id, p.id) connected
  unfolding check_inputs port_issues no_errors is_warning
  check_inputs_lem mode active validation_ids connected node definition p g e h enabled m required =
      let missing =
        flat_map (port_issues registry mode active validation_ids connected node)
          definition.inputs in
      let unused =
        flag (mode == "all" && not (elem node.id active))
          (on_node warning Code.unused_node node.id) in
      let all : no_errors (unused ++ missing) ≡ true = ground arith in
      let one =
        no_errors-flat_map (port_issues registry mode active validation_ids connected node) p
          definition.inputs m (no_errors-right unused missing all) in
      let flagged =
        no_errors-flag (p.required && nat_beq (get_or 0 (node.id, p.id) connected) 0)
          (on_node error Code.missing_input node.id) refl one in
      ground arith

  -- If `validate_workflow` finds the workflow valid, each node in scope is of a known type, in the
  -- version of that type, which is available; and if the node is enabled, each of its required
  -- inputs has an edge from a known port.
  pub valid_nodes :
      (mode : String) (chosen : List String) (include_unrelated : Bool) (result : ValidationResult)
      → validate_workflow python services registry workflow mode chosen include_unrelated
        ≡ some result
      → result.valid ≡ true
      → Scoped python services registry workflow mode chosen include_unrelated λ validation_ids.
        (node : WorkflowNode)
        → Member node workflow.nodes
        → elem node.id validation_ids ≡ true
        → (definition : NodeDefinition) × (registry node.schema_id ≡ some definition)
          × IsReady validation_ids node definition
  unfolding edge_state
  valid_nodes mode chosen include_unrelated result h v =
      let (
        active,
        batch_nodes,
        ordering,
        scoped,
        batch,
        ordered,
        (unique, nodes, edges, inputs, fine),
      ) =
        valid-Run python services registry workflow mode chosen include_unrelated result h v in
      let scope = scope_of registry workflow include_unrelated active in
      let connected = (edge_state registry workflow scope batch_nodes).connected_inputs in
      (
        active,
        scoped,
        λ node m inside.
            let (definition, g, version, available) =
              check_node_lem scope node inside (no_errors-flat_map _ node workflow.nodes m nodes) in
            (
              definition,
              g,
              (
                version,
                available,
                λ p enabled n required.
                    connects_of_connections registry (node_table [] workflow.nodes) scope
                      batch_nodes (node.id, p.id) workflow.edges
                      (subst (λ k. 1 ≤ k)
                        (connected_lem registry (node_table [] workflow.nodes) scope batch_nodes
                          (node.id, p.id) workflow.edges)
                        (check_inputs_lem mode active scope connected node definition p g inside
                          (no_errors-flat_map _ node workflow.nodes m inputs) enabled n required)),
              ),
            ),
      )
