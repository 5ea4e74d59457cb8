-- ===== src/Graph/Validation/Passing.antt =====
-- The parts of a validation that finds the workflow valid.
use mathlib.Core.Option
use lluna.Prelude.{
  String, Bool, true, false, some, List, ◌≡◌, inl, inr, refl, ap, ◌∙◌, arith, Option-cases,
}
use lluna.Prelude.Key.{string_key}
use lluna.Json.{Conversions}
use lluna.Graph.Schema.{WorkflowDocument, Registry, ids}
use lluna.Graph.Issues.{
  ValidationIssue, no_errors, no_errors-flag, no_errors-append_seven, flat_map, global, Code, error,
  is_warning,
}
use lluna.Graph.Scope.{scoped_node_ids}
use lluna.Graph.Parameters.{Services, check_node}
use lluna.Graph.Batches.{batch_node_ids}
use lluna.Graph.Connections.{input_key}
use lluna.Graph.Validation.{
  ValidationResult, validate_workflow, all_issues, verdict, scope_of, edge_state, any_duplicate,
  check_inputs, order_issues,
}

module _ (python : Conversions) (services : Services) (registry : Registry)
    (workflow : WorkflowDocument) where
  duplicate_is_error : is_warning (global error Code.duplicate_node_id) ≡ false
  unfolding is_warning
  duplicate_is_error = refl

  -- The parts of a validation that reports no error.
  abbrev Parts : String → List String → List String → List String → List ValidationIssue → Type 0
  Parts mode active validation_ids batch_nodes ordering =
      (any_duplicate (ids workflow) validation_ids ≡ false)
      × (no_errors (flat_map (check_node python services registry validation_ids) workflow.nodes)
          ≡ true)
      × (no_errors (edge_state registry workflow validation_ids batch_nodes).issues ≡ true)
      × (no_errors (
            flat_map
              (check_inputs registry mode active validation_ids
                (edge_state registry workflow validation_ids batch_nodes).connected_inputs)
              workflow.nodes)
          ≡ true)
      × (no_errors ordering ≡ true)

  parts :
      (mode : String) (active validation_ids batch_nodes : List String)
      (ordering : List ValidationIssue)
      → no_errors (
          all_issues python services registry workflow mode active validation_ids batch_nodes
            ordering)
        ≡ true
      → Parts mode active validation_ids batch_nodes ordering
  unfolding all_issues
  parts mode active validation_ids batch_nodes ordering h =
      let split = no_errors-append_seven _ _ _ _ _ _ _ h in
      (
        no_errors-flag (any_duplicate (ids workflow) validation_ids)
            (global error Code.duplicate_node_id) duplicate_is_error split.0,
        split.1,
        split.2,
        split.3,
        split.4,
      )

  -- A run of `validate_workflow` that finds the workflow valid.
  abbrev Run : String → List String → Bool → Type 0
  Run mode chosen include_unrelated =
      (active : List String) × (batch_nodes : List String) × (ordering : List ValidationIssue)
      × (scoped_node_ids registry workflow mode chosen ≡ some active)
      × (batch_node_ids registry workflow (scope_of registry workflow include_unrelated active)
          ≡ some batch_nodes)
      × (order_issues registry workflow (scope_of registry workflow include_unrelated active)
          ≡ some ordering)
      × Parts mode active (scope_of registry workflow include_unrelated active) batch_nodes ordering

  pub valid-Run :
      (mode : String) (chosen : List String) (include_unrelated : Bool) (result : ValidationResult)
      → validate_workflow python services registry workflow mode chosen include_unrelated
        ≡ some result
      → result.valid ≡ true
      → Run mode chosen include_unrelated
  unfolding validate_workflow Option.bind
  valid-Run mode chosen include_unrelated result h v =
      elim (Option-cases (scoped_node_ids registry workflow mode chosen)) [
        | inl e ↦ ground arith
        | inr (active, e) ↦
            let scope = scope_of registry workflow include_unrelated active in
            elim (Option-cases (batch_node_ids registry workflow scope)) [
              | inl f ↦ ground arith
              | inr (batch_nodes, f) ↦ elim (Option-cases (order_issues registry workflow scope)) [
                | inl g ↦ ground arith
                | inr (ordering, g) ↦
                    let made : verdict (
                          all_issues python services registry workflow mode active scope batch_nodes
                            ordering)
                        ≡ result =
                      ground arith in
                    (
                      active,
                      batch_nodes,
                      ordering,
                      e,
                      f,
                      g,
                      parts mode active scope batch_nodes ordering (ap (λ r. r.valid) made ∙ v),
                    )
              ]
            ]
      ]

  -- Scope, and what holds of it.
  abbrev pub Scoped : String → List String → Bool → (List String → Type 0) → Type 0
  Scoped mode chosen include_unrelated P =
      (active : List String) × (scoped_node_ids registry workflow mode chosen ≡ some active)
      × P (scope_of registry workflow include_unrelated active)
