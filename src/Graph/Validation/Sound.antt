-- ===== src/Graph/Validation/Sound.antt =====
-- What a workflow that `validate_workflow` finds valid is like: its order and its edges.
use mathlib.Core.Option
use lluna.Prelude.{
  ◌≤◌, String, Bool, true, false, some, List, [], ◌∷◌, ◌++◌, ◌≡◌, inl, inr, subst, arith, length,
  nat_beq, Bool-cases,
}
use lluna.Prelude.Key.{string_key}
use lluna.Prelude.Sets.{elem}
use lluna.Prelude.Distinct.{IsDistinct, length-le}
use lluna.Json.{Conversions}
use lluna.Graph.Schema.{WorkflowEdge, WorkflowDocument, Registry, ids}
use lluna.Graph.Issues.{ValidationIssue, no_errors, is_warning}
use lluna.Graph.Order.{topological_order}
use lluna.Graph.Order.Sequence.{topological_order_lem}
use lluna.Graph.Compiler.{node_table}
use lluna.Graph.Parameters.{Services}
use lluna.Graph.Batches.{batch_node_ids}
use lluna.Graph.Connections.{resolve, check_edges, input_key}
use lluna.Graph.Connections.Sound.{start, IsConnection, check_edges-IsConnection}
use lluna.Graph.Validation.{
  ValidationResult, validate_workflow, scope_of, edge_state, any_duplicate, count_id, order_issues,
  issues_of_order,
}
use lluna.Graph.Validation.Passing.{valid-Run, Scoped}

module _ (python : Conversions) (services : Services) (registry : Registry)
    (workflow : WorkflowDocument) where
  any_duplicate_lem :
      (all validation_ids : List String) (id : String)
      → any_duplicate all validation_ids ≡ false
      → elem id validation_ids ≡ true
      → count_id id all ≤ 1
  unfolding any_duplicate elem
  any_duplicate_lem all [] id h m = ground arith
  any_duplicate_lem all (x ∷ xs) id h m =
      ground (arith, any_duplicate_lem all xs id, string_key.test_iff id x)

  all_ordered :
      (order validation_ids : List String)
      → IsDistinct order
      → ((id : String) → elem id order ≡ true → elem id validation_ids ≡ true)
      → length order ≡ length validation_ids
      → (id : String) → elem id order ≡ elem id validation_ids
  unfolding elem
  all_ordered order validation_ids distinct inside same id = elim (Bool-cases (elem id order)) [
    | inl e ↦ ground (arith, inside id e)
    | inr e ↦ elim (Bool-cases (elem id validation_ids)) [
      | inr f ↦ ground arith
      | inl f ↦
          let more : length (id ∷ order) ≤ length validation_ids =
            length-le (id ∷ order) validation_ids (e, distinct)
              λ a m. ground (arith, inside a, string_key.test_iff a id) in
          ground (arith, more, same)
    ]
  ]

  order_issues_lem :
      (validation_ids : List String) (ordering : List ValidationIssue)
      → order_issues registry workflow validation_ids ≡ some ordering
      → no_errors ordering ≡ true
      → (order : List String) × (topological_order workflow.edges validation_ids ≡ some order)
        × ((id : String) → elem id order ≡ elem id validation_ids)
  unfolding order_issues issues_of_order Option.bind no_errors is_warning
  order_issues_lem validation_ids ordering h v =
      let (order, e, distinct, inside, sorted, left) =
        topological_order_lem workflow.edges validation_ids in
      elim (Bool-cases (nat_beq (length order) (length validation_ids))) [
        | inl f ↦ (order, e, all_ordered order validation_ids distinct inside (ground arith))
        | inr f ↦ ground arith
      ]

  -- If `validate_workflow` finds the workflow valid, the nodes in scope are exactly the nodes of
  -- their topological order, so they have no cycle, and each of their ids is given to one node.
  pub valid_order :
      (mode : String) (chosen : List String) (include_unrelated : Bool) (result : ValidationResult)
      → validate_workflow python services registry workflow mode chosen include_unrelated
        ≡ some result
      → result.valid ≡ true
      → Scoped python services registry workflow mode chosen include_unrelated λ validation_ids.
        (order : List String) × (topological_order workflow.edges validation_ids ≡ some order)
        × ((id : String) → elem id order ≡ elem id validation_ids)
        × ((id : String) → elem id validation_ids ≡ true → count_id id (ids workflow) ≤ 1)
  valid_order mode chosen include_unrelated result h v =
      let (
        active,
        batch_nodes,
        ordering,
        scoped,
        batch,
        ordered,
        (unique, nodes, edges, inputs, fine),
      ) =
        valid-Run python services registry workflow mode chosen include_unrelated result h v in
      let scope = scope_of registry workflow include_unrelated active in
      let (order, e, same) = order_issues_lem scope ordering ordered fine in
      (active, scoped, (order, e, same, λ id. any_duplicate_lem (ids workflow) scope id unique))

  -- If `validate_workflow` finds the workflow valid, then every edge into the scope is between nodes
  -- of the workflow. If the types of both are known, it connects compatible ports; the input takes
  -- several items, or no queue and no earlier edge feeds it; and a source out of scope has a
  -- completed output, or the input is not required.
  pub valid_connections :
      (mode : String) (chosen : List String) (include_unrelated : Bool) (result : ValidationResult)
      → validate_workflow python services registry workflow mode chosen include_unrelated
        ≡ some result
      → result.valid ≡ true
      → Scoped python services registry workflow mode chosen include_unrelated λ validation_ids.
        (batch_nodes : List String) × (batch_node_ids registry workflow validation_ids
          ≡ some batch_nodes)
        × ((before rest : List WorkflowEdge) (edge : WorkflowEdge)
            → workflow.edges ≡ before ++ edge ∷ rest
            → elem edge.target_node_id validation_ids ≡ true
            → IsConnection registry
                (node_table [] workflow.nodes)
                validation_ids
                batch_nodes
                before
                edge
                (resolve registry (node_table [] workflow.nodes) edge))
  unfolding edge_state
  valid_connections mode chosen include_unrelated result h v =
      let (
        active,
        batch_nodes,
        ordering,
        scoped,
        batch,
        ordered,
        (unique, nodes, edges, inputs, fine),
      ) =
        valid-Run python services registry workflow mode chosen include_unrelated result h v in
      let scope = scope_of registry workflow include_unrelated active in
      (
        active,
        scoped,
        (
          batch_nodes,
          batch,
          λ before rest edge split inside.
              check_edges-IsConnection registry (node_table [] workflow.nodes) scope batch_nodes
                before edge rest inside
                (subst
                  (λ es.
                    no_errors
                      (check_edges registry (node_table [] workflow.nodes) scope batch_nodes start
                        es).issues
                    ≡ true)
                  split edges),
        ),
      )
