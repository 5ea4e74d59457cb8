-- ===== src/Graph/Validation/Total.antt =====
-- `validate_workflow` always returns.
use mathlib.Core.Option
use lluna.Prelude.{
  String, ◌≡◌, refl, Bool, true, false, inl, inr, Option, some, List, [], ◌∷◌, arith, nat_beq,
  length, Option-cases, Bool-cases,
}
use lluna.Prelude.Key.{string_key}
use lluna.Prelude.Dict.{Dict, get?}
use lluna.Prelude.Sets.{elem, elem-update}
use lluna.Json.{Conversions}
use lluna.Graph.Schema.{WorkflowDocument, Registry, ids}
use lluna.Graph.Parameters.{Services}
use lluna.Graph.Order.Sequence.{topological_order_lem}
use lluna.Graph.Compiler.{node_table}
use lluna.Graph.Compiler.Steps.{is_some-node_table}
use lluna.Graph.Compiler.Plans.{IsMode, scoped_node_ids-inside}
use lluna.Graph.Batches.{batch_node_ids, collect_batch, repeated_processor_nodes, collect_repeated}
use lluna.Graph.Validation.{
  ValidationResult, validate_workflow, scope_of, order_issues, issues_of_order,
}

abbrev Gives {ℓ} : {A : Type ℓ} → Option A → Type ℓ
Gives {A = A} o = (a : A) × (o ≡ some a)

module _ (registry : Registry) (workflow : WorkflowDocument) where
  abbrev Inside : List String → Type 0
  Inside order = (id : String) → elem id order ≡ true → elem id (ids workflow) ≡ true

  found :
      (id : String) → elem id (ids workflow) ≡ true → Gives (get? id (node_table [] workflow.nodes))
  found id m = elim (Option-cases (get? id (node_table [] workflow.nodes))) [
    | inl e ↦ ground (arith, is_some-node_table id [] workflow.nodes)
    | inr (node, e) ↦ (node, e)
  ]

  collect_batch_returns :
      (order batch : List String)
      → Inside order
      → Gives (collect_batch registry workflow batch order)
  unfolding collect_batch elem
  collect_batch_returns [] batch inside = (batch, refl)
  collect_batch_returns (id ∷ order) batch inside =
      let (node, e) = found id (inside id (ground (arith, string_key.test_iff id id))) in
      rw (collect_batch, e) (collect_batch_returns order _ λ x m. inside x (ground arith))

  collect_repeated_returns :
      (order node_ids : List String) (paths : Dict String (List String)) (repeated : List String)
      → Inside order
      → Gives (collect_repeated registry workflow node_ids paths repeated order)
  unfolding collect_repeated elem
  collect_repeated_returns [] node_ids paths repeated inside = (repeated, refl)
  collect_repeated_returns (id ∷ order) node_ids paths repeated inside =
      let (node, e) = found id (inside id (ground (arith, string_key.test_iff id id))) in
      rw (collect_repeated, e)
        (collect_repeated_returns order node_ids _ _ λ x m. inside x (ground arith))

  abbrev scope : List String → Bool → List String
  scope active include_unrelated = scope_of registry workflow include_unrelated active

  scope-Inside :
      (active : List String) (include_unrelated : Bool)
      → Inside active
      → Inside (scope active include_unrelated)
  unfolding elem
  scope-Inside active true inside x m = ground (arith, elem-update x [] (ids workflow))
  scope-Inside active false inside x m = inside x m

  batch_node_ids_returns :
      (node_ids : List String) → Inside node_ids → Gives (batch_node_ids registry workflow node_ids)
  unfolding batch_node_ids Option.bind
  batch_node_ids_returns node_ids inside =
      let (order, e, distinct, within, sorted, left) =
        topological_order_lem workflow.edges node_ids in
      rw e (collect_batch_returns order [] λ x m. inside x (within x m))

  issues_of_order_returns :
      (node_ids order : List String)
      → Inside order
      → Gives (issues_of_order registry workflow node_ids order)
  unfolding issues_of_order repeated_processor_nodes
  issues_of_order_returns node_ids order inside =
      elim (Bool-cases (nat_beq (length order) (length node_ids))) [
        | inr f ↦ rw (issues_of_order, f) (_, refl)
        | inl f ↦
            let (repeated, g) = collect_repeated_returns order node_ids [] [] inside in
            rw (issues_of_order, f, g) (_, refl)
      ]

  order_issues_returns :
      (node_ids : List String) → Inside node_ids → Gives (order_issues registry workflow node_ids)
  unfolding order_issues Option.bind
  order_issues_returns node_ids inside =
      let (order, e, distinct, within, sorted, left) =
        topological_order_lem workflow.edges node_ids in
      rw e (issues_of_order_returns node_ids order λ x m. inside x (within x m))

  -- In the modes "all", "selected" and "from", `validate_workflow` ends and raises no KeyError,
  -- whatever the workflow.
  pub validate_workflow_returns :
      (python : Conversions) (services : Services) (chosen : List String) (mode : String)
      (include_unrelated : Bool)
      → IsMode registry workflow mode
      → (result : ValidationResult) × (validate_workflow python services registry workflow mode
            chosen include_unrelated
          ≡ some result)
  unfolding validate_workflow Option.bind
  validate_workflow_returns python services chosen mode include_unrelated m =
      let (active, e, inside) = scoped_node_ids-inside registry workflow chosen mode m in
      let within = scope-Inside active include_unrelated inside in
      let (batch, f) = batch_node_ids_returns (scope active include_unrelated) within in
      let (ordering, g) = order_issues_returns (scope active include_unrelated) within in
      rw (validate_workflow, e, f, g) (_, refl)
