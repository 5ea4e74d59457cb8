-- ===== src/Graph/Planning/Valid.antt =====
-- A plan is made exactly for a valid workflow, and leaves no enabled node out.
use mathlib.Core.Option
use lluna.Prelude.{
  String, ◌≡◌, refl, ap, subst, ◌∙◌, true, false, not, ◌&&◌, some, List, [], map, inl, inr, arith,
}
use lluna.Prelude.Key.{string_key}
use lluna.Prelude.Sets.{elem}
use lluna.Json.{Conversions}
use lluna.Graph.Schema.{WorkflowDocument, Registry}
use lluna.Graph.Parameters.{Services}
use lluna.Graph.Scope.{scoped_node_ids}
use lluna.Graph.Order.{topological_order}
use lluna.Graph.Validation.{ValidationResult, validate_workflow}
use lluna.Graph.Validation.Sound.{valid_order}
use lluna.Graph.Compiler.{ExecutionStep}
use lluna.Graph.Compiler.Steps.{IsPlan, is_off}
use lluna.Graph.Compiler.Plans.{Plans, IsMode, plan_workflow_lem}
use lluna.Graph.Planning.{plan_validated, compile_workflow}

module _ (python : Conversions) (services : Services) (registry : Registry)
    (workflow : WorkflowDocument) where
  -- The plan for the nodes that a mode covers.
  abbrev pub Compiles : String → List String → ValidationResult → Type 0
  Compiles mode chosen result =
      (active : List String) × (steps : List ExecutionStep) × (scoped_node_ids registry workflow
          mode chosen
        ≡ some active)
      × (compile_workflow python services registry workflow mode chosen
          ≡ some (record { steps = steps; validation = result }))
      × IsPlan workflow active [] steps
      × ((id : String)
          → elem id (map (λ step. step.node_id) steps)
            ≡ (elem id active && not (is_off workflow active id)))

  compiles :
      (mode : String) (chosen : List String) (result : ValidationResult)
      → Plans registry workflow mode chosen
      → validate_workflow python services registry workflow mode chosen false ≡ some result
      → result.valid ≡ true
      → Compiles mode chosen result
  unfolding compile_workflow plan_validated Option.bind
  compiles mode chosen result plan h v =
      let (active, order, steps, scoped, ordered, planned, is_plan, members) = plan in
      let (active', scoped', (order', ordered', same, unique)) =
        valid_order python services registry workflow mode chosen false result h v in
      let at : active' ≡ active = ground arith in
      let ordered2 : topological_order workflow.edges active ≡ some order' =
        subst (λ a. topological_order workflow.edges a ≡ some order') at ordered' in
      let again : order' ≡ order = ground arith in
      let whole : (id : String) → elem id order ≡ elem id active =
        λ id. subst (λ o. elem id o ≡ elem id active) again (same id ∙ ap (elem id) at) in
      (
        active,
        steps,
        scoped,
        rw (compile_workflow, h, v, planned) refl,
        is_plan,
        λ id. (members id ∙ ap (λ b. b && not (is_off workflow active id)) (whole id)),
      )

  -- In the modes "all", "selected" and "from": for a workflow that is found valid, `compile_workflow`
  -- makes a plan for the nodes that the mode covers, with no KeyError. Each step depends on exactly
  -- the covered nodes from which an edge leads to its node, and comes after the steps of those that
  -- are not disabled. The nodes with a step are exactly the covered nodes that are not disabled.
  pub compile_workflow_lem :
      (chosen : List String) (mode : String) (result : ValidationResult)
      → IsMode registry workflow mode
      → validate_workflow python services registry workflow mode chosen false ≡ some result
      → result.valid ≡ true
      → Compiles mode chosen result
  compile_workflow_lem chosen mode result m h v = compiles mode chosen result (plans_of m) h v
    where
      plans_of : IsMode registry workflow mode → Plans registry workflow mode chosen
      plans_of (inl e) = rw e (plan_workflow_lem registry workflow chosen).0
      plans_of (inr (inl e)) = rw e (plan_workflow_lem registry workflow chosen).1
      plans_of (inr (inr e)) = rw e (plan_workflow_lem registry workflow chosen).2

  -- A workflow that is not found valid gets a plan without steps.
  pub compile_workflow_invalid :
      (chosen : List String) (mode : String) (result : ValidationResult)
      → validate_workflow python services registry workflow mode chosen false ≡ some result
      → result.valid ≡ false
      → compile_workflow python services registry workflow mode chosen
        ≡ some (record { steps = []; validation = result })
  unfolding compile_workflow plan_validated Option.bind
  compile_workflow_invalid chosen mode result h v = rw (compile_workflow, h, v) refl
