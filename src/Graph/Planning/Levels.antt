-- ===== src/Graph/Planning/Levels.antt =====
-- The dependency levels of the plan that `compile_workflow` makes (backend/graph/compiler.py), which
-- `RunManager._run_steps` (backend/graph/executor.py) runs one after the other.
use lluna.Prelude.{
  ℕ, ◌+◌, ◌<◌, String, ◌≡◌, sym, subst, ◌∙◌, true, false, not, ◌&&◌, refl, some, List, [], ◌∷◌,
  ◌++◌, ◌⊎◌, inl, inr, arith, if◌then◌else◌, Bool-cases, Option-cases,
}
use lluna.Prelude.Key.{string_key}
use lluna.Prelude.Sets.{elem, elem-append}
use mathlib.Core.Option
use lluna.Prelude.Distinct.{IsDistinct}
use lluna.Json.{Conversions}
use lluna.Graph.Schema.{WorkflowDocument, Registry, HasEdge}
use lluna.Graph.Parameters.{Services}
use lluna.Graph.Validation.{validate_workflow}
use lluna.Graph.Compiler.{ExecutionStep, plan_workflow}
use lluna.Graph.Compiler.Steps.{IsPlan, is_off, DependsOn}
use lluna.Graph.Compiler.Plans.{IsMode}
use lluna.Graph.Planning.{ExecutionPlan, plan_validated, compile_workflow}
use lluna.Graph.Planning.Ids.{step_ids, plan_workflow-IsDistinct}
use lluna.Graph.Planning.Valid.{compile_workflow_lem}
use lluna.Graph.Scheduler.{execution_waves, ok}
use lluna.Graph.Scheduler.Acyclic.{execution_waves-returns}

-- Where a node first occurs.
unfoldable place : List String → String → ℕ
place [] n = 0
place (m ∷ order) n = let rest = place order n in if string_key.test n m then 0 else 1 + rest

module _ (workflow : WorkflowDocument) (active : List String) where
  -- A step of a plan comes after the steps of the enabled nodes that its node depends on.
  place_less :
      (steps : List ExecutionStep) (done : List String) (d n : String)
      → IsPlan workflow active done steps
      → elem n done ≡ false
      → elem n (step_ids steps) ≡ true
      → is_off workflow active d ≡ false
      → DependsOn active workflow.edges n d
      → (elem d done ≡ true) ⊎ (place (step_ids steps) d < place (step_ids steps) n)
  unfolding elem place
  place_less [] done d n plan new here on dep = ground arith
  place_less (step ∷ steps) done d n plan new here on dep =
      elim (Bool-cases (string_key.test n step.node_id)) [
        | inl same ↦
            let at : n ≡ step.node_id = (string_key.test_iff n step.node_id).0 same in
            let needed = (plan.0 d).1 (subst (λ k. DependsOn active workflow.edges k d) at dep) in
            elim (plan.1 d needed) [ inl h ↦ inl h | inr off ↦ ground arith ]
        | inr other ↦
            let later =
              place_less steps (done ++ step.node_id ∷ []) d n plan.2
                (ground (arith, elem-append n done (step.node_id ∷ []))) (ground arith) on dep in
            elim later [
              | inl h ↦ elim (Bool-cases (string_key.test d step.node_id)) [
                | inl first ↦ inr (ground arith)
                | inr differs ↦ inl (ground (arith, elem-append d done (step.node_id ∷ [])))
              ]
              | inr less ↦ inr (ground arith)
            ]
      ]

module _ (python : Conversions) (services : Services) (registry : Registry)
    (workflow : WorkflowDocument) (mode : String) (chosen : List String)
    (known : IsMode registry workflow mode) (plan : ExecutionPlan)
    (compiled : compile_workflow python services registry workflow mode chosen ≡ some plan) where
  validated :
      validate_workflow python services registry workflow mode chosen false ≡ some plan.validation
  unfolding compile_workflow plan_validated Option.bind
  validated =
      elim (Option-cases (validate_workflow python services registry workflow mode chosen false)) [
        | inl e ↦ ground arith
        | inr (result, e) ↦
            let made : plan_validated python services registry workflow mode chosen result
                ≡ some plan =
              ground arith in
            elim (Bool-cases result.valid) [
              | inr off ↦ ground arith
              | inl on ↦ elim (Option-cases (plan_workflow registry workflow mode chosen)) [
                | inl gone ↦ ground arith
                | inr (steps, f) ↦ ground arith
              ]
            ]
      ]

  -- Each node has one step in the plan.
  pub step_ids-IsDistinct : IsDistinct (step_ids plan.steps)
  unfolding compile_workflow plan_validated Option.bind
  step_ids-IsDistinct = elim (Bool-cases plan.validation.valid) [
    | inr off ↦
        let at : [] ≡ plan.steps = ground (arith, validated) in
        subst (λ steps. IsDistinct (step_ids steps)) at tt
    | inl on ↦ elim (Option-cases (plan_workflow registry workflow mode chosen)) [
      | inl gone ↦ ground (arith, validated)
      | inr (steps, e) ↦
          let at : steps ≡ plan.steps = ground (arith, validated) in
          subst (λ steps. IsDistinct (step_ids steps)) at
            (plan_workflow-IsDistinct registry workflow mode chosen steps e)
    ]
  ]

  module _ (valid : plan.validation.valid ≡ true) where
    -- A node of the plan has a lower place than the nodes of the plan that depend on it.
    place_depends :
        (d n : String)
        → elem d (step_ids plan.steps) ≡ true
        → elem n (step_ids plan.steps) ≡ true
        → HasEdge workflow.edges d n
        → place (step_ids plan.steps) d < place (step_ids plan.steps) n
    unfolding elem
    place_depends d n from to edge =
        let (active, steps, scoped, made, is_plan, members) =
          compile_workflow_lem python services registry workflow chosen mode plan.validation known
            validated valid in
        let at : steps ≡ plan.steps = ground arith in
        let d_on : (elem d active && not (is_off workflow active d)) ≡ true =
          sym (members d) ∙ subst (λ ss. elem d (step_ids ss) ≡ true) (sym at) from in
        let n_on : (elem n active && not (is_off workflow active n)) ≡ true =
          sym (members n) ∙ subst (λ ss. elem n (step_ids ss) ≡ true) (sym at) to in
        let found =
          place_less workflow active steps [] d n is_plan refl
            (subst (λ ss. elem n (step_ids ss) ≡ true) (sym at) to) (ground arith)
            (ground arith, ground arith, edge) in
        elim found [
          | inl h ↦ ground arith
          | inr less ↦ subst (λ ss. place (step_ids ss) d < place (step_ids ss) n) at less
        ]

    -- No edge leads from a node of the plan to itself.
    pub no_self_edge :
        (n : String) → elem n (step_ids plan.steps) ≡ true → HasEdge workflow.edges n n → ⊥
    no_self_edge n h e = omega (arith, place_depends n n h h e)

    -- For the plan that `compile_workflow` makes of a workflow that is found valid, in the modes
    -- "all", "selected" and "from", `execution_waves` returns levels: a run of it never raises
    -- DependencyCycle.
    pub compiled_waves :
        (waves : List (List String)) × (execution_waves (step_ids plan.steps) workflow.edges
          ≡ ok waves)
    compiled_waves =
        execution_waves-returns (step_ids plan.steps) workflow.edges (place (step_ids plan.steps))
          λ d n dep. place_depends d n dep.1 dep.0 dep.3
