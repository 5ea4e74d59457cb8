-- ===== src/Graph/Planning/Ids.antt =====
-- The nodes of a plan (backend/graph/compiler.py) have one step each.
use mathlib.Core.Option
use lluna.Prelude.{
  ℕ, ◌+◌, String, true, some, List, [], ◌∷◌, ◌≡◌, subst, refl, inl, inr, arith, Bool-cases,
  Option-cases, map, ap, length, suc,
}
use lluna.Prelude.Key.{string_key}
use lluna.Prelude.Sets.{elem}
use lluna.Prelude.Dict.{Dict, get?}
use lluna.Prelude.Distinct.{IsDistinct}
use lluna.Graph.Schema.{WorkflowNode, WorkflowDocument, Registry}
use lluna.Graph.Scope.{scoped_node_ids}
use lluna.Graph.Order.Sequence.{topological_order_lem}
use lluna.Graph.Compiler.{
  ExecutionStep, step_of, steps_from, plan_steps, plan_workflow, node_table, collect,
}

-- `[step.node_id for step in plan.steps]`
abbrev pub step_ids : List ExecutionStep → List String
step_ids steps = map (λ step. step.node_id) steps

pub length-step_ids : (steps : List ExecutionStep) → length (step_ids steps) ≡ length steps
length-step_ids [] = refl
length-step_ids (step ∷ steps) = ap suc (length-step_ids steps)

-- The steps are those of some nodes of the order, none twice.
abbrev Within : List String → List ExecutionStep → Type 0
Within order steps =
    IsDistinct (step_ids steps)
    × ((n : String) → elem n (step_ids steps) ≡ true → elem n order ≡ true)

module _ (nodes : Dict String WorkflowNode) (dependencies : Dict String (List String)) where
  steps_from-Within :
      (index : ℕ) (order : List String) (steps : List ExecutionStep)
      → steps_from nodes dependencies index order ≡ some steps
      → IsDistinct order
      → Within order steps
  unfolding steps_from elem
  steps_from-Within index [] steps h d =
      let at : [] ≡ steps = ground arith in subst (Within []) at (tt, λ n m. m)
  steps_from-Within index (n ∷ order) steps h d = elim (Option-cases (get? n nodes)) [
    | inl gone ↦ ground arith
    | inr (node, there) ↦ elim (Bool-cases node.disabled) [
      | inl off ↦
          let rest = steps_from-Within (index + 1) order steps (ground arith) d.1 in
          (rest.0, λ m h. ground (arith, rest.1 m h))
      | inr on ↦ elim (Option-cases (steps_from nodes dependencies (index + 1) order)) [
        | inl fails ↦ ground arith
        | inr (later, e) ↦
            let rest = steps_from-Within (index + 1) order later e d.1 in
            let at : step_of nodes dependencies index node n ∷ later ≡ steps = ground arith in
            subst (Within (n ∷ order)) at
              ((ground (arith, rest.1 n), rest.0), λ m h. ground (arith, rest.1 m))
      ]
    ]
  ]

-- Each node has one step.
pub plan_workflow-IsDistinct :
    (registry : Registry) (workflow : WorkflowDocument) (mode : String) (chosen : List String)
    (steps : List ExecutionStep)
    → plan_workflow registry workflow mode chosen ≡ some steps
    → IsDistinct (step_ids steps)
unfolding plan_workflow plan_steps Option.bind
plan_workflow-IsDistinct registry workflow mode chosen steps h =
    elim (Option-cases (scoped_node_ids registry workflow mode chosen)) [
      | inl gone ↦ ground arith
      | inr (active, e) ↦
          let (order, made, once, _, _, _) = topological_order_lem workflow.edges active in
          let planned : steps_from (node_table [] workflow.nodes) (collect active [] workflow.edges)
                0 order
              ≡ some steps =
            ground arith in
          (steps_from-Within (node_table [] workflow.nodes) (collect active [] workflow.edges) 0
            order steps planned once).0
    ]
