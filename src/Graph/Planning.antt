-- ===== src/Graph/Planning.antt =====
-- `compile_workflow` of backend/graph/compiler.py: the plan of a workflow that is valid.
pub mod Valid
pub mod Ids
pub mod Levels
use mathlib.Core.Option
use lluna.Prelude.{String, Bool, true, false, Option, none, some, List, []}
use lluna.Json.{Conversions}
use lluna.Graph.Schema.{WorkflowDocument, Registry}
use lluna.Graph.Parameters.{Services}
use lluna.Graph.Validation.{ValidationResult, validate_workflow}
use lluna.Graph.Compiler.{ExecutionStep, plan_workflow}

pub record ExecutionPlan : Type 0 where
  pub steps : List ExecutionStep
  pub validation : ValidationResult

module _ (python : Conversions) (services : Services) (registry : Registry) where
  -- What follows the validation.
  unfoldable pub plan_validated :
      WorkflowDocument → String → List String → ValidationResult → Option ExecutionPlan
  unfolding plan_workflow
  plan_validated workflow mode selected_node_ids validation = elim validation.valid [
    | false ↦ some (record { steps = []; validation = validation })
    | true ↦
        Option.map (λ steps. record { steps = steps; validation = validation })
          (plan_workflow registry workflow mode selected_node_ids)
  ]

  unfoldable pub compile_workflow : WorkflowDocument → String → List String → Option ExecutionPlan
  unfolding plan_validated validate_workflow
  compile_workflow workflow mode selected_node_ids =
      Option.bind (validate_workflow python services registry workflow mode selected_node_ids false)
        (plan_validated workflow mode selected_node_ids)
