-- ===== src/Runs/Execution/Reads/Planned.antt =====
-- A run of the plan that `compile_workflow` (backend/graph/compiler.py) makes of a valid workflow.
use lluna.Prelude.{ℕ, String, true, some, List, [], ◌≡◌, subst}
use lluna.Prelude.Key.{string_key}
use lluna.Prelude.Sets.{elem}
use lluna.Prelude.Dict.{Dict, get?, get_or}
use lluna.Json.{Conversions}
use lluna.Graph.Schema.{WorkflowDocument, Registry, HasEdge}
use lluna.Graph.Parameters.{Services}
use lluna.Graph.Compiler.Plans.{IsMode}
use lluna.Graph.Planning.{ExecutionPlan, compile_workflow}
use lluna.Graph.Planning.Ids.{step_ids}
use lluna.Graph.Planning.Levels.{no_self_edge}
use lluna.Graph.Scheduler.{execution_waves, ok}
use lluna.Runs.Values.{Value, Store, incoming_of, input_values}
use lluna.Runs.Execution.{Execution}
use lluna.Runs.Execution.Steps.{Reach}
use lluna.Runs.Execution.Reads.Stable.{reads_stable, reads_after_sources}

-- The run of a plan that is compiled from a workflow found valid, in the modes "all", "selected" and
-- "from", whatever the order of its steps and the values that enter from outside. A node of the plan
-- begins after the results are stored of all the nodes of the plan from which an edge leads to it,
-- and the inputs that it has read are those that the values hold at any later time.
pub planned_reads :
    (python : Conversions) (services : Services) (registry : Registry) (workflow : WorkflowDocument)
    (mode : String) (chosen : List String) (known : IsMode registry workflow mode)
    (plan : ExecutionPlan)
    (compiled : compile_workflow python services registry workflow mode chosen ≡ some plan)
    (valid : plan.validation.valid ≡ true) (waves : List (List String))
    (levels : execution_waves (step_ids plan.steps) workflow.edges ≡ ok waves) (values : Store)
    (total : ℕ) (s : Execution) (reached : Reach values (incoming_of workflow.edges) waves total s)
    (n : String) (inputs : Dict String Value)
    → elem n (step_ids plan.steps) ≡ true
    → get? n s.read ≡ some inputs
    → (inputs ≡ input_values s.values (get_or [] n (incoming_of workflow.edges)))
      × ((m : String)
          → elem m (step_ids plan.steps) ≡ true
          → HasEdge workflow.edges m n
          → elem m s.stored ≡ true)
planned_reads python services registry workflow mode chosen known plan compiled valid waves levels
      values total s reached n inputs here read =
    let no_loop =
      no_self_edge python services registry workflow mode chosen known plan compiled valid in
    (
      reads_stable (step_ids plan.steps) workflow.edges waves levels no_loop values total s reached
          n inputs read,
      λ m there edge.
          reads_after_sources (step_ids plan.steps) workflow.edges waves levels no_loop values total
            s reached n m inputs read
            (
              here,
              there,
              λ p. no_loop n here (subst (λ k. HasEdge workflow.edges k n) p edge),
              edge,
            ),
    )
