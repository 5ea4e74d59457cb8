-- ===== src/Runs/Execution/Progress/Planned.antt =====
-- The end of a run of the plan that `compile_workflow` (backend/graph/compiler.py) makes of a valid
-- workflow.
use lluna.Prelude.{◌≤◌, String, true, none, some, List, [], ◌≡◌, sym, subst, length}
use lluna.Prelude.Key.{string_key}
use lluna.Prelude.Sets.{elem}
use lluna.Json.{Conversions}
use lluna.Graph.Schema.{WorkflowDocument, Registry}
use lluna.Graph.Parameters.{Services}
use lluna.Graph.Compiler.Plans.{IsMode}
use lluna.Graph.Planning.{ExecutionPlan, compile_workflow}
use lluna.Graph.Planning.Ids.{step_ids, length-step_ids}
use lluna.Graph.Planning.Levels.{no_self_edge, step_ids-IsDistinct}
use lluna.Graph.Scheduler.{execution_waves, ok}
use lluna.Runs.Values.{Store, incoming_of}
use lluna.Runs.Execution.{Execution}
use lluna.Runs.Execution.Steps.{Reach}
use lluna.Runs.Execution.Reads.Stable.{all_stored}
use lluna.Runs.Execution.Progress.Complete.{progress_complete}

-- The run of a plan with a step that is compiled from a workflow found valid, in the modes "all",
-- "selected" and "from", whatever the order of its steps. When the last wave is done without a
-- failure, the progress is 100 and the results of all nodes of the plan are stored.
pub planned_ends :
    (python : Conversions) (services : Services) (registry : Registry) (workflow : WorkflowDocument)
    (mode : String) (chosen : List String) (known : IsMode registry workflow mode)
    (plan : ExecutionPlan)
    (compiled : compile_workflow python services registry workflow mode chosen ≡ some plan)
    (valid : plan.validation.valid ≡ true) (waves : List (List String))
    (levels : execution_waves (step_ids plan.steps) workflow.edges ≡ ok waves) (values : Store)
    (s : Execution)
    (reached : Reach values (incoming_of workflow.edges) waves (length plan.steps) s)
    → 1 ≤ length plan.steps
    → s.waves ≡ []
    → s.failure ≡ none
    → (s.progress ≡ 100)
      × ((n : String) → elem n (step_ids plan.steps) ≡ true → elem n s.stored ≡ true)
planned_ends python services registry workflow mode chosen known plan compiled valid waves levels
      values s reached some_step done fine =
    let no_loop =
      no_self_edge python services registry workflow mode chosen known plan compiled valid in
    let distinct =
      step_ids-IsDistinct python services registry workflow mode chosen known plan compiled in
    let count = sym (length-step_ids plan.steps) in
    (
      progress_complete (step_ids plan.steps) workflow.edges waves levels distinct values
          (incoming_of workflow.edges) s
          (subst (λ n. Reach values (incoming_of workflow.edges) waves n s) count reached)
          (subst (λ n. 1 ≤ n) count some_step) done fine,
      λ n here.
          all_stored (step_ids plan.steps) workflow.edges waves levels no_loop values
            (length plan.steps) s reached n done here,
    )
