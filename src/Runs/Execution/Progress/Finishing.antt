-- ===== src/Runs/Execution/Progress/Finishing.antt =====
-- A run with one worker of the plan that `compile_workflow` (backend/graph/compiler.py) makes of a
-- valid workflow.
use mathlib.Core.List.Perm
use lluna.Prelude.{◌≤◌, String, true, Option, none, some, List, [], ◌≡◌, subst, length}
use lluna.Prelude.Key.{string_key}
use lluna.Prelude.Sets.{elem}
use lluna.Prelude.Distinct.{IsDistinct-perm}
use lluna.Json.{Conversions}
use lluna.Graph.Schema.{WorkflowDocument, Registry, PortDefinition}
use lluna.Graph.Parameters.{Services}
use lluna.Graph.Compiler.Plans.{IsMode}
use lluna.Graph.Planning.{ExecutionPlan, compile_workflow}
use lluna.Graph.Planning.Ids.{step_ids}
use lluna.Graph.Planning.Levels.{step_ids-IsDistinct}
use lluna.Graph.Scheduler.{execution_waves, ok}
use lluna.Graph.Scheduler.Levels.{execution_waves-Scheduled, Scheduled}
use lluna.Runs.Values.{Value, Store, incoming_of}
use lluna.Runs.Execution.{Execution, begin_steps}
use lluna.Runs.Execution.Steps.{begun}
use lluna.Runs.Execution.Sequence.{run_waves}
use lluna.Runs.Execution.Progress.Sequence.{run_waves-Reach, run_waves-begin}
use lluna.Runs.Execution.Progress.Planned.{planned_ends}

-- At the end of a run no wave is left, no step has failed, the progress is 100 and the results of
-- all nodes of the plan are stored.
abbrev pub IsFinished : ExecutionPlan → Execution → Type 0
IsFinished plan s =
    (s.waves ≡ [])
    × (s.failure ≡ none)
    × (s.progress ≡ 100)
    × ((n : String) → elem n (step_ids plan.steps) ≡ true → elem n s.stored ≡ true)

-- With one worker, and when no step raises, the run of a plan with a step that is compiled from a
-- workflow found valid, in the modes "all", "selected" and "from", comes to its end, whatever the
-- work of its nodes returns: no wave is left, no step has failed, the progress is 100 and the
-- results of all nodes of the plan are stored.
pub planned_finishes :
    (python : Conversions) (services : Services) (registry : Registry) (workflow : WorkflowDocument)
    (mode : String) (chosen : List String) (known : IsMode registry workflow mode)
    (plan : ExecutionPlan)
    (compiled : compile_workflow python services registry workflow mode chosen ≡ some plan)
    (valid : plan.validation.valid ≡ true) (waves : List (List String))
    (levels : execution_waves (step_ids plan.steps) workflow.edges ≡ ok waves) (values : Store)
    (outputs : String → List PortDefinition) (work : String → Option Value)
    → 1 ≤ length plan.steps
    → IsFinished plan (
        run_waves
          (incoming_of workflow.edges)
          outputs
          work
          waves
          (begin_steps values waves (length plan.steps)))
planned_finishes python services registry workflow mode chosen known plan compiled valid waves
      levels values outputs work some_step =
    let incoming = incoming_of workflow.edges in
    let start = begin_steps values waves (length plan.steps) in
    let scheduled : Scheduled (step_ids plan.steps) workflow.edges (ok waves) =
      subst (Scheduled (step_ids plan.steps) workflow.edges) levels
        (execution_waves-Scheduled (step_ids plan.steps) workflow.edges) in
    let distinct =
      step_ids-IsDistinct python services registry workflow mode chosen known plan compiled in
    let (done, (fine, _)) =
      run_waves-begin incoming outputs work values waves (length plan.steps)
        (IsDistinct-perm (Perm.symm scheduled.0) distinct) in
    let ends =
      planned_ends python services registry workflow mode chosen known plan compiled valid waves
        levels values (run_waves incoming outputs work waves start)
        (run_waves-Reach incoming outputs work values waves (length plan.steps) waves start begun)
        some_step done fine in
    (done, fine, ends.0, ends.1)
