-- ===== src/Runs/Execution/PlannedTests.antt =====
-- A run of the plan of the valid workflow of Graph/ValidationTests: the node "b" saves what "a" loads.
use mathlib.Core.Option
use lluna.Prelude.{
  Option, if◌then◌else◌, none, String, true, List, [], ◌∷◌, some, false, ◌≡◌, refl, inl, arith,
}
use lluna.Prelude.Key.{string_key, ◌==◌}
use lluna.Prelude.Sets.{elem, subset, add, update}
use lluna.Prelude.Sort.{sorted}
use lluna.Prelude.Dict.{Dict, get?, get_or, put}
use lluna.Graph.Schema.{PortDefinition, HasEdge, image}
use lluna.Graph.Scope.{scoped_node_ids, runnable_node_ids, endpoints, closure, parents, children}
use lluna.Graph.Order.{topological_order}
use lluna.Graph.Compiler.{node_table, collect, steps_from, plan_steps, plan_workflow}
use lluna.Graph.Planning.{ExecutionPlan, compile_workflow, plan_validated}
use lluna.Graph.Planning.Ids.{step_ids}
use lluna.Graph.Planning.Levels.{compiled_waves}
use lluna.Graph.Scheduler.{execution_waves, ok, dependencies}
use lluna.Graph.ValidationTests.{python, services, registry, workflow, good, validated}
use lluna.Runs.Values.{
  Value, artifact, source_key, incoming_of, input_values, add_edges, add_edge, connected, joined,
  store_result, store_outputs,
}
use lluna.Runs.Execution.{
  Execution, begin_steps, enter, read_inputs, store_step, advance, next_wave, may_begin, at_work,
}
use lluna.Runs.Execution.Steps.{Reach, begun, enters, reads, stores, advances, proceeds}
use lluna.Runs.Execution.Progress.Planned.{planned_ends}
use lluna.Runs.Execution.Sequence.{run_waves}
use lluna.Runs.Execution.Progress.Finishing.{IsFinished, planned_finishes}
use lluna.Runs.Execution.Reads.Planned.{planned_reads}

abbrev plan : ExecutionPlan
plan = record {
  steps =
      (record { index = 0; node_id = "a"; schema_id = "load"; dependencies = [] })
      ∷ (record { index = 1; node_id = "b"; schema_id = "save"; dependencies = "a" ∷ [] })
      ∷ [];
  validation = good;
}

steps_made : plan_workflow registry workflow "all" [] ≡ some plan.steps
unfolding plan_workflow plan_steps steps_from collect node_table scoped_node_ids runnable_node_ids
    endpoints closure parents children topological_order elem add update sorted get? get_or put
    Option.bind
steps_made = refl

compiled : compile_workflow python services registry workflow "all" [] ≡ some plan
unfolding compile_workflow plan_validated Option.bind
compiled = rw (compile_workflow, validated, steps_made) refl

abbrev waves : List (List String)
waves = ("a" ∷ []) ∷ ("b" ∷ []) ∷ []

levels : execution_waves ("a" ∷ "b" ∷ []) workflow.edges ≡ ok waves
unfolding execution_waves dependencies get_or get? put elem subset add update
levels = refl

abbrev output : List PortDefinition
output = record { id = "image"; type = image; required = false; multiple = false } ∷ []

abbrev loaded : Value
loaded = artifact (record { artifact_id = "p"; content_hash = "h" })

abbrev first_done : Execution
first_done = next_wave (
    advance "a" (
      store_step output "a" (some loaded)
        (read_inputs (incoming_of workflow.edges) "a" (enter "a" (begin_steps [] waves 2)))))

abbrev saving : Execution
saving = read_inputs (incoming_of workflow.edges) "b" (enter "b" first_done)

reached : Reach [] (incoming_of workflow.edges) waves 2 saving
reached = reads "b" _ (
    enters "b" _ (
      proceeds _
        (advances "a" _ (stores output "a" (some loaded) _ (reads "a" _ (enters "a" _ begun))))))

abbrev picture : Dict String Value
picture = ("image", loaded) ∷ []

has_read : get? "b" saving.read ≡ some picture
unfolding enter read_inputs store_step advance next_wave may_begin at_work elem subset get? get_or
    put input_values connected joined store_result store_outputs add_edges add_edge
has_read = refl

b_planned : elem "b" (step_ids plan.steps) ≡ true
unfolding elem
b_planned = refl

compiled_waves_example :
    (levels : List (List String)) × (execution_waves (step_ids plan.steps) workflow.edges
      ≡ ok levels)
compiled_waves_example =
    compiled_waves python services registry workflow "all" [] (inl refl) plan compiled refl

planned_reads_example :
    (picture ≡ input_values saving.values (get_or [] "b" (incoming_of workflow.edges)))
    × ((m : String)
        → elem m (step_ids plan.steps) ≡ true
        → HasEdge workflow.edges m "b"
        → elem m saving.stored ≡ true)
planned_reads_example =
    planned_reads python services registry workflow "all" [] (inl refl) plan compiled refl waves
      levels [] 2 saving reached "b" picture b_planned has_read

abbrev saved : Execution
saved = next_wave (advance "b" (store_step [] "b" none saving))

saved_reached : Reach [] (incoming_of workflow.edges) waves 2 saved
saved_reached = proceeds _ (advances "b" _ (stores [] "b" none _ reached))

saved_last : saved.waves ≡ []
unfolding enter read_inputs store_step advance next_wave may_begin at_work elem subset get? get_or
    put input_values connected joined store_result store_outputs add_edges add_edge
saved_last = refl

saved_well : saved.failure ≡ none
unfolding enter read_inputs store_step advance next_wave may_begin at_work elem subset get? get_or
    put input_values connected joined store_result store_outputs add_edges add_edge
saved_well = refl

planned_ends_example :
    (saved.progress ≡ 100)
    × ((n : String) → elem n (step_ids plan.steps) ≡ true → elem n saved.stored ≡ true)
planned_ends_example =
    planned_ends python services registry workflow "all" [] (inl refl) plan compiled refl waves
      levels [] saved saved_reached (omega arith) saved_last saved_well

-- The loads give the picture, and a save gives nothing.
abbrev work : String → Option Value
work n = if n == "a" then some loaded else none

abbrev output_ports : String → List PortDefinition
output_ports n = if n == "a" then output else []

planned_finishes_example :
    IsFinished plan
      (run_waves (incoming_of workflow.edges) output_ports work waves (begin_steps [] waves 2))
planned_finishes_example =
    planned_finishes python services registry workflow "all" [] (inl refl) plan compiled refl waves
      levels [] output_ports work (omega arith)
