-- ===== src/Runs/Execution/Sequence.antt =====
-- The loop of `_run_steps` (backend/graph/executor.py) with one worker: the steps of each wave one
-- after the other, when none of them raises. What a node has for outputs, and what its work returns,
-- are arguments.
use lluna.Prelude.{String, Option, List, [], ◌∷◌}
use lluna.Graph.Schema.{PortDefinition}
use lluna.Runs.Values.{Value, Incoming}
use lluna.Runs.Execution.{Execution, enter, read_inputs, store_step, advance, next_wave}

module _ (incoming : Incoming) (outputs : String → List PortDefinition)
    (work : String → Option Value) where
  -- `self._run_step(...)` and `progress.advance(control)`
  unfoldable pub run_step : String → Execution → Execution
  run_step node_id s = advance node_id (
      store_step (outputs node_id) node_id (work node_id)
        (read_inputs incoming node_id (enter node_id s)))

  unfoldable pub run_wave : List String → Execution → Execution
  unfolding run_step
  run_wave [] s = s
  run_wave (node_id ∷ wave) s = run_wave wave (run_step node_id s)

  unfoldable pub run_waves : List (List String) → Execution → Execution
  unfolding run_wave
  run_waves [] s = s
  run_waves (wave ∷ waves) s = run_waves waves (next_wave (run_wave wave s))
