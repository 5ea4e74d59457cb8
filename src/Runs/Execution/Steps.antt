-- ===== src/Runs/Execution/Steps.antt =====
-- The runs of a plan: the steps in any order that the code allows.
use lluna.Prelude.{ℕ, String, Option, List}
use lluna.Graph.Schema.{PortDefinition}
use lluna.Runs.Values.{Value, Store, Incoming}
use lluna.Runs.Execution.{
  Execution, begin_steps, enter, read_inputs, store_step, advance, fail, stop, next_wave,
}

module _ (values : Store) (incoming : Incoming) (waves : List (List String)) (total : ℕ) where
  pub data Reach : Execution → Type 0 where
    begun : Reach (begin_steps values waves total)
    enters : (node_id : String) (s : Execution) → Reach s → Reach (enter node_id s)
    reads : (node_id : String) (s : Execution) → Reach s → Reach (read_inputs incoming node_id s)
    stores :
        (outputs : List PortDefinition) (node_id : String) (result : Option Value) (s : Execution)
        → Reach s
        → Reach (store_step outputs node_id result s)
    advances : (node_id : String) (s : Execution) → Reach s → Reach (advance node_id s)
    fails : (node_id code : String) (s : Execution) → Reach s → Reach (fail node_id code s)
    stops : (s : Execution) → Reach s → Reach (stop s)
    proceeds : (s : Execution) → Reach s → Reach (next_wave s)
