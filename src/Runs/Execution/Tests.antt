-- ===== src/Runs/Execution/Tests.antt =====
-- A run of three nodes: the third reads the results of the two others, in the order of the edges.
use lluna.Prelude.{
  ◌≤◌, ◌+◌, length, String, true, false, List, [], ◌∷◌, none, some, ◌≡◌, refl, sym, ◌∙◌, inl, inr,
  arith,
}
use lluna.Prelude.Key.{string_key}
use lluna.Prelude.Sets.{elem, subset, add, update}
use lluna.Prelude.Dict.{Dict, get?, get_or, put}
use lluna.Json.{text}
use lluna.Graph.Schema.{WorkflowEdge, PortDefinition, HasEdge, PortType}
use lluna.Graph.Scheduler.{execution_waves, ok, dependencies}
use lluna.Runs.Values.{
  Value, atom, sequence, source_key, incoming_of, input_values, add_edges, add_edge, connected,
  joined, combined, listed, values_of, next, no_value, store_result, store_outputs,
}
use lluna.Runs.Execution.{
  Execution, begin_steps, enter, read_inputs, store_step, advance, next_wave, may_begin, at_work,
}
use lluna.Runs.Execution.Steps.{Reach, begun, enters, reads, stores, advances, proceeds}
use lluna.Prelude.Distinct.{IsDistinct}
use lluna.Runs.Execution.Progress.Complete.{progress_honest}

abbrev edge : String → WorkflowEdge
edge source = record {
  id = source;
  source_node_id = source;
  source_port_id = "out";
  target_node_id = "c";
  target_port_id = "in";
}

abbrev edges : List WorkflowEdge
edges = edge "b" ∷ edge "a" ∷ []

abbrev plan : List String
plan = "a" ∷ "b" ∷ "c" ∷ []

abbrev waves : List (List String)
waves = ("a" ∷ "b" ∷ []) ∷ ("c" ∷ []) ∷ []

planned : execution_waves plan edges ≡ ok waves
unfolding execution_waves dependencies get_or get? put elem subset add update
planned = refl

no_loop : (n : String) → elem n plan ≡ true → HasEdge edges n n → ⊥
no_loop n h (inl (p, q)) =
    let e : string_key.test "b" "c" ≡ true = (string_key.test_iff "b" "c").1 (sym p ∙ q) in
    ground arith
no_loop n h (inr (inl (p, q))) =
    let e : string_key.test "a" "c" ≡ true = (string_key.test_iff "a" "c").1 (sym p ∙ q) in
    ground arith
no_loop n h (inr (inr x)) = elim x [ ]

abbrev output : List PortDefinition
output = record { id = "out"; type = PortType.text; required = true; multiple = false } ∷ []

abbrev results : Execution → Execution
results s = store_step output "a" (some (atom (text "A"))) (
    store_step output "b" (some (atom (text "B"))) (
      read_inputs (incoming_of edges) "a"
        (read_inputs (incoming_of edges) "b" (enter "a" (enter "b" s)))))

abbrev first_done : Execution → Execution
first_done s = next_wave (advance "a" (advance "b" (results s)))

abbrev begins_last : Execution
begins_last = read_inputs (incoming_of edges) "c" (enter "c" (first_done (begin_steps [] waves 3)))

reached : Reach [] (incoming_of edges) waves 3 begins_last
reached = reads "c" _ (
    enters "c" _ (
      proceeds _ (
        advances "a" _ (
          advances "b" _ (
            stores output "a" (some (atom (text "A"))) _ (
              stores output "b" (some (atom (text "B"))) _
                (reads "a" _ (reads "b" _ (enters "a" _ (enters "b" _ begun))))))))))

-- The values in the order of the edges, not of the steps.
abbrev both_results : Dict String Value
both_results = ("in", sequence (next (atom (text "B")) (next (atom (text "A")) no_value))) ∷ []

has_read : get? "c" begins_last.read ≡ some both_results
unfolding enter read_inputs store_step advance next_wave may_begin at_work elem subset get? get_or
    put input_values connected joined combined listed values_of store_result store_outputs add_edges
    add_edge
has_read = refl

abbrev all_done : Execution
all_done = next_wave (advance "c" (store_step output "c" none begins_last))

done_reached : Reach [] (incoming_of edges) waves 3 all_done
done_reached = proceeds _ (advances "c" _ (stores output "c" none _ reached))

done : all_done.waves ≡ []
unfolding enter read_inputs store_step advance next_wave may_begin at_work elem subset get? get_or
    put input_values connected joined combined listed values_of store_result store_outputs add_edges
    add_edge
done = refl

plan-IsDistinct : IsDistinct plan
unfolding elem
plan-IsDistinct = (refl, (refl, (refl, tt)))

no_failure : all_done.failure ≡ none
unfolding enter read_inputs store_step advance next_wave may_begin at_work elem subset get? get_or
    put input_values connected joined combined listed values_of store_result store_outputs add_edges
    add_edge
no_failure = refl

all_shown : all_done.progress ≡ 100
unfolding enter read_inputs store_step advance next_wave may_begin at_work elem subset get? get_or
    put input_values connected joined combined listed values_of store_result store_outputs add_edges
    add_edge
all_shown = refl

progress_honest_example : 3 ≤ length all_done.past + length all_done.collected
progress_honest_example =
    progress_honest plan edges waves planned plan-IsDistinct [] (incoming_of edges) all_done
      done_reached no_failure all_shown
