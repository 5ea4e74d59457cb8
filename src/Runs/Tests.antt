-- ===== src/Runs/Tests.antt =====
-- Small queues of runs, and what backend/graph/executor.py does with them.
use mathlib.Core.List.{Perm}
use lluna.Prelude.{
  ℕ, min, String, ◌≡◌, refl, true, false, none, some, List, [], ◌∷◌, ◌++◌, length, map, reject,
  arith, if◌then◌else◌,
}
use lluna.Prelude.Key.{string_key, ◌==◌}
use lluna.Prelude.Int.{pos, int_lt}
use lluna.Prelude.Sets.{elem}
use lluna.Prelude.Dict.{Dict, get?, put, modify, map_values, discard}
use lluna.Prelude.Sort.{insert, sort, IsSorted}
use lluna.Runs.Manager.{
  RunStatus, queued, cancelled, completed, RunControl, Entry, RunManager, executing, init, start,
  new_entry, new_control, entry_le, ensure_dispatcher, is_waiting, number, cancel, write, write_run,
  set_cancel, mark_cancel, control_run, refresh_queue_positions,
}
use lluna.Runs.Dispatch.{
  dispatch, begin_run, history, older, terminal, prune, pop_all, drop_last, take_run, pending,
  queue_snapshot,
}
use lluna.Runs.Positions.{index_from, waiting_ids}
use lluna.Runs.History.{prune_lem}
use lluna.Runs.Cancellation.{run_ids, queue_snapshot-cancel}
use lluna.Runs.Steps.{System, initial, with_manager, starts, dispatches, begins, Reach, here, next}
use lluna.Runs.Steps.Busy.{busy}
use lluna.Runs.Steps.Exclusive.{one_run_executes}
use lluna.Runs.Steps.Arrangement.{placed}
use lluna.Runs.Steps.Ordering.{start_order}
use lluna.Runs.Steps.Dropped.{holds}
use lluna.Runs.Steps.Cancelled.{cancelled_never_runs}

abbrev started : System
started = record { manager = start "a" false 0 init; used = "a" ∷ [] }

abbrev two_started : System
two_started = record { manager = start "b" true 1 started.manager; used = "b" ∷ "a" ∷ [] }

Reach-two_started : Reach initial two_started
unfolding elem
Reach-two_started = next (next here (starts "a" false 0 refl)) (starts "b" true 1 refl)

-- The run that was started last goes first.
ids_of_two : map (λ entry. entry.run_id) two_started.manager.queue ≡ "b" ∷ "a" ∷ []
unfolding start ensure_dispatcher insert entry_le int_lt
ids_of_two = refl

start_order_example :
    (start "c" false 2 two_started.manager).queue
    ≡ placed false (new_entry "c" false two_started.manager) two_started.manager.queue
start_order_example = start_order two_started Reach-two_started "c" false 2

abbrev taken : System
taken = with_manager started (dispatch started.manager)

abbrev begun : System
begun = with_manager taken (begin_run taken.manager)

Reach-begun : Reach initial begun
unfolding elem
Reach-begun = next (next (next here (starts "a" false 0 refl)) dispatches) begins

busy_begun : busy "a" begun.manager ≡ true
unfolding start ensure_dispatcher insert begin_run dispatch take_run number is_waiting get? put
    modify map_values
busy_begun = refl

one_run_executes_example : (◌≡◌ {A = String} "a" "a") × (begun.manager.dispatcher ≡ executing "a")
one_run_executes_example = one_run_executes begun Reach-begun "a" "a" busy_begun busy_begun

abbrev dropped : System
dropped = with_manager started (write_run "a" set_cancel started.manager)

cancelled_never_runs_example : holds (dispatch dropped.manager).dispatcher "a" ≡ false
unfolding start ensure_dispatcher write number is_waiting get? put modify map_values insert elem
cancelled_never_runs_example =
    cancelled_never_runs "a" dropped (with_manager dropped (dispatch dropped.manager)) refl refl
      refl (next here dispatches)

abbrev control : RunStatus → ℕ → RunControl
control status time = record (new_control (pos 0) 0) { status = status; completed_at = some time }

abbrev ended_runs : Dict String RunControl
ended_runs = ("a", control completed 5) ∷ ("b", control queued 6) ∷ ("c", control cancelled 7) ∷ []

abbrev manager : RunManager
manager = record init { runs = ended_runs }

newest : map (λ run. run.0) (history none 10 manager) ≡ "c" ∷ "a" ∷ []
unfolding history sort insert
newest = refl

left_by_prune : map (λ run. run.0) (prune 1 ended_runs) ≡ "b" ∷ "c" ∷ []
unfolding prune sort insert pop_all drop_last older discard
left_by_prune = refl

prune_lem_example :
    (popped kept : List (String × RunControl)) × Perm (popped ++ kept) (terminal ended_runs)
    × IsSorted older (popped ++ kept)
    × (length kept ≡ min 1 (length (terminal ended_runs)))
    × ((id : String)
        → get? id (prune 1 ended_runs)
          ≡ (if elem id (map (λ run. run.0) popped) then none else get? id ended_runs))
prune_lem_example = prune_lem 1 ended_runs (omega arith)

abbrev cancelled_state : RunManager → RunManager
cancelled_state m =
    refresh_queue_positions (write_run "a" (mark_cancel 9) (write_run "a" set_cancel m))

-- A run that has ended is cancelled: it leaves the history.
cancels_ended : cancel "a" 9 manager ≡ some (cancelled_state manager)
unfolding cancel control_run get?
cancels_ended = refl

left_history : map (λ run. run.0) (history none 10 (cancelled_state manager)) ≡ "c" ∷ []
unfolding history sort insert write get? modify map_values number is_waiting
left_history = refl

abbrev entry : ℕ → String → Entry
entry sequence run_id = record { priority = pos 0; sequence = sequence; run_id = run_id }

abbrev lined_up : RunManager
lined_up = record init {
  runs = ("a", new_control (pos 0) 0) ∷ ("b", new_control (pos 0) 1) ∷ [];
  queue = entry 1 "a" ∷ entry 2 "b" ∷ [];
}

second : index_from 1 "b" (waiting_ids lined_up.runs lined_up.queue) ≡ some 2
unfolding waiting_ids is_waiting get?
second = refl

cancels_first : cancel "a" 9 lined_up ≡ some (cancelled_state lined_up)
unfolding cancel control_run get?
cancels_first = refl

queue_snapshot-cancel_example :
    run_ids (queue_snapshot (cancelled_state lined_up)).1
    ≡ reject (λ id. id == "a") (run_ids (queue_snapshot lined_up).1)
queue_snapshot-cancel_example =
    queue_snapshot-cancel "a" 9 lined_up (cancelled_state lined_up) cancels_first

left_in_queue : run_ids (queue_snapshot (cancelled_state lined_up)).1 ≡ "b" ∷ []
unfolding queue_snapshot pending write get? modify map_values number is_waiting
left_in_queue = refl
