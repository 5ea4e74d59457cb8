-- ===== src/Runs/Dispatch.antt =====
-- The dispatcher thread of `RunManager` in backend/graph/executor.py, and the history of the runs
-- that have ended. A step changes something only where the thread stands before it.
use mathlib.Core.Option
use lluna.Prelude.{
  ℕ, ◌-◌, min, max, String, Bool, true, false, ◌&&◌, ◌||◌, Option, none, some, List, [], ◌∷◌,
  length, take, select, ltb, leb, nat_beq, if◌then◌else◌,
}
use lluna.Prelude.Int.{ℤ, pos, negsuc}
use lluna.Prelude.Key.{string_key, ◌==◌}
use lluna.Prelude.Dict.{Dict, get?, modify, discard}
use lluna.Prelude.Sort.{sort, text_le}
use lluna.Runs.Manager.{
  RunStatus, running, paused, cancelled, completed, failed, RunControl, Entry, stopped, waiting,
  starting, executing, ended, RunManager, is_terminal, is_queued, refresh_queue_positions,
}

abbrev pub held_run : String → RunManager → RunManager
held_run run_id m = record m {
  active_run_id = some run_id;
  dispatcher = starting run_id;
  runs = modify run_id (λ control. record control { queue_position = none }) m.runs;
}

-- The run that was popped, unless it was cancelled.
unfoldable pub take_run : String → RunManager → RunManager
take_run run_id m = elim (get? run_id m.runs) [
  | none ↦ m
  | some control ↦ if control.cancel then m else held_run run_id m
]

-- The first block of `_dispatch_loop`. On an empty queue the thread waits.
unfoldable pub dispatch : RunManager → RunManager
unfolding take_run
dispatch m = elim m.dispatcher [
  | waiting ↦ if m.is_shutdown then record m { dispatcher = stopped } else elim m.queue [
    | [] ↦ m
    | entry ∷ rest ↦ refresh_queue_positions (take_run entry.run_id (record m { queue = rest }))
  ]
  | _ ↦ m
]

abbrev pub set_status : RunStatus → RunControl → RunControl
set_status status control = record control { status = status }

-- `_execute` up to RUNNING.
unfoldable pub begin_run : RunManager → RunManager
begin_run m = elim m.dispatcher [
  | starting run_id ↦ record m {
    dispatcher = executing run_id;
    runs = modify run_id (set_status running) m.runs;
  }
  | _ ↦ m
]

-- `compile_workflow` raises in `_execute`, where nothing catches it.
unfoldable pub abort_run : RunManager → RunManager
abort_run m = elim m.dispatcher [
  | starting run_id ↦ record m { dispatcher = ended run_id true }
  | _ ↦ m
]

-- `_wait_if_paused` of a node, once it has seen the pause event.
unfoldable pub note_paused : RunManager → RunManager
note_paused m = elim m.dispatcher [
  | executing run_id ↦ record m { runs = modify run_id (set_status paused) m.runs }
  | _ ↦ m
]

-- How `_run_steps` ends: it returns, or raises ExecutionFailure with a code or something else.
pub data Outcome : Type 0 where
  returns raises_other : Outcome
  raises_failure : String → Outcome

unfoldable pub end_status : Outcome → RunStatus
end_status returns = completed
end_status raises_other = failed
end_status (raises_failure code) = if code == "CANCELLED" then cancelled else failed

unfoldable pub end_error : Outcome → Option String → Option String
end_error returns error = error
end_error raises_other error = some "INTERNAL"
end_error (raises_failure code) error = some code

unfoldable pub end_control : Outcome → ℕ → RunControl → RunControl
end_control outcome now control = record control {
  status = end_status outcome;
  completed_at = some now;
  error = end_error outcome control.error;
}

unfoldable pub finish_run : Outcome → ℕ → RunManager → RunManager
finish_run outcome now m = elim m.dispatcher [
  | executing run_id ↦ record m {
    dispatcher = ended run_id false;
    runs = modify run_id (end_control outcome now) m.runs;
  }
  | _ ↦ m
]

-- `completed_at or created_at`
abbrev pub end_time : RunControl → ℕ
end_time control = elim control.completed_at [ none ↦ control.created_at | some time ↦ time ]

-- The runs that have ended.
abbrev pub terminal : Dict String RunControl → List (String × RunControl)
terminal runs = select (λ run. is_terminal run.1.status) runs

-- Oldest first; for one time by the id.
unfoldable pub older : String × RunControl → String × RunControl → Bool
older (i, a) (j, b) =
    ltb (end_time a) (end_time b) || (nat_beq (end_time a) (end_time b) && text_le i j)

-- `xs[:-limit]`
unfoldable pub drop_last {ℓ} : {A : Type ℓ} → ℕ → List A → List A
drop_last limit xs = if nat_beq limit 0 then [] else take (length xs - limit) xs

unfoldable pub pop_all :
    List (String × RunControl) → Dict String RunControl → Dict String RunControl
pop_all [] runs = runs
pop_all ((run_id, control) ∷ rest) runs = pop_all rest (discard run_id runs)

unfoldable pub prune : ℕ → Dict String RunControl → Dict String RunControl
prune limit runs = pop_all (drop_last limit (sort older (terminal runs))) runs

abbrev pub prune_history : ℕ → RunManager → RunManager
prune_history limit m = record m { runs = prune limit m.runs }

-- The `finally` block. An exception ends the thread.
unfoldable pub end_run : ℕ → RunManager → RunManager
end_run limit m = elim m.dispatcher [
  | ended run_id raised ↦
      let next = if raised then stopped else waiting in
      refresh_queue_positions
        (prune_history limit (record m { active_run_id = none; dispatcher = next }))
  | _ ↦ m
]

-- `max(1, min(limit or configured, configured))`
unfoldable pub effective_limit : Option ℤ → ℕ → ℕ
effective_limit none configured = max 1 configured
effective_limit (some (pos n)) configured =
    max 1 (min (if nat_beq n 0 then configured else n) configured)
effective_limit (some (negsuc n)) configured = 1

-- Newest first, stable.
unfoldable pub newer : String × RunControl → String × RunControl → Bool
newer (i, a) (j, b) = leb (end_time b) (end_time a)

unfoldable pub history : Option ℤ → ℕ → RunManager → List (String × RunControl)
unfolding effective_limit newer
history limit configured m = take (effective_limit limit configured) (sort newer (terminal m.runs))

-- The running run, and the queued ones in the order of the queue.
unfoldable pub pending : List Entry → Dict String RunControl → List (String × RunControl)
pending [] runs = []
pending (entry ∷ queue) runs = elim (get? entry.run_id runs) [
  | none ↦ pending queue runs
  | some control ↦
      if is_queued control.status
      then (entry.run_id, control) ∷ pending queue runs
      else pending queue runs
]

abbrev pub active_run : RunManager → Option (String × RunControl)
active_run m = elim m.active_run_id [
  | none ↦ none
  | some run_id ↦ Option.map (λ control. (run_id, control)) (get? run_id m.runs)
]

unfoldable pub queue_snapshot :
    RunManager → Option (String × RunControl) × List (String × RunControl)
unfolding pending
queue_snapshot m =
    let refreshed = refresh_queue_positions m in
    (active_run refreshed, pending refreshed.queue refreshed.runs)
