-- ===== src/Runs/Manager.antt =====
-- `RunManager` of backend/graph/executor.py: the queue of runs and their states. What the nodes of
-- a run compute, and the events that are published, are left out.

use lluna.Prelude.{
  ℕ, ◌+◌, String, Bool, true, false, not, ◌&&◌, ◌||◌, Option, none, some, List, [], ◌∷◌, leb,
  if◌then◌else◌,
}
use lluna.Prelude.Int.{ℤ, pos, negsuc, int_lt}
use lluna.Prelude.Key.{string_key}
use lluna.Prelude.Dict.{Dict, get?, put, modify, map_values}
use lluna.Prelude.Sort.{insert}

pub data RunStatus : Type 0 where
  queued running pause_requested paused cancel_requested cancelled completed failed : RunStatus

-- The fields of the snapshot that the manager reads and writes, and the two events `cancel` and
-- `pause`. Times are numbers.
pub record RunControl : Type 0 where
  pub status : RunStatus
  pub priority : ℤ
  pub queue_position : Option ℕ
  pub created_at : ℕ
  pub completed_at : Option ℕ
  pub error : Option String
  pub cancel : Bool
  pub pause : Bool

pub record Entry : Type 0 where
  pub priority : ℤ
  pub sequence : ℕ
  pub run_id : String

-- Where the dispatcher thread stands: before the queue, between taking a run and RUNNING, in the
-- nodes of the run, and before the `finally` block, to which an exception comes if `true`.
pub data Dispatcher : Type 0 where
  stopped waiting : Dispatcher
  starting executing : String → Dispatcher
  ended : String → Bool → Dispatcher

-- `queue` is the heap in the order in which it is popped.
pub record RunManager : Type 0 where
  pub runs : Dict String RunControl
  pub queue : List Entry
  pub queue_sequence : ℕ
  pub active_run_id : Option String
  pub dispatcher : Dispatcher
  pub is_shutdown : Bool

abbrev pub init : RunManager
init = record {
  runs = [];
  queue = [];
  queue_sequence = 0;
  active_run_id = none;
  dispatcher = stopped;
  is_shutdown = false;
}

abbrev pub is_queued : RunStatus → Bool
is_queued queued = true
is_queued _ = false

abbrev pub is_terminal : RunStatus → Bool
is_terminal completed = true
is_terminal failed = true
is_terminal cancelled = true
is_terminal _ = false

-- The tuples `(priority, sequence, run_id)`; no two have the same sequence.
unfoldable pub entry_le : Entry → Entry → Bool
entry_le a b =
    int_lt a.priority b.priority
    || (not (int_lt b.priority a.priority) && leb a.sequence b.sequence)

-- The run of this id is to be given a position.
unfoldable pub is_waiting : Option RunControl → Bool
is_waiting none = false
is_waiting (some control) = not control.cancel && is_queued control.status

abbrev pub unplace : RunControl → RunControl
unplace control =
    if is_queued control.status then record control { queue_position = none } else control

abbrev pub place : ℕ → RunControl → RunControl
place position control = record control { queue_position = some position }

-- The loop over the sorted queue in `_refresh_queue_positions_locked`.
unfoldable pub number : Dict String RunControl → ℕ → List Entry → Dict String RunControl
number runs position [] = runs
number runs position (entry ∷ queue) =
    let waits = is_waiting (get? entry.run_id runs) in
    number (if waits then modify entry.run_id (place position) runs else runs)
      (if waits then position + 1 else position) queue

abbrev pub refresh_queue_positions : RunManager → RunManager
refresh_queue_positions m = record m { runs = number (map_values unplace m.runs) 1 m.queue }

-- With a live thread nothing changes.
unfoldable pub ensure_dispatcher : RunManager → RunManager
ensure_dispatcher m = elim m.dispatcher [
  | stopped ↦ record m { is_shutdown = false; dispatcher = waiting }
  | _ ↦ m
]

abbrev pub new_control : ℤ → ℕ → RunControl
new_control priority now = record {
  status = queued;
  priority = priority;
  queue_position = none;
  created_at = now;
  completed_at = none;
  error = none;
  cancel = false;
  pause = false;
}

abbrev pub priority_of : Bool → ℤ
priority_of queue_front = if queue_front then negsuc 0 else pos 0

abbrev pub new_entry : String → Bool → RunManager → Entry
new_entry run_id queue_front m = record {
  priority = priority_of queue_front;
  sequence = m.queue_sequence + 1;
  run_id = run_id;
}

abbrev pub push_run : String → Bool → ℕ → RunManager → RunManager
push_run run_id queue_front now m = record m {
  runs = put run_id (new_control (priority_of queue_front) now) m.runs;
  queue_sequence = m.queue_sequence + 1;
  queue = insert entry_le (new_entry run_id queue_front m) m.queue;
}

-- `start`, for a valid plan with at least one step.
unfoldable pub start : String → Bool → ℕ → RunManager → RunManager
start run_id queue_front now m =
    ensure_dispatcher (refresh_queue_positions (push_run run_id queue_front now m))

-- What `pause`, `resume`, `cancel` and the threads of a run write to its control, each at once.
-- A time comes with `mark_cancel`.
pub data Write : Type 0 where
  set_pause mark_pause clear_pause mark_resume set_cancel : Write
  mark_cancel : ℕ → Write

abbrev pub cancel_status : ℕ → RunControl → RunControl
cancel_status now control =
    if is_queued control.status
    then record control { status = cancelled; completed_at = some now; error = some "CANCELLED" }
    else record control { status = cancel_requested }

unfoldable pub write : Write → RunControl → RunControl
write set_pause control = record control { pause = true }
write clear_pause control = record control { pause = false }
write set_cancel control = record control { cancel = true }
write mark_pause control = elim control.status [
  | running ↦ record control { status = pause_requested }
  | _ ↦ control
]
write mark_resume control = elim control.status [
  | paused ↦ record control { status = running }
  | pause_requested ↦ record control { status = running }
  | _ ↦ control
]
write (mark_cancel now) control = cancel_status now control

abbrev pub write_run : String → Write → RunManager → RunManager
write_run run_id w m = record m { runs = modify run_id (write w) m.runs }

-- `_control` and then two writes; `none` is the KeyError.
unfoldable pub control_run : String → Write → Write → RunManager → Option RunManager
control_run run_id first second m = elim (get? run_id m.runs) [
  | none ↦ none
  | some control ↦
      some (refresh_queue_positions (write_run run_id second (write_run run_id first m)))
]

unfoldable pub pause : String → RunManager → Option RunManager
unfolding control_run
pause run_id m = control_run run_id set_pause mark_pause m

unfoldable pub resume : String → RunManager → Option RunManager
unfolding control_run
resume run_id m = control_run run_id clear_pause mark_resume m

unfoldable pub cancel : String → ℕ → RunManager → Option RunManager
unfolding control_run
cancel run_id now m = control_run run_id set_cancel (mark_cancel now) m

-- The events of all runs are set after the lock is free.
abbrev pub shutdown : RunManager → RunManager
shutdown m = record m { is_shutdown = true }
