-- ===== src/Runs/Steps.antt =====
-- The threads that use `RunManager` of backend/graph/executor.py, as interleaved steps.
pub mod Busy
pub mod Exclusive
pub mod Arrangement
pub mod Ordering
pub mod Entries
pub mod Dropped
pub mod Cancelled
use mathlib.Core.Option
use lluna.Prelude.{ℕ, String, ◌≡◌, ◌≢◌, Bool, true, false, Option, none, some, List, [], ◌∷◌}
use lluna.Prelude.Key.{string_key}
use lluna.Prelude.Sets.{elem}
use lluna.Prelude.Dict.{Dict, get?}
use lluna.Runs.Manager.{
  RunStatus, running, pause_requested, paused, RunControl, Dispatcher, stopped, waiting, starting,
  executing, ended, RunManager, init, Write, start, write_run, refresh_queue_positions, shutdown,
}
use lluna.Runs.Dispatch.{Outcome, dispatch, begin_run, abort_run, note_paused, finish_run, end_run}

-- `used` are the ids that `uuid4` gave so far.
pub record System : Type 0 where
  pub manager : RunManager
  pub used : List String

abbrev pub initial : System
initial = record { manager = init; used = [] }

abbrev pub with_manager : System → RunManager → System
with_manager s m = record s { manager = m }

-- One step of some thread. The API's threads start runs, write to their controls and refresh the
-- positions; the dispatcher makes the others. No id is given twice.
pub data Step (s : System) : System → Type 0 where
  starts :
      (run_id : String) (queue_front : Bool) (now : ℕ)
      → elem run_id s.used ≡ false
      → Step s (record { manager = start run_id queue_front now s.manager; used = run_id ∷ s.used })
  writes : (run_id : String) (w : Write) → Step s (with_manager s (write_run run_id w s.manager))
  refreshes : Step s (with_manager s (refresh_queue_positions s.manager))
  shuts_down : Step s (with_manager s (shutdown s.manager))
  dispatches : Step s (with_manager s (dispatch s.manager))
  begins : Step s (with_manager s (begin_run s.manager))
  aborts : Step s (with_manager s (abort_run s.manager))
  notes_paused : Step s (with_manager s (note_paused s.manager))
  finishes :
      (outcome : Outcome) (now : ℕ) → Step s (with_manager s (finish_run outcome now s.manager))
  ends : (limit : ℕ) → Step s (with_manager s (end_run limit s.manager))

pub data Reach (s : System) : System → Type 0 where
  here : Reach s s
  next : {t u : System} → Reach s t → Step t u → Reach s u
