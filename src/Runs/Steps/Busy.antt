-- ===== src/Runs/Steps/Busy.antt =====
-- Which runs are in execution in backend/graph/executor.py.
use mathlib.Core.Option
use lluna.Prelude.{
  ℕ, String, ◌≡◌, refl, Bool, true, false, Option, none, some, arith, inl, inr, Bool-cases,
}
use lluna.Prelude.Key.{string_key}
use lluna.Prelude.Dict.{get?, get?-modify}
use lluna.Runs.Manager.{
  RunStatus, running, pause_requested, paused, RunControl, executing, RunManager, Write, write,
  set_pause, mark_pause, clear_pause, mark_resume, set_cancel, mark_cancel, write_run,
  refresh_queue_positions,
}
use lluna.Runs.Dispatch.{Outcome, returns, raises_other, raises_failure, end_status, end_control}
use lluna.Runs.Positions.{core, core-get?-refresh}

-- The run is in the course of execution.
abbrev pub in_progress : RunStatus → Bool
in_progress running = true
in_progress pause_requested = true
in_progress paused = true
in_progress _ = false

abbrev pub is_busy_run : Option RunControl → Bool
is_busy_run none = false
is_busy_run (some control) = in_progress control.status

abbrev pub busy : String → RunManager → Bool
busy run_id m = is_busy_run (get? run_id m.runs)

abbrev pub IsExclusive : RunManager → Type 0
IsExclusive m = (run_id : String) → busy run_id m ≡ true → m.dispatcher ≡ executing run_id

is_busy_run-core : (o : Option RunControl) → is_busy_run (Option.map core o) ≡ is_busy_run o
is_busy_run-core none = refl
is_busy_run-core (some control) = refl

pub busy-refresh :
    (run_id : String) (m : RunManager) → busy run_id (refresh_queue_positions m) ≡ busy run_id m
busy-refresh run_id m = ground (
  arith,
  is_busy_run-core (get? run_id (refresh_queue_positions m).runs),
  core-get?-refresh run_id m,
  is_busy_run-core (get? run_id m.runs),
)

in_progress-write :
    (w : Write) (control : RunControl)
    → in_progress (write w control).status ≡ true
    → in_progress control.status ≡ true
unfolding write
in_progress-write set_pause control h = h
in_progress-write clear_pause control h = h
in_progress-write set_cancel control h = h
in_progress-write mark_pause control h = ground (arith, h)
in_progress-write mark_resume control h = ground (arith, h)
in_progress-write (mark_cancel now) control h = ground (arith, h)

is_busy_run-write :
    (w : Write) (o : Option RunControl)
    → is_busy_run (Option.map (write w) o) ≡ true
    → is_busy_run o ≡ true
is_busy_run-write w none h = h
is_busy_run-write w (some control) h = in_progress-write w control h

-- No write of another thread puts a run in execution.
pub busy-write_run :
    (run_id j : String) (w : Write) (m : RunManager)
    → busy j (write_run run_id w m) ≡ true
    → busy j m ≡ true
busy-write_run run_id j w m h =
    ground (arith, h, get?-modify run_id j (write w) m.runs, is_busy_run-write w (get? j m.runs))

-- A dispatcher that is not in the nodes of a run has no run in execution.
pub not_busy :
    (m : RunManager) (j : String)
    → IsExclusive m
    → (m.dispatcher ≡ executing j → ⊥)
    → busy j m ≡ false
not_busy m j h apart = elim (Bool-cases (busy j m)) [
  | inl busy ↦ absurd (apart (h j busy))
  | inr free ↦ free
]

in_progress-end_status : (outcome : Outcome) → in_progress (end_status outcome) ≡ false
unfolding end_status
in_progress-end_status returns = refl
in_progress-end_status raises_other = refl
in_progress-end_status (raises_failure code) = ground arith

pub is_busy_run-end_control :
    (outcome : Outcome) (time : ℕ) (o : Option RunControl)
    → is_busy_run (Option.map (end_control outcome time) o) ≡ false
unfolding end_control
is_busy_run-end_control outcome time none = refl
is_busy_run-end_control outcome time (some control) = in_progress-end_status outcome
