-- ===== src/Runs/Steps/Ordering.antt =====
-- The order in which the dispatcher of backend/graph/executor.py takes the runs.

use lluna.Prelude.{
  ℕ, ◌+◌, String, ◌≡◌, refl, sym, subst, ◌∙◌, Bool, List, [], ◌∷◌, arith, inl, inr, Bool-cases,
}
use lluna.Prelude.Key.{string_key}
use lluna.Runs.Manager.{
  Entry, Dispatcher, stopped, waiting, starting, executing, ended, RunManager, new_entry, start,
  push_run, ensure_dispatcher, refresh_queue_positions,
}
use lluna.Runs.Dispatch.{
  Outcome, take_run, dispatch, begin_run, abort_run, note_paused, finish_run, end_run,
}
use lluna.Runs.Steps.{
  System, initial, Step, starts, writes, refreshes, shuts_down, dispatches, begins, aborts,
  notes_paused, finishes, ends, Reach, here, next,
}
use lluna.Runs.Steps.Arrangement.{
  IsArranged, placed, IsArranged-weaken, insert-placed, placed-IsArranged, IsArranged-tail,
}

-- Neither the queue nor its counter is written.
abbrev pub SameQueue : RunManager → RunManager → Type 0
SameQueue m' m = (m'.queue ≡ m.queue) × (m'.queue_sequence ≡ m.queue_sequence)

pub ensure_dispatcher-queue : (m : RunManager) → SameQueue (ensure_dispatcher m) m
unfolding ensure_dispatcher
ensure_dispatcher-queue m = ground arith

pub take_run-queue : (run_id : String) (m : RunManager) → SameQueue (take_run run_id m) m
unfolding take_run
take_run-queue run_id m = ground arith

pub begin_run-queue : (m : RunManager) → SameQueue (begin_run m) m
unfolding begin_run
begin_run-queue m = ground arith

pub abort_run-queue : (m : RunManager) → SameQueue (abort_run m) m
unfolding abort_run
abort_run-queue m = ground arith

pub note_paused-queue : (m : RunManager) → SameQueue (note_paused m) m
unfolding note_paused
note_paused-queue m = ground arith

pub finish_run-queue :
    (outcome : Outcome) (now : ℕ) (m : RunManager) → SameQueue (finish_run outcome now m) m
unfolding finish_run
finish_run-queue outcome now m = ground arith

pub end_run-queue : (limit : ℕ) (m : RunManager) → SameQueue (end_run limit m) m
unfolding end_run
end_run-queue limit m = ground arith

abbrev AllArranged : RunManager → Type 0
AllArranged m = IsArranged m.queue_sequence m.queue

SameQueue-AllArranged : (m' m : RunManager) → SameQueue m' m → AllArranged m → AllArranged m'
SameQueue-AllArranged m' m h a = rw (h.0, h.1) a

start-placed :
    (run_id : String) (queue_front : Bool) (now : ℕ) (m : RunManager)
    → IsArranged m.queue_sequence m.queue
    → (start run_id queue_front now m).queue
      ≡ placed queue_front (new_entry run_id queue_front m) m.queue
unfolding start
start-placed run_id queue_front now m h =
    (ensure_dispatcher-queue _).0
    ∙ insert-placed m.queue_sequence queue_front (new_entry run_id queue_front m) m.queue h refl
        refl

start-AllArranged :
    (run_id : String) (queue_front : Bool) (now : ℕ) (m : RunManager)
    → AllArranged m
    → AllArranged (start run_id queue_front now m)
unfolding start
start-AllArranged run_id queue_front now m h =
    let entry = new_entry run_id queue_front m in
    let all =
      placed-IsArranged (m.queue_sequence + 1) queue_front entry m.queue
        (IsArranged-weaken m.queue_sequence m.queue h) refl (omega arith) in
    let same = insert-placed m.queue_sequence queue_front entry m.queue h refl refl in
    let pushed = refresh_queue_positions (push_run run_id queue_front now m) in
    SameQueue-AllArranged (ensure_dispatcher pushed) pushed (ensure_dispatcher-queue pushed)
      (subst (IsArranged (m.queue_sequence + 1)) (sym same) all)

module _ (m : RunManager) (h : AllArranged m) where
  pop-AllArranged :
      (queue : List Entry)
      → m.queue ≡ queue
      → AllArranged (elim m.queue [
        | [] ↦ m
        | entry ∷ rest ↦ refresh_queue_positions (take_run entry.run_id (record m { queue = rest }))
      ])
  pop-AllArranged [] q = rw q h
  pop-AllArranged (entry ∷ rest) q =
      let arranged = subst (IsArranged m.queue_sequence) q h in
      let popped = record m { queue = rest } in
      rw q (
        SameQueue-AllArranged (take_run entry.run_id popped) popped
          (take_run-queue entry.run_id popped)
          (IsArranged-tail m.queue_sequence entry rest arranged))

  dispatch-AllArranged : (d : Dispatcher) → m.dispatcher ≡ d → AllArranged (dispatch m)
  unfolding dispatch
  dispatch-AllArranged stopped e = rw (e, dispatch) h
  dispatch-AllArranged (starting run_id) e = rw (e, dispatch) h
  dispatch-AllArranged (executing run_id) e = rw (e, dispatch) h
  dispatch-AllArranged (ended run_id raised) e = rw (e, dispatch) h
  dispatch-AllArranged waiting e = elim (Bool-cases m.is_shutdown) [
    | inl down ↦ rw (e, dispatch, down) h
    | inr up ↦ rw (e, dispatch, up) (pop-AllArranged m.queue refl)
  ]

Step-AllArranged : (s t : System) → Step s t → AllArranged s.manager → AllArranged t.manager
Step-AllArranged s t (starts run_id queue_front now new) h =
    start-AllArranged run_id queue_front now s.manager h
Step-AllArranged s t (writes run_id w) h = h
Step-AllArranged s t refreshes h = h
Step-AllArranged s t shuts_down h = h
Step-AllArranged s t dispatches h = dispatch-AllArranged s.manager h _ refl
Step-AllArranged s t begins h =
    SameQueue-AllArranged (begin_run s.manager) s.manager (begin_run-queue s.manager) h
Step-AllArranged s t aborts h =
    SameQueue-AllArranged (abort_run s.manager) s.manager (abort_run-queue s.manager) h
Step-AllArranged s t notes_paused h =
    SameQueue-AllArranged (note_paused s.manager) s.manager (note_paused-queue s.manager) h
Step-AllArranged s t (finishes outcome now) h =
    SameQueue-AllArranged (finish_run outcome now s.manager) s.manager
      (finish_run-queue outcome now s.manager) h
Step-AllArranged s t (ends limit) h =
    SameQueue-AllArranged (end_run limit s.manager) s.manager (end_run-queue limit s.manager) h

Reach-AllArranged : (s : System) → Reach initial s → AllArranged s.manager
Reach-AllArranged s here = tt
Reach-AllArranged s (next {t} r step) = Step-AllArranged t s step (Reach-AllArranged t r)

-- In every state that the run manager can come to, `start` puts a run behind all that wait, and
-- with `queue_front` behind those that were started with `queue_front` and before all others.
pub start_order :
    (s : System)
    → Reach initial s
    → (run_id : String) (queue_front : Bool) (now : ℕ)
    → (start run_id queue_front now s.manager).queue
      ≡ placed queue_front (new_entry run_id queue_front s.manager) s.manager.queue
start_order s r run_id queue_front now =
    start-placed run_id queue_front now s.manager (Reach-AllArranged s r)
