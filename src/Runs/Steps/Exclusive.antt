-- ===== src/Runs/Steps/Exclusive.antt =====
-- One run executes at a time in backend/graph/executor.py.

use lluna.Prelude.{
  ℕ, String, ◌≡◌, refl, Bool, true, none, List, [], ◌∷◌, arith, if◌then◌else◌, Option-cases, inl,
  inr, Bool-cases,
}
use lluna.Prelude.Key.{string_key}
use lluna.Prelude.Dict.{get?, get?-put, get?-modify}
use lluna.Runs.Manager.{
  running, paused, Entry, Dispatcher, stopped, waiting, starting, executing, ended, RunManager,
  start, push_run, new_control, priority_of, ensure_dispatcher, refresh_queue_positions,
}
use lluna.Runs.Dispatch.{
  Outcome, end_control, take_run, held_run, dispatch, begin_run, abort_run, note_paused, finish_run,
  end_run, prune_history, set_status,
}
use lluna.Runs.History.{get?-prune}
use lluna.Runs.Steps.{
  System, initial, Step, starts, writes, refreshes, shuts_down, dispatches, begins, aborts,
  notes_paused, finishes, ends, Reach, here, next,
}
use lluna.Runs.Steps.Busy.{
  busy, IsExclusive, busy-refresh, busy-write_run, not_busy, is_busy_run-end_control,
}

refresh-IsExclusive : (m : RunManager) → IsExclusive m → IsExclusive (refresh_queue_positions m)
refresh-IsExclusive m h j now = h j (ground (arith, busy-refresh j m, now))

ensure_dispatcher-IsExclusive : (m : RunManager) → IsExclusive m → IsExclusive (ensure_dispatcher m)
unfolding ensure_dispatcher
ensure_dispatcher-IsExclusive m h j now = ground (arith, h j, now)

push_run-IsExclusive :
    (run_id : String) (queue_front : Bool) (now : ℕ) (m : RunManager)
    → IsExclusive m
    → IsExclusive (push_run run_id queue_front now m)
push_run-IsExclusive run_id queue_front now m h j taken =
    h j
      (ground (arith, get?-put run_id j (new_control (priority_of queue_front) now) m.runs, taken))

start-IsExclusive :
    (run_id : String) (queue_front : Bool) (now : ℕ) (m : RunManager)
    → IsExclusive m
    → IsExclusive (start run_id queue_front now m)
unfolding start
start-IsExclusive run_id queue_front now m h =
    let pushed = push_run run_id queue_front now m in
    ensure_dispatcher-IsExclusive (refresh_queue_positions pushed)
      (refresh-IsExclusive pushed (push_run-IsExclusive run_id queue_front now m h))

-- While the dispatcher waits, it may hold any run.
held_run-IsExclusive :
    (run_id : String) (m : RunManager)
    → m.dispatcher ≡ waiting
    → IsExclusive m
    → IsExclusive (held_run run_id m)
held_run-IsExclusive run_id m idle h j now =
    let free = not_busy m j h (λ e. ground (arith, e, idle)) in
    ground (
      arith,
      get?-modify run_id j (λ control. record control { queue_position = none }) m.runs,
      free,
      now,
    )

take_run-IsExclusive :
    (run_id : String) (m : RunManager)
    → m.dispatcher ≡ waiting
    → IsExclusive m
    → IsExclusive (take_run run_id m)
unfolding take_run
take_run-IsExclusive run_id m idle h = elim (Option-cases (get? run_id m.runs)) [
  | inl gone ↦ rw (gone, take_run) h
  | inr (control, there) ↦ elim (Bool-cases control.cancel) [
    | inl dropped ↦ rw (there, take_run, dropped) h
    | inr kept ↦ rw (there, take_run, kept) (held_run-IsExclusive run_id m idle h)
  ]
]

-- By where the dispatcher stands.
module _ (m : RunManager) (h : IsExclusive m) where
  dispatch-IsExclusive : (d : Dispatcher) → m.dispatcher ≡ d → IsExclusive (dispatch m)
  unfolding dispatch
  dispatch-IsExclusive stopped e = rw (e, dispatch) h
  dispatch-IsExclusive (starting run_id) e = rw (e, dispatch) h
  dispatch-IsExclusive (executing run_id) e = rw (e, dispatch) h
  dispatch-IsExclusive (ended run_id raised) e = rw (e, dispatch) h
  dispatch-IsExclusive waiting e = elim (Bool-cases m.is_shutdown) [
    | inl down ↦
        rw (e, dispatch, down)
          λ j now. ground (arith, not_busy m j h (λ c. ground (arith, c, e)), now)
    | inr up ↦ rw (e, dispatch, up) (pops m.queue refl)
  ]
    where
      pops :
          (queue : List Entry)
          → m.queue ≡ queue
          → IsExclusive (elim m.queue [
            | [] ↦ m
            | entry ∷ rest ↦
                refresh_queue_positions (take_run entry.run_id (record m { queue = rest }))
          ])
      pops [] q = rw q h
      pops (entry ∷ rest) q = rw q (
          refresh-IsExclusive (take_run entry.run_id (record m { queue = rest }))
            (take_run-IsExclusive entry.run_id (record m { queue = rest }) e h))

  begin_run-IsExclusive : (d : Dispatcher) → m.dispatcher ≡ d → IsExclusive (begin_run m)
  unfolding begin_run
  begin_run-IsExclusive stopped e = rw (e, begin_run) h
  begin_run-IsExclusive waiting e = rw (e, begin_run) h
  begin_run-IsExclusive (executing run_id) e = rw (e, begin_run) h
  begin_run-IsExclusive (ended run_id raised) e = rw (e, begin_run) h
  begin_run-IsExclusive (starting run_id) e =
      rw (e, begin_run)
        λ j now. ground (
          arith,
          get?-modify run_id j (set_status running) m.runs,
          not_busy m j h (λ c. ground (arith, c, e)),
          string_key.test_iff j run_id,
          now,
        )

  abort_run-IsExclusive : (d : Dispatcher) → m.dispatcher ≡ d → IsExclusive (abort_run m)
  unfolding abort_run
  abort_run-IsExclusive stopped e = rw (e, abort_run) h
  abort_run-IsExclusive waiting e = rw (e, abort_run) h
  abort_run-IsExclusive (executing run_id) e = rw (e, abort_run) h
  abort_run-IsExclusive (ended run_id raised) e = rw (e, abort_run) h
  abort_run-IsExclusive (starting run_id) e =
      rw (e, abort_run) λ j now. ground (arith, not_busy m j h (λ c. ground (arith, c, e)), now)

  note_paused-IsExclusive : (d : Dispatcher) → m.dispatcher ≡ d → IsExclusive (note_paused m)
  unfolding note_paused
  note_paused-IsExclusive stopped e = rw (e, note_paused) h
  note_paused-IsExclusive waiting e = rw (e, note_paused) h
  note_paused-IsExclusive (starting run_id) e = rw (e, note_paused) h
  note_paused-IsExclusive (ended run_id raised) e = rw (e, note_paused) h
  note_paused-IsExclusive (executing run_id) e =
      rw (e, note_paused)
        λ j now. ground (
          arith,
          get?-modify run_id j (set_status paused) m.runs,
          h j,
          e,
          string_key.test_iff j run_id,
          now,
        )

  finish_run-IsExclusive :
      (outcome : Outcome) (time : ℕ) (d : Dispatcher)
      → m.dispatcher ≡ d
      → IsExclusive (finish_run outcome time m)
  unfolding finish_run
  finish_run-IsExclusive outcome time stopped e = rw (e, finish_run) h
  finish_run-IsExclusive outcome time waiting e = rw (e, finish_run) h
  finish_run-IsExclusive outcome time (starting run_id) e = rw (e, finish_run) h
  finish_run-IsExclusive outcome time (ended run_id raised) e = rw (e, finish_run) h
  finish_run-IsExclusive outcome time (executing run_id) e =
      rw (e, finish_run)
        λ j now. ground (
          arith,
          get?-modify run_id j (end_control outcome time) m.runs,
          is_busy_run-end_control outcome time (get? j m.runs),
          h j,
          e,
          string_key.test_iff j run_id,
          now,
        )

  end_run-IsExclusive :
      (limit : ℕ) (d : Dispatcher) → m.dispatcher ≡ d → IsExclusive (end_run limit m)
  unfolding end_run
  end_run-IsExclusive limit stopped e = rw (e, end_run) h
  end_run-IsExclusive limit waiting e = rw (e, end_run) h
  end_run-IsExclusive limit (starting run_id) e = rw (e, end_run) h
  end_run-IsExclusive limit (executing run_id) e = rw (e, end_run) h
  end_run-IsExclusive limit (ended run_id raised) e =
      rw (e, end_run)
        (refresh-IsExclusive
          (prune_history limit
            (record m { active_run_id = none; dispatcher = if raised then stopped else waiting }))
          λ j now.
            ground
              (arith, get?-prune j limit m.runs, not_busy m j h (λ c. ground (arith, c, e)), now))

Step-IsExclusive : (s t : System) → Step s t → IsExclusive s.manager → IsExclusive t.manager
Step-IsExclusive s t (starts run_id queue_front now new) h =
    start-IsExclusive run_id queue_front now s.manager h
Step-IsExclusive s t (writes run_id w) h = λ j now. h j (busy-write_run run_id j w s.manager now)
Step-IsExclusive s t refreshes h = refresh-IsExclusive s.manager h
Step-IsExclusive s t shuts_down h = h
Step-IsExclusive s t dispatches h = dispatch-IsExclusive s.manager h _ refl
Step-IsExclusive s t begins h = begin_run-IsExclusive s.manager h _ refl
Step-IsExclusive s t aborts h = abort_run-IsExclusive s.manager h _ refl
Step-IsExclusive s t notes_paused h = note_paused-IsExclusive s.manager h _ refl
Step-IsExclusive s t (finishes outcome now) h =
    finish_run-IsExclusive s.manager h outcome now _ refl
Step-IsExclusive s t (ends limit) h = end_run-IsExclusive s.manager h limit _ refl

Reach-IsExclusive : (s t : System) → IsExclusive s.manager → Reach s t → IsExclusive t.manager
Reach-IsExclusive s t h here = h
Reach-IsExclusive s t h (next {t = u} r step) =
    Step-IsExclusive u t step (Reach-IsExclusive s u h r)

initial-IsExclusive : IsExclusive initial.manager
unfolding get?
initial-IsExclusive j now = ground (arith, now)

-- In every state that the run manager can come to, at most one run is in execution (RUNNING,
-- PAUSE_REQUESTED or PAUSED), and the dispatcher stands in the nodes of that run.
pub one_run_executes :
    (s : System)
    → Reach initial s
    → (i j : String) → busy i s.manager ≡ true
    → busy j s.manager ≡ true
    → (i ≡ j) × (s.manager.dispatcher ≡ executing i)
one_run_executes s r i j a b =
    let h = Reach-IsExclusive initial s initial-IsExclusive r in
    (ground (arith, h i a, h j b), h i a)
