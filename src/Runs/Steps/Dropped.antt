-- ===== src/Runs/Steps/Dropped.antt =====
-- What keeps a cancelled run of backend/graph/executor.py from the dispatcher.
use mathlib.Core.Option
use lluna.Prelude.{
  ℕ, String, ◌≡◌, refl, subst, ◌∙◌, Bool, true, false, Option, none, some, List, [], ◌∷◌, arith,
  if◌then◌else◌, Option-cases, inl, inr, Bool-cases,
}
use lluna.Prelude.Key.{string_key, ◌==◌}
use lluna.Prelude.Dict.{get?, get?-put, modify, get?-modify}
use lluna.Runs.Manager.{
  running, paused, RunControl, Entry, Dispatcher, stopped, waiting, starting, executing, ended,
  RunManager, Write, write, set_pause, mark_pause, clear_pause, mark_resume, set_cancel,
  mark_cancel, start, push_run, new_control, priority_of, ensure_dispatcher,
  refresh_queue_positions,
}
use lluna.Runs.Dispatch.{
  prune_history, Outcome, end_control, take_run, dispatch, begin_run, abort_run, note_paused,
  finish_run, end_run, set_status,
}
use lluna.Runs.History.{get?-prune}
use lluna.Runs.Positions.{core, core-get?-refresh}

-- The dispatcher stands at this run.
abbrev pub holds : Dispatcher → String → Bool
holds stopped id = false
holds waiting id = false
holds (starting run_id) id = id == run_id
holds (executing run_id) id = id == run_id
holds (ended run_id raised) id = id == run_id

-- The run is not known any more, or its event `cancel` is set.
abbrev pub is_cancelled : Option RunControl → Bool
is_cancelled none = true
is_cancelled (some control) = control.cancel

is_cancelled-core : (o : Option RunControl) → is_cancelled (Option.map core o) ≡ is_cancelled o
is_cancelled-core none = refl
is_cancelled-core (some control) = refl

module _ (id : String) where
  -- A cancelled run that the dispatcher does not hold.
  abbrev pub IsDropped : RunManager → Type 0
  IsDropped m = (is_cancelled (get? id m.runs) ≡ true) × (holds m.dispatcher id ≡ false)

  pub refresh-IsDropped : (m : RunManager) → IsDropped m → IsDropped (refresh_queue_positions m)
  refresh-IsDropped m h = (
    ground (
      arith,
      is_cancelled-core (get? id (refresh_queue_positions m).runs),
      core-get?-refresh id m,
      is_cancelled-core (get? id m.runs),
      h.0,
    ),
    h.1,
  )

  pub start-IsDropped :
      (run_id : String) (queue_front : Bool) (now : ℕ) (m : RunManager)
      → id == run_id ≡ false
      → IsDropped m
      → IsDropped (start run_id queue_front now m)
  unfolding start ensure_dispatcher
  start-IsDropped run_id queue_front now m other h =
      let pushed = push_run run_id queue_front now m in
      let made = get?-put run_id id (new_control (priority_of queue_front) now) m.runs in
      let all = refresh-IsDropped pushed (ground (arith, made, other, h.0), h.1) in
      ground (arith, all)

  pub is_cancelled-write :
      (w : Write) (o : Option RunControl)
      → is_cancelled o ≡ true
      → is_cancelled (Option.map (write w) o) ≡ true
  unfolding write
  is_cancelled-write w none h = h
  is_cancelled-write set_pause (some control) h = h
  is_cancelled-write clear_pause (some control) h = h
  is_cancelled-write set_cancel (some control) h = refl
  is_cancelled-write mark_pause (some control) h = ground (arith, h)
  is_cancelled-write mark_resume (some control) h = ground (arith, h)
  is_cancelled-write (mark_cancel now) (some control) h = ground (arith, h)

  is_cancelled-keeping :
      (f : RunControl → RunControl)
      → ((control : RunControl) → (f control).cancel ≡ control.cancel)
      → (o : Option RunControl) → is_cancelled (Option.map f o) ≡ is_cancelled o
  is_cancelled-keeping f same none = refl
  is_cancelled-keeping f same (some control) = same control

  is_cancelled-modify :
      (f : RunControl → RunControl) (run_id : String) (m : RunManager)
      → ((control : RunControl) → (f control).cancel ≡ control.cancel)
      → is_cancelled (get? id (modify run_id f m.runs)) ≡ is_cancelled (get? id m.runs)
  is_cancelled-modify f run_id m same =
      ground (arith, get?-modify run_id id f m.runs, is_cancelled-keeping f same (get? id m.runs))

  end_control-cancel :
      (outcome : Outcome) (time : ℕ) (control : RunControl)
      → (end_control outcome time control).cancel ≡ control.cancel
  unfolding end_control
  end_control-cancel outcome time control = refl

  -- A run that is not cancelled is another one.
  other_run :
      (run_id : String) (control : RunControl) (m : RunManager)
      → get? run_id m.runs ≡ some control
      → control.cancel ≡ false
      → IsDropped m
      → id == run_id ≡ false
  other_run run_id control m there kept h = elim (Bool-cases (id == run_id)) [
    | inl same ↦
        let e : id ≡ run_id = (string_key.test_iff id run_id).0 same in
        let gone = subst (λ i. is_cancelled (get? i m.runs) ≡ true) e h.0 in
        ground (arith, gone, there, kept)
    | inr apart ↦ apart
  ]

  take_run-IsDropped :
      (run_id : String) (m : RunManager) → IsDropped m → IsDropped (take_run run_id m)
  unfolding take_run
  take_run-IsDropped run_id m h = elim (Option-cases (get? run_id m.runs)) [
    | inl gone ↦ rw (gone, take_run) h
    | inr (control, there) ↦ elim (Bool-cases control.cancel) [
      | inl dropped ↦ rw (there, take_run, dropped) h
      | inr kept ↦
          rw (there, take_run, kept)
            (
              is_cancelled-modify (λ control. record control { queue_position = none }) run_id m
                    (λ control. refl)
                  ∙ h.0,
              other_run run_id control m there kept h,
            )
    ]
  ]

  module _ (m : RunManager) (h : IsDropped m) where
    pop-IsDropped :
        (queue : List Entry)
        → m.queue ≡ queue
        → IsDropped (elim m.queue [
          | [] ↦ m
          | entry ∷ rest ↦
              refresh_queue_positions (take_run entry.run_id (record m { queue = rest }))
        ])
    pop-IsDropped [] q = rw q h
    pop-IsDropped (entry ∷ rest) q =
        let popped = record m { queue = rest } in
        rw q (
          refresh-IsDropped (take_run entry.run_id popped)
            (take_run-IsDropped entry.run_id popped h))

    pub dispatch-IsDropped : (d : Dispatcher) → m.dispatcher ≡ d → IsDropped (dispatch m)
    unfolding dispatch
    dispatch-IsDropped stopped e = rw (e, dispatch) h
    dispatch-IsDropped (starting run_id) e = rw (e, dispatch) h
    dispatch-IsDropped (executing run_id) e = rw (e, dispatch) h
    dispatch-IsDropped (ended run_id raised) e = rw (e, dispatch) h
    dispatch-IsDropped waiting e = elim (Bool-cases m.is_shutdown) [
      | inl down ↦ rw (e, dispatch, down) (h.0, refl)
      | inr up ↦ rw (e, dispatch, up) (pop-IsDropped m.queue refl)
    ]

    pub begin_run-IsDropped : (d : Dispatcher) → m.dispatcher ≡ d → IsDropped (begin_run m)
    unfolding begin_run
    begin_run-IsDropped stopped e = rw (e, begin_run) h
    begin_run-IsDropped waiting e = rw (e, begin_run) h
    begin_run-IsDropped (executing run_id) e = rw (e, begin_run) h
    begin_run-IsDropped (ended run_id raised) e = rw (e, begin_run) h
    begin_run-IsDropped (starting run_id) e =
        rw (e, begin_run)
          (
            is_cancelled-modify (set_status running) run_id m (λ control. refl) ∙ h.0,
            ground (arith, h.1, e),
          )

    pub abort_run-IsDropped : (d : Dispatcher) → m.dispatcher ≡ d → IsDropped (abort_run m)
    unfolding abort_run
    abort_run-IsDropped stopped e = rw (e, abort_run) h
    abort_run-IsDropped waiting e = rw (e, abort_run) h
    abort_run-IsDropped (executing run_id) e = rw (e, abort_run) h
    abort_run-IsDropped (ended run_id raised) e = rw (e, abort_run) h
    abort_run-IsDropped (starting run_id) e = rw (e, abort_run) (h.0, ground (arith, h.1, e))

    pub note_paused-IsDropped : (d : Dispatcher) → m.dispatcher ≡ d → IsDropped (note_paused m)
    unfolding note_paused
    note_paused-IsDropped stopped e = rw (e, note_paused) h
    note_paused-IsDropped waiting e = rw (e, note_paused) h
    note_paused-IsDropped (starting run_id) e = rw (e, note_paused) h
    note_paused-IsDropped (ended run_id raised) e = rw (e, note_paused) h
    note_paused-IsDropped (executing run_id) e =
        rw (e, note_paused)
          (
            is_cancelled-modify (set_status paused) run_id m (λ control. refl) ∙ h.0,
            ground (arith, h.1, e),
          )

    pub finish_run-IsDropped :
        (outcome : Outcome) (time : ℕ) (d : Dispatcher)
        → m.dispatcher ≡ d
        → IsDropped (finish_run outcome time m)
    unfolding finish_run
    finish_run-IsDropped outcome time stopped e = rw (e, finish_run) h
    finish_run-IsDropped outcome time waiting e = rw (e, finish_run) h
    finish_run-IsDropped outcome time (starting run_id) e = rw (e, finish_run) h
    finish_run-IsDropped outcome time (ended run_id raised) e = rw (e, finish_run) h
    finish_run-IsDropped outcome time (executing run_id) e =
        rw (e, finish_run)
          (
            is_cancelled-modify (end_control outcome time) run_id m
                  (λ control. end_control-cancel outcome time control)
                ∙ h.0,
            ground (arith, h.1, e),
          )

    pub end_run-IsDropped :
        (limit : ℕ) (d : Dispatcher) → m.dispatcher ≡ d → IsDropped (end_run limit m)
    unfolding end_run
    end_run-IsDropped limit stopped e = rw (e, end_run) h
    end_run-IsDropped limit waiting e = rw (e, end_run) h
    end_run-IsDropped limit (starting run_id) e = rw (e, end_run) h
    end_run-IsDropped limit (executing run_id) e = rw (e, end_run) h
    end_run-IsDropped limit (ended run_id raised) e =
        rw (e, end_run)
          (refresh-IsDropped
            (prune_history limit
              (record m { active_run_id = none; dispatcher = if raised then stopped else waiting }))
            (ground (arith, get?-prune id limit m.runs, h.0), ground arith))
    -- The id of the run was given out, and the run is cancelled and not held.
