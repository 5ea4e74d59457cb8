-- ===== src/Runs/Cancellation.antt =====
-- What `cancel` of backend/graph/executor.py does to the queue that `queue_snapshot` shows.
use mathlib.Core.Option
use lluna.Prelude.{
  ℕ, String, ◌≡◌, refl, sym, ap, subst, ◌∙◌, Bool, false, not, ◌&&◌, Option, none, some, List, [],
  ◌∷◌, map, reject, inl, inr, arith, Option-cases,
}
use lluna.Prelude.Key.{string_key, ◌==◌}
use lluna.Prelude.Dict.{Dict, get?, get?-modify}
use lluna.Runs.Manager.{
  RunControl, Entry, RunManager, is_queued, write, write_run, set_cancel, mark_cancel, control_run,
  cancel, refresh_queue_positions,
}
use lluna.Runs.Dispatch.{pending, queue_snapshot}
use lluna.Runs.Positions.{core, core-get?-refresh}

-- The run is known and has the status QUEUED.
abbrev is_listed : Option RunControl → Bool
is_listed none = false
is_listed (some control) = is_queued control.status

is_listed-core : (o : Option RunControl) → is_listed (Option.map core o) ≡ is_listed o
is_listed-core none = refl
is_listed-core (some control) = refl

is_listed-refresh :
    (id : String) (m : RunManager)
    → is_listed (get? id (refresh_queue_positions m).runs) ≡ is_listed (get? id m.runs)
is_listed-refresh id m =
    sym (is_listed-core (get? id (refresh_queue_positions m).runs))
    ∙ ap is_listed (core-get?-refresh id m)
    ∙ is_listed-core (get? id m.runs)

-- The runs of a queue that are listed.
abbrev pub run_ids : List (String × RunControl) → List String
run_ids runs = map (λ run. run.0) runs

run_ids-pending :
    (run_id : String) (runs after : Dict String RunControl) (queue : List Entry)
    → ((id : String) → is_listed (get? id after) ≡ (is_listed (get? id runs) && not (id == run_id)))
    → run_ids (pending queue after) ≡ reject (λ id. id == run_id) (run_ids (pending queue runs))
unfolding pending
run_ids-pending run_id runs after [] same = refl
run_ids-pending run_id runs after (entry ∷ queue) same =
    let rest = run_ids-pending run_id runs after queue same in
    elim (Option-cases (get? entry.run_id runs)) [
      | inl e ↦ elim (Option-cases (get? entry.run_id after)) [
        | inl e' ↦ ground (arith, rest, e, e')
        | inr (c', e') ↦ ground (arith, rest, e, e', same entry.run_id)
      ]
      | inr (c, e) ↦ elim (Option-cases (get? entry.run_id after)) [
        | inl e' ↦ ground (arith, rest, e, e', same entry.run_id)
        | inr (c', e') ↦ ground (arith, rest, e, e', same entry.run_id)
      ]
    ]

is_listed-writes :
    (run_id id : String) (now : ℕ) (m : RunManager)
    → is_listed (get? id (write_run run_id (mark_cancel now) (write_run run_id set_cancel m)).runs)
      ≡ (is_listed (get? id m.runs) && not (id == run_id))
unfolding write
is_listed-writes run_id id now m =
    let first = write_run run_id set_cancel m in
    elim (Option-cases (get? id m.runs)) [
      | inl e ↦ ground (
        arith,
        e,
        get?-modify run_id id (write set_cancel) m.runs,
        get?-modify run_id id (write (mark_cancel now)) first.runs,
      )
      | inr (control, e) ↦ ground (
        arith,
        e,
        get?-modify run_id id (write set_cancel) m.runs,
        get?-modify run_id id (write (mark_cancel now)) first.runs,
      )
    ]

-- If `cancel` returns, `queue_snapshot` lists the same pending runs after it as before it, in the
-- same order, but for the run that is cancelled.
pub queue_snapshot-cancel :
    (run_id : String) (now : ℕ) (m m' : RunManager)
    → cancel run_id now m ≡ some m'
    → run_ids (queue_snapshot m').1 ≡ reject (λ id. id == run_id) (run_ids (queue_snapshot m).1)
unfolding cancel control_run queue_snapshot
queue_snapshot-cancel run_id now m m' h = elim (Option-cases (get? run_id m.runs)) [
  | inl gone ↦ ground (arith, gone)
  | inr (control, there) ↦
      let both = write_run run_id (mark_cancel now) (write_run run_id set_cancel m) in
      let at : refresh_queue_positions both ≡ m' = ground (arith, there) in
      subst
        (λ t.
          run_ids (queue_snapshot t).1 ≡ reject (λ id. id == run_id) (run_ids (queue_snapshot m).1))
        at
        (run_ids-pending run_id (refresh_queue_positions m).runs
          (refresh_queue_positions (refresh_queue_positions both)).runs m.queue
          (λ id.
            is_listed-refresh id (refresh_queue_positions both)
            ∙ is_listed-refresh id both
            ∙ is_listed-writes run_id id now m
            ∙ ap (λ b. b && not (id == run_id)) (sym (is_listed-refresh id m))))
]
