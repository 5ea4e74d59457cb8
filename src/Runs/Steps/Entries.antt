-- ===== src/Runs/Steps/Entries.antt =====
-- Each run stands once at most in the queue of backend/graph/executor.py.

use lluna.Prelude.{
  ℕ, String, ◌≡◌, refl, sym, subst, Bool, true, false, ◌||◌, some, List, [], ◌∷◌, map, arith,
  Bool-cases, inl, inr,
}
use lluna.Prelude.Key.{string_key, ◌==◌}
use lluna.Prelude.Sets.{elem, elem_tail}
use lluna.Prelude.Distinct.{IsDistinct}
use lluna.Prelude.Dict.{get?}
use lluna.Prelude.Sort.{insert}
use lluna.Runs.Manager.{
  RunControl, Entry, Dispatcher, stopped, waiting, starting, executing, ended, RunManager,
  is_queued, entry_le, new_entry, start, push_run, refresh_queue_positions,
}
use lluna.Runs.Dispatch.{take_run, dispatch}
use lluna.Runs.Positions.{index_from, waiting_ids, queue_position_lem}
use lluna.Runs.Steps.{
  System, initial, Step, starts, writes, refreshes, shuts_down, dispatches, begins, aborts,
  notes_paused, finishes, ends, Reach, here, next,
}
use lluna.Runs.Steps.Ordering.{
  ensure_dispatcher-queue, take_run-queue, begin_run-queue, abort_run-queue, note_paused-queue,
  finish_run-queue, end_run-queue,
}

abbrev run_ids : List Entry → List String
run_ids queue = map (λ entry. entry.run_id) queue

elem-insert :
    (x : String) (entry : Entry) (queue : List Entry)
    → elem x (run_ids (insert entry_le entry queue)) ≡ (x == entry.run_id || elem x (run_ids queue))
unfolding insert elem
elem-insert x entry [] = refl
elem-insert x entry (e ∷ queue) = ground (arith, elem-insert x entry queue)

insert-IsDistinct :
    (entry : Entry) (queue : List Entry)
    → elem entry.run_id (run_ids queue) ≡ false
    → IsDistinct (run_ids queue)
    → IsDistinct (run_ids (insert entry_le entry queue))
unfolding insert elem
insert-IsDistinct entry [] new d = (refl, tt)
insert-IsDistinct entry (e ∷ queue) new d = elim (Bool-cases (entry_le entry e)) [
  | inl below ↦ rw (below, insert) (new, d)
  | inr above ↦
      rw (above, insert)
        (
          ground (
            arith,
            elem-insert e.run_id entry queue,
            new,
            d.0,
            string_key.test_iff e.run_id entry.run_id,
            string_key.test_iff entry.run_id e.run_id,
          ),
          insert-IsDistinct entry queue (ground (arith, new)) d.1,
        )
]

-- The ids in the queue were given out, and no two are the same.
record HasEntries (used : List String) (queue : List Entry) : Type 0 where
  distinct : IsDistinct (run_ids queue)
  given : (x : String) → elem x (run_ids queue) ≡ true → elem x used ≡ true

tail-HasEntries :
    (used : List String) (e : Entry) (queue : List Entry)
    → HasEntries used (e ∷ queue)
    → HasEntries used queue
tail-HasEntries used e queue h = record {
  distinct = h.distinct.1;
  given = λ x m. h.given x (elem_tail x e.run_id (run_ids queue) m);
}

new-HasEntries :
    (used : List String) (entry : Entry) (queue : List Entry)
    → elem entry.run_id used ≡ false
    → HasEntries used queue
    → HasEntries (entry.run_id ∷ used) (insert entry_le entry queue)
unfolding elem
new-HasEntries used entry queue new h = record {
  distinct = insert-IsDistinct entry queue (ground (arith, h.given entry.run_id, new)) h.distinct;
  given = λ x m. ground (arith, elem-insert x entry queue, m, h.given x);
}

module _ (used : List String) (m : RunManager) (h : HasEntries used m.queue) where
  pop-HasEntries :
      (queue : List Entry)
      → m.queue ≡ queue
      → HasEntries used
          (elim m.queue as (λ x. RunManager) [
            | [] ↦ m
            | entry ∷ rest ↦
                refresh_queue_positions (take_run entry.run_id (record m { queue = rest }))
          ]).queue
  pop-HasEntries [] q = rw q h
  pop-HasEntries (entry ∷ rest) q =
      let popped = record m { queue = rest } in
      let same = take_run-queue entry.run_id popped in
      rw q (
        subst (HasEntries used) (sym same.0)
          (tail-HasEntries used entry rest (subst (HasEntries used) q h)))

  dispatch-HasEntries : (d : Dispatcher) → m.dispatcher ≡ d → HasEntries used (dispatch m).queue
  unfolding dispatch
  dispatch-HasEntries stopped e = rw (e, dispatch) h
  dispatch-HasEntries (starting run_id) e = rw (e, dispatch) h
  dispatch-HasEntries (executing run_id) e = rw (e, dispatch) h
  dispatch-HasEntries (ended run_id raised) e = rw (e, dispatch) h
  dispatch-HasEntries waiting e = elim (Bool-cases m.is_shutdown) [
    | inl down ↦ rw (e, dispatch, down) h
    | inr up ↦ rw (e, dispatch, up) (pop-HasEntries m.queue refl)
  ]

abbrev Holds : System → Type 0
Holds s = HasEntries s.used s.manager.queue

start-queue :
    (run_id : String) (queue_front : Bool) (now : ℕ) (m : RunManager)
    → (start run_id queue_front now m).queue
      ≡ insert entry_le (new_entry run_id queue_front m) m.queue
unfolding start
start-queue run_id queue_front now m =
    (ensure_dispatcher-queue (refresh_queue_positions (push_run run_id queue_front now m))).0

Step-Holds : (s t : System) → Step s t → Holds s → Holds t
Step-Holds s t (starts run_id queue_front now new) h =
    subst (HasEntries (run_id ∷ s.used)) (sym (start-queue run_id queue_front now s.manager))
      (new-HasEntries s.used (new_entry run_id queue_front s.manager) s.manager.queue new h)
Step-Holds s t (writes run_id w) h = h
Step-Holds s t refreshes h = h
Step-Holds s t shuts_down h = h
Step-Holds s t dispatches h = dispatch-HasEntries s.used s.manager h _ refl
Step-Holds s t begins h = subst (HasEntries s.used) (sym (begin_run-queue s.manager).0) h
Step-Holds s t aborts h = subst (HasEntries s.used) (sym (abort_run-queue s.manager).0) h
Step-Holds s t notes_paused h = subst (HasEntries s.used) (sym (note_paused-queue s.manager).0) h
Step-Holds s t (finishes outcome now) h =
    subst (HasEntries s.used) (sym (finish_run-queue outcome now s.manager).0) h
Step-Holds s t (ends limit) h = subst (HasEntries s.used) (sym (end_run-queue limit s.manager).0) h

Reach-Holds : (s : System) → Reach initial s → Holds s
unfolding elem
Reach-Holds s here = record { distinct = tt; given = λ x m. ground (arith, m) }
Reach-Holds s (next {t} r step) = Step-Holds t s step (Reach-Holds t r)

-- In every state that the run manager can come to, a refresh gives a queued run the position at
-- which it stands, counted from 1, among the runs of the queue that are neither cancelled nor
-- started, and no position if it is not there.
pub reached_queue_position :
    (s : System)
    → Reach initial s
    → (id : String) (control : RunControl) → get? id s.manager.runs ≡ some control
    → is_queued control.status ≡ true
    → get? id (refresh_queue_positions s.manager).runs
      ≡ some (record control {
        queue_position = index_from 1 id (waiting_ids s.manager.runs s.manager.queue);
      })
reached_queue_position s r id control there waits =
    queue_position_lem s.manager id control (Reach-Holds s r).distinct there waits
