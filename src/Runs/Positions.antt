-- ===== src/Runs/Positions.antt =====
-- What `_refresh_queue_positions_locked` of backend/graph/executor.py leaves as it is.
use mathlib.Core.Option
use lluna.Prelude.{
  ℕ, ◌+◌, String, ◌≡◌, refl, ap, ◌∙◌, true, false, Option, none, some, List, [], ◌∷◌, map, arith,
  if◌then◌else◌, Option-cases, inl, inr, Bool-cases,
}
use lluna.Prelude.Key.{string_key, ◌==◌}
use lluna.Prelude.Sets.{elem}
use lluna.Prelude.Distinct.{IsDistinct}
use lluna.Prelude.Dict.{Dict, get?, modify, get?-modify, map_values, get?-map_values}
use lluna.Runs.Manager.{
  RunControl, Entry, RunManager, is_queued, is_waiting, unplace, place, number,
  refresh_queue_positions,
}

-- All of the control but its position in the queue.
abbrev pub core : RunControl → RunControl
core control = record control { queue_position = none }

core-unplace : (control : RunControl) → core (unplace control) ≡ core control
core-unplace control = elim (Bool-cases (is_queued control.status)) [
  | inl waits ↦ rw waits refl
  | inr gone ↦ rw gone refl
]

core-get?-unplace :
    (o : Option RunControl) → Option.map core (Option.map unplace o) ≡ Option.map core o
core-get?-unplace none = refl
core-get?-unplace (some control) = ap some (core-unplace control)

core-get?-place :
    (p : ℕ) (o : Option RunControl) → Option.map core (Option.map (place p) o) ≡ Option.map core o
core-get?-place p none = refl
core-get?-place p (some control) = refl

core-get?-number :
    (id : String) (runs : Dict String RunControl) (p : ℕ) (queue : List Entry)
    → Option.map core (get? id (number runs p queue)) ≡ Option.map core (get? id runs)
unfolding number
core-get?-number id runs p [] = refl
core-get?-number id runs p (entry ∷ queue) =
    elim (Bool-cases (is_waiting (get? entry.run_id runs))) [
      | inl waits ↦
          rw (waits, number)
            (core-get?-number id (modify entry.run_id (place p) runs) (p + 1) queue
              ∙ ground (
                arith,
                get?-modify entry.run_id id (place p) runs,
                core-get?-place p (get? id runs),
              ))
      | inr gone ↦ rw (gone, number) (core-get?-number id runs p queue)
    ]

pub core-get?-refresh :
    (id : String) (m : RunManager)
    → Option.map core (get? id (refresh_queue_positions m).runs) ≡ Option.map core (get? id m.runs)
core-get?-refresh id m =
    core-get?-number id (map_values unplace m.runs) 1 m.queue
    ∙ ap (Option.map core) (get?-map_values id unplace m.runs)
    ∙ core-get?-unplace (get? id m.runs)

-- The ids in the queue whose runs wait.
unfoldable pub waiting_ids : Dict String RunControl → List Entry → List String
waiting_ids runs [] = []
waiting_ids runs (entry ∷ queue) =
    if is_waiting (get? entry.run_id runs)
    then entry.run_id ∷ waiting_ids runs queue
    else waiting_ids runs queue

-- At which place the text stands in the list, counted from `n`.
abbrev pub index_from : ℕ → String → List String → Option ℕ
index_from n id [] = none
index_from n id (x ∷ xs) = if id == x then some n else index_from (n + 1) id xs

is_waiting-core : (o : Option RunControl) → is_waiting (Option.map core o) ≡ is_waiting o
unfolding is_waiting
is_waiting-core none = refl
is_waiting-core (some control) = refl

waiting_ids-core :
    (runs' runs : Dict String RunControl) (queue : List Entry)
    → ((id : String) → Option.map core (get? id runs') ≡ Option.map core (get? id runs))
    → waiting_ids runs' queue ≡ waiting_ids runs queue
unfolding waiting_ids
waiting_ids-core runs' runs [] same = refl
waiting_ids-core runs' runs (entry ∷ queue) same = ground (
  arith,
  is_waiting-core (get? entry.run_id runs'),
  is_waiting-core (get? entry.run_id runs),
  same entry.run_id,
  waiting_ids-core runs' runs queue same,
)

index_from-waiting_ids :
    (n : ℕ) (id : String) (runs : Dict String RunControl) (queue : List Entry)
    → elem id (map (λ entry. entry.run_id) queue) ≡ false
    → index_from n id (waiting_ids runs queue) ≡ none
unfolding waiting_ids elem
index_from-waiting_ids n id runs [] h = refl
index_from-waiting_ids n id runs (entry ∷ queue) h =
    ground (
      arith,
      h,
      index_from-waiting_ids n id runs queue,
      index_from-waiting_ids (n + 1) id runs queue,
    )

-- The control with this position, if there is one.
abbrev pub placed_at : Option ℕ → Option RunControl → Option RunControl
placed_at none o = o
placed_at (some n) o = Option.map (place n) o

get?-number :
    (id : String) (p : ℕ) (runs : Dict String RunControl) (queue : List Entry)
    → IsDistinct (map (λ entry. entry.run_id) queue)
    → get? id (number runs p queue)
      ≡ placed_at (index_from p id (waiting_ids runs queue)) (get? id runs)
unfolding number waiting_ids
get?-number id p runs [] d = refl
get?-number id p runs (entry ∷ queue) d = elim (Bool-cases (is_waiting (get? entry.run_id runs))) [
  | inl waits ↦
      let runs' = modify entry.run_id (place p) runs in
      let modified = λ (i : String). get?-modify entry.run_id i (place p) runs in
      let same =
        waiting_ids-core runs' runs queue
          (λ i. ground (arith, modified i, core-get?-place p (get? i runs))) in
      rw (waits, number) ground
        (
          arith,
          get?-number id (p + 1) runs' queue d.1,
          same,
          modified id,
          d.0,
          index_from-waiting_ids (p + 1) id runs queue,
          string_key.test_iff id entry.run_id,
        )
  | inr gone ↦ rw (gone, number) (get?-number id p runs queue d.1)
]

-- After a refresh, a queued run has the position at which it stands, counted from 1, among the
-- runs of the queue that are neither cancelled nor started, and no position if it is not there.
pub queue_position_lem :
    (m : RunManager) (id : String) (control : RunControl)
    → IsDistinct (map (λ entry. entry.run_id) m.queue)
    → get? id m.runs ≡ some control
    → is_queued control.status ≡ true
    → get? id (refresh_queue_positions m).runs
      ≡ some (record control { queue_position = index_from 1 id (waiting_ids m.runs m.queue) })
queue_position_lem m id control d there waits =
    let first = map_values unplace m.runs in
    let same = waiting_ids-core first m.runs m.queue (λ i.
      ap (Option.map core) (get?-map_values i unplace m.runs)
      ∙ core-get?-unplace (get? i m.runs)) in
    elim (Option-cases (index_from 1 id (waiting_ids m.runs m.queue))) [
      | inl out ↦ ground (
        arith,
        get?-number id 1 first m.queue d,
        same,
        get?-map_values id unplace m.runs,
        there,
        waits,
        out,
      )
      | inr (n, at) ↦ ground (
        arith,
        get?-number id 1 first m.queue d,
        same,
        get?-map_values id unplace m.runs,
        there,
        waits,
        at,
      )
    ]
