-- ===== src/Downloads/Queue.antt =====
-- `ModelDownloadQueue` of backend/tools/shared/download_queue.py. Times, transfer rates and the
-- estimates that are computed from them are left out, and so are the callbacks.
pub mod Positions
pub mod Validity
pub mod Operations
pub mod Invariant
pub mod Turns
pub mod Stops
use lluna.Prelude.{
  ℕ, zero, suc, ◌+◌, ◌-◌, min, String, Bool, true, false, ◌&&◌, ◌||◌, Option, none, some, List, [],
  ◌∷◌, ◌++◌, length, take, ltb, if◌then◌else◌,
}
use mathlib.Core.Option
use lluna.Prelude.Int.{ℤ, clamp}
use lluna.Prelude.Key.{string_key, nat_key, ◌==◌}

pub record Job : Type 0 where
  pub job_id : ℕ
  pub kind : String
  pub key : String
  pub operation : String
  pub progress : Option ℕ
  pub detail : String
  pub cancel_event : Bool
  pub stop_requested : Bool

pub data State : Type 0 where
  active stopping queued completed cancelled failed : State

-- `none` is the position -1.
pub record DownloadJobSnapshot : Type 0 where
  pub job_id : ℕ
  pub kind : String
  pub key : String
  pub operation : String
  pub state : State
  pub position : Option ℕ
  pub progress : Option ℕ
  pub detail : String
  pub error : String

-- `worker` says that a worker thread is alive.
pub record ModelDownloadQueue : Type 0 where
  pub queue : List Job
  pub current : Option Job
  pub worker : Bool
  pub history : List DownloadJobSnapshot
  pub next_job_id : ℕ

abbrev pub init : ModelDownloadQueue
init = record { queue = []; current = none; worker = false; history = []; next_job_id = 1 }

-- How `work_fn` ends: it returns, raises DownloadCancelled, or raises something else.
pub data Outcome : Type 0 where
  returns : Outcome
  raises_cancelled raises_other : String → Outcome

unfoldable pub matches : String → String → Job → Bool
matches kind key job = job.kind == kind && job.key == key

-- `(*([self._current] if self._current else []), *self._queue)`
abbrev pub with_current : Option Job → List Job → List Job
with_current none jobs = jobs
with_current (some job) jobs = job ∷ jobs

abbrev pub live : ModelDownloadQueue → List Job
live s = with_current s.current s.queue

-- Some job of the list is for `(kind, key)`.
unfoldable pub present : String → String → List Job → Bool
unfolding matches
present kind key [] = false
present kind key (job ∷ jobs) = matches kind key job || present kind key jobs

-- The loop of `_position_unlocked` over the queue.
unfoldable pub scan : String → String → ℕ → List Job → Option ℕ
unfolding matches
scan kind key ahead [] = none
scan kind key ahead (job ∷ jobs) =
    if matches kind key job then some ahead else scan kind key (ahead + 1) jobs

unfoldable pub queue_position : String → String → ModelDownloadQueue → Option ℕ
unfolding scan
queue_position kind key s = elim s.current [
  | none ↦ scan kind key 0 s.queue
  | some job ↦ if matches kind key job then some 0 else scan kind key 1 s.queue
]

unfoldable pub job_state : String → String → ModelDownloadQueue → Option State
unfolding present
job_state kind key s =
    let waiting = if present kind key s.queue then some queued else none in
    elim s.current [
      | none ↦ waiting
      | some job ↦ if matches kind key job then some active else waiting
    ]

abbrev pub new_job : ℕ → String → String → String → Job
new_job job_id kind key operation = record {
  job_id = job_id;
  kind = kind;
  key = key;
  operation = operation;
  progress = none;
  detail = "";
  cancel_event = false;
  stop_requested = false;
}

unfoldable pub enqueue :
    String → String → String → ModelDownloadQueue → ModelDownloadQueue × Option ℕ
enqueue kind key operation s =
    let job = new_job s.next_job_id kind key operation in
    let s' = record s {
      queue = s.queue ++ job ∷ [];
      next_job_id = s.next_job_id + 1;
      worker = true;
    } in
    if present kind key (live s)
    then (s, queue_position kind key s)
    else (s', queue_position kind key s')

abbrev pub snapshot : Job → State → Option ℕ → String → DownloadJobSnapshot
snapshot job state position error = record {
  job_id = job.job_id;
  kind = job.kind;
  key = job.key;
  operation = job.operation;
  state = state;
  position = position;
  progress = job.progress;
  detail = job.detail;
  error = error;
}

snapshots : ℕ → List Job → List DownloadJobSnapshot
snapshots ahead [] = []
snapshots ahead (job ∷ jobs) = snapshot job queued (some ahead) "" ∷ snapshots (ahead + 1) jobs

unfoldable pub jobs : Bool → ModelDownloadQueue → List DownloadJobSnapshot
unfolding snapshots
jobs include_finished s =
    let finished = if include_finished then s.history else [] in
    elim s.current [
      | none ↦ snapshots 0 s.queue ++ finished
      | some job ↦
          snapshot job (if job.stop_requested then stopping else active) (some 0) ""
          ∷ (snapshots 1 s.queue ++ finished)
    ]

unfoldable pub is_busy : ModelDownloadQueue → Bool
is_busy s = elim s.current [ some _ ↦ true | none ↦ elim s.queue [ [] ↦ false | _ ∷ _ ↦ true ] ]

unfoldable pub pending_count : ModelDownloadQueue → ℕ
pending_count s = length s.queue + elim s.current [ none ↦ 0 | some _ ↦ 1 ]

-- `history.insert(0, item); del history[20:]`
abbrev pub record_history :
    DownloadJobSnapshot → List DownloadJobSnapshot → List DownloadJobSnapshot
record_history item history = take 20 (item ∷ history)

-- The waiting job of this id, and the queue without it.
unfoldable pub pull : ℕ → List Job → Option (Job × List Job)
pull job_id [] = none
pull job_id (job ∷ rest) =
    if job.job_id == job_id
    then some (job, rest)
    else elim (pull job_id rest) [ none ↦ none | some (j, left) ↦ some (j, job ∷ left) ]

abbrev pub stop_running : Job → Job
stop_running job = if job.stop_requested then job else record job {
  stop_requested = true;
  cancel_event = true;
  detail = "Cancelling and rolling back installation…";
}

unfoldable pub stop_waiting : ℕ → ModelDownloadQueue → ModelDownloadQueue × Bool
stop_waiting job_id s = elim (pull job_id s.queue) [
  | none ↦ (s, false)
  | some (job, rest) ↦
      let stopped = record job { stop_requested = true } in
      let item = snapshot stopped cancelled none "Download stopped by user" in
      (record s { queue = rest; history = record_history item s.history }, true)
]

unfoldable pub stop_job : ℕ → ModelDownloadQueue → ModelDownloadQueue × Bool
stop_job job_id s = elim s.current [
  | none ↦ stop_waiting job_id s
  | some job ↦
      if job.job_id == job_id
      then (record s { current = some (stop_running job) }, true)
      else stop_waiting job_id s
]

unfoldable pub clear_finished : ModelDownloadQueue → ModelDownloadQueue
clear_finished s = record s { history = [] }

-- The first block of the worker's loop. With an empty queue the thread ends.
unfoldable pub worker_take : ModelDownloadQueue → ModelDownloadQueue
worker_take s = elim s.queue [
  | [] ↦ record s { current = none; worker = false }
  | job ∷ rest ↦ record s { queue = rest; current = some job }
]

abbrev pub finished : Job → Outcome → DownloadJobSnapshot
finished job returns = snapshot (record job { progress = some 100 }) completed none ""
finished job (raises_cancelled error) = snapshot job cancelled none error
finished job (raises_other error) = snapshot job failed none error

-- The second block of the worker's loop, once `work_fn` has ended. The worker's `job` is the
-- current one: no one else writes `_current`.
unfoldable pub worker_finish : Outcome → ModelDownloadQueue → ModelDownloadQueue
worker_finish outcome s = elim s.current [
  | none ↦ s
  | some job ↦ record s {
    current = none;
    history = record_history (finished job outcome) s.history;
  }
]

-- Every update of the active job; whether the listeners hear of it is left out.
unfoldable pub report_current_progress : Option ℤ → String → ModelDownloadQueue → ModelDownloadQueue
report_current_progress percent detail s = elim s.current [
  | none ↦ s
  | some job ↦
      let job' = record job { progress = Option.map (clamp 100) percent; detail = detail } in
      record s { current = some job' }
]
