-- ===== src/Inference/Starts.antt =====
-- How `InferClient` (backend/tools/inference/client.py) starts a job, and how it shuts down.
use lluna.Prelude.{
  ℕ, ◌+◌, String, Bool, true, false, not, ◌||◌, Option, none, some, List, [], ◌∷◌, ◌++◌,
  if◌then◌else◌,
}
use lluna.Prelude.Key.{string_key, nat_key, ◌==◌}
use lluna.Prelude.Sets.{elem}
use lluna.Inference.Client.{
  shutdown, Call, on_log, on_done, on_error, ActiveJob, PendingJob, InferClient, without,
  kill_worker, is_alive, start_unlocked, ensure_started,
}
use lluna.Inference.Jobs.{hard_cancel_types, has_unfinished, cancel_active}

-- What `start_job` returns: the id of a run, -1, or WorkerStartupError.
pub data Started : Type 0 where
  accepted : ℕ → Started
  busy raised : Started

abbrev pub job_of : String → ℕ → Option ℕ → PendingJob
job_of job_type owner run_id = record {
  job_type = job_type;
  owner = owner;
  hard_cancel = elem job_type hard_cancel_types;
  run_id = run_id;
}

-- The return value of a coalesced start.
abbrev pub provisional : InferClient × Bool → InferClient × Started
provisional (s, true) = (s, accepted s.run_counter)
provisional (s, false) = (s, raised)

-- `start_job` while another job is active.
unfoldable pub start_beside :
    Bool → Bool → String → ℕ → Bool → ActiveJob → InferClient → InferClient × Started
unfolding cancel_active elem
start_beside hw answers job_type owner coalesce active s =
    if coalesce
    then provisional
        (cancel_active hw answers none (record s { pending = some (job_of job_type owner none) }))
    else if active.job_type == job_type
    then (
      record s {
        run_counter = s.run_counter + 1;
        wait_queue = s.wait_queue ++ job_of job_type owner (some (s.run_counter + 1)) ∷ [];
        calls = s.calls ++ on_log owner ∷ [];
      },
      accepted (s.run_counter + 1),
    )
    else (record s { calls = s.calls ++ on_error owner "BUSY" ∷ on_done owner ∷ [] }, busy)

abbrev pub start_alone : String → ℕ → InferClient → InferClient × Started
start_alone job_type owner s =
    (start_unlocked (job_of job_type owner none) s, accepted (s.run_counter + 1))

-- `start_job` once the worker runs.
unfoldable pub start_ready : Bool → Bool → String → ℕ → Bool → InferClient → InferClient × Started
unfolding start_beside elem
start_ready hw answers job_type owner coalesce s = elim s.active [
  | none ↦ start_alone job_type owner s
  | some active ↦
      if active.finished
      then start_alone job_type owner s
      else start_beside hw answers job_type owner coalesce active s
]

abbrev pub once_started :
    (InferClient → InferClient × Started) → InferClient × Bool → InferClient × Started
once_started go (s, true) = go s
once_started go (s, false) = (s, raised)

-- `ensure_started` and the block that follows it, as one step.
unfoldable pub start_job : Bool → Bool → String → ℕ → Bool → InferClient → InferClient × Started
unfolding ensure_started start_ready
start_job hw answers job_type owner coalesce s =
    once_started (start_ready hw answers job_type owner coalesce) (ensure_started hw answers s)

unfoldable pub is_busy : InferClient → Bool
is_busy s =
    has_unfinished s
    || elim s.pending [ none ↦ false | some job ↦ true ]
    || elim s.wait_queue [ [] ↦ false | job ∷ jobs ↦ true ]

-- `request_release`
unfoldable pub request_release : InferClient → InferClient
unfolding is_busy elem without
request_release s = if is_busy s || not (is_alive s) then s else kill_worker s

unfoldable pub calls_of_waiting : List PendingJob → List Call
calls_of_waiting [] = []
calls_of_waiting (job ∷ jobs) =
    on_error job.owner "__cancelled__" ∷ on_done job.owner ∷ calls_of_waiting jobs

abbrev pub calls_of_active : Option ActiveJob → List Call
calls_of_active none = []
calls_of_active (some active) =
    if active.finished
    then []
    else on_error active.owner "__cancelled__" ∷ on_done active.owner ∷ []

abbrev pub calls_of_pending : Option PendingJob → List Call
calls_of_pending none = []
calls_of_pending (some job) = on_error job.owner "__cancelled__" ∷ on_done job.owner ∷ []

-- `shutdown`, its callbacks at the end included
unfoldable pub shutdown_client : InferClient → InferClient
unfolding calls_of_waiting without
shutdown_client s =
    if s.shutdown_done
    then s
    else record (kill_worker (record s { commands = s.commands ++ shutdown ∷ [] })) {
      shutdown_done = true;
      stopping = true;
      active = none;
      pending = none;
      wait_queue = [];
      calls =
          s.calls
          ++ calls_of_active s.active
          ++ calls_of_pending s.pending
          ++ calls_of_waiting s.wait_queue;
    }

-- A worker process ends by itself.
abbrev pub exit : ℕ → InferClient → InferClient
exit pid s = record s { live = without pid s.live }
