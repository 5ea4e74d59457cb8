-- ===== src/Inference/Tests.antt =====
-- Two jobs of one tool, the second behind the first, and a worker that dies.
use lluna.Prelude.{ℕ, ◌≤◌, ◌+◌, true, false, none, some, [], ◌∷◌, ◌≡◌, ◌≢◌, refl, arith}
use lluna.Prelude.Key.{string_key}
use lluna.Prelude.Sets.{elem}
use lluna.Inference.Client.{
  InferClient, ActiveJob, on_log, on_error, on_done, ping, start, new_client, without,
  ensure_started, flush_pending,
}
use lluna.Inference.Starts.{accepted, busy, raised, start_job, start_ready, start_beside, job_of}
use lluna.Inference.Jobs.{note_silence, fail_active}
use lluna.Inference.Steps.{Reach, begin, started, silent, exited}
use lluna.Inference.Steps.Ids.{IsValid}
use lluna.Inference.Steps.Validity.{IsValid-reached}
use lluna.Inference.Steps.Held.{held, count}
use lluna.Inference.Steps.Accounts.{jobs_accounted}

abbrev job : ℕ → ℕ → ActiveJob
job run_id owner = record {
  run_id = run_id;
  job_type = "enhance";
  owner = owner;
  hard_cancel = false;
  finished = false;
}

abbrev alone : InferClient
alone = record {
  process = some 1;
  live = 1 ∷ [];
  spawned = 1;
  hw_accel = some true;
  ready = true;
  commands = ping none ∷ start 1 ∷ [];
  reader_alive = true;
  stopping = false;
  shutdown_done = false;
  run_counter = 1;
  active = some (job 1 5);
  pending = none;
  wait_queue = [];
  calls = [];
}

abbrev queued : InferClient
queued = record alone {
  run_counter = 2;
  wait_queue = job_of "enhance" 6 (some 2) ∷ [];
  calls = on_log 6 ∷ [];
}

first_started : start_job true true "enhance" 5 false new_client ≡ (alone, accepted 1)
unfolding start_job ensure_started start_ready start_beside new_client elem without
first_started = refl

second_queued : start_job true true "enhance" 6 false alone ≡ (queued, accepted 2)
unfolding start_job ensure_started start_ready start_beside elem without
second_queued = refl

other_refused : (start_job true true "generate" 7 false queued).1 ≡ busy
unfolding start_job ensure_started start_ready start_beside elem without
other_refused = refl

accepted_not_raised : (id : ℕ) → accepted id ≢ raised
accepted_not_raised id e = ground arith

reach_queued : Reach (6 ∷ 5 ∷ []) [] queued
reach_queued =
    started true true "enhance" 6 queued (accepted 2)
      (started true true "enhance" 5 alone (accepted 1) begin first_started (accepted_not_raised 1))
      second_queued (accepted_not_raised 2)

-- The worker has died: a new one, number 2, runs the second job, but the client forgets it.
abbrev forgotten : InferClient
forgotten = record {
  process = none;
  live = 2 ∷ [];
  spawned = 2;
  hw_accel = some true;
  ready = false;
  commands = ping none ∷ start 2 ∷ [];
  reader_alive = true;
  stopping = false;
  shutdown_done = false;
  run_counter = 2;
  active = some (job 2 6);
  pending = none;
  wait_queue = [];
  calls = on_log 6 ∷ on_error 5 "CRASH" ∷ on_done 5 ∷ on_log 6 ∷ [];
}

crash_forgets_worker : note_silence true true (record queued { live = [] }) ≡ (forgotten, true)
unfolding note_silence fail_active flush_pending ensure_started elem without
crash_forgets_worker = refl

-- The next start makes a second worker beside the first.
two_workers : (start_job true true "enhance" 7 false forgotten).0.live ≡ 3 ∷ 2 ∷ []
unfolding start_job ensure_started start_ready start_beside elem without
two_workers = refl

reach_forgotten : Reach (6 ∷ 5 ∷ []) [] forgotten
unfolding without
reach_forgotten = silent true true forgotten (exited 1 reach_queued) crash_forgets_worker

IsValid-reached_example : IsValid forgotten
IsValid-reached_example = IsValid-reached reach_forgotten

jobs_accounted_example :
    (held 5 forgotten ≤ count 5 (6 ∷ 5 ∷ []))
    × (count 5 (6 ∷ 5 ∷ []) ≤ held 5 forgotten + count 5 [])
jobs_accounted_example = jobs_accounted 5 reach_forgotten
