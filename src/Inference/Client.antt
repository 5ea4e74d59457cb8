-- ===== src/Inference/Client.antt =====
-- `InferClient` of backend/tools/inference/client.py: one worker process and the jobs that are sent
-- to it. Each function is a block of the code that holds the lock. Clocks and log lines are left
-- out; the callbacks of a job are named by its owner, and `calls` lists the calls that are made.
use lluna.Prelude.{
  ℕ, ◌+◌, max, String, Bool, true, false, not, Option, none, some, List, [], ◌∷◌, ◌++◌,
  if◌then◌else◌,
}
use lluna.Prelude.Key.{string_key, nat_key, ◌==◌}
use lluna.Prelude.Sets.{elem}

pub data Command : Type 0 where
  ping : Option ℕ → Command
  start cancel : ℕ → Command
  shutdown : Command

pub data Call : Type 0 where
  on_progress on_log on_preview on_done : ℕ → Call
  on_result : ℕ → String → Call
  on_error : ℕ → String → Call

-- `_JobCallbacks`
pub record ActiveJob : Type 0 where
  pub run_id : ℕ
  pub job_type : String
  pub owner : ℕ
  pub hard_cancel : Bool
  pub finished : Bool

pub record PendingJob : Type 0 where
  pub job_type : String
  pub owner : ℕ
  pub hard_cancel : Bool
  pub run_id : Option ℕ

-- The processes have numbers: `live` are those that run, `process` the one that the client holds.
pub record InferClient : Type 0 where
  pub process : Option ℕ
  pub live : List ℕ
  pub spawned : ℕ
  pub hw_accel : Option Bool
  pub ready : Bool
  pub commands : List Command
  pub reader_alive : Bool
  pub stopping : Bool
  pub shutdown_done : Bool
  pub run_counter : ℕ
  pub active : Option ActiveJob
  pub pending : Option PendingJob
  pub wait_queue : List PendingJob
  pub calls : List Call

unfoldable pub new_client : InferClient
new_client = record {
  process = none;
  live = [];
  spawned = 0;
  hw_accel = none;
  ready = false;
  commands = [];
  reader_alive = false;
  stopping = false;
  shutdown_done = false;
  run_counter = 0;
  active = none;
  pending = none;
  wait_queue = [];
  calls = [];
}

unfoldable pub without : ℕ → List ℕ → List ℕ
without pid [] = []
without pid (p ∷ ps) = if pid == p then without pid ps else p ∷ without pid ps

-- `_spawn_unlocked`: the queues are new.
abbrev pub spawn : Bool → InferClient → InferClient
spawn hw s = record s {
  process = some (s.spawned + 1);
  live = (s.spawned + 1) ∷ s.live;
  spawned = s.spawned + 1;
  hw_accel = some hw;
  ready = false;
  commands = ping none ∷ [];
  reader_alive = true;
  stopping = false;
}

-- `_kill_worker_unlocked`
abbrev pub kill_worker : InferClient → InferClient
kill_worker s = record s {
  process = none;
  ready = false;
  commands = elim s.process [ none ↦ s.commands | some pid ↦ s.commands ++ shutdown ∷ [] ];
  live = elim s.process [ none ↦ s.live | some pid ↦ without pid s.live ];
}

abbrev pub is_alive : InferClient → Bool
is_alive s = elim s.process [ none ↦ false | some pid ↦ elem pid s.live ]

-- `self._hw_accel is not None and self._hw_accel != hw`
abbrev pub is_toggled : Bool → InferClient → Bool
is_toggled hw s = elim s.hw_accel [ none ↦ false | some old ↦ if old then not hw else hw ]

-- A new worker that answers the handshake, or WorkerStartupError: the second component is false.
abbrev pub start_worker : Bool → Bool → InferClient → InferClient × Bool
start_worker hw answers s =
    if answers
    then (record (spawn hw s) { ready = true }, true)
    else (kill_worker (spawn hw s), false)

-- `hw` is the setting, `answers` whether a new worker answers in time.
unfoldable pub ensure_started : Bool → Bool → InferClient → InferClient × Bool
unfolding elem without
ensure_started hw answers s =
    if is_alive s
    then if is_toggled hw s then start_worker hw answers (kill_worker s) else (s, true)
    else start_worker hw answers s

-- `_start_unlocked`: a queued job has its id already.
abbrev pub start_unlocked : PendingJob → InferClient → InferClient
start_unlocked job s =
    let run_id : ℕ = elim job.run_id [ none ↦ s.run_counter + 1 | some id ↦ id ] in
    record s {
      run_counter = elim job.run_id [ none ↦ s.run_counter + 1 | some id ↦ max s.run_counter id ];
      active = some (record {
        run_id = run_id;
        job_type = job.job_type;
        owner = job.owner;
        hard_cancel = job.hard_cancel;
        finished = false;
      });
      commands = s.commands ++ start run_id ∷ [];
    }

-- What follows `ensure_started` in `_flush_pending_unlocked`; the calls come before the job.
abbrev pub launch : PendingJob → List Call → InferClient × Bool → InferClient × Bool
launch job calls (s, false) = (s, false)
launch job calls (s, true) = (start_unlocked job (record s { calls = s.calls ++ calls }), true)

unfoldable pub flush_pending : Bool → Bool → InferClient → InferClient × Bool
unfolding ensure_started
flush_pending hw answers s = elim s.pending [
  | some job ↦ launch job [] (ensure_started hw answers (record s { pending = none }))
  | none ↦ elim s.wait_queue [
    | [] ↦ (s, true)
    | job ∷ rest ↦
        launch job (on_log job.owner ∷ [])
          (ensure_started hw answers (record s { wait_queue = rest }))
  ]
]
