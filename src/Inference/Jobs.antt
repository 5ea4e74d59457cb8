-- ===== src/Inference/Jobs.antt =====
-- The messages of the worker, and how `InferClient` (backend/tools/inference/client.py) ends a job.
use lluna.Prelude.{
  ℕ, String, Bool, true, false, not, ◌&&◌, ◌||◌, Option, none, some, List, [], ◌∷◌, ◌++◌,
  if◌then◌else◌,
}
use lluna.Prelude.Key.{string_key, nat_key, ◌==◌}
use lluna.Prelude.Sets.{elem}
use lluna.Inference.Client.{
  ping, cancel, Call, on_progress, on_log, on_preview, on_done, on_result, on_error, ActiveJob,
  PendingJob, InferClient, without, spawn, kill_worker, flush_pending,
}

-- `HARD_CANCEL_TYPES`
abbrev pub hard_cancel_types : List String
hard_cancel_types = "lama_retouch" ∷ "select_subject" ∷ "generate" ∷ "seedvr" ∷ []

-- The active job is cleared, and its callbacks are called.
abbrev pub end_active : List Call → InferClient → InferClient
end_active calls s = record s { active = none; calls = s.calls ++ calls }

-- A message of the worker: the run it names, and what it says.
pub data Message : Type 0 where
  progress log preview pong : Message
  result error : String → Message

abbrev pub is_stale : Option ℕ → ActiveJob → Bool
is_stale none active = false
is_stale (some run_id) active = not (run_id == active.run_id)

-- The part of `_dispatch_event` for a message of the active job. The second component is false if
-- `ensure_started` raised.
unfoldable pub handle : Bool → Bool → Message → ActiveJob → InferClient → InferClient × Bool
unfolding flush_pending
handle hw answers progress active s =
    (record s { calls = s.calls ++ on_progress active.owner ∷ [] }, true)
handle hw answers log active s = (record s { calls = s.calls ++ on_log active.owner ∷ [] }, true)
handle hw answers preview active s =
    (record s { calls = s.calls ++ on_preview active.owner ∷ [] }, true)
handle hw answers pong active s = (s, true)
handle hw answers (result path) active s =
    flush_pending hw answers
      (end_active (on_result active.owner path ∷ on_done active.owner ∷ []) s)
handle hw answers (error reason) active s =
    flush_pending hw answers
      (end_active (on_error active.owner reason ∷ on_done active.owner ∷ []) s)

abbrev pub is_handshake : Option ℕ → Message → Bool
is_handshake none pong = true
is_handshake run_id message = false

unfoldable pub dispatch_event : Bool → Bool → Option ℕ → Message → InferClient → InferClient × Bool
unfolding handle
dispatch_event hw answers run_id message s =
    if is_handshake run_id message then (record s { ready = true }, true) else elim s.active [
      | none ↦ (s, true)
      | some active ↦
          if is_stale run_id active then (s, true) else handle hw answers message active s
    ]

-- `_fail_active_unlocked` with `crash=True`
unfoldable pub fail_active : Bool → Bool → String → InferClient → InferClient × Bool
unfolding flush_pending without
fail_active hw answers reason s = elim s.active [
  | none ↦ (kill_worker s, true)
  | some active ↦
      if active.finished
      then (kill_worker s, true)
      else flush_pending hw answers (record (spawn hw (kill_worker (record s { active = none }))) {
        calls = s.calls ++ on_error active.owner reason ∷ on_done active.owner ∷ [];
      })
]

abbrev pub has_unfinished : InferClient → Bool
has_unfinished s = elim s.active [ none ↦ false | some active ↦ not active.finished ]

abbrev pub forget_process : InferClient × Bool → InferClient × Bool
forget_process (s, true) = (record s { process = none }, true)
forget_process (s, false) = (s, false)

-- The `except` branch of `_read_events`: no message came in time.
unfoldable pub note_silence : Bool → Bool → InferClient → InferClient × Bool
unfolding fail_active elem
note_silence hw answers s = elim s.process [
  | none ↦ (s, true)
  | some pid ↦
      if not (elem pid s.live) && has_unfinished s
      then forget_process (fail_active hw answers "CRASH" s)
      else (s, true)
]

-- One turn of `_watchdog_loop`: is the worker silent for too long, and for more than 15 seconds?
unfoldable pub watch : Bool → Bool → Bool → Bool → InferClient → InferClient × Bool
unfolding fail_active
watch hw answers timed_out silent s = elim s.active [
  | none ↦ (s, true)
  | some active ↦
      if active.finished
      then (s, true)
      else if timed_out
      then fail_active hw answers "TIMEOUT" s
      else (
        record s {
          commands = if silent then s.commands ++ ping (some active.run_id) ∷ [] else s.commands;
        },
        true,
      )
]

abbrev pub is_hard : ActiveJob → Bool
is_hard active = active.hard_cancel || elem active.job_type hard_cancel_types

abbrev pub is_other : Option ℕ → ActiveJob → Bool
is_other none active = false
is_other (some run_id) active = not (run_id == active.run_id)

-- `_cancel_active_unlocked`
unfoldable pub cancel_active : Bool → Bool → Option ℕ → InferClient → InferClient × Bool
unfolding flush_pending without elem
cancel_active hw answers run_id s = elim s.active [
  | none ↦ (s, true)
  | some active ↦
      if active.finished || is_other run_id active
      then (s, true)
      else if is_hard active
      then flush_pending hw answers (record (spawn hw (kill_worker (record s { active = none }))) {
        calls = s.calls ++ on_error active.owner "__cancelled__" ∷ on_done active.owner ∷ [];
      })
      else (record s { commands = s.commands ++ cancel active.run_id ∷ [] }, true)
]

abbrev pub names : ℕ → PendingJob → Bool
names run_id job = elim job.run_id [ none ↦ false | some id ↦ id == run_id ]

-- `_remove_wait_unlocked`: the job that is removed, and the rest.
unfoldable pub take_waiting : ℕ → List PendingJob → Option (PendingJob × List PendingJob)
take_waiting run_id [] = none
take_waiting run_id (job ∷ jobs) =
    let rest = take_waiting run_id jobs in
    if names run_id job
    then some (job, jobs)
    else elim rest [ none ↦ none | some (found, others) ↦ some (found, job ∷ others) ]

unfoldable pub waiting : Option ℕ → InferClient → Option (PendingJob × List PendingJob)
unfolding take_waiting
waiting none s = none
waiting (some run_id) s = take_waiting run_id s.wait_queue

unfoldable pub cancel_job : Bool → Bool → Option ℕ → InferClient → InferClient × Bool
unfolding cancel_active waiting
cancel_job hw answers run_id s = elim (waiting run_id s) [
  | some (job, rest) ↦ (
    record s {
      wait_queue = rest;
      calls = s.calls ++ on_error job.owner "__cancelled__" ∷ on_done job.owner ∷ [];
    },
    true,
  )
  | none ↦ cancel_active hw answers run_id (record s { pending = none })
]
