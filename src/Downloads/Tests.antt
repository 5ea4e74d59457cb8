-- ===== src/Downloads/Tests.antt =====
-- Small runs of the download queue of backend/tools/shared/download_queue.py.
use lluna.Prelude.{◌≡◌, refl, true, some, [], ◌∷◌, length}
use lluna.Downloads.Queue.{
  Job, ModelDownloadQueue, queued, raises_other, init, matches, present, scan, pull, new_job,
  enqueue, queue_position, job_state, jobs, stop_job, stop_waiting, worker_take, worker_finish,
}
use lluna.Downloads.Queue.Validity.{IsValid}
use lluna.Downloads.Queue.Invariant.{Reach, here, next, enqueued, taken, Reach-IsValid}
use lluna.Downloads.Queue.Turns.{turns, served_in_turn}

abbrev first : Job
first = new_job 1 "enhance" "x2plus" "install"

abbrev second : Job
second = new_job 2 "sam3" "sam3" "install"

-- The first job runs and the second waits.
abbrev busy : ModelDownloadQueue
busy = record {
  queue = second ∷ [];
  current = some first;
  worker = true;
  history = [];
  next_job_id = 3;
}

code : Unit {0}
unfolding enqueue queue_position present matches scan worker_take worker_finish stop_job
    stop_waiting pull job_state jobs
code = tt

Reach-busy : Reach init busy
unfolding code
Reach-busy =
    next (next (next here (enqueued "enhance" "x2plus" "install" refl)) (taken refl refl refl))
      (enqueued "sam3" "sam3" "install" refl)

Reach-IsValid_example : IsValid busy
Reach-IsValid_example = Reach-IsValid Reach-busy

second_is_next : queue_position "sam3" "sam3" busy ≡ some 1
unfolding code
second_is_next = refl

served_in_turn_example :
    (job : Job) × ((turns (raises_other "no space" ∷ []) busy).current ≡ some job)
    × (matches "sam3" "sam3" job ≡ true)
served_in_turn_example =
    served_in_turn "sam3" "sam3" (raises_other "no space" ∷ []) busy first refl second_is_next

second_waits : job_state "sam3" "sam3" busy ≡ some queued
unfolding code
second_waits = refl

two_jobs : length (jobs true busy) ≡ 2
unfolding code
two_jobs = refl
