-- ===== src/Downloads/Queue/Operations.antt =====
-- Every operation of backend/tools/shared/download_queue.py keeps its invariant.
use lluna.Prelude.{
  ℕ, suc, ◌+◌, String, ◌≡◌, refl, true, false, Option, none, some, [], ◌∷◌, arith, Bool-cases, inl,
  inr, Option-cases, List-cases,
}
use lluna.Prelude.Key.{string_key, nat_key}
use lluna.Prelude.Int.{ℤ}
use lluna.Downloads.Queue.{
  Job, ModelDownloadQueue, Outcome, live, present, enqueue, new_job, pull, stop_job, stop_waiting,
  stop_running, worker_take, worker_finish, snapshot, cancelled, finished, report_current_progress,
}
use lluna.Downloads.Queue.Positions.{IsDistinct, live-append}
use lluna.Downloads.Queue.Validity.{
  IsAscending, IsValid, IsAscending-weaken, IsAscending-snoc, IsDistinct-snoc,
  IsDistinct-with_current, IsAscending-with_current, live-pull, length-record_history,
}

pub enqueue-IsValid :
    (kind key operation : String) (s : ModelDownloadQueue)
    → IsValid s
    → IsValid (enqueue kind key operation s).0
unfolding enqueue
enqueue-IsValid kind key operation s v = elim (Bool-cases (present kind key (live s))) [
  | inl old ↦ rw old v
  | inr new ↦
      let job = new_job s.next_job_id kind key operation in
      let joined = live-append s job (s.next_job_id + 1) true in
      rw new (record {
        distinct = rw joined (IsDistinct-snoc (live s) job v.distinct new);
        ascending = rw joined (IsAscending-snoc 0 s.next_job_id (live s) job v.ascending refl);
        bounded = v.bounded;
        served = λ h. cc h;
      })
]

stop_waiting-IsValid :
    (job_id : ℕ) (s : ModelDownloadQueue) → IsValid s → IsValid (stop_waiting job_id s).0
unfolding stop_waiting
stop_waiting-IsValid job_id s v = elim (Option-cases (pull job_id s.queue)) [
  | inl gone ↦ rw (gone, stop_waiting) v
  | inr (found, there) ↦
      rw (there, stop_waiting)
        (record {
          distinct =
              IsDistinct-with_current job_id s.queue found.0 found.1 there s.current v.distinct;
          ascending =
              IsAscending-with_current job_id s.queue found.0 found.1 there s.current s.next_job_id
                v.ascending;
          bounded =
              length-record_history
                (snapshot (record found.0 { stop_requested = true }) cancelled none
                  "Download stopped by user")
                s.history;
          served =
              λ h. absurd (live-pull job_id s.queue found.0 found.1 there s.current (v.served h));
        })
]

stop_running_keeps :
    (job : Job)
    → ((stop_running job).kind ≡ job.kind)
      × ((stop_running job).key ≡ job.key)
      × ((stop_running job).job_id ≡ job.job_id)
stop_running_keeps job = ground arith

-- Rewriting the current job's other fields keeps the invariant.
update_current-IsValid :
    (s : ModelDownloadQueue) (job job' : Job)
    → s.current ≡ some job
    → (job'.kind ≡ job.kind) × (job'.key ≡ job.key) × (job'.job_id ≡ job.job_id)
    → IsValid s
    → IsValid (record s { current = some job' })
update_current-IsValid s job job' e same v =
    let d : IsDistinct (job ∷ s.queue) = rw e at v.distinct in
    let a : IsAscending 0 s.next_job_id (job ∷ s.queue) = rw e at v.ascending in
    let alive : s.worker ≡ false → live s ≡ [] = v.served in
    record {
      distinct = rw (same.0, same.1) d;
      ascending = rw same.2 a;
      bounded = v.bounded;
      served = λ h. ground (arith, e, alive h);
    }

pub stop_job-IsValid :
    (job_id : ℕ) (s : ModelDownloadQueue) → IsValid s → IsValid (stop_job job_id s).0
unfolding stop_job
stop_job-IsValid job_id s v = elim (Option-cases s.current) [
  | inl idle ↦ rw (idle, stop_job) (stop_waiting-IsValid job_id s v)
  | inr (job, e) ↦ elim (Bool-cases (nat_key.test job.job_id job_id)) [
    | inl it ↦
        rw (e, stop_job)
          (rw it (update_current-IsValid s job (stop_running job) e (stop_running_keeps job) v))
    | inr other ↦ rw (e, stop_job) (rw other (stop_waiting-IsValid job_id s v))
  ]
]

pub report-IsValid :
    (percent : Option ℤ) (detail : String) (s : ModelDownloadQueue)
    → IsValid s
    → IsValid (report_current_progress percent detail s)
unfolding report_current_progress
report-IsValid percent detail s v = elim (Option-cases s.current) [
  | inl idle ↦ rw (idle, report_current_progress) v
  | inr (job, e) ↦
      rw (e, report_current_progress) (update_current-IsValid s job _ e (refl, refl, refl) v)
]

pub take-IsValid :
    (s : ModelDownloadQueue)
    → s.worker ≡ true
    → s.current ≡ none
    → IsValid s
    → IsValid (worker_take s)
unfolding worker_take
take-IsValid s alive idle v =
    let d : IsDistinct s.queue = rw idle at v.distinct in
    let a : IsAscending 0 s.next_job_id s.queue = rw idle at v.ascending in
    elim (List-cases s.queue) [
      | inl e ↦
          rw (e, worker_take)
            (record { distinct = d; ascending = a; bounded = v.bounded; served = λ _. e })
      | inr (job, rest, e) ↦
          rw (e, worker_take)
            (record {
              distinct = rw e at d;
              ascending = rw e at a;
              bounded = v.bounded;
              served = λ h. cc (h, alive);
            })
    ]

pub finish-IsValid :
    (outcome : Outcome) (s : ModelDownloadQueue) (job : Job)
    → s.current ≡ some job
    → IsValid s
    → IsValid (worker_finish outcome s)
unfolding worker_finish
finish-IsValid outcome s job e v =
    let d : IsDistinct (job ∷ s.queue) = rw e at v.distinct in
    let a : IsAscending 0 s.next_job_id (job ∷ s.queue) = rw e at v.ascending in
    let alive : s.worker ≡ false → live s ≡ [] = v.served in
    rw (e, worker_finish)
      (record {
        distinct = d.1;
        ascending = IsAscending-weaken 0 (suc job.job_id) s.next_job_id s.queue (omega arith) a.1;
        bounded = length-record_history (finished job outcome) s.history;
        served = λ h. ground (arith, e, alive h);
      })
