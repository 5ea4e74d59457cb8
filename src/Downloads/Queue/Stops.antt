-- ===== src/Downloads/Queue/Stops.antt =====
-- What `stop_job` of backend/tools/shared/download_queue.py does.
use lluna.Prelude.{
  ℕ, suc, ◌<◌, ◌≡◌, refl, Bool, true, false, not, ◌||◌, take, Option, none, some, List, [], ◌∷◌,
  arith, Option-cases, inl, inr,
}
use lluna.Prelude.Key.{nat_key, ◌==◌}
use lluna.Downloads.Queue.{
  Job, DownloadJobSnapshot, snapshot, record_history, cancelled, ModelDownloadQueue, live,
  with_current, pull, stop_job, stop_waiting, stop_running,
}
use lluna.Downloads.Queue.Validity.{IsAscending, IsValid, pull-cons}

-- Some job of the list has this id.
abbrev pub has_id : ℕ → List Job → Bool
has_id job_id [] = false
has_id job_id (job ∷ jobs) = job.job_id == job_id || has_id job_id jobs

has_id-pull :
    (job_id : ℕ) (jobs : List Job)
    → has_id job_id jobs ≡ elim (pull job_id jobs) [ none ↦ false | some _ ↦ true ]
unfolding pull
has_id-pull job_id [] = refl
has_id-pull job_id (job ∷ jobs) = ground (arith, has_id-pull job_id jobs)

not-has_id :
    (job_id lo hi : ℕ) (jobs : List Job)
    → IsAscending lo hi jobs
    → job_id < lo
    → has_id job_id jobs ≡ false
not-has_id job_id lo hi [] h lt = refl
not-has_id job_id lo hi (job ∷ jobs) h lt =
    ground (arith, not-has_id job_id (suc job.job_id) hi jobs h.1)

-- `stop_job` returns true exactly when a live job has the id.
pub stop_job_result :
    (job_id : ℕ) (s : ModelDownloadQueue) → (stop_job job_id s).1 ≡ has_id job_id (live s)
unfolding stop_job stop_waiting
stop_job_result job_id s = ground (arith, has_id-pull job_id s.queue)

pulled-has_id :
    (job_id lo hi : ℕ) (jobs : List Job) (job : Job) (rest : List Job)
    → pull job_id jobs ≡ some (job, rest)
    → IsAscending lo hi jobs
    → (job.job_id ≡ job_id) × (has_id job_id rest ≡ false)
unfolding pull
pulled-has_id job_id lo hi [] job rest e h = cc
pulled-has_id job_id lo hi (j ∷ jobs) job rest e h = elim (pull-cons job_id j jobs job rest e) [
  | inl (same, all, it) ↦ (
    ground (arith, same, it),
    rw all (not-has_id job_id (suc j.job_id) hi jobs h.1 (omega arith)),
  )
  | inr (left, there, all, other) ↦
      let (named, gone) = pulled-has_id job_id (suc j.job_id) hi jobs job left there h.1 in
      (named, rw all (ground (arith, gone, other)))
]

abbrev pulled : Job → DownloadJobSnapshot
pulled job =
    snapshot (record job { stop_requested = true }) cancelled none "Download stopped by user"

-- In a valid state the running job does not have the id of a waiting one.
not-current :
    (job_id : ℕ) (s : ModelDownloadQueue) (c : Option Job)
    → IsAscending 0 s.next_job_id (with_current c s.queue)
    → has_id job_id s.queue ≡ true
    → has_id job_id (with_current c []) ≡ false
not-current job_id s none a h = refl
not-current job_id s (some j) a h =
    ground (arith, h, not-has_id job_id (suc j.job_id) s.next_job_id s.queue a.1)

stop_job-pulled :
    (job_id : ℕ) (s : ModelDownloadQueue) (job : Job) (rest : List Job)
    → IsValid s
    → has_id job_id s.queue ≡ true
    → pull job_id s.queue ≡ some (job, rest)
    → stop_job job_id s
      ≡ (record s { queue = rest; history = record_history (pulled job) s.history }, true)
unfolding stop_job stop_waiting
stop_job-pulled job_id s job rest v h e =
    ground (arith, e, not-current job_id s s.current v.ascending h)

queue-IsAscending :
    (hi : ℕ) (c : Option Job) (jobs : List Job)
    → IsAscending 0 hi (with_current c jobs)
    → (lo : ℕ) × IsAscending lo hi jobs
queue-IsAscending hi none jobs a = (0, a)
queue-IsAscending hi (some j) jobs a = (suc j.job_id, a.1)

pulled_id :
    (job_id : ℕ) (s : ModelDownloadQueue) (job : Job) (rest : List Job)
    → IsValid s
    → pull job_id s.queue ≡ some (job, rest)
    → job.job_id ≡ job_id
pulled_id job_id s job rest v e =
    let (lo, a) = queue-IsAscending s.next_job_id s.current s.queue v.ascending in
    (pulled-has_id job_id lo s.next_job_id s.queue job rest e a).0

gone_pulled :
    (job_id : ℕ) (s : ModelDownloadQueue) (job : Job) (rest : List Job) (c : Option Job)
    → IsAscending 0 s.next_job_id (with_current c s.queue)
    → pull job_id s.queue ≡ some (job, rest)
    → has_id job_id s.queue ≡ true
    → has_id job_id (with_current c rest) ≡ false
gone_pulled job_id s job rest none a e h =
    (pulled-has_id job_id 0 s.next_job_id s.queue job rest e a).1
gone_pulled job_id s job rest (some j) a e h = ground (
  arith,
  (pulled-has_id job_id (suc j.job_id) s.next_job_id s.queue job rest e a.1).1,
  not-current job_id s (some j) a h,
)

-- Stopping a waiting job takes it out: no live job has its id afterwards, and the newest entry of
-- the history says that it was cancelled. The running job and the worker are left alone.
pub stop_job_waiting :
    (job_id : ℕ) (s : ModelDownloadQueue)
    → IsValid s
    → has_id job_id s.queue ≡ true
    → (has_id job_id (live (stop_job job_id s).0) ≡ false)
      × ((stop_job job_id s).0.current ≡ s.current)
      × ((stop_job job_id s).0.worker ≡ s.worker)
      × ((item : DownloadJobSnapshot) × (rest : List DownloadJobSnapshot) × ((stop_job job_id
              s).0.history
            ≡ item ∷ rest)
          × (item.job_id ≡ job_id)
          × (item.state ≡ cancelled))
stop_job_waiting job_id s v h = elim (Option-cases (pull job_id s.queue)) [
  | inl gone ↦ ground (arith, h, gone, has_id-pull job_id s.queue)
  | inr (found, there) ↦ rw (stop_job-pulled job_id s found.0 found.1 v h there) (
    gone_pulled job_id s found.0 found.1 s.current v.ascending there h,
    refl,
    refl,
    (pulled found.0, take 19 s.history, refl, pulled_id job_id s found.0 found.1 v there, refl),
  )
]

-- Stopping the running job only asks it to stop: it stays the running job, marked as stopping; its
-- cancel event is set unless it was asked before. The queue and the history stay as they are.
pub stop_job_running :
    (job_id : ℕ) (s : ModelDownloadQueue) (job : Job)
    → s.current ≡ some job
    → job.job_id ≡ job_id
    → (job' : Job) × ((stop_job job_id s).0 ≡ record s { current = some job' })
      × (job'.job_id ≡ job_id)
      × (job'.stop_requested ≡ true)
      × (job'.cancel_event ≡ (not job.stop_requested || job.cancel_event))
unfolding stop_job
stop_job_running job_id s job e it =
    (stop_running job, ground (arith, e, it), ground (arith, it), ground arith, ground arith)
