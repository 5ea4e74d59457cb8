-- ===== src/Downloads/Queue/Positions.antt =====
-- Positions in the queue of backend/tools/shared/download_queue.py.
use lluna.Prelude.{
  ℕ, zero, suc, ◌+◌, String, ◌≡◌, refl, ap, ◌∙◌, Bool-cases, inl, inr, ◌↔◌, Bool, true, false,
  Option, none, some, List, [], ◌∷◌, ◌++◌, length, get_elem?, if◌then◌else◌, arith,
}
use lluna.Prelude.Key.{string_key, nat_key}
use lluna.Downloads.Queue.{
  Job, ModelDownloadQueue, matches, live, present, scan, new_job, queue_position, enqueue,
}

-- No two jobs of the list are for the same `(kind, key)`.
abbrev pub IsDistinct : List Job → Type 0
IsDistinct [] = Unit
IsDistinct (job ∷ jobs) = (present job.kind job.key jobs ≡ false) × IsDistinct jobs

abbrev shift : ℕ → Option ℕ → Option ℕ
shift n none = none
shift n (some i) = some (n + i)

-- The index of the first job for `(kind, key)`.
pub index_of : String → String → List Job → Option ℕ
index_of kind key [] = none
index_of kind key (job ∷ jobs) =
    if matches kind key job then some 0 else shift 1 (index_of kind key jobs)

scan-eq-shift :
    (kind key : String) (ahead : ℕ) (jobs : List Job)
    → scan kind key ahead jobs ≡ shift ahead (index_of kind key jobs)
unfolding scan index_of
scan-eq-shift kind key ahead [] = refl
scan-eq-shift kind key ahead (job ∷ jobs) = ground (arith, scan-eq-shift kind key (ahead + 1) jobs)

-- The current job counts as the head of the list.
pub queue_position-eq-index_of :
    (kind key : String) (s : ModelDownloadQueue)
    → queue_position kind key s ≡ index_of kind key (live s)
unfolding queue_position index_of
queue_position-eq-index_of kind key s =
    ground (arith, scan-eq-shift kind key 0 s.queue, scan-eq-shift kind key 1 s.queue)

index_of-none :
    (kind key : String) (jobs : List Job)
    → present kind key jobs ≡ false
    → index_of kind key jobs ≡ none
unfolding index_of present
index_of-none kind key [] h = refl
index_of-none kind key (job ∷ jobs) h = ground (arith, index_of-none kind key jobs)

present_of_get_elem? :
    (kind key : String) (jobs : List Job) (p : ℕ) (job : Job)
    → get_elem? jobs p ≡ some job
    → matches kind key job ≡ true
    → present kind key jobs ≡ true
unfolding present
present_of_get_elem? kind key [] p job at fits = cc
present_of_get_elem? kind key (j ∷ jobs) zero job at fits = ground arith
present_of_get_elem? kind key (j ∷ jobs) (suc p) job at fits =
    ground (arith, present_of_get_elem? kind key jobs p job at fits)

pub get_elem?-index_of :
    (kind key : String) (jobs : List Job) (p : ℕ)
    → index_of kind key jobs ≡ some p
    → (job : Job) × (get_elem? jobs p ≡ some job) × (matches kind key job ≡ true)
unfolding index_of
get_elem?-index_of kind key [] p h = cc
get_elem?-index_of kind key (job ∷ jobs) zero h = (job, refl, ground arith)
get_elem?-index_of kind key (job ∷ jobs) (suc p) h =
    get_elem?-index_of kind key jobs p (ground arith)

pub index_of-cons :
    (kind key : String) (job : Job) (jobs : List Job) (n : ℕ)
    → index_of kind key (job ∷ jobs) ≡ some (suc n)
    → index_of kind key jobs ≡ some n
unfolding index_of
index_of-cons kind key job jobs n h = ground arith

index_of-get_elem? :
    (kind key : String) (jobs : List Job) (p : ℕ) (job : Job)
    → IsDistinct jobs
    → get_elem? jobs p ≡ some job
    → matches kind key job ≡ true
    → index_of kind key jobs ≡ some p
unfolding index_of matches
index_of-get_elem? kind key [] p job d at fits = cc
index_of-get_elem? kind key (j ∷ jobs) zero job d at fits = ground arith
index_of-get_elem? kind key (j ∷ jobs) (suc p) job d at fits = ground (
  arith,
  index_of-get_elem? kind key jobs p job d.1 at fits,
  present_of_get_elem? j.kind j.key jobs p job at,
  string_key.test_iff job.kind kind,
  string_key.test_iff job.key key,
  string_key.test_iff j.kind kind,
  string_key.test_iff j.key key,
  string_key.test_iff job.kind j.kind,
  string_key.test_iff job.key j.key,
)

index_of-append :
    (kind key : String) (jobs : List Job) (job : Job)
    → present kind key jobs ≡ false
    → matches kind key job ≡ true
    → index_of kind key (jobs ++ job ∷ []) ≡ some (length jobs)
unfolding index_of present
index_of-append kind key [] job h fits = ground arith
index_of-append kind key (j ∷ jobs) job h fits = ground (arith, index_of-append kind key jobs job)

-- `live` behind an enqueued job.
pub live-append :
    (s : ModelDownloadQueue) (job : Job) (n : ℕ) (w : Bool)
    → live (record s { queue = s.queue ++ job ∷ []; next_job_id = n; worker = w })
      ≡ live s ++ job ∷ []
live-append s job n w = ground arith

-- Without two jobs for one `(kind, key)`, `queue_position` is `p` exactly when the job at index `p`,
-- counted from the running job or else from the head of the queue, is for that `(kind, key)`.
pub queue_position_iff :
    (kind key : String) (s : ModelDownloadQueue) (p : ℕ)
    → IsDistinct (live s)
    → (queue_position kind key s ≡ some p)
      ↔ ((job : Job) × (get_elem? (live s) p ≡ some job) × (matches kind key job ≡ true))
queue_position_iff kind key s p d = (
  λ h. get_elem?-index_of kind key (live s) p (rw queue_position-eq-index_of at h),
  λ (job, at, fits).
      rw queue_position-eq-index_of (index_of-get_elem? kind key (live s) p job d at fits),
)

matches_self :
    (job_id : ℕ) (kind key operation : String)
    → matches kind key (new_job job_id kind key operation) ≡ true
unfolding matches
matches_self job_id kind key operation =
    ground (arith, string_key.test_iff kind kind, string_key.test_iff key key)

-- A job that is neither running nor waiting joins the queue at its end: every other job keeps its
-- place, the position returned is the number of jobs before it, and a worker is alive.
pub enqueue_new :
    (kind key operation : String) (s : ModelDownloadQueue)
    → present kind key (live s) ≡ false
    → (live (enqueue kind key operation s).0
        ≡ live s ++ new_job s.next_job_id kind key operation ∷ [])
      × ((enqueue kind key operation s).1 ≡ some (length (live s)))
      × ((enqueue kind key operation s).0.worker ≡ true)
unfolding enqueue
enqueue_new kind key operation s h =
    let job = new_job s.next_job_id kind key operation in
    let joined = live-append s job (s.next_job_id + 1) true in
    rw h (
      joined,
      queue_position-eq-index_of kind key _
          ∙ ap (index_of kind key) joined
          ∙ index_of-append kind key (live s) job h (matches_self s.next_job_id kind key operation),
      refl,
    )

present-append :
    (kind key : String) (jobs : List Job) (job : Job)
    → matches kind key job ≡ true
    → present kind key (jobs ++ job ∷ []) ≡ true
unfolding present
present-append kind key [] job fits = ground arith
present-append kind key (j ∷ jobs) job fits = ground (arith, present-append kind key jobs job fits)

pub enqueue_old :
    (kind key operation : String) (s : ModelDownloadQueue)
    → present kind key (live s) ≡ true
    → enqueue kind key operation s ≡ (s, queue_position kind key s)
unfolding enqueue
enqueue_old kind key operation s h = rw h

present-enqueue :
    (kind key operation : String) (s : ModelDownloadQueue)
    → present kind key (live (enqueue kind key operation s).0) ≡ true
present-enqueue kind key operation s = elim (Bool-cases (present kind key (live s))) [
  | inl old ↦ rw (enqueue_old kind key operation s old) old
  | inr new ↦
      let job = new_job s.next_job_id kind key operation in
      let fits = matches_self s.next_job_id kind key operation in
      rw (enqueue_new kind key operation s new).0 (present-append kind key (live s) job fits)
]

-- Enqueueing a job twice is enqueueing it once: the second call changes nothing, and it returns
-- the job's position.
pub enqueue_again :
    (kind key operation again : String) (s : ModelDownloadQueue)
    → enqueue kind key again (enqueue kind key operation s).0
      ≡ ((enqueue kind key operation s).0, queue_position kind key (enqueue kind key operation s).0)
enqueue_again kind key operation again s =
    enqueue_old kind key again _ (present-enqueue kind key operation s)
