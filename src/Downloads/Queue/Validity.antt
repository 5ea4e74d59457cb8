-- ===== src/Downloads/Queue/Validity.antt =====
-- The invariant of the jobs of backend/tools/shared/download_queue.py, and what stays of them when one
-- is added or taken out.
use lluna.Prelude.{
  ℕ, suc, ◌+◌, ◌≤◌, String, ◌≡◌, ◌≢◌, ◌⊎◌, refl, false, ◌||◌, Option, none, some, List, [], ◌∷◌,
  ◌++◌, length, length-take, arith, Bool-cases, inl, inr, Option-cases,
}
use lluna.Prelude.Key.{string_key, nat_key}
use lluna.Downloads.Queue.{
  Job, DownloadJobSnapshot, ModelDownloadQueue, matches, live, with_current, present, pull,
  record_history,
}
use lluna.Downloads.Queue.Positions.{IsDistinct}

-- The ids grow along the list, from `lo`, and stay below `hi`.
abbrev pub IsAscending : ℕ → ℕ → List Job → Type 0
IsAscending lo hi [] = lo ≤ hi
IsAscending lo hi (job ∷ jobs) = (lo ≤ job.job_id) × IsAscending (suc job.job_id) hi jobs

-- One job for each `(kind, key)`, in the order of the ids; and no job waits without a worker.
pub record IsValid (s : ModelDownloadQueue) : Type 0 where
  pub distinct : IsDistinct (live s)
  pub ascending : IsAscending 0 s.next_job_id (live s)
  pub bounded : length s.history ≤ 20
  pub served : s.worker ≡ false → live s ≡ []

IsAscending-le : (lo hi : ℕ) (jobs : List Job) → IsAscending lo hi jobs → lo ≤ hi
IsAscending-le lo hi [] h = h
IsAscending-le lo hi (job ∷ jobs) h = omega (arith, IsAscending-le (suc job.job_id) hi jobs h.1)

pub IsAscending-weaken :
    (lo' lo hi : ℕ) (jobs : List Job) → lo' ≤ lo → IsAscending lo hi jobs → IsAscending lo' hi jobs
IsAscending-weaken lo' lo hi [] le h = omega arith
IsAscending-weaken lo' lo hi (job ∷ jobs) le h = (omega arith, h.1)

pub IsAscending-snoc :
    (lo hi : ℕ) (jobs : List Job) (job : Job)
    → IsAscending lo hi jobs
    → job.job_id ≡ hi
    → IsAscending lo (hi + 1) (jobs ++ job ∷ [])
IsAscending-snoc lo hi [] job h e = omega arith
IsAscending-snoc lo hi (j ∷ jobs) job h e = (h.0, IsAscending-snoc (suc j.job_id) hi jobs job h.1 e)

present-append :
    (kind key : String) (jobs : List Job) (job : Job)
    → present kind key (jobs ++ job ∷ []) ≡ (present kind key jobs || matches kind key job)
unfolding present
present-append kind key [] job = ground arith
present-append kind key (j ∷ jobs) job = ground (arith, present-append kind key jobs job)

matches_sym : (i j : Job) → matches i.kind i.key j ≡ matches j.kind j.key i
unfolding matches
matches_sym i j = ground (
  arith,
  string_key.test_iff i.kind j.kind,
  string_key.test_iff j.kind i.kind,
  string_key.test_iff i.key j.key,
  string_key.test_iff j.key i.key,
)

pub IsDistinct-snoc :
    (jobs : List Job) (job : Job)
    → IsDistinct jobs
    → present job.kind job.key jobs ≡ false
    → IsDistinct (jobs ++ job ∷ [])
unfolding present
IsDistinct-snoc [] job d h = (refl, tt)
IsDistinct-snoc (j ∷ jobs) job d h = (
  ground (arith, present-append j.kind j.key jobs job, matches_sym j job, d.0),
  IsDistinct-snoc jobs job d.1 (ground arith),
)

-- `pull` takes one job out and leaves the others in their order.
pub pull-cons :
    (job_id : ℕ) (j : Job) (jobs : List Job) (job : Job) (rest : List Job)
    → pull job_id (j ∷ jobs) ≡ some (job, rest)
    → (j ≡ job) × (rest ≡ jobs) × (j.job_id ≡ job_id)
      ⊎ ((left : List Job) × (pull job_id jobs ≡ some (job, left))
          × (rest ≡ j ∷ left)
          × (j.job_id ≢ job_id))
unfolding pull
pull-cons job_id j jobs job rest e = elim (Bool-cases (nat_key.test j.job_id job_id)) [
  | inl here ↦ inl (ground (arith, e, here), ground (arith, e, here), ground (arith, here))
  | inr past ↦ elim (Option-cases (pull job_id jobs)) [
    | inl gone ↦ ground (arith, e, past, gone)
    | inr (found, there) ↦ inr (
      found.1,
      ground (arith, e, past, there),
      ground (arith, e, past, there),
      ground (arith, past),
    )
  ]
]

present-pull :
    (kind key : String) (job_id : ℕ) (jobs : List Job) (job : Job) (rest : List Job)
    → pull job_id jobs ≡ some (job, rest)
    → present kind key jobs ≡ false
    → present kind key rest ≡ false
unfolding pull present
present-pull kind key job_id [] job rest e h = cc
present-pull kind key job_id (j ∷ jobs) job rest e h = elim (pull-cons job_id j jobs job rest e) [
  | inl (same, all, it) ↦ rw all (ground arith)
  | inr (left, there, all, other) ↦
      rw all (ground (arith, present-pull kind key job_id jobs job left there))
]

IsDistinct-pull :
    (job_id : ℕ) (jobs : List Job) (job : Job) (rest : List Job)
    → pull job_id jobs ≡ some (job, rest)
    → IsDistinct jobs
    → IsDistinct rest
unfolding pull
IsDistinct-pull job_id [] job rest e d = cc
IsDistinct-pull job_id (j ∷ jobs) job rest e d = elim (pull-cons job_id j jobs job rest e) [
  | inl (same, all, it) ↦ rw all d.1
  | inr (left, there, all, other) ↦ rw all (
    present-pull j.kind j.key job_id jobs job left there d.0,
    IsDistinct-pull job_id jobs job left there d.1,
  )
]

IsAscending-pull :
    (lo hi job_id : ℕ) (jobs : List Job) (job : Job) (rest : List Job)
    → pull job_id jobs ≡ some (job, rest)
    → IsAscending lo hi jobs
    → IsAscending lo hi rest
unfolding pull
IsAscending-pull lo hi job_id [] job rest e h = cc
IsAscending-pull lo hi job_id (j ∷ jobs) job rest e h = elim (pull-cons job_id j jobs job rest e) [
  | inl (same, all, it) ↦ rw all (IsAscending-weaken lo (suc j.job_id) hi jobs (omega arith) h.1)
  | inr (left, there, all, other) ↦
      rw all (h.0, IsAscending-pull (suc j.job_id) hi job_id jobs job left there h.1)
]

module _ (job_id : ℕ) (jobs : List Job) (job : Job) (rest : List Job)
    (e : pull job_id jobs ≡ some (job, rest)) where
  pub IsDistinct-with_current :
      (c : Option Job) → IsDistinct (with_current c jobs) → IsDistinct (with_current c rest)
  IsDistinct-with_current none d = IsDistinct-pull job_id jobs job rest e d
  IsDistinct-with_current (some j) d = (
    present-pull j.kind j.key job_id jobs job rest e d.0,
    IsDistinct-pull job_id jobs job rest e d.1,
  )

  pub IsAscending-with_current :
      (c : Option Job) (hi : ℕ)
      → IsAscending 0 hi (with_current c jobs)
      → IsAscending 0 hi (with_current c rest)
  IsAscending-with_current none hi h = IsAscending-pull 0 hi job_id jobs job rest e h
  IsAscending-with_current (some j) hi h =
      (h.0, IsAscending-pull (suc j.job_id) hi job_id jobs job rest e h.1)

  -- If a job can be pulled out, some job is live.
  pub live-pull : (c : Option Job) → with_current c jobs ≢ []
  unfolding pull
  live-pull none h = ground (arith, h, e)
  live-pull (some j) h = cc

pub length-record_history :
    (item : DownloadJobSnapshot) (history : List DownloadJobSnapshot)
    → length (record_history item history) ≤ 20
length-record_history item history = omega (arith, length-take 20 (item ∷ history))
