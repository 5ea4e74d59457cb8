-- ===== src/Inference/Steps/Ids.antt =====
-- When the state of `InferClient` is well formed, and the ids of the jobs that wait.
use lluna.Prelude.{
  ℕ, ◌≤◌, ◌<◌, Bool, true, false, Option, none, some, List, [], ◌∷◌, ◌≡◌, refl, arith, inl, inr,
  Bool-cases,
}
use lluna.Prelude.Key.{nat_key, string_key}
use lluna.Inference.Client.{
  InferClient, ActiveJob, PendingJob, ensure_started, start_worker, kill_worker, is_alive,
  is_toggled,
}
use lluna.Inference.Jobs.{names}

-- The jobs are the same.
abbrev pub Same : InferClient → InferClient → Type 0
Same s t =
    (t.active ≡ s.active)
    × (t.pending ≡ s.pending)
    × (t.wait_queue ≡ s.wait_queue)
    × (t.calls ≡ s.calls)
    × (t.run_counter ≡ s.run_counter)

start_worker-Same : (hw answers : Bool) (s : InferClient) → Same s (start_worker hw answers s).0
start_worker-Same hw true s = (refl, refl, refl, refl, refl)
start_worker-Same hw false s = (refl, refl, refl, refl, refl)

pub ensure_started-Same :
    (hw answers : Bool) (s : InferClient) → Same s (ensure_started hw answers s).0
unfolding ensure_started
ensure_started-Same hw answers s = elim (Bool-cases (is_alive s)) [
  | inr e ↦ rw (ensure_started, e) (start_worker-Same hw answers s)
  | inl e ↦ elim (Bool-cases (is_toggled hw s)) [
    | inr f ↦ rw (ensure_started, e, f) (refl, refl, refl, refl, refl)
    | inl f ↦ rw (ensure_started, e, f) (start_worker-Same hw answers (kill_worker s))
  ]
]

-- The ids that wait are ascending, above the floor and not above the counter.
abbrev pub Waits : ℕ → ℕ → List PendingJob → Type 0
Waits floor counter [] = Unit
Waits floor counter (job ∷ jobs) =
    (id : ℕ) × (job.run_id ≡ some id) × (floor < id) × (id ≤ counter) × Waits id counter jobs

-- No job with the id waits.
abbrev pub Absent : ℕ → List PendingJob → Type 0
Absent run_id [] = Unit
Absent run_id (job ∷ jobs) = (names run_id job ≡ false) × Absent run_id jobs

abbrev pub Working : Option ActiveJob → Option PendingJob → List PendingJob → ℕ → Type 0
Working none pending queue counter = (pending ≡ none) × (queue ≡ [])
Working (some active) pending queue counter =
    (active.finished ≡ false) × (active.run_id ≤ counter) × Absent active.run_id queue

abbrev pub Slot : Option PendingJob → Type 0
Slot none = Unit
Slot (some job) = job.run_id ≡ none

-- The active job is not finished, and its id does not wait; ids wait in ascending order, and none
-- was given out twice; and if no job is active, none waits.
abbrev pub IsValid : InferClient → Type 0
IsValid s =
    Working s.active s.pending s.wait_queue s.run_counter
    × Slot s.pending
    × Waits 0 s.run_counter s.wait_queue

pub Waits-lower :
    (floor floor' counter : ℕ) (jobs : List PendingJob)
    → floor' ≤ floor
    → Waits floor counter jobs
    → Waits floor' counter jobs
Waits-lower floor floor' counter [] l w = tt
Waits-lower floor floor' counter (job ∷ jobs) l (id, e, above, below, rest) =
    (id, e, omega arith, below, rest)

pub Waits-raise :
    (floor counter counter' : ℕ) (jobs : List PendingJob)
    → counter ≤ counter'
    → Waits floor counter jobs
    → Waits floor counter' jobs
Waits-raise floor counter counter' [] l w = tt
Waits-raise floor counter counter' (job ∷ jobs) l (id, e, above, below, rest) =
    (id, e, above, omega arith, Waits-raise id counter counter' jobs l rest)

-- An id above the counter does not wait, nor one that is not above the floor.
pub Waits-Absent-above :
    (floor counter id : ℕ) (jobs : List PendingJob)
    → counter < id
    → Waits floor counter jobs
    → Absent id jobs
Waits-Absent-above floor counter id [] l w = tt
Waits-Absent-above floor counter id (job ∷ jobs) l (own, e, above, below, rest) =
    (ground (arith, e, nat_key.test_iff own id), Waits-Absent-above own counter id jobs l rest)

pub Waits-Absent-below :
    (floor counter id : ℕ) (jobs : List PendingJob)
    → id ≤ floor
    → Waits floor counter jobs
    → Absent id jobs
Waits-Absent-below floor counter id [] l w = tt
Waits-Absent-below floor counter id (job ∷ jobs) l (own, e, above, below, rest) = (
  ground (arith, e, nat_key.test_iff own id),
  Waits-Absent-below own counter id jobs (omega arith) rest,
)
