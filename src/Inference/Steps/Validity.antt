-- ===== src/Inference/Steps/Validity.antt =====
-- The state of `InferClient` is well formed at all times.
use lluna.Prelude.{
  ℕ, ◌+◌, ◌≤◌, String, Bool, true, false, not, ◌||◌, none, some, List, [], ◌∷◌, ◌++◌, ◌≡◌, ◌≢◌,
  refl, sym, ap, subst, arith, inl, inr, Bool-cases, Option-cases,
}
use lluna.Prelude.Key.{nat_key, string_key, ◌==◌}
use lluna.Inference.Client.{
  InferClient, new_client, ActiveJob, PendingJob, on_log, on_done, on_error, ensure_started,
  is_alive,
}
use lluna.Inference.Starts.{
  raised, Started, start_job, start_ready, start_beside, start_alone, once_started, provisional,
  job_of, request_release, shutdown_client, is_busy,
}
use lluna.Inference.Jobs.{cancel_active}
use lluna.Inference.Steps.{
  Reach, begin, started, replaced, told, silent, watched, cancelled, released, stopped, exited,
}
use lluna.Inference.Steps.Ids.{Same, ensure_started-Same, Waits, Absent, Working, IsValid}
use lluna.Inference.Steps.Flush.{fresh-IsValid, Same-IsValid, dispatch-IsValid}
use lluna.Inference.Steps.Failures.{silence-IsValid, watch-IsValid, cancel_active-IsValid}
use lluna.Inference.Steps.Cancels.{cancel-IsValid}

Waits-snoc :
    (floor counter : ℕ) (jobs : List PendingJob) (job : PendingJob)
    → floor ≤ counter
    → job.run_id ≡ some (counter + 1)
    → Waits floor counter jobs
    → Waits floor (counter + 1) (jobs ++ job ∷ [])
Waits-snoc floor counter [] job l r w = (counter + 1, r, omega arith, omega arith, tt)
Waits-snoc floor counter (j ∷ jobs) job l r (id, e, above, below, more) =
    (id, e, above, omega arith, Waits-snoc id counter jobs job below r more)

Absent-snoc :
    (id counter : ℕ) (jobs : List PendingJob) (job : PendingJob)
    → id ≤ counter
    → job.run_id ≡ some (counter + 1)
    → Absent id jobs
    → Absent id (jobs ++ job ∷ [])
Absent-snoc id counter [] job l r w = (ground (arith, r, nat_key.test_iff (counter + 1) id), tt)
Absent-snoc id counter (j ∷ jobs) job l r (e, more) = (e, Absent-snoc id counter jobs job l r more)

pub provisional_inv :
    (p : InferClient × Bool) (s' : InferClient) (outcome : Started)
    → provisional p ≡ (s', outcome)
    → outcome ≢ raised
    → p ≡ (s', true)
provisional_inv (t, true) s' outcome h fine = ap (λ q. (q.0, true)) h
provisional_inv (t, false) s' outcome h fine = absurd (fine (sym (ap (λ q. q.1) h)))

beside-IsValid :
    (hw answers : Bool) (job_type : String) (owner : ℕ) (coalesce : Bool) (active : ActiveJob)
    (s s' : InferClient) (outcome : Started)
    → IsValid s
    → s.active ≡ some active
    → start_beside hw answers job_type owner coalesce active s ≡ (s', outcome)
    → outcome ≢ raised
    → IsValid s'
unfolding start_beside
beside-IsValid hw answers job_type owner true active s s' outcome (working, slot, w) a h fine =
    let slotted : InferClient = record s { pending = some (job_of job_type owner none) } in
    let valid : IsValid slotted =
      (rw a (subst (λ o. Working o s.pending s.wait_queue s.run_counter) a working), refl, w) in
    let g : cancel_active hw answers none slotted ≡ (s', true) =
      provisional_inv (cancel_active hw answers none slotted) s' outcome h fine in
    cancel_active-IsValid hw answers none slotted s' valid g
beside-IsValid hw answers job_type owner false active s s' outcome (working, slot, w) a h fine =
    let counter = s.run_counter in
    let job = job_of job_type owner (some (counter + 1)) in
    let (f, below, absent) =
      subst (λ o. Working o s.pending s.wait_queue s.run_counter) a working in
    elim (Bool-cases (active.job_type == job_type)) [
      | inl e ↦
          let queued : InferClient = record s {
            run_counter = counter + 1;
            wait_queue = s.wait_queue ++ job ∷ [];
            calls = s.calls ++ on_log owner ∷ [];
          } in
          let at : queued ≡ s' = ground arith in
          subst IsValid at (
            rw a (
              f,
              omega arith,
              Absent-snoc active.run_id counter s.wait_queue job below refl absent,
            ),
            slot,
            Waits-snoc 0 counter s.wait_queue job (omega arith) refl w,
          )
      | inr e ↦
          let refused : InferClient = record s {
            calls = s.calls ++ on_error owner "BUSY" ∷ on_done owner ∷ [];
          } in
          let at : refused ≡ s' = ground arith in subst IsValid at (working, slot, w)
    ]

once_started_inv :
    (go : InferClient → InferClient × Started) (p : InferClient × Bool) (s' : InferClient)
    (outcome : Started)
    → once_started go p ≡ (s', outcome)
    → outcome ≢ raised
    → go p.0 ≡ (s', outcome)
once_started_inv go (t, true) s' outcome h fine = h
once_started_inv go (t, false) s' outcome h fine = absurd (fine (sym (ap (λ q. q.1) h)))

-- The state in which `start_job` has its worker.
pub start_job_inv :
    (hw answers : Bool) (job_type : String) (owner : ℕ) (coalesce : Bool) (s s' : InferClient)
    (outcome : Started)
    → start_job hw answers job_type owner coalesce s ≡ (s', outcome)
    → outcome ≢ raised
    → (t : InferClient) × Same s t
      × (start_ready hw answers job_type owner coalesce t ≡ (s', outcome))
unfolding start_job
start_job_inv hw answers job_type owner coalesce s s' outcome h fine = (
  (ensure_started hw answers s).0,
  ensure_started-Same hw answers s,
  once_started_inv (start_ready hw answers job_type owner coalesce) (ensure_started hw answers s) s'
      outcome h fine,
)

alone-IsValid :
    (job_type : String) (owner : ℕ) (s s' : InferClient) (outcome : Started)
    → IsValid s
    → start_alone job_type owner s ≡ (s', outcome)
    → IsValid s'
alone-IsValid job_type owner s s' outcome (working, slot, w) h =
    subst IsValid (ap (λ p. p.0) h) (fresh-IsValid (job_of job_type owner none) s refl slot w)

start-IsValid :
    (hw answers : Bool) (job_type : String) (owner : ℕ) (coalesce : Bool) (s s' : InferClient)
    (outcome : Started)
    → IsValid s
    → start_job hw answers job_type owner coalesce s ≡ (s', outcome)
    → outcome ≢ raised
    → IsValid s'
unfolding start_ready
start-IsValid hw answers job_type owner coalesce s s' outcome valid h fine =
    let (t, same, g) = start_job_inv hw answers job_type owner coalesce s s' outcome h fine in
    let there = Same-IsValid s t valid same.0 same.1 same.2 same.4 in
    elim (Option-cases t.active) [
      | inl e ↦
          let k : start_alone job_type owner t ≡ (s', outcome) = ground arith in
          alone-IsValid job_type owner t s' outcome there k
      | inr (active, e) ↦ elim (Bool-cases active.finished) [
        | inl f ↦
            let k : start_alone job_type owner t ≡ (s', outcome) = ground arith in
            alone-IsValid job_type owner t s' outcome there k
        | inr f ↦
            let k : start_beside hw answers job_type owner coalesce active t ≡ (s', outcome) =
              ground arith in
            beside-IsValid hw answers job_type owner coalesce active t s' outcome there e k fine
      ]
    ]

released-IsValid : (s : InferClient) → IsValid s → IsValid (request_release s)
unfolding request_release
released-IsValid s valid = elim (Bool-cases (is_busy s || not (is_alive s))) [
  | inl e ↦ rw e valid
  | inr e ↦ rw e valid
]

stopped-IsValid : (s : InferClient) → IsValid s → IsValid (shutdown_client s)
unfolding shutdown_client
stopped-IsValid s valid = elim (Bool-cases s.shutdown_done) [
  | inl e ↦ rw e valid
  | inr e ↦ rw e ((refl, refl), tt, tt)
]

-- In every state that the client can come to while no worker fails to start: the active job is not
-- finished; the ids of the waiting jobs ascend, are not above the counter, and are not the id of the
-- active job; and if no job is active, none waits.
pub IsValid-reached :
    {asked coalesced : List ℕ} {s : InferClient} → Reach asked coalesced s → IsValid s
unfolding new_client
IsValid-reached begin = ((refl, refl), tt, tt)
IsValid-reached (started hw answers job_type owner s' outcome r h fine) =
    start-IsValid hw answers job_type owner false _ s' outcome (IsValid-reached r) h fine
IsValid-reached (replaced hw answers job_type owner s' outcome r h fine) =
    start-IsValid hw answers job_type owner true _ s' outcome (IsValid-reached r) h fine
IsValid-reached (told hw answers run_id message s' r h) =
    dispatch-IsValid hw answers run_id message _ s' (IsValid-reached r) h
IsValid-reached (silent hw answers s' r h) = silence-IsValid hw answers _ s' (IsValid-reached r) h
IsValid-reached (watched hw answers timed_out quiet s' r h) =
    watch-IsValid hw answers timed_out quiet _ s' (IsValid-reached r) h
IsValid-reached (cancelled hw answers run_id s' r h) =
    cancel-IsValid hw answers run_id _ s' (IsValid-reached r) h
IsValid-reached (released r) = released-IsValid _ (IsValid-reached r)
IsValid-reached (stopped r) = stopped-IsValid _ (IsValid-reached r)
IsValid-reached (exited pid r) = IsValid-reached r
