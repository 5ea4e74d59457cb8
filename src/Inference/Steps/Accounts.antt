-- ===== src/Inference/Steps/Accounts.antt =====
-- Every job that was asked for is in course, or its owner was told that it is done.
use lluna.Prelude.{
  ℕ, ◌+◌, ◌≤◌, String, Bool, true, false, not, ◌||◌, Option, none, some, List, [], ◌∷◌, ◌++◌, ◌≡◌,
  ◌≢◌, refl, sym, subst, ◌∙◌, arith, inl, inr, Bool-cases, Option-cases,
}
use lluna.Prelude.Key.{nat_key, string_key, ◌==◌}
use lluna.Inference.Client.{
  InferClient, new_client, ActiveJob, PendingJob, on_log, on_done, on_error, is_alive,
}
use lluna.Inference.Starts.{
  raised, Started, start_job, start_ready, start_beside, start_alone, job_of, request_release,
  shutdown_client, calls_of_waiting, calls_of_active, calls_of_pending, is_busy,
}
use lluna.Inference.Jobs.{cancel_active}
use lluna.Inference.Steps.Ids.{IsValid, Working}
use lluna.Inference.Steps.Validity.{IsValid-reached, provisional_inv, start_job_inv}
use lluna.Inference.Steps.{
  Reach, begin, started, replaced, told, silent, watched, cancelled, released, stopped, exited,
}
use lluna.Inference.Steps.Held.{
  count, done_calls, at_active, at_pending, held, done_calls-append, at_queue-append,
}
use lluna.Inference.Steps.Keeping.{
  Keeps, dispatch-Keeps, silence-Keeps, watch-Keeps, cancel_active-Keeps, cancel-Keeps,
  calls_of_waiting-at_queue, Adds,
}

start_beside-Adds :
    (owner : ℕ) (hw answers : Bool) (job_type : String) (o : ℕ) (coalesce : Bool)
    (active : ActiveJob) (s s' : InferClient) (outcome : Started)
    → start_beside hw answers job_type o coalesce active s ≡ (s', outcome)
    → outcome ≢ raised
    → Adds owner o coalesce s s'
unfolding start_beside
start_beside-Adds owner hw answers job_type o true active s s' outcome h fine =
    let slotted : InferClient = record s { pending = some (job_of job_type o none) } in
    let g : cancel_active hw answers none slotted ≡ (s', true) =
      provisional_inv (cancel_active hw answers none slotted) s' outcome h fine in
    ground (arith, cancel_active-Keeps owner hw answers none slotted s' g)
start_beside-Adds owner hw answers job_type o false active s s' outcome h fine =
    elim (Bool-cases (active.job_type == job_type)) [
      | inl e ↦ ground (
        arith,
        done_calls-append owner s.calls (on_log o ∷ []),
        at_queue-append owner s.wait_queue (job_of job_type o (some (s.run_counter + 1)) ∷ []),
      )
      | inr e ↦ ground (arith, done_calls-append owner s.calls (on_error o "BUSY" ∷ on_done o ∷ []))
    ]

start_alone-Adds :
    (owner : ℕ) (job_type : String) (o : ℕ) (coalesce : Bool) (s s' : InferClient)
    (outcome : Started)
    → s.active ≡ none
    → start_alone job_type o s ≡ (s', outcome)
    → Adds owner o coalesce s s'
start_alone-Adds owner job_type o coalesce s s' outcome a h = ground arith

start_ready-Adds :
    (owner : ℕ) (hw answers : Bool) (job_type : String) (o : ℕ) (coalesce : Bool)
    (s s' : InferClient) (outcome : Started)
    → ((active : ActiveJob) → s.active ≡ some active → active.finished ≡ false)
    → start_ready hw answers job_type o coalesce s ≡ (s', outcome)
    → outcome ≢ raised
    → Adds owner o coalesce s s'
unfolding start_ready
start_ready-Adds owner hw answers job_type o coalesce s s' outcome unfinished h fine =
    elim (Option-cases s.active) [
      | inl e ↦
          let k : start_alone job_type o s ≡ (s', outcome) = ground arith in
          start_alone-Adds owner job_type o coalesce s s' outcome e k
      | inr (active, e) ↦
          let f = unfinished active e in
          let k : start_beside hw answers job_type o coalesce active s ≡ (s', outcome) =
            ground arith in
          start_beside-Adds owner hw answers job_type o coalesce active s s' outcome k fine
    ]

start_job-Adds :
    (owner : ℕ) (hw answers : Bool) (job_type : String) (o : ℕ) (coalesce : Bool)
    (s s' : InferClient) (outcome : Started)
    → IsValid s
    → start_job hw answers job_type o coalesce s ≡ (s', outcome)
    → outcome ≢ raised
    → Adds owner o coalesce s s'
start_job-Adds owner hw answers job_type o coalesce s s' outcome (working, slot, w) h fine =
    let (t, (a, p, q, c, r), g) =
      start_job_inv hw answers job_type o coalesce s s' outcome h fine in
    let unfinished : (active : ActiveJob) → t.active ≡ some active → active.finished ≡ false =
      λ active e.
        (subst (λ k. Working k s.pending s.wait_queue s.run_counter) (sym a ∙ e) working).0 in
    ground (
      arith,
      a,
      p,
      q,
      c,
      start_ready-Adds owner hw answers job_type o coalesce t s' outcome unfinished g fine,
    )

released-Keeps : (owner : ℕ) (s : InferClient) → Keeps owner s (request_release s)
unfolding request_release
released-Keeps owner s = elim (Bool-cases (is_busy s || not (is_alive s))) [
  | inl e ↦ rw e (omega arith, omega arith)
  | inr e ↦ rw e (omega arith, omega arith)
]

calls_of_pending-at :
    (owner : ℕ) (pending : Option PendingJob)
    → done_calls owner (calls_of_pending pending) ≡ at_pending owner pending
calls_of_pending-at owner none = refl
calls_of_pending-at owner (some job) = omega arith

calls_of_active-at :
    (owner : ℕ) (active : Option ActiveJob)
    → ((a : ActiveJob) → active ≡ some a → a.finished ≡ false)
    → done_calls owner (calls_of_active active) ≡ at_active owner active
calls_of_active-at owner none unfinished = refl
calls_of_active-at owner (some a) unfinished = rw (unfinished a refl) (omega arith)

stopped-Keeps :
    (owner : ℕ) (s : InferClient)
    → ((active : ActiveJob) → s.active ≡ some active → active.finished ≡ false)
    → Keeps owner s (shutdown_client s)
unfolding shutdown_client
stopped-Keeps owner s unfinished = elim (Bool-cases s.shutdown_done) [
  | inl e ↦ rw e (omega arith, omega arith)
  | inr e ↦ rw e (
      ground (
        arith,
        done_calls-append owner (s.calls ++ calls_of_active s.active ++ calls_of_pending s.pending)
            (calls_of_waiting s.wait_queue),
        done_calls-append owner (s.calls ++ calls_of_active s.active) (calls_of_pending s.pending),
        done_calls-append owner s.calls (calls_of_active s.active),
        calls_of_active-at owner s.active unfinished,
        calls_of_pending-at owner s.pending,
        calls_of_waiting-at_queue owner s.wait_queue,
      ))
]

valid_unfinished :
    (s : InferClient)
    → IsValid s
    → (active : ActiveJob) → s.active ≡ some active
    → active.finished ≡ false
valid_unfinished s (working, slot, w) active e =
    (subst (λ k. Working k s.pending s.wait_queue s.run_counter) e working).0

-- The jobs that were asked for are all accounted for, but for coalesced ones.
abbrev Accounted : List ℕ → List ℕ → ℕ → InferClient → Type 0
Accounted asked coalesced owner s =
    (held owner s ≤ count owner asked)
    × (count owner asked + at_pending owner s.pending ≤ held owner s + count owner coalesced)

Keeps-Accounted :
    (asked coalesced : List ℕ) (owner : ℕ) (s s' : InferClient)
    → Keeps owner s s'
    → Accounted asked coalesced owner s
    → Accounted asked coalesced owner s'
Keeps-Accounted asked coalesced owner s s' (a, b) (c, d) = (omega arith, omega arith)

Reach-Accounted :
    {asked coalesced : List ℕ} {s : InferClient} (owner : ℕ)
    → Reach asked coalesced s
    → Accounted asked coalesced owner s
unfolding new_client
Reach-Accounted owner begin = (omega arith, omega arith)
Reach-Accounted owner (started hw answers job_type o s' outcome r h fine) = ground (
  arith,
  Reach-Accounted owner r,
  start_job-Adds owner hw answers job_type o false _ s' outcome (IsValid-reached r) h fine,
)
Reach-Accounted owner (replaced hw answers job_type o s' outcome r h fine) = ground (
  arith,
  Reach-Accounted owner r,
  start_job-Adds owner hw answers job_type o true _ s' outcome (IsValid-reached r) h fine,
)
Reach-Accounted owner (told {s = s} hw answers run_id message s' r h) =
    Keeps-Accounted _ _ owner s s' (dispatch-Keeps owner hw answers run_id message s s' h)
      (Reach-Accounted owner r)
Reach-Accounted owner (silent {s = s} hw answers s' r h) =
    Keeps-Accounted _ _ owner s s' (silence-Keeps owner hw answers s s' h) (Reach-Accounted owner r)
Reach-Accounted owner (watched {s = s} hw answers timed_out quiet s' r h) =
    Keeps-Accounted _ _ owner s s' (watch-Keeps owner hw answers timed_out quiet s s' h)
      (Reach-Accounted owner r)
Reach-Accounted owner (cancelled {s = s} hw answers run_id s' r h) =
    Keeps-Accounted _ _ owner s s' (cancel-Keeps owner hw answers run_id s s' h)
      (Reach-Accounted owner r)
Reach-Accounted owner (released {s = s} r) =
    Keeps-Accounted _ _ owner s (request_release s) (released-Keeps owner s)
      (Reach-Accounted owner r)
Reach-Accounted owner (stopped {s = s} r) =
    Keeps-Accounted _ _ owner s (shutdown_client s)
      (stopped-Keeps owner s (valid_unfinished s (IsValid-reached r))) (Reach-Accounted owner r)
Reach-Accounted owner (exited pid r) = Reach-Accounted owner r

-- In every state that the client can come to while no worker fails to start: an owner has as many
-- jobs that are active or waiting or of which it was told that they are done, as it asked for, less
-- at most the jobs that it started with `coalesce`.
pub jobs_accounted :
    {asked coalesced : List ℕ} {s : InferClient} (owner : ℕ)
    → Reach asked coalesced s
    → (held owner s ≤ count owner asked)
      × (count owner asked ≤ held owner s + count owner coalesced)
jobs_accounted owner r = ground (arith, Reach-Accounted owner r)
