-- ===== src/Inference/Steps/Cancels.antt =====
-- The state of `InferClient` stays well formed when a job is cancelled.
use lluna.Prelude.{
  ℕ, Bool, true, Option, none, some, List, [], ◌∷◌, ◌++◌, ◌≡◌, refl, subst, arith, inl, inr,
  Bool-cases, Option-cases,
}
use lluna.Prelude.Key.{nat_key, string_key}
use lluna.Inference.Client.{InferClient, ActiveJob, PendingJob, Call, on_done, on_error}
use lluna.Inference.Jobs.{cancel_job, cancel_active, take_waiting, names, waiting}
use lluna.Inference.Steps.Ids.{Waits, Absent, Working, IsValid, Waits-lower}
use lluna.Inference.Steps.Failures.{cancel_active-IsValid}

take_waiting-Waits :
    (run_id floor counter : ℕ) (jobs rest : List PendingJob) (job : PendingJob)
    → take_waiting run_id jobs ≡ some (job, rest)
    → Waits floor counter jobs
    → Waits floor counter rest
unfolding take_waiting
take_waiting-Waits run_id floor counter [] rest job h w = ground arith
take_waiting-Waits run_id floor counter (j ∷ jobs) rest job h (id, e, above, below, more) =
    elim (Bool-cases (names run_id j)) [
      | inl f ↦
          let g : jobs ≡ rest = ground arith in
          subst (Waits floor counter) g (Waits-lower id floor counter jobs (omega arith) more)
      | inr f ↦ elim (Option-cases (take_waiting run_id jobs)) [
        | inl g ↦ ground arith
        | inr ((found, others), g) ↦
            let k : j ∷ others ≡ rest = ground arith in
            subst (Waits floor counter) k
              (id, e, above, below, take_waiting-Waits run_id id counter jobs others found g more)
      ]
    ]

take_waiting-Absent :
    (run_id id : ℕ) (jobs rest : List PendingJob) (job : PendingJob)
    → take_waiting run_id jobs ≡ some (job, rest)
    → Absent id jobs
    → Absent id rest
unfolding take_waiting
take_waiting-Absent run_id id [] rest job h w = ground arith
take_waiting-Absent run_id id (j ∷ jobs) rest job h (e, more) = elim (Bool-cases (names run_id j)) [
  | inl f ↦ let g : jobs ≡ rest = ground arith in subst (Absent id) g more
  | inr f ↦ elim (Option-cases (take_waiting run_id jobs)) [
    | inl g ↦ ground arith
    | inr ((found, others), g) ↦
        let k : j ∷ others ≡ rest = ground arith in
        subst (Absent id) k (e, take_waiting-Absent run_id id jobs others found g more)
  ]
]

taken-IsValid :
    (run_id : ℕ) (s : InferClient) (job : PendingJob) (rest : List PendingJob) (calls : List Call)
    → IsValid s
    → take_waiting run_id s.wait_queue ≡ some (job, rest)
    → IsValid (record s { wait_queue = rest; calls = calls })
unfolding take_waiting
taken-IsValid run_id s job rest calls (working, slot, w) h = (
  still s.active working,
  slot,
  take_waiting-Waits run_id 0 s.run_counter s.wait_queue rest job h w,
)
  where
    still :
        (active : Option ActiveJob)
        → Working active s.pending s.wait_queue s.run_counter
        → Working active s.pending rest s.run_counter
    still none (p, q) =
        let g : ◌≡◌ {A = Option (PendingJob × List PendingJob)} none (some (job, rest)) =
          subst (λ q'. take_waiting run_id q' ≡ some (job, rest)) q h in
        ground arith
    still (some active) (f, below, absent) =
        (f, below, take_waiting-Absent run_id active.run_id s.wait_queue rest job h absent)

emptied-IsValid : (s : InferClient) → IsValid s → IsValid (record s { pending = none })
emptied-IsValid s (working, slot, w) = (still s.active working, tt, w)
  where
    still :
        (active : Option ActiveJob)
        → Working active s.pending s.wait_queue s.run_counter
        → Working active none s.wait_queue s.run_counter
    still none (p, q) = (refl, q)
    still (some active) working = working

pub cancel-IsValid :
    (hw answers : Bool) (run_id : Option ℕ) (s s' : InferClient)
    → IsValid s
    → cancel_job hw answers run_id s ≡ (s', true)
    → IsValid s'
unfolding cancel_job waiting
cancel-IsValid hw answers none s s' valid h =
    let emptied : InferClient = record s { pending = none } in
    cancel_active-IsValid hw answers none emptied s' (emptied-IsValid s valid) h
cancel-IsValid hw answers (some run_id) s s' valid h =
    elim (Option-cases (take_waiting run_id s.wait_queue)) [
      | inl e ↦
          let emptied : InferClient = record s { pending = none } in
          let g : cancel_active hw answers (some run_id) emptied ≡ (s', true) = ground arith in
          cancel_active-IsValid hw answers (some run_id) emptied s' (emptied-IsValid s valid) g
      | inr ((job, rest), e) ↦
          let calls = s.calls ++ on_error job.owner "__cancelled__" ∷ on_done job.owner ∷ [] in
          let at : record s { wait_queue = rest; calls = calls } ≡ s' = ground arith in
          subst IsValid at (taken-IsValid run_id s job rest calls valid e)
    ]
