-- ===== src/Inference/Steps/Keeping.antt =====
-- The steps that keep the number of the jobs of an owner.
use lluna.Prelude.{
  ℕ, ◌+◌, ◌≤◌, String, Bool, true, not, ◌||◌, ◌&&◌, Option, none, some, List, [], ◌∷◌, ◌++◌, ◌≡◌,
  refl, arith, inl, inr, Bool-cases, Option-cases, if◌then◌else◌,
}
use lluna.Prelude.Key.{nat_key, string_key, ◌==◌}
use lluna.Prelude.Sets.{elem}
use lluna.Inference.Client.{
  InferClient, ActiveJob, PendingJob, on_progress, on_log, on_preview, on_done, on_result, on_error,
  flush_pending, spawn, kill_worker,
}
use lluna.Inference.Jobs.{
  Message, progress, log, preview, pong, result, error, handle, dispatch_event, fail_active,
  note_silence, forget_process, watch, cancel_job, cancel_active, take_waiting, names, end_active,
  is_handshake, is_stale, waiting, has_unfinished, is_other, is_hard,
}
use lluna.Inference.Starts.{calls_of_waiting}
use lluna.Inference.Steps.Held.{
  one, done_calls, at_pending, at_queue, held, done_calls-append, flush-held,
}

-- What a step may do: `new` more jobs of the owner are held, or fewer by one that was in the slot.
abbrev pub Keeps : ℕ → InferClient → InferClient → Type 0
Keeps owner s s' =
    (held owner s' ≤ held owner s)
    × (held owner s + at_pending owner s'.pending ≤ held owner s' + at_pending owner s.pending)

handle-Keeps :
    (owner : ℕ) (hw answers : Bool) (message : Message) (active : ActiveJob) (s s' : InferClient)
    → s.active ≡ some active
    → handle hw answers message active s ≡ (s', true)
    → Keeps owner s s'
unfolding handle
handle-Keeps owner hw answers progress active s s' a h =
    ground (arith, done_calls-append owner s.calls (on_progress active.owner ∷ []))
handle-Keeps owner hw answers log active s s' a h =
    ground (arith, done_calls-append owner s.calls (on_log active.owner ∷ []))
handle-Keeps owner hw answers preview active s s' a h =
    ground (arith, done_calls-append owner s.calls (on_preview active.owner ∷ []))
handle-Keeps owner hw answers pong active s s' a h = ground arith
handle-Keeps owner hw answers (result path) active s s' a h =
    let calls = on_result active.owner path ∷ on_done active.owner ∷ [] in
    ground (
      arith,
      flush-held owner hw answers (end_active calls s) s' refl h,
      done_calls-append owner s.calls calls,
    )
handle-Keeps owner hw answers (error reason) active s s' a h =
    let calls = on_error active.owner reason ∷ on_done active.owner ∷ [] in
    ground (
      arith,
      flush-held owner hw answers (end_active calls s) s' refl h,
      done_calls-append owner s.calls calls,
    )

pub dispatch-Keeps :
    (owner : ℕ) (hw answers : Bool) (run_id : Option ℕ) (message : Message) (s s' : InferClient)
    → dispatch_event hw answers run_id message s ≡ (s', true)
    → Keeps owner s s'
unfolding dispatch_event
dispatch-Keeps owner hw answers run_id message s s' h =
    elim (Bool-cases (is_handshake run_id message)) [
      | inl e ↦ ground arith
      | inr e ↦ elim (Option-cases s.active) [
        | inl f ↦ ground arith
        | inr (active, f) ↦ elim (Bool-cases (is_stale run_id active)) [
          | inl g ↦ ground arith
          | inr g ↦ ground (arith, handle-Keeps owner hw answers message active s s' f)
        ]
      ]
    ]

fail-Keeps :
    (owner : ℕ) (hw answers : Bool) (reason : String) (s s' : InferClient)
    → fail_active hw answers reason s ≡ (s', true)
    → Keeps owner s s'
unfolding fail_active
fail-Keeps owner hw answers reason s s' h = elim (Option-cases s.active) [
  | inl e ↦ ground arith
  | inr (active, e) ↦ elim (Bool-cases active.finished) [
    | inl f ↦ ground arith
    | inr f ↦
        let calls = on_error active.owner reason ∷ on_done active.owner ∷ [] in
        let failed : InferClient = record (spawn hw (kill_worker (record s { active = none }))) {
          calls = s.calls ++ calls;
        } in
        let g : flush_pending hw answers failed ≡ (s', true) = ground arith in
        ground (
          arith,
          flush-held owner hw answers failed s' refl g,
          done_calls-append owner s.calls calls,
        )
  ]
]

pub silence-Keeps :
    (owner : ℕ) (hw answers : Bool) (s s' : InferClient)
    → note_silence hw answers s ≡ (s', true)
    → Keeps owner s s'
unfolding note_silence
silence-Keeps owner hw answers s s' h = elim (Option-cases s.process) [
  | inl e ↦ ground arith
  | inr (pid, e) ↦ elim (Bool-cases (not (elem pid s.live) && has_unfinished s)) [
    | inr f ↦ ground arith
    | inl f ↦
        let g : forget_process (fail_active hw answers "CRASH" s) ≡ (s', true) = ground arith in
        let (t, ok) = fail_active hw answers "CRASH" s in
        elim (Bool-cases ok) [
          | inr k ↦ ground arith
          | inl k ↦ ground (arith, fail-Keeps owner hw answers "CRASH" s t)
        ]
  ]
]

pub watch-Keeps :
    (owner : ℕ) (hw answers timed_out quiet : Bool) (s s' : InferClient)
    → watch hw answers timed_out quiet s ≡ (s', true)
    → Keeps owner s s'
unfolding watch
watch-Keeps owner hw answers timed_out quiet s s' h = elim (Option-cases s.active) [
  | inl e ↦ ground arith
  | inr (active, e) ↦ ground (arith, fail-Keeps owner hw answers "TIMEOUT" s s')
]

pub cancel_active-Keeps :
    (owner : ℕ) (hw answers : Bool) (run_id : Option ℕ) (s s' : InferClient)
    → cancel_active hw answers run_id s ≡ (s', true)
    → Keeps owner s s'
unfolding cancel_active
cancel_active-Keeps owner hw answers run_id s s' h = elim (Option-cases s.active) [
  | inl e ↦ ground arith
  | inr (active, e) ↦ elim (Bool-cases (active.finished || is_other run_id active)) [
    | inl f ↦ ground arith
    | inr f ↦ elim (Bool-cases (is_hard active)) [
      | inr k ↦ ground arith
      | inl k ↦
          let calls = on_error active.owner "__cancelled__" ∷ on_done active.owner ∷ [] in
          let failed : InferClient = record (spawn hw (kill_worker (record s { active = none }))) {
            calls = s.calls ++ calls;
          } in
          let g : flush_pending hw answers failed ≡ (s', true) = ground arith in
          ground (
            arith,
            flush-held owner hw answers failed s' refl g,
            done_calls-append owner s.calls calls,
          )
    ]
  ]
]

take_waiting-at_queue :
    (owner run_id : ℕ) (jobs rest : List PendingJob) (job : PendingJob)
    → take_waiting run_id jobs ≡ some (job, rest)
    → at_queue owner jobs ≡ one (owner == job.owner) + at_queue owner rest
unfolding take_waiting
take_waiting-at_queue owner run_id [] rest job h = ground arith
take_waiting-at_queue owner run_id (j ∷ jobs) rest job h = elim (Bool-cases (names run_id j)) [
  | inl e ↦ ground arith
  | inr e ↦ elim (Option-cases (take_waiting run_id jobs)) [
    | inl f ↦ ground arith
    | inr ((found, others), f) ↦
        ground (arith, take_waiting-at_queue owner run_id jobs others found f)
  ]
]

waiting-at_queue :
    (owner : ℕ) (run_id : Option ℕ) (s : InferClient) (job : PendingJob) (rest : List PendingJob)
    → waiting run_id s ≡ some (job, rest)
    → at_queue owner s.wait_queue ≡ one (owner == job.owner) + at_queue owner rest
unfolding waiting
waiting-at_queue owner none s job rest h = ground arith
waiting-at_queue owner (some run_id) s job rest h =
    take_waiting-at_queue owner run_id s.wait_queue rest job h

pub cancel-Keeps :
    (owner : ℕ) (hw answers : Bool) (run_id : Option ℕ) (s s' : InferClient)
    → cancel_job hw answers run_id s ≡ (s', true)
    → Keeps owner s s'
unfolding cancel_job
cancel-Keeps owner hw answers run_id s s' h = elim (Option-cases (waiting run_id s)) [
  | inl e ↦
      let emptied : InferClient = record s { pending = none } in
      let g : cancel_active hw answers run_id emptied ≡ (s', true) = ground arith in
      ground (arith, cancel_active-Keeps owner hw answers run_id emptied s' g)
  | inr ((job, rest), e) ↦ ground (
    arith,
    waiting-at_queue owner run_id s job rest e,
    done_calls-append owner s.calls (on_error job.owner "__cancelled__" ∷ on_done job.owner ∷ []),
  )
]

pub calls_of_waiting-at_queue :
    (owner : ℕ) (jobs : List PendingJob)
    → done_calls owner (calls_of_waiting jobs) ≡ at_queue owner jobs
unfolding calls_of_waiting
calls_of_waiting-at_queue owner [] = refl
calls_of_waiting-at_queue owner (job ∷ jobs) = omega (arith, calls_of_waiting-at_queue owner jobs)

-- What a start may do: the owner holds one job more, or as many if the slot was taken.
abbrev pub Adds : ℕ → ℕ → Bool → InferClient → InferClient → Type 0
Adds owner o coalesce s s' =
    (held owner s' ≤ held owner s + one (owner == o))
    × (held owner s + at_pending owner s'.pending + (if coalesce then 0 else one (owner == o))
        ≤ held owner s' + at_pending owner s.pending)
