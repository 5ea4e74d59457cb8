-- ===== src/Inference/Steps/Held.antt =====
-- The jobs of an owner, in course or done.
use lluna.Prelude.{
  ℕ, ◌+◌, Bool, true, false, Option, none, some, List, [], ◌∷◌, ◌++◌, ◌≡◌, refl, arith, inl, inr,
  Option-cases, List-cases,
}
use lluna.Prelude.Key.{nat_key, string_key, ◌==◌}
use lluna.Inference.Client.{
  InferClient, ActiveJob, PendingJob, Call, on_log, on_done, ensure_started, flush_pending, launch,
}
use lluna.Inference.Steps.Ids.{Same, ensure_started-Same}

abbrev pub one : Bool → ℕ
one true = 1
one false = 0

-- How often an owner occurs.
abbrev pub count : ℕ → List ℕ → ℕ
count owner [] = 0
count owner (o ∷ owners) = one (owner == o) + count owner owners

abbrev of_call : ℕ → Call → ℕ
of_call owner (on_done o) = one (owner == o)
of_call owner call = 0

-- How often the owner was told that a job is done.
abbrev pub done_calls : ℕ → List Call → ℕ
done_calls owner [] = 0
done_calls owner (c ∷ calls) = of_call owner c + done_calls owner calls

abbrev pub at_active : ℕ → Option ActiveJob → ℕ
at_active owner none = 0
at_active owner (some a) = one (owner == a.owner)

abbrev pub at_pending : ℕ → Option PendingJob → ℕ
at_pending owner none = 0
at_pending owner (some j) = one (owner == j.owner)

abbrev pub at_queue : ℕ → List PendingJob → ℕ
at_queue owner [] = 0
at_queue owner (j ∷ jobs) = one (owner == j.owner) + at_queue owner jobs

-- The jobs of an owner that are in course, and those that were done.
abbrev pub held : ℕ → InferClient → ℕ
held owner s =
    at_active owner s.active
    + at_pending owner s.pending
    + at_queue owner s.wait_queue
    + done_calls owner s.calls

pub done_calls-append :
    (owner : ℕ) (xs ys : List Call)
    → done_calls owner (xs ++ ys) ≡ done_calls owner xs + done_calls owner ys
done_calls-append owner [] ys = omega arith
done_calls-append owner (x ∷ xs) ys = omega (arith, done_calls-append owner xs ys)

pub at_queue-append :
    (owner : ℕ) (xs ys : List PendingJob)
    → at_queue owner (xs ++ ys) ≡ at_queue owner xs + at_queue owner ys
at_queue-append owner [] ys = omega arith
at_queue-append owner (x ∷ xs) ys = omega (arith, at_queue-append owner xs ys)

launch-held :
    (owner : ℕ) (job : PendingJob) (calls : List Call) (s t s' : InferClient) (ok : Bool)
    → done_calls owner calls ≡ 0
    → Same s t
    → s.active ≡ none
    → launch job calls (t, ok) ≡ (s', true)
    → (held owner s' ≡ one (owner == job.owner) + held owner s) × (s'.pending ≡ s.pending)
launch-held owner job calls s t s' false z same a h = ground arith
launch-held owner job calls s t s' true z (e, f, g, c, k) a h =
    ground (arith, done_calls-append owner t.calls calls)

-- A flush moves a job and loses none; no job is left in the slot.
pub flush-held :
    (owner : ℕ) (hw answers : Bool) (s s' : InferClient)
    → s.active ≡ none
    → flush_pending hw answers s ≡ (s', true)
    → (held owner s' ≡ held owner s) × (s'.pending ≡ none)
unfolding flush_pending
flush-held owner hw answers s s' a h = elim (Option-cases s.pending) [
  | inr (job, e) ↦
      let before : InferClient = record s { pending = none } in
      let (t, ok) = ensure_started hw answers before in
      let g : launch job [] (ensure_started hw answers before) ≡ (s', true) = ground arith in
      ground (
        arith,
        launch-held owner job [] before t s' ok refl (ensure_started-Same hw answers before) a g,
      )
  | inl e ↦ elim (List-cases s.wait_queue) [
    | inl f ↦ ground arith
    | inr (job, rest, f) ↦
        let before : InferClient = record s { wait_queue = rest } in
        let (t, ok) = ensure_started hw answers before in
        let g : launch job (on_log job.owner ∷ []) (ensure_started hw answers before) ≡ (s', true) =
          ground arith in
        ground (
          arith,
          launch-held owner job (on_log job.owner ∷ []) before t s' ok refl
              (ensure_started-Same hw answers before) a g,
        )
  ]
]
