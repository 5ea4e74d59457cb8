-- ===== src/Inference/Steps/Flush.antt =====
-- The next job starts: the state of `InferClient` stays well formed.
use lluna.Prelude.{
  ℕ, ◌+◌, max, ◌≤◌, Bool, true, false, Option, none, some, List, [], ◌∷◌, ◌++◌, ◌≡◌, refl, ap,
  subst, arith, inl, inr, Bool-cases, Option-cases, List-cases,
}
use lluna.Prelude.Key.{nat_key, string_key}
use lluna.Inference.Client.{
  InferClient, ActiveJob, PendingJob, Call, on_log, on_done, on_result, on_error, ensure_started,
  flush_pending, launch, start_unlocked,
}
use lluna.Inference.Jobs.{
  Message, progress, log, preview, pong, result, error, handle, dispatch_event, end_active,
  is_handshake, is_stale,
}
use lluna.Inference.Steps.Ids.{
  ensure_started-Same, Waits, Slot, IsValid, Waits-lower, Waits-raise, Waits-Absent-above,
  Waits-Absent-below,
}

pub fresh-IsValid :
    (job : PendingJob) (t : InferClient)
    → job.run_id ≡ none
    → Slot t.pending
    → Waits 0 t.run_counter t.wait_queue
    → IsValid (start_unlocked job t)
fresh-IsValid job t r slot w = (
  rw r (
    refl,
    omega arith,
    Waits-Absent-above 0 t.run_counter (t.run_counter + 1) t.wait_queue (omega arith) w,
  ),
  slot,
  rw r (Waits-raise 0 t.run_counter (t.run_counter + 1) t.wait_queue (omega arith) w),
)

queued-IsValid :
    (job : PendingJob) (t : InferClient) (id : ℕ)
    → job.run_id ≡ some id
    → id ≤ t.run_counter
    → Slot t.pending
    → Waits id t.run_counter t.wait_queue
    → IsValid (start_unlocked job t)
queued-IsValid job t id r below slot w =
    let counted : max t.run_counter id ≡ t.run_counter = omega arith in
    (
      rw r (refl, omega arith, Waits-Absent-below id t.run_counter id t.wait_queue (omega arith) w),
      slot,
      rw (r, counted) (Waits-lower id 0 t.run_counter t.wait_queue (omega arith) w),
    )

launch_start :
    (job : PendingJob) (calls : List Call) (t s' : InferClient) (ok : Bool)
    → launch job calls (t, ok) ≡ (s', true)
    → start_unlocked job (record t { calls = t.calls ++ calls }) ≡ s'
launch_start job calls t s' false h = ground arith
launch_start job calls t s' true h = ap (λ p. p.0) h

-- A flush when no job is active.
pub flush-IsValid :
    (hw answers : Bool) (s s' : InferClient)
    → s.active ≡ none
    → Slot s.pending
    → Waits 0 s.run_counter s.wait_queue
    → flush_pending hw answers s ≡ (s', true)
    → IsValid s'
unfolding flush_pending
flush-IsValid hw answers s s' a slot w h = elim (Option-cases s.pending) [
  | inr (job, e) ↦
      let before : InferClient = record s { pending = none } in
      let (t, ok) = ensure_started hw answers before in
      let (sa, sp, sw, sc, sr) = ensure_started-Same hw answers before in
      let g : launch job [] (ensure_started hw answers before) ≡ (s', true) = ground arith in
      subst IsValid (launch_start job [] t s' ok g) (
        fresh-IsValid job (record t { calls = t.calls ++ [] }) (subst Slot e slot) (rw sp tt)
          (rw (sr, sw) w))
  | inl e ↦ elim (List-cases s.wait_queue) [
    | inl f ↦ let at : s ≡ s' = ground arith in subst IsValid at (rw a (e, f), slot, w)
    | inr (job, rest, f) ↦
        let before : InferClient = record s { wait_queue = rest } in
        let calls = on_log job.owner ∷ [] in
        let (t, ok) = ensure_started hw answers before in
        let (sa, sp, sw, sc, sr) = ensure_started-Same hw answers before in
        let g : launch job calls (ensure_started hw answers before) ≡ (s', true) = ground arith in
        let (id, r, above, below, more) = subst (Waits 0 s.run_counter) f w in
        subst IsValid (launch_start job calls t s' ok g) (
          queued-IsValid job (record t { calls = t.calls ++ calls }) id r (rw sr below) (rw sp slot)
            (rw (sr, sw) more))
  ]
]

-- The same after the active job has ended.
pub ended-IsValid :
    (hw answers : Bool) (s t s' : InferClient)
    → IsValid s
    → t.active ≡ none
    → t.pending ≡ s.pending
    → t.wait_queue ≡ s.wait_queue
    → t.run_counter ≡ s.run_counter
    → flush_pending hw answers t ≡ (s', true)
    → IsValid s'
ended-IsValid hw answers s t s' (working, slot, w) a p q r h =
    flush-IsValid hw answers t s' a (rw p slot) (rw (r, q) w) h

-- A step that leaves the jobs alone.
pub Same-IsValid :
    (s t : InferClient)
    → IsValid s
    → t.active ≡ s.active
    → t.pending ≡ s.pending
    → t.wait_queue ≡ s.wait_queue
    → t.run_counter ≡ s.run_counter
    → IsValid t
Same-IsValid s t valid a p q r = rw (a, p, q, r) valid

IsValid-transport :
    {t s' : InferClient}
    → ◌≡◌ {A = InferClient × Bool} (t, true) (s', true)
    → IsValid t
    → IsValid s'
IsValid-transport h valid = subst IsValid (ap (λ p. p.0) h) valid

handle-IsValid :
    (hw answers : Bool) (message : Message) (active : ActiveJob) (s s' : InferClient)
    → IsValid s
    → handle hw answers message active s ≡ (s', true)
    → IsValid s'
unfolding handle
handle-IsValid hw answers progress active s s' valid h = IsValid-transport h valid
handle-IsValid hw answers log active s s' valid h = IsValid-transport h valid
handle-IsValid hw answers preview active s s' valid h = IsValid-transport h valid
handle-IsValid hw answers pong active s s' valid h = IsValid-transport h valid
handle-IsValid hw answers (result path) active s s' valid h =
    ended-IsValid hw answers s
      (end_active (on_result active.owner path ∷ on_done active.owner ∷ []) s) s' valid refl refl
      refl refl h
handle-IsValid hw answers (error reason) active s s' valid h =
    ended-IsValid hw answers s
      (end_active (on_error active.owner reason ∷ on_done active.owner ∷ []) s) s' valid refl refl
      refl refl h

pub dispatch-IsValid :
    (hw answers : Bool) (run_id : Option ℕ) (message : Message) (s s' : InferClient)
    → IsValid s
    → dispatch_event hw answers run_id message s ≡ (s', true)
    → IsValid s'
unfolding dispatch_event
dispatch-IsValid hw answers run_id message s s' valid h =
    elim (Bool-cases (is_handshake run_id message)) [
      | inl e ↦
          let g : (record s { ready = true }, true) ≡ (s', true) = ground arith in
          IsValid-transport g valid
      | inr e ↦ elim (Option-cases s.active) [
        | inl f ↦ let g : s ≡ s' = ground arith in subst IsValid g valid
        | inr (active, f) ↦ elim (Bool-cases (is_stale run_id active)) [
          | inl g ↦ let k : s ≡ s' = ground arith in subst IsValid k valid
          | inr g ↦
              let k : handle hw answers message active s ≡ (s', true) = ground arith in
              handle-IsValid hw answers message active s s' valid k
        ]
      ]
    ]
