-- ===== src/Inference/Steps/Failures.antt =====
-- The active job fails: the state of `InferClient` stays well formed.
use lluna.Prelude.{
  ℕ, String, Bool, true, not, ◌||◌, ◌&&◌, Option, none, some, List, [], ◌∷◌, ◌++◌, ◌≡◌, refl, subst,
  arith, inl, inr, Bool-cases, Option-cases, if◌then◌else◌,
}
use lluna.Prelude.Key.{nat_key, string_key}
use lluna.Prelude.Sets.{elem}
use lluna.Inference.Client.{
  InferClient, ping, cancel, Call, on_done, on_error, flush_pending, spawn, kill_worker,
}
use lluna.Inference.Jobs.{
  fail_active, note_silence, forget_process, watch, cancel_active, has_unfinished, is_other,
  is_hard,
}
use lluna.Inference.Steps.Ids.{IsValid}
use lluna.Inference.Steps.Flush.{ended-IsValid}

-- The active job fails, its worker is replaced, and the next job starts.
abbrev failed : Bool → List Call → InferClient → InferClient
failed hw calls s = record (spawn hw (kill_worker (record s { active = none }))) {
  calls = s.calls ++ calls;
}

fail-IsValid :
    (hw answers : Bool) (reason : String) (s s' : InferClient)
    → IsValid s
    → fail_active hw answers reason s ≡ (s', true)
    → IsValid s'
unfolding fail_active
fail-IsValid hw answers reason s s' valid h = elim (Option-cases s.active) [
  | inl e ↦ let g : kill_worker s ≡ s' = ground arith in subst IsValid g valid
  | inr (active, e) ↦ elim (Bool-cases active.finished) [
    | inl f ↦ let g : kill_worker s ≡ s' = ground arith in subst IsValid g valid
    | inr f ↦
        let calls = on_error active.owner reason ∷ on_done active.owner ∷ [] in
        let g : flush_pending hw answers (failed hw calls s) ≡ (s', true) = ground arith in
        ended-IsValid hw answers s (failed hw calls s) s' valid refl refl refl refl g
  ]
]

pub silence-IsValid :
    (hw answers : Bool) (s s' : InferClient)
    → IsValid s
    → note_silence hw answers s ≡ (s', true)
    → IsValid s'
unfolding note_silence
silence-IsValid hw answers s s' valid h = elim (Option-cases s.process) [
  | inl e ↦ let g : s ≡ s' = ground arith in subst IsValid g valid
  | inr (pid, e) ↦ elim (Bool-cases (not (elem pid s.live) && has_unfinished s)) [
    | inr f ↦ let g : s ≡ s' = ground arith in subst IsValid g valid
    | inl f ↦
        let (t, ok) = fail_active hw answers "CRASH" s in
        let g : forget_process (fail_active hw answers "CRASH" s) ≡ (s', true) = ground arith in
        elim (Bool-cases ok) [
          | inr k ↦ ground arith
          | inl k ↦
              let at : record t { process = none } ≡ s' = ground arith in
              let done : fail_active hw answers "CRASH" s ≡ (t, true) = ground arith in
              subst IsValid at (fail-IsValid hw answers "CRASH" s t valid done)
        ]
  ]
]

pub watch-IsValid :
    (hw answers timed_out quiet : Bool) (s s' : InferClient)
    → IsValid s
    → watch hw answers timed_out quiet s ≡ (s', true)
    → IsValid s'
unfolding watch
watch-IsValid hw answers timed_out quiet s s' valid h = elim (Option-cases s.active) [
  | inl e ↦ let g : s ≡ s' = ground arith in subst IsValid g valid
  | inr (active, e) ↦ elim (Bool-cases active.finished) [
    | inl f ↦ let g : s ≡ s' = ground arith in subst IsValid g valid
    | inr f ↦ elim (Bool-cases timed_out) [
      | inl k ↦
          let g : fail_active hw answers "TIMEOUT" s ≡ (s', true) = ground arith in
          fail-IsValid hw answers "TIMEOUT" s s' valid g
      | inr k ↦
          let g : record s {
            commands = if quiet then s.commands ++ ping (some active.run_id) ∷ [] else s.commands;
          }
              ≡ s' =
            ground arith in
          subst IsValid g valid
    ]
  ]
]

pub cancel_active-IsValid :
    (hw answers : Bool) (run_id : Option ℕ) (s s' : InferClient)
    → IsValid s
    → cancel_active hw answers run_id s ≡ (s', true)
    → IsValid s'
unfolding cancel_active
cancel_active-IsValid hw answers run_id s s' valid h = elim (Option-cases s.active) [
  | inl e ↦ let g : s ≡ s' = ground arith in subst IsValid g valid
  | inr (active, e) ↦ elim (Bool-cases (active.finished || is_other run_id active)) [
    | inl f ↦ let g : s ≡ s' = ground arith in subst IsValid g valid
    | inr f ↦ elim (Bool-cases (is_hard active)) [
      | inr k ↦
          let g : record s { commands = s.commands ++ cancel active.run_id ∷ [] } ≡ s' =
            ground arith in
          subst IsValid g valid
      | inl k ↦
          let calls = on_error active.owner "__cancelled__" ∷ on_done active.owner ∷ [] in
          let g : flush_pending hw answers (failed hw calls s) ≡ (s', true) = ground arith in
          ended-IsValid hw answers s (failed hw calls s) s' valid refl refl refl refl g
    ]
  ]
]
