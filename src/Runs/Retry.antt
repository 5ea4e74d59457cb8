-- ===== src/Runs/Retry.antt =====
-- The loop of `_invoke_worker` of backend/graph/executor.py: a job of the inference client, tried
-- again after the failures that may pass.
use lluna.Prelude.{
  ℕ, zero, suc, ◌+◌, String, Bool, true, false, not, ◌&&◌, List, [], ◌∷◌, ◌≡◌, ◌⊎◌, refl, subst,
  inl, inr, arith, Bool-cases, if◌then◌else◌,
}
use lluna.Prelude.Key.{string_key, ◌==◌}
use lluna.Prelude.Sets.{elem}

-- What one attempt comes to: a call of the client raises (WorkerStartupError); `start_job` gives -1;
-- the job never says that it is done; or it does, with the errors and the result paths that its
-- callbacks received. The Bool says whether the run is cancelled by then.
pub data Attempt : Type 0 where
  raises : (exception : String) → Attempt
  busy : Bool → Attempt
  unending : Attempt
  ended : (error result_path : List String) → Bool → Attempt

unfoldable pub code_of : String → String
code_of error =
    if error == "__cancelled__"
    then "CANCELLED"
    else if error == "TIMEOUT"
    then "TIMEOUT"
    else if error == "CRASH"
    then "WORKER_CRASH"
    else if error == "BUSY"
    then "BUSY"
    else "INTERNAL"

unfoldable pub is_retryable : String → Bool
unfolding elem
is_retryable code = elem code ("TIMEOUT" ∷ "WORKER_CRASH" ∷ "BUSY" ∷ [])

-- `xs[-1] if xs else default`
unfoldable pub last_or : String → List String → String
last_or default [] = default
last_or default (x ∷ xs) = last_or x xs

-- The end of the loop, with the number of attempts made: it has a path (`final_path`), raises
-- ExecutionFailure with code, message and `retryable`, passes the exception of a call on, or waits
-- for ever.
pub data Invoked : Type 0 where
  returned : ℕ → String → Invoked
  failed : ℕ → (code message : String) → Bool → Invoked
  raised : ℕ → (exception : String) → Invoked
  waits : ℕ → Invoked

abbrev failure : ℕ → String → Invoked
failure attempt message =
    let code = code_of message in failed (attempt + 1) code message (is_retryable code)

abbrev pub may_retry : String → Bool → Bool
may_retry message cancelled = is_retryable (code_of message) && not cancelled

-- What an attempt that is not tried again comes to.
unfoldable pub outcome : String → ℕ → Attempt → Invoked
unfolding code_of is_retryable last_or
outcome output_path attempt (raises exception) = raised (attempt + 1) exception
outcome output_path attempt (busy cancelled) = failure attempt "BUSY"
outcome output_path attempt unending = waits (attempt + 1)
outcome output_path attempt (ended [] result_path cancelled) =
    returned (attempt + 1) (last_or output_path result_path)
outcome output_path attempt (ended (message ∷ rest) result_path cancelled) = failure attempt message

-- `retryable and not control.cancel.is_set()`, for an attempt that failed.
unfoldable pub passes : Attempt → Bool
unfolding code_of is_retryable
passes (raises exception) = false
passes (busy cancelled) = may_retry "BUSY" cancelled
passes unending = false
passes (ended [] result_path cancelled) = false
passes (ended (message ∷ rest) result_path cancelled) = may_retry message cancelled

module _ (output_path : String) (attempts : ℕ → Attempt) where
  -- The loop from an attempt on, with the number of retries that are left.
  unfoldable pub invoke : ℕ → ℕ → Invoked
  unfolding outcome passes
  invoke zero attempt = outcome output_path attempt (attempts attempt)
  invoke (suc left) attempt =
      let again = invoke left (attempt + 1) in
      if passes (attempts attempt) then again else outcome output_path attempt (attempts attempt)

  abbrev pub invoke_worker : ℕ → Invoked
  invoke_worker retry_limit = invoke retry_limit 0

  -- So many attempts from one on failed in a way that is tried again.
  unfoldable pub Pass : ℕ → ℕ → Type 0
  Pass zero attempt = Unit
  Pass (suc n) attempt = (passes (attempts attempt) ≡ true) × Pass n (attempt + 1)

  -- What an invocation from an attempt on comes to: after so many attempts that are tried again, of
  -- which there are at most as many as there are retries left, comes one that is not tried again or
  -- has no retry left, and its outcome is that of the whole.
  abbrev pub Decided : ℕ → ℕ → Invoked → Type 0
  Decided left attempt invoked =
      (passed deciding unused : ℕ) × (deciding ≡ attempt + passed)
      × (left ≡ passed + unused)
      × Pass passed attempt
      × ((unused ≡ 0) ⊎ (passes (attempts deciding) ≡ false))
      × (invoked ≡ outcome output_path deciding (attempts deciding))

  at_once :
      (left attempt : ℕ) (invoked : Invoked)
      → (left ≡ 0) ⊎ (passes (attempts attempt) ≡ false)
      → invoked ≡ outcome output_path attempt (attempts attempt)
      → Decided left attempt invoked
  unfolding Pass
  at_once left attempt invoked d e = (0, attempt, left, omega arith, omega arith, tt, d, e)

  invoke-Decided : (left attempt : ℕ) → Decided left attempt (invoke left attempt)
  unfolding invoke Pass
  invoke-Decided zero attempt = at_once zero attempt _ (inl refl) refl
  invoke-Decided (suc left) attempt = elim (Bool-cases (passes (attempts attempt))) [
    | inr final ↦ at_once (suc left) attempt _ (inr final) (rw (invoke, final) refl)
    | inl again ↦
        let (n, k, unused, at, fewer, pass, last, is) = invoke-Decided left (attempt + 1) in
        let same : invoke left (attempt + 1) ≡ invoke (suc left) attempt =
          rw (invoke, again) refl in
        subst (Decided (suc left) attempt) same
          (suc n, k, unused, omega (arith, at), omega (arith, fewer), (again, pass), last, is)
  ]

  pub invoke_worker_lem : (retry_limit : ℕ) → Decided retry_limit 0 (invoke_worker retry_limit)
  invoke_worker_lem retry_limit = invoke-Decided retry_limit 0
