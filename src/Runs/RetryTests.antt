-- ===== src/Runs/RetryTests.antt =====
-- A job that times out once and then gives a result.
use lluna.Prelude.{ℕ, zero, suc, true, false, [], ◌∷◌, ◌≡◌, refl}
use lluna.Prelude.Sets.{elem}
use lluna.Runs.Retry.{
  Attempt, raises, busy, ended, returned, failed, raised, outcome, passes, invoke, invoke_worker,
  code_of, is_retryable, last_or, Decided, invoke_worker_lem,
}

abbrev timed_out : Attempt
timed_out = ended ("TIMEOUT" ∷ []) [] false

abbrev worked : Attempt
worked = ended [] ("/a.png" ∷ "/b.png" ∷ []) false

abbrev second_works : ℕ → Attempt
second_works zero = timed_out
second_works (suc n) = worked

retries : invoke_worker "/out.png" second_works 2 ≡ returned 2 "/b.png"
unfolding invoke outcome passes code_of is_retryable elem last_or
retries = refl

gives_up : invoke_worker "/out.png" (λ n. timed_out) 2 ≡ failed 3 "TIMEOUT" "TIMEOUT" true
unfolding invoke outcome passes code_of is_retryable elem
gives_up = refl

-- An exception of `start_job` is not tried again, and neither is a failure of a cancelled run.
no_worker :
    invoke_worker "/out.png" (λ n. raises "WORKER_STARTUP_ERROR") 2
    ≡ raised 1 "WORKER_STARTUP_ERROR"
unfolding invoke outcome passes
no_worker = refl

refused : invoke_worker "/out.png" (λ n. busy true) 2 ≡ failed 1 "BUSY" "BUSY" true
unfolding invoke outcome passes code_of is_retryable elem
refused = refl

invoke_worker_lem_example :
    Decided "/out.png" second_works 2 0 (invoke_worker "/out.png" second_works 2)
invoke_worker_lem_example = invoke_worker_lem "/out.png" second_works 2
