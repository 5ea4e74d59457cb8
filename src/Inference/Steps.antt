-- ===== src/Inference/Steps.antt =====
-- The operations of `InferClient` in any order, as its threads make them.
pub mod Ids
pub mod Flush
pub mod Failures
pub mod Cancels
pub mod Validity
pub mod Held
pub mod Keeping
pub mod Accounts
use lluna.Prelude.{
  ℕ, suc, ◌+◌, String, Bool, true, false, Option, none, some, List, [], ◌∷◌, ◌++◌, ◌≡◌, ◌≢◌,
}
use lluna.Prelude.Key.{nat_key, ◌==◌}
use lluna.Inference.Client.{InferClient, new_client}
use lluna.Inference.Jobs.{Message, dispatch_event, note_silence, watch, cancel_job}
use lluna.Inference.Starts.{Started, raised, start_job, request_release, shutdown_client, exit}

-- The states that the client can come to while no worker fails to start. The first list has the
-- owners of the jobs that were asked for, the second those of the coalesced ones among them.
pub data Reach : List ℕ → List ℕ → InferClient → Type 0 where
  begin : Reach [] [] new_client
  started :
      {asked coalesced : List ℕ} {s : InferClient} (hw answers : Bool) (job_type : String)
      (owner : ℕ) (s' : InferClient) (outcome : Started)
      → Reach asked coalesced s
      → start_job hw answers job_type owner false s ≡ (s', outcome)
      → outcome ≢ raised
      → Reach (owner ∷ asked) coalesced s'
  replaced :
      {asked coalesced : List ℕ} {s : InferClient} (hw answers : Bool) (job_type : String)
      (owner : ℕ) (s' : InferClient) (outcome : Started)
      → Reach asked coalesced s
      → start_job hw answers job_type owner true s ≡ (s', outcome)
      → outcome ≢ raised
      → Reach (owner ∷ asked) (owner ∷ coalesced) s'
  told :
      {asked coalesced : List ℕ} {s : InferClient} (hw answers : Bool) (run_id : Option ℕ)
      (message : Message) (s' : InferClient)
      → Reach asked coalesced s
      → dispatch_event hw answers run_id message s ≡ (s', true)
      → Reach asked coalesced s'
  silent :
      {asked coalesced : List ℕ} {s : InferClient} (hw answers : Bool) (s' : InferClient)
      → Reach asked coalesced s
      → note_silence hw answers s ≡ (s', true)
      → Reach asked coalesced s'
  watched :
      {asked coalesced : List ℕ} {s : InferClient} (hw answers timed_out quiet : Bool)
      (s' : InferClient)
      → Reach asked coalesced s
      → watch hw answers timed_out quiet s ≡ (s', true)
      → Reach asked coalesced s'
  cancelled :
      {asked coalesced : List ℕ} {s : InferClient} (hw answers : Bool) (run_id : Option ℕ)
      (s' : InferClient)
      → Reach asked coalesced s
      → cancel_job hw answers run_id s ≡ (s', true)
      → Reach asked coalesced s'
  released :
      {asked coalesced : List ℕ} {s : InferClient}
      → Reach asked coalesced s
      → Reach asked coalesced (request_release s)
  stopped :
      {asked coalesced : List ℕ} {s : InferClient}
      → Reach asked coalesced s
      → Reach asked coalesced (shutdown_client s)
  exited :
      {asked coalesced : List ℕ} {s : InferClient} (pid : ℕ)
      → Reach asked coalesced s
      → Reach asked coalesced (exit pid s)
