-- ===== src/Downloads/Queue/Invariant.antt =====
-- What holds in every state of backend/tools/shared/download_queue.py.
use lluna.Prelude.{ℕ, String, ◌≡◌, refl, sym, subst, true, Option, none, some, arith}
use lluna.Prelude.Key.{string_key, nat_key}
use lluna.Prelude.Int.{ℤ}
use lluna.Downloads.Queue.{
  Job, ModelDownloadQueue, Outcome, init, enqueue, stop_job, clear_finished, worker_take,
  worker_finish, report_current_progress,
}
use lluna.Downloads.Queue.Validity.{IsValid}
use lluna.Downloads.Queue.Operations.{
  enqueue-IsValid, stop_job-IsValid, report-IsValid, take-IsValid, finish-IsValid,
}

-- What the threads that share the queue can do to it, one step at a time. The worker takes a job
-- when it has none, and finishes the one that it has.
pub data Step (a b : ModelDownloadQueue) : Type 0 where
  enqueued : (kind key operation : String) → b ≡ (enqueue kind key operation a).0 → Step a b
  stopped : (job_id : ℕ) → b ≡ (stop_job job_id a).0 → Step a b
  cleared : b ≡ clear_finished a → Step a b
  reported :
      (percent : Option ℤ) (detail : String)
      → b ≡ report_current_progress percent detail a
      → Step a b
  taken : a.worker ≡ true → a.current ≡ none → b ≡ worker_take a → Step a b
  ended :
      (job : Job) (outcome : Outcome)
      → a.current ≡ some job
      → b ≡ worker_finish outcome a
      → Step a b

pub data Reach (a : ModelDownloadQueue) : ModelDownloadQueue → Type 0 where
  here : Reach a a
  next : {b c : ModelDownloadQueue} → Reach a b → Step b c → Reach a c

pub Step-IsValid : {a b : ModelDownloadQueue} → Step a b → IsValid a → IsValid b
Step-IsValid {a} (enqueued kind key operation e) v =
    subst IsValid (sym e) (enqueue-IsValid kind key operation a v)
Step-IsValid {a} (stopped job_id e) v = subst IsValid (sym e) (stop_job-IsValid job_id a v)
Step-IsValid {a} (cleared e) v = subst IsValid (sym e) (
    unfold clear_finished in
    record {
      distinct = v.distinct;
      ascending = v.ascending;
      bounded = omega arith;
      served = v.served;
    })
Step-IsValid {a} (reported percent detail e) v =
    subst IsValid (sym e) (report-IsValid percent detail a v)
Step-IsValid {a} (taken alive idle e) v = subst IsValid (sym e) (take-IsValid a alive idle v)
Step-IsValid {a} (ended job outcome busy e) v =
    subst IsValid (sym e) (finish-IsValid outcome a job busy v)

-- In every state that the queue can come to, each `(kind, key)` has one job at most, the jobs stand
-- in the order of their ids, the history has at most 20 entries, and a worker is alive if any job
-- runs or waits.
pub Reach-IsValid : {s : ModelDownloadQueue} → Reach init s → IsValid s
Reach-IsValid here = record {
  distinct = tt;
  ascending = omega arith;
  bounded = omega arith;
  served = λ _. refl;
}
Reach-IsValid (next r st) = Step-IsValid st (Reach-IsValid r)
