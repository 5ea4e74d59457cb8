-- ===== src/Downloads/Queue/Turns.antt =====
-- The worker of backend/tools/shared/download_queue.py serves the jobs in the order of the queue.
use lluna.Prelude.{
  ℕ, suc, String, ◌≡◌, ap, ◌∙◌, sym, true, some, List, [], ◌∷◌, length, arith, List-cases, inl, inr,
}
use lluna.Downloads.Queue.{
  Job, ModelDownloadQueue, Outcome, matches, live, with_current, queue_position, worker_take,
  worker_finish,
}
use lluna.Downloads.Queue.Positions.{
  index_of, index_of-cons, get_elem?-index_of, queue_position-eq-index_of,
}

-- The worker ends its job and takes the next one.
abbrev pub turn : Outcome → ModelDownloadQueue → ModelDownloadQueue
turn outcome s = worker_take (worker_finish outcome s)

abbrev pub turns : List Outcome → ModelDownloadQueue → ModelDownloadQueue
turns [] s = s
turns (outcome ∷ outcomes) s = turns outcomes (turn outcome s)

-- A turn drops the running job from the live ones.
live-turn :
    (outcome : Outcome) (s : ModelDownloadQueue) (job : Job)
    → s.current ≡ some job
    → live (turn outcome s) ≡ s.queue
unfolding worker_take worker_finish
live-turn outcome s job e = ground (arith, e)

current-turn :
    (outcome : Outcome) (s : ModelDownloadQueue) (job next : Job) (rest : List Job)
    → s.current ≡ some job
    → s.queue ≡ next ∷ rest
    → (turn outcome s).current ≡ some next
unfolding worker_take worker_finish
current-turn outcome s job next rest e q = ground (arith, e, q)

module _ (kind key : String) where
  waiting :
      (s : ModelDownloadQueue) (job : Job) (n : ℕ)
      → s.current ≡ some job
      → queue_position kind key s ≡ some (suc n)
      → index_of kind key s.queue ≡ some n
  waiting s job n e h =
      let at : index_of kind key (with_current s.current s.queue) ≡ some (suc n) =
        sym (queue_position-eq-index_of kind key s) ∙ h in
      index_of-cons kind key job s.queue n (rw e at at)

  position-turn :
      (outcome : Outcome) (s : ModelDownloadQueue) (job : Job) (n : ℕ)
      → s.current ≡ some job
      → queue_position kind key s ≡ some (suc n)
      → queue_position kind key (turn outcome s) ≡ some n
  position-turn outcome s job n e h =
      queue_position-eq-index_of kind key (turn outcome s)
      ∙ ap (index_of kind key) (live-turn outcome s job e)
      ∙ waiting s job n e h

  -- Whatever becomes of the jobs before it, a job at position `n` runs after `n` turns of the
  -- worker.
  pub served_in_turn :
      (outcomes : List Outcome) (s : ModelDownloadQueue) (running : Job)
      → s.current ≡ some running
      → queue_position kind key s ≡ some (length outcomes)
      → (job : Job) × ((turns outcomes s).current ≡ some job) × (matches kind key job ≡ true)
  served_in_turn [] s running e h =
      let at : index_of kind key (with_current s.current s.queue) ≡ some 0 =
        sym (queue_position-eq-index_of kind key s) ∙ h in
      let (job, first, fits) = get_elem?-index_of kind key (running ∷ s.queue) 0 (rw e at at) in
      (running, e, ground (arith, first, fits))
  served_in_turn (outcome ∷ outcomes) s running e h = elim (List-cases s.queue) [
    | inl empty ↦
        let at = waiting s running (length outcomes) e h in
        let (job, there, fits) =
          get_elem?-index_of kind key [] (length outcomes) (rw empty at at) in
        cc there
    | inr (next, rest, q) ↦
        served_in_turn outcomes (turn outcome s) next (current-turn outcome s running next rest e q)
          (position-turn outcome s running (length outcomes) e h)
  ]
