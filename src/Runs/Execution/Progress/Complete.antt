-- ===== src/Runs/Execution/Progress/Complete.antt =====
-- The progress that a run shows.
use mathlib.Core.List.Perm
use native.Mathlib.Nat.{mul-div_cancel_left, le-div_iff_mul-le}
use lluna.Prelude.{
  ℕ, ◌+◌, ◌*◌, ◌/◌, ◌≤◌, min, String, true, none, List, [], ◌++◌, ◌≡◌, sym, subst, ap, ◌∙◌, arith,
  concat, append-nil, length,
}
use lluna.Prelude.Key.{string_key}
use lluna.Prelude.Sets.{elem}
use lluna.Prelude.Distinct.{IsDistinct, IsDistinct-perm, length-le}
use lluna.Graph.Schema.{WorkflowEdge}
use lluna.Graph.Scheduler.{execution_waves, ok}
use lluna.Graph.Scheduler.Levels.{execution_waves-Scheduled, Scheduled}
use lluna.Prelude.Perms.{length-perm}
use lluna.Runs.Values.{Store, Incoming}
use lluna.Runs.Execution.{Execution, first_wave, percent}
use lluna.Runs.Execution.Steps.{Reach}
use lluna.Runs.Execution.Progress.Counts.{Counts, Reach-Counts}

module _ (node_ids : List String) (edges : List WorkflowEdge) (waves : List (List String))
    (planned : execution_waves node_ids edges ≡ ok waves) (distinct : IsDistinct node_ids)
    (values : Store) (incoming : Incoming) (s : Execution)
    (reached : Reach values incoming waves (length node_ids) s) where
  counts : Counts waves (length node_ids) s
  counts =
      let scheduled : Scheduled node_ids edges (ok waves) =
        subst (Scheduled node_ids edges) planned (execution_waves-Scheduled node_ids edges) in
      Reach-Counts waves (length node_ids) values incoming
        (IsDistinct-perm (Perm.symm scheduled.0) distinct) s reached

  finished_all : s.waves ≡ [] → s.failure ≡ none → s.finished ≡ length node_ids
  finished_all done f =
      let scheduled : Scheduled node_ids edges (ok waves) =
        subst (Scheduled node_ids edges) planned (execution_waves-Scheduled node_ids edges) in
      let past_all : s.past ≡ concat waves =
        sym (append-nil s.past) ∙ ap (λ w. s.past ++ concat w) (sym done) ∙ counts.all in
      let none_left =
        length-le s.collected [] counts.once
          (λ n h. subst (λ w. elem n (first_wave w) ≡ true) done (counts.inside n h)) in
      omega (arith, counts.counted f, none_left, ap length past_all, length-perm scheduled.0)

  -- The progress of a run of a plan of distinct nodes, of which there are some, is 100 when the
  -- last wave is done without a failure.
  pub progress_complete : 1 ≤ length node_ids → s.waves ≡ [] → s.failure ≡ none → s.progress ≡ 100
  progress_complete some_node done f =
      let n : ℕ = length node_ids in
      let limit : s.total ≡ n = omega (arith, counts.limit, some_node) in
      counts.shown
      ∙ ap (λ f. percent f s.total) (finished_all done f)
      ∙ ap (percent n) limit
      ∙ ap (min 100) (mul-div_cancel_left 100 some_node)

  -- In a run of a plan of distinct nodes whose waves `execution_waves` returned, as long as no step
  -- has failed, a progress of 100 means that the main loop has collected as many nodes as the plan
  -- has.
  pub progress_honest :
      s.failure ≡ none → s.progress ≡ 100 → length node_ids ≤ length s.past + length s.collected
  progress_honest f h =
      let shown : min 100 (s.finished * 100 / s.total) ≡ 100 = sym counts.shown ∙ h in
      let enough : 100 ≤ s.finished * 100 / s.total = omega (arith, shown) in
      let positive : 1 ≤ s.total = omega (arith, counts.limit) in
      let reached_all = (le-div_iff_mul-le positive).0 enough in
      omega (arith, reached_all, counts.limit, counts.counted f)
