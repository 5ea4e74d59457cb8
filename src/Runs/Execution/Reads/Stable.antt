-- ===== src/Runs/Execution/Reads/Stable.antt =====
-- The waves of a plan, run in any order that the code allows.
use lluna.Prelude.{
  ℕ, String, true, List, [], ◌≡◌, sym, subst, ap, ◌∙◌, arith, append-nil, concat, some, inl, inr,
  Bool-cases, ◌++◌,
}
use lluna.Prelude.Key.{string_key}
use lluna.Prelude.Sets.{elem}
use lluna.Prelude.Perms.{elem-perm}
use lluna.Prelude.Dict.{Dict, get?, get_or}
use lluna.Graph.Schema.{WorkflowEdge, HasEdge}
use lluna.Graph.Scheduler.{execution_waves, ok}
use lluna.Graph.Scheduler.Dependencies.{Depends}
use lluna.Graph.Scheduler.Levels.{execution_waves-Scheduled, Scheduled}
use lluna.Runs.Values.{Value, Store, incoming_of, input_values}
use lluna.Runs.Execution.{Execution, current}
use lluna.Runs.Execution.Steps.{Reach}
use lluna.Runs.Execution.Reads.Validity.{Inv}
use lluna.Runs.Execution.Reads.Invariant.{Reach-Inv}
use lluna.Runs.Execution.Reads.Waves.{first_wave_depends}

module _ (node_ids : List String) (edges : List WorkflowEdge) (waves : List (List String))
    (planned : execution_waves node_ids edges ≡ ok waves)
    (no_loop : (n : String) → elem n node_ids ≡ true → HasEdge edges n n → ⊥) (values : Store)
    (total : ℕ) (s : Execution) (reached : Reach values (incoming_of edges) waves total s) where
  invariant : Inv node_ids edges s
  invariant =
      let scheduled : Scheduled node_ids edges (ok waves) =
        subst (Scheduled node_ids edges) planned (execution_waves-Scheduled node_ids edges) in
      Reach-Inv node_ids edges no_loop values waves total scheduled.1 (λ n. elem-perm n scheduled.0)
        s reached

  -- Whatever the order of the steps, the inputs that a node of the plan has read are those that the
  -- values hold at any later time: no step that comes after changes what a node that has begun
  -- would read. The plan is one that `execution_waves` returns, and no edge leads from a node of it
  -- to itself.
  pub reads_stable :
      (n : String) (inputs : Dict String Value)
      → get? n s.read ≡ some inputs
      → inputs ≡ input_values s.values (get_or [] n (incoming_of edges))
  reads_stable n inputs h = invariant.same n inputs h

  -- A node of such a plan begins after the results of all the nodes it depends on are stored.
  pub reads_after_sources :
      (n m : String) (inputs : Dict String Value)
      → get? n s.read ≡ some inputs
      → Depends node_ids edges m n
      → elem m s.stored ≡ true
  reads_after_sources n m inputs h d = elim (Bool-cases (elem n s.past)) [
    | inl old ↦ invariant.kept m (invariant.settled n m old d)
    | inr young ↦
        let here : elem n (current s) ≡ true = ground (arith, invariant.begins n inputs h) in
        invariant.kept m
          (first_wave_depends (Depends node_ids edges) s.past s.waves m n invariant.levelled here d)
  ]

  -- If the waves are those that `execution_waves` returns for a plan, and no edge leads from a node
  -- of the plan to itself, the results of all its nodes are stored when the last wave is done.
  pub all_stored : (n : String) → s.waves ≡ [] → elem n node_ids ≡ true → elem n s.stored ≡ true
  all_stored n done h = invariant.kept n (
      ap (elem n) (sym (append-nil s.past))
      ∙ ap (λ rest. elem n (s.past ++ concat rest)) (sym done)
      ∙ invariant.active n
      ∙ h)
