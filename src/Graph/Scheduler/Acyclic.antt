-- ===== src/Graph/Scheduler/Acyclic.antt =====
-- Workflows that `execution_waves` of backend/graph/scheduler.py can order.
use lluna.Prelude.{ℕ, zero, suc, ◌<◌, String, ◌≡◌, refl, true, List, [], ◌∷◌, arith}
use lluna.Prelude.Key.{string_key}
use lluna.Prelude.Sets.{elem, elem_head}
use lluna.Graph.Schema.{WorkflowEdge}
use lluna.Graph.Scheduler.{Plan, ok, cycle, out_of_fuel, execution_waves}
use lluna.Graph.Scheduler.Dependencies.{Depends}
use lluna.Graph.Scheduler.Levels.{Scheduled, execution_waves-Scheduled}

module _ (node_ids : List String) (edges : List WorkflowEdge) (rank : String → ℕ)
    (ranked : (s n : String) → Depends node_ids edges s n → rank s < rank n) where
  -- A set in which each node waits for another has no member of least rank.
  no_member :
      (queue : List String)
      → ((n : String)
          → elem n queue ≡ true
          → (s : String) × (elem s queue ≡ true) × Depends node_ids edges s n)
      → (bound : ℕ) (n : String) → rank n < bound
      → elem n queue ≡ true
      → ⊥
  no_member queue waits zero n h here = elim h [ ]
  no_member queue waits (suc bound) n h here =
      let (s, there, dep) = waits n here in
      no_member queue waits bound s (omega (arith, ranked s n dep)) there

  returns :
      (plan : Plan)
      → Scheduled node_ids edges plan
      → (waves : List (List String)) × (plan ≡ ok waves)
  returns (ok waves) h = (waves, refl)
  returns (cycle []) h = absurd (h.0 refl)
  returns (cycle (q ∷ qs)) h =
      absurd (no_member (q ∷ qs) h.1 (suc (rank q)) q (omega arith) (elem_head q qs))
  returns out_of_fuel h = absurd h

  -- If the nodes can be ranked so that each dependency ranks below its node, then
  -- `execution_waves` returns and never raises DependencyCycle.
  pub execution_waves-returns :
      (waves : List (List String)) × (execution_waves node_ids edges ≡ ok waves)
  execution_waves-returns = returns _ (execution_waves-Scheduled node_ids edges)
