-- ===== src/Graph/Scheduler.antt =====
-- backend/graph/scheduler.py: the dependency levels of a plan, and how many workers a level gets.
pub mod Dependencies
mod Rounds
pub mod Levels
pub mod Acyclic
use lluna.Prelude.{
  ℕ, zero, suc, String, Bool, true, false, not, ◌&&◌, List, [], ◌∷◌, ◌++◌, length, select, reject,
  if◌then◌else◌,
}
use lluna.Prelude.Key.{string_key, ◌==◌}
use lluna.Prelude.Sets.{elem, add, update, subset}
use lluna.Prelude.Dict.{Dict, get_or, put}
use lluna.Graph.Schema.{WorkflowEdge}

-- `{node_id: set() for node_id in node_ids}`
blank : List String → Dict String (List String)
blank [] = []
blank (node_id ∷ rest) = put node_id [] (blank rest)

-- An edge imposes an order if it joins two different active nodes.
orders : List String → WorkflowEdge → Bool
orders active edge =
    elem edge.target_node_id active
    && elem edge.source_node_id active
    && not (edge.source_node_id == edge.target_node_id)

module _ (active : List String) where
  -- The body of the loop over the edges.
  add_source : Dict String (List String) → WorkflowEdge → Dict String (List String)
  add_source found edge =
      let target = edge.target_node_id in
      if orders active edge
      then put target (add edge.source_node_id (get_or [] target found)) found
      else found

  add_sources : Dict String (List String) → List WorkflowEdge → Dict String (List String)
  add_sources found [] = found
  add_sources found (edge ∷ edges) = add_sources (add_source found edge) edges

unfoldable pub dependencies : List String → List WorkflowEdge → Dict String (List String)
unfolding add_sources add_source orders blank get_or put add update
dependencies node_ids edges = add_sources (update [] node_ids) (blank node_ids) edges

-- `cycle queue` is the DependencyCycle that names the nodes of `queue`.
pub data Plan : Type 0 where
  ok : List (List String) → Plan
  cycle : List String → Plan
  out_of_fuel : Plan

module _ (remaining : Dict String (List String)) where
  -- `not (remaining[node_id] - settled)`
  pub ready : List String → String → Bool
  ready settled node_id = subset (get_or [] node_id remaining) settled

  -- The `while queue` loop.
  pub rounds : ℕ → List (List String) → List String → List String → Plan
  rounds fuel waves settled [] = ok waves
  rounds zero waves settled (q ∷ qs) = out_of_fuel
  rounds (suc fuel) waves settled (q ∷ qs) =
      let queue = q ∷ qs in
      let wave = select (ready settled) queue in
      let settled' = update settled wave in
      let next = rounds fuel (waves ++ wave ∷ []) settled' (reject (λ n. elem n settled') queue) in
      elim wave [ [] ↦ cycle queue | _ ∷ _ ↦ next ]

-- As many rounds as nodes are enough: each settles one at least.
unfoldable pub execution_waves : List String → List WorkflowEdge → Plan
unfolding dependencies rounds ready subset update elem
execution_waves node_ids edges =
    rounds (dependencies node_ids edges) (length node_ids) [] [] node_ids
