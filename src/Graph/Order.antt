-- ===== src/Graph/Order.antt =====
-- `topological_order` of backend/graph/validation.py. The counters of `incoming` are natural
-- numbers: Graph/Order/Counts shows that none is decremented at 0.
pub mod Counts
pub mod Loop
pub mod Sequence
use lluna.Prelude.{
  ℕ, zero, suc, ◌+◌, ◌-◌, String, Bool, ◌&&◌, Option, none, some, List, [], ◌∷◌, ◌++◌, length,
  select, nat_beq, if◌then◌else◌,
}
use lluna.Prelude.Key.{string_key}
use lluna.Prelude.Sets.{elem, update}
use lluna.Prelude.Dict.{Dict, get_or, put}
use lluna.Prelude.Sort.{sorted}
use lluna.Graph.Schema.{WorkflowEdge}

-- Both ends of the edge are selected.
pub inner : List String → WorkflowEdge → Bool
inner selected edge = elem edge.source_node_id selected && elem edge.target_node_id selected

-- `{node_id: 0 for node_id in selected}`
pub zeros : List String → Dict String ℕ
zeros [] = []
zeros (node ∷ nodes) = put node 0 (zeros nodes)

module _ (selected : List String) where
  -- The loop over the edges, for the two dictionaries.
  pub count_incoming : Dict String ℕ → List WorkflowEdge → Dict String ℕ
  count_incoming incoming [] = incoming
  count_incoming incoming (edge ∷ edges) =
      let t = edge.target_node_id in
      count_incoming
        (if inner selected edge then put t (get_or 0 t incoming + 1) incoming else incoming) edges

  pub list_outgoing : Dict String (List String) → List WorkflowEdge → Dict String (List String)
  list_outgoing outgoing [] = outgoing
  list_outgoing outgoing (edge ∷ edges) =
      let s = edge.source_node_id in
      list_outgoing
        (if inner selected edge
          then put s (get_or [] s outgoing ++ edge.target_node_id ∷ []) outgoing
          else outgoing)
        edges

-- The loop over `outgoing[current]`.
pub release : Dict String ℕ → List String → List String → Dict String ℕ × List String
release incoming queue [] = (incoming, queue)
release incoming queue (target ∷ targets) =
    let left = get_or 0 target incoming - 1 in
    release (put target left incoming) (if nat_beq left 0 then queue ++ target ∷ [] else queue)
      targets

-- The `while queue` loop; `none` means that the fuel ran out.
pub run :
    Dict String (List String) → ℕ → Dict String ℕ → List String → List String → Option (List String)
run outgoing fuel incoming ordered [] = some ordered
run outgoing zero incoming ordered (current ∷ queue) = none
run outgoing (suc fuel) incoming ordered (current ∷ queue) =
    let (incoming', queue') = release incoming queue (get_or [] current outgoing) in
    run outgoing fuel incoming' (ordered ++ current ∷ []) queue'

-- For the set of the given nodes.
unfoldable pub topological_order : List WorkflowEdge → List String → Option (List String)
unfolding run release count_incoming list_outgoing inner zeros sorted update elem get_or put
topological_order edges node_ids =
    let selected = update [] node_ids in
    let incoming = count_incoming selected (zeros selected) edges in
    let outgoing = list_outgoing selected [] edges in
    let queue = sorted (select (λ n. nat_beq (get_or 0 n incoming) 0) selected) in
    run outgoing (length selected) incoming [] queue
