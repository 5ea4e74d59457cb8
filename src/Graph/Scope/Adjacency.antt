-- ===== src/Graph/Scope/Adjacency.antt =====
-- What `_adjacency` of backend/graph/validation.py computes.
use lluna.Prelude.{String, ◌≡◌, ◌↔◌, ◌⊎◌, true, List, [], ◌∷◌, ◌++◌, if◌then◌else◌, arith}
use lluna.Prelude.Key.{string_key}
use lluna.Prelude.Sets.{elem, elem-append}
use lluna.Prelude.Dict.{Dict, get_or-put}
use lluna.Graph.Schema.{WorkflowEdge, WorkflowDocument, ids, HasEdge}
use lluna.Graph.Scope.{append_to, joins, adjacency, parents, children}
use lluna.Graph.Scope.Closure.{next}

-- An edge of the workflow leads from its node `s` to its node `t`.
abbrev pub Link : WorkflowDocument → String → String → Type 0
Link workflow s t =
    (elem s (ids workflow) ≡ true) × (elem t (ids workflow) ≡ true) × HasEdge workflow.edges s t

elem-append_to :
    (key value : String) (d : Dict String (List String)) (j v : String)
    → (elem v (next (append_to key value d) j) ≡ true)
      ↔ ((elem v (next d j) ≡ true) ⊎ (j ≡ key) × (v ≡ value))
unfolding append_to elem
elem-append_to key value d j v = ground (
  arith,
  get_or-put [] key j (next d key ++ value ∷ []) d,
  elem-append v (next d key) (value ∷ []),
  string_key.test_iff j key,
  string_key.test_iff v value,
)

module _ (nodes : List String) where
  Joined : List WorkflowEdge → String → String → Type 0
  Joined edges s t = (elem s nodes ≡ true) × (elem t nodes ≡ true) × HasEdge edges s t

  elem-adjacency :
      (up down : Dict String (List String)) (edges : List WorkflowEdge) (s t : String)
      → ((elem s (next (adjacency nodes up down edges).0 t) ≡ true)
          ↔ ((elem s (next up t) ≡ true) ⊎ Joined edges s t))
        × ((elem t (next (adjacency nodes up down edges).1 s) ≡ true)
            ↔ ((elem t (next down s) ≡ true) ⊎ Joined edges s t))
  unfolding adjacency joins Joined
  elem-adjacency up down [] s t = ground arith
  elem-adjacency up down (edge ∷ edges) s t =
      let a = edge.source_node_id in
      let b = edge.target_node_id in
      ground (
        arith,
        elem-adjacency (if joins nodes edge then append_to b a up else up)
            (if joins nodes edge then append_to a b down else down) edges s t,
        elem-append_to b a up t s,
        elem-append_to a b down s t,
      )

-- The parents of a node are exactly the nodes from which an edge leads to it, and its children
-- those to which one leads from it; edges with an unknown end are ignored.
pub adjacency_lem :
    (workflow : WorkflowDocument) (s t : String)
    → ((elem s (next (parents workflow) t) ≡ true) ↔ Link workflow s t)
      × ((elem t (next (children workflow) s) ≡ true) ↔ Link workflow s t)
unfolding parents children Joined
adjacency_lem workflow s t = ground (arith, elem-adjacency (ids workflow) [] [] workflow.edges s t)
