-- ===== src/Graph/Scheduler/Dependencies.antt =====
-- What `dependencies` of backend/graph/scheduler.py computes.
use lluna.Prelude.{String, ◌≡◌, refl, ◌≢◌, ◌↔◌, ◌⊎◌, true, ◌&&◌, ◌||◌, List, [], ◌∷◌, arith, ap}
use lluna.Prelude.Key.{string_key, ◌==◌}
use lluna.Prelude.Sets.{elem, add, elem-add, elem-update, update}
use lluna.Prelude.Dict.{Dict, get_or, get?, get_or-put}
use lluna.Graph.Schema.{WorkflowEdge, HasEdge}
use lluna.Graph.Scheduler.{blank, orders, add_source, add_sources, dependencies}

-- `t` consumes output of another node `s`, and both are active.
abbrev pub Depends : List String → List WorkflowEdge → String → String → Type 0
Depends active edges s t =
    (elem t active ≡ true) × (elem s active ≡ true) × (s ≢ t) × HasEdge edges s t

abbrev pub sources : Dict String (List String) → String → List String
sources found node_id = get_or [] node_id found

sources-blank : (node_ids : List String) (n : String) → sources (blank node_ids) n ≡ []
unfolding blank get_or get?
sources-blank [] n = refl
sources-blank (m ∷ node_ids) n =
    ground (arith, get_or-put [] m n [] (blank node_ids), sources-blank node_ids n)

module _ (active : List String) where
  elem-add_source :
      (found : Dict String (List String)) (edge : WorkflowEdge) (s t : String)
      → elem s (sources (add_source active found edge) t) ≡ (
          elem s (sources found t)
          || (orders active edge && s == edge.source_node_id && t == edge.target_node_id))
  unfolding add_source
  elem-add_source found edge s t =
      let target = edge.target_node_id in
      let known = sources found target in
      ground (
        arith,
        get_or-put [] target t (add edge.source_node_id known) found,
        elem-add s edge.source_node_id known,
        string_key.test_iff t target,
      )

  elem-add_source_iff :
      (found : Dict String (List String)) (edge : WorkflowEdge) (s t : String)
      → (elem s (sources (add_source active found edge) t) ≡ true) ↔ (
          (elem s (sources found t) ≡ true)
          ⊎ (elem t active ≡ true)
            × (elem s active ≡ true)
            × (s ≢ t)
            × (s ≡ edge.source_node_id)
            × (t ≡ edge.target_node_id))
  unfolding orders
  elem-add_source_iff found edge s t = ground (
    arith,
    elem-add_source found edge s t,
    string_key.test_iff s edge.source_node_id,
    string_key.test_iff t edge.target_node_id,
    string_key.test_iff edge.source_node_id edge.target_node_id,
  )

  elem-add_sources :
      (found : Dict String (List String)) (edges : List WorkflowEdge) (s t : String)
      → (elem s (sources (add_sources active found edges) t) ≡ true)
        ↔ ((elem s (sources found t) ≡ true) ⊎ Depends active edges s t)
  unfolding add_sources
  elem-add_sources found [] s t = ground arith
  elem-add_sources found (edge ∷ edges) s t = ground (
    arith,
    elem-add_sources (add_source active found edge) edges s t,
    elem-add_source_iff found edge s t,
  )

-- A node's dependencies are exactly the other active nodes from which an edge leads to it.
pub elem-dependencies :
    (node_ids : List String) (edges : List WorkflowEdge) (s t : String)
    → (elem s (sources (dependencies node_ids edges) t) ≡ true) ↔ Depends node_ids edges s t
unfolding dependencies elem
elem-dependencies node_ids edges s t = ground (
  arith,
  elem-add_sources (update [] node_ids) (blank node_ids) edges s t,
  ap (elem s) (sources-blank node_ids t),
  elem-update s [] node_ids,
  elem-update t [] node_ids,
)
