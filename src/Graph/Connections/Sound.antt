-- ===== src/Graph/Connections/Sound.antt =====
-- What holds of the edges if the edge loop of `validate_workflow` reports no error.
use lluna.Prelude.{
  ℕ, ◌+◌, String, Bool, true, false, ◌&&◌, List, [], ◌∷◌, ◌++◌, ◌≡◌, ◌⊎◌, inl, inr, refl, ap, subst,
  arith, ◌≤◌, if◌then◌else◌, Bool-cases,
}
use lluna.Prelude.Key.{string_key, ◌==◌}
use lluna.Prelude.Dict.{Dict, get?, get_or, get_or-put}
use lluna.Prelude.Sets.{elem}
use lluna.Graph.Schema.{
  WorkflowNode, WorkflowEdge, NodeDefinition, PortDefinition, Registry, ports_compatible,
}
use lluna.Graph.Issues.{no_errors, no_errors-left, no_errors-right, is_warning, on_edge, Code}
use lluna.Graph.Ports.{has_completed_boundary_output}
use lluna.Graph.Connections.{
  EdgeState, input_key, Resolution, dangling, untyped, portless, joined, resolve, connection_issues,
  note, connect, check_ends, check_edges,
}

-- Before the loop.
abbrev pub start : EdgeState
start = record { seen_edges = []; connected_inputs = []; issues = [] }

module _ (registry : Registry) (nodes : Dict String WorkflowNode)
    (validation_ids batch_nodes : List String) where
  -- The state after the edges.
  abbrev after : EdgeState → List WorkflowEdge → EdgeState
  after = check_edges registry nodes validation_ids batch_nodes

  abbrev turn : EdgeState → WorkflowEdge → EdgeState
  turn state edge =
      if elem edge.target_node_id validation_ids
      then check_ends registry nodes validation_ids batch_nodes (note state edge) edge
          (resolve registry nodes edge)
      else state

  check_edges-append :
      (es fs : List WorkflowEdge) (state : EdgeState)
      → after state (es ++ fs) ≡ after (after state es) fs
  unfolding check_edges
  check_edges-append [] fs state = refl
  check_edges-append (e ∷ es) fs state = check_edges-append es fs (turn state e)

  check_ends-errors :
      (state : EdgeState) (edge : WorkflowEdge) (r : Resolution)
      → no_errors (check_ends registry nodes validation_ids batch_nodes state edge r).issues ≡ true
      → no_errors state.issues ≡ true
  unfolding check_ends
  check_ends-errors state edge dangling h = no_errors-left state.issues _ h
  check_ends-errors state edge untyped h = h
  check_ends-errors state edge portless h = no_errors-left state.issues _ h
  check_ends-errors state edge (joined s sd sp t tp) h = no_errors-left state.issues _ h

  turn_on :
      (state : EdgeState) (edge : WorkflowEdge)
      → elem edge.target_node_id validation_ids ≡ true
      → turn state edge
        ≡ check_ends registry nodes validation_ids batch_nodes
            (note state edge)
            edge
            (resolve registry nodes edge)
  turn_on state edge e = rw e refl

  turn_off :
      (state : EdgeState) (edge : WorkflowEdge)
      → elem edge.target_node_id validation_ids ≡ false
      → turn state edge ≡ state
  turn_off state edge e = rw e refl

  turn-errors :
      (state : EdgeState) (edge : WorkflowEdge)
      → no_errors (turn state edge).issues ≡ true
      → no_errors state.issues ≡ true
  turn-errors state edge h = elim (Bool-cases (elem edge.target_node_id validation_ids)) [
    | inl e ↦ no_errors-left state.issues _ (
        check_ends-errors (note state edge) edge (resolve registry nodes edge)
          (subst (λ s. no_errors s.issues ≡ true) (turn_on state edge e) h))
    | inr e ↦ subst (λ s. no_errors s.issues ≡ true) (turn_off state edge e) h
  ]

  -- An error that was reported stays.
  check_edges-errors :
      (es : List WorkflowEdge) (state : EdgeState)
      → no_errors (after state es).issues ≡ true
      → no_errors state.issues ≡ true
  unfolding check_edges
  check_edges-errors [] state h = h
  check_edges-errors (e ∷ es) state h = turn-errors state e (check_edges-errors es (turn state e) h)

  -- Whether an edge connects the given input.
  abbrev pub feeds : String × String → Resolution → Bool
  feeds key (joined s sd sp t tp) = key == (t.id, tp.id)
  feeds key r = false

  abbrev pub connects : String × String → WorkflowEdge → Bool
  connects key edge =
      elem edge.target_node_id validation_ids && feeds key (resolve registry nodes edge)

  abbrev pub connections : String × String → List WorkflowEdge → ℕ
  connections key [] = 0
  connections key (e ∷ es) = (if connects key e then 1 else 0) + connections key es

  abbrev count : String × String → EdgeState → ℕ
  count key state = get_or 0 key state.connected_inputs

  count-check_ends :
      (key : String × String) (state : EdgeState) (edge : WorkflowEdge) (r : Resolution)
      → count key (check_ends registry nodes validation_ids batch_nodes state edge r)
        ≡ (if feeds key r then 1 else 0) + count key state
  unfolding check_ends
  count-check_ends key state edge dangling = ground arith
  count-check_ends key state edge untyped = ground arith
  count-check_ends key state edge portless = ground arith
  count-check_ends key state edge (joined s sd sp t tp) = ground (
    arith,
    get_or-put 0 (t.id, tp.id) key (get_or 0 (t.id, tp.id) state.connected_inputs + 1)
        state.connected_inputs,
    input_key.test_iff key (t.id, tp.id),
  )

  count-turn :
      (key : String × String) (state : EdgeState) (edge : WorkflowEdge)
      → count key (turn state edge) ≡ (if connects key edge then 1 else 0) + count key state
  count-turn key state edge = elim (Bool-cases (elem edge.target_node_id validation_ids)) [
    | inl e ↦ rw e (count-check_ends key (note state edge) edge (resolve registry nodes edge))
    | inr e ↦ rw e (ground arith)
  ]

  count-check_edges :
      (key : String × String) (es : List WorkflowEdge) (state : EdgeState)
      → count key (after state es) ≡ connections key es + count key state
  unfolding check_edges
  count-check_edges key [] state = ground arith
  count-check_edges key (e ∷ es) state =
      ground (arith, count-check_edges key es (turn state e), count-turn key state e)

  -- An edge whose ends are known: a connection of compatible ports. From outside the scope, it
  -- feeds a required input only with a completed output, and it feeds an input for one item only
  -- if no queue leads there and no edge before it does.
  abbrev pub IsConnection : List WorkflowEdge → WorkflowEdge → Resolution → Type 0
  IsConnection before edge dangling = ⊥
  IsConnection before edge untyped = Unit
  IsConnection before edge portless = ⊥
  IsConnection before edge (joined s sd sp t tp) =
      (ports_compatible sp.type tp.type ≡ true)
      × ((tp.multiple ≡ true)
          ⊎ ((connections (t.id, tp.id) before ≡ 0) × (elem s.id batch_nodes ≡ false)))
      × ((elem s.id validation_ids ≡ true)
          ⊎ (tp.required ≡ false)
          ⊎ (has_completed_boundary_output s sd sp.id ≡ true))

  connection_issues_lem :
      (edge : WorkflowEdge) (s : WorkflowNode) (sd : NodeDefinition) (sp : PortDefinition)
      (t : WorkflowNode) (tp : PortDefinition) (n : ℕ)
      → no_errors (connection_issues registry nodes validation_ids batch_nodes edge s sd sp t tp n)
        ≡ true
      → (ports_compatible sp.type tp.type ≡ true)
        × ((tp.multiple ≡ true) ⊎ ((n ≤ 1) × (elem s.id batch_nodes ≡ false)))
        × ((elem s.id validation_ids ≡ true)
            ⊎ (tp.required ≡ false)
            ⊎ (has_completed_boundary_output s sd sp.id ≡ true))
  unfolding connection_issues no_errors is_warning
  connection_issues_lem edge s sd sp t tp n h = ground arith

  check_ends-IsConnection :
      (before : List WorkflowEdge) (edge : WorkflowEdge) (state : EdgeState) (r : Resolution)
      → ((key : String × String) → count key state ≡ connections key before)
      → no_errors (check_ends registry nodes validation_ids batch_nodes state edge r).issues ≡ true
      → IsConnection before edge r
  unfolding check_ends no_errors
  check_ends-IsConnection before edge state dangling c h =
      ground (arith, no_errors-right state.issues (on_edge Code.dangling_edge edge.id ∷ []) h)
  check_ends-IsConnection before edge state untyped c h = tt
  check_ends-IsConnection before edge state portless c h =
      ground (arith, no_errors-right state.issues (on_edge Code.unknown_port edge.id ∷ []) h)
  check_ends-IsConnection before edge state (joined s sd sp t tp) c h =
      let key : String × String = (t.id, tp.id) in
      let seen = get_or-put 0 key key (count key state + 1) state.connected_inputs in
      let sound =
        connection_issues_lem edge s sd sp t tp (count key (connect state key))
          (no_errors-right state.issues _ h) in
      ground (arith, c key, input_key.test_iff key key, sound)

  -- If the loop reports no error, each edge into the scope is a connection.
  pub check_edges-IsConnection :
      (before : List WorkflowEdge) (edge : WorkflowEdge) (rest : List WorkflowEdge)
      → elem edge.target_node_id validation_ids ≡ true
      → no_errors (after start (before ++ edge ∷ rest)).issues ≡ true
      → IsConnection before edge (resolve registry nodes edge)
  unfolding check_edges get_or get?
  check_edges-IsConnection before edge rest e h =
      let state = after start before in
      let g : no_errors (turn state edge).issues ≡ true =
        check_edges-errors rest (turn state edge) (
          subst (λ s. no_errors s.issues ≡ true) (check_edges-append before (edge ∷ rest) start)
            h) in
      check_ends-IsConnection before edge (note state edge) (resolve registry nodes edge)
        (λ key. ground (arith, count-check_edges key before start))
        (subst (λ s. no_errors s.issues ≡ true) (turn_on state edge e) g)

  -- An input that is connected has an edge.
  pub connects_of_connections :
      (key : String × String) (es : List WorkflowEdge)
      → 1 ≤ connections key es
      → (before : List WorkflowEdge) × (edge : WorkflowEdge) × (rest : List WorkflowEdge) × (es
          ≡ before ++ edge ∷ rest)
        × (connects key edge ≡ true)
  connects_of_connections key [] h = ground arith
  connects_of_connections key (e ∷ es) h = elim (Bool-cases (connects key e)) [
    | inl c ↦ ([], e, es, refl, c)
    | inr c ↦
        let (before, edge, rest, split, found) = connects_of_connections key es (ground arith) in
        (e ∷ before, edge, rest, ap (◌∷◌ e) split, found)
  ]

  pub connected_lem :
      (key : String × String) (es : List WorkflowEdge)
      → get_or 0 key
          (check_edges registry nodes validation_ids batch_nodes start es).connected_inputs
        ≡ connections key es
  unfolding get_or get?
  connected_lem key es = ground (arith, count-check_edges key es start)
