-- ===== src/Runs/Execution/Reads/Sources.antt =====
-- The values that the inputs of a node are made of.
use lluna.Prelude.{
  String, Bool, true, false, ◌||◌, Option, none, some, List, [], ◌∷◌, ◌++◌, ◌≡◌, refl, sym, subst,
  ◌⊎◌, inl, inr, arith, Bool-cases,
}
use lluna.Prelude.Key.{string_key, ◌==◌}
use lluna.Prelude.Dict.{Dict, get?, get_or, put, get?-put, get_or-put}
use lluna.Graph.Schema.{WorkflowEdge, PortDefinition, HasEdge}
use lluna.Runs.Values.{
  Value, artifact, by_port, sequence, atom, Ports, no_port, on_port, Source, source_key, Store,
  Incoming, add_edge, add_edges, incoming_of, connected, input_values, store_ports, store_outputs,
  store_result,
}

-- Whether a node is among the sources of a port, or of all the ports of a node.
unfoldable pub mentions : String → List Source → Bool
mentions n [] = false
mentions n ((m, q) ∷ sources) = n == m || mentions n sources

unfoldable pub feeds : String → Dict String (List Source) → Bool
unfolding mentions
feeds n [] = false
feeds n ((p, sources) ∷ ports) = mentions n sources || feeds n ports

module _ (n : String) where
  get?-store_ports :
      (ports : Ports) (values : Store) (m q : String)
      → string_key.test n m ≡ false
      → get? (m, q) (store_ports n ports values) ≡ get? (m, q) values
  unfolding store_ports
  get?-store_ports no_port values m q h = refl
  get?-store_ports (on_port p v ports) values m q h = ground (
    arith,
    get?-store_ports ports (put (n, p) v values) m q,
    get?-put (n, p) (m, q) v values,
    string_key.test_iff n m,
    string_key.test_iff m n,
  )

  get?-store_outputs :
      (outputs : List PortDefinition) (v : Value) (values : Store) (m q : String)
      → string_key.test n m ≡ false
      → get? (m, q) (store_outputs n outputs v values) ≡ get? (m, q) values
  unfolding store_outputs
  get?-store_outputs [] v values m q h = refl
  get?-store_outputs (p ∷ outputs) v values m q h = ground (
    arith,
    get?-store_outputs outputs v (put (n, p.id) v values) m q,
    get?-put (n, p.id) (m, q) v values,
    string_key.test_iff n m,
    string_key.test_iff m n,
  )

  get?-store_result :
      (outputs : List PortDefinition) (result : Option Value) (values : Store) (m q : String)
      → string_key.test n m ≡ false
      → get? (m, q) (store_result n outputs result values) ≡ get? (m, q) values
  unfolding store_result
  get?-store_result outputs none values m q h = refl
  get?-store_result outputs (some (by_port ports)) values m q h =
      get?-store_ports ports values m q h
  get?-store_result outputs (some (artifact a)) values m q h =
      get?-store_outputs outputs (artifact a) values m q h
  get?-store_result outputs (some (sequence vs)) values m q h =
      get?-store_outputs outputs (sequence vs) values m q h
  get?-store_result outputs (some (atom json)) values m q h =
      get?-store_outputs outputs (atom json) values m q h

  module _ (outputs : List PortDefinition) (result : Option Value) (values : Store) where
    connected-store_result :
        (sources : List Source)
        → mentions n sources ≡ false
        → connected (store_result n outputs result values) sources ≡ connected values sources
    unfolding connected mentions
    connected-store_result [] h = refl
    connected-store_result ((m, q) ∷ sources) h =
        let same = get?-store_result outputs result values m q (ground arith) in
        let ih = connected-store_result sources (ground arith) in
        rw (connected, same) (ground arith)

    -- The result of a node that feeds no port is not read.
    pub input_values-store_result :
        (ports : Dict String (List Source))
        → feeds n ports ≡ false
        → input_values (store_result n outputs result values) ports ≡ input_values values ports
    unfolding input_values feeds
    input_values-store_result [] h = refl
    input_values-store_result ((p, sources) ∷ ports) h =
        let same = connected-store_result sources (ground arith) in
        let ih = input_values-store_result ports (ground arith) in
        rw (input_values, same) (ground arith)

  mentions-append :
      (sources : List Source) (m q : String)
      → mentions n (sources ++ (m, q) ∷ []) ≡ (mentions n sources || n == m)
  unfolding mentions
  mentions-append [] m q = ground arith
  mentions-append ((k, r) ∷ sources) m q = ground (arith, mentions-append sources m q)

  feeds_of_mentions :
      (ports : Dict String (List Source)) (p : String)
      → mentions n (get_or [] p ports) ≡ true
      → feeds n ports ≡ true
  unfolding mentions feeds get_or get?
  feeds_of_mentions [] p h = ground arith
  feeds_of_mentions ((k, sources) ∷ ports) p h = ground (arith, feeds_of_mentions ports p)

  feeds-put :
      (ports : Dict String (List Source)) (p : String) (sources : List Source)
      → feeds n (put p sources ports) ≡ true
      → (mentions n sources ≡ true) ⊎ (feeds n ports ≡ true)
  unfolding feeds put
  feeds-put [] p sources h = ground arith
  feeds-put ((k, ss) ∷ ports) p sources h = ground (arith, feeds-put ports p sources)

  feeds-add_edge :
      (edge : WorkflowEdge) (incoming : Incoming) (t : String)
      → feeds n (get_or [] t (add_edge edge incoming)) ≡ true
      → ((n ≡ edge.source_node_id) × (t ≡ edge.target_node_id))
        ⊎ (feeds n (get_or [] t incoming) ≡ true)
  unfolding add_edge
  feeds-add_edge edge incoming t h =
      let target = edge.target_node_id in
      let ports = get_or [] target incoming in
      let sources = get_or [] edge.target_port_id ports in
      let source : Source = (edge.source_node_id, edge.source_port_id) in
      let new = put edge.target_port_id (sources ++ source ∷ []) ports in
      elim (Bool-cases (string_key.test t target)) [
        | inr e ↦ inr (ground (arith, get_or-put [] target t new incoming))
        | inl e ↦
            let same : t ≡ target = ground (arith, string_key.test_iff t target) in
            let fed : feeds n new ≡ true = ground (arith, get_or-put [] target t new incoming) in
            elim (feeds-put ports edge.target_port_id (sources ++ source ∷ []) fed) [
              | inr old ↦ inr (subst (λ k. feeds n (get_or [] k incoming) ≡ true) (sym same) old)
              | inl m ↦ elim (Bool-cases (string_key.test n edge.source_node_id)) [
                | inl here ↦ inl (ground (arith, string_key.test_iff n edge.source_node_id), same)
                | inr other ↦
                    let old = feeds_of_mentions ports edge.target_port_id (
                      ground
                        (arith, mentions-append sources edge.source_node_id edge.source_port_id)) in
                    inr (subst (λ k. feeds n (get_or [] k incoming) ≡ true) (sym same) old)
              ]
            ]
      ]

  feeds-add_edges :
      (edges : List WorkflowEdge) (incoming : Incoming) (t : String)
      → feeds n (get_or [] t (add_edges edges incoming)) ≡ true
      → HasEdge edges n t ⊎ (feeds n (get_or [] t incoming) ≡ true)
  unfolding add_edges
  feeds-add_edges [] incoming t h = inr h
  feeds-add_edges (edge ∷ edges) incoming t h =
      elim (feeds-add_edges edges (add_edge edge incoming) t h) [
        | inl later ↦ inl (inr later)
        | inr f ↦ elim (feeds-add_edge edge incoming t f) [
          | inl here ↦ inl (inl here)
          | inr old ↦ inr old
        ]
      ]

  -- A node that feeds another one has an edge to it.
  pub HasEdge-of_feeds :
      (edges : List WorkflowEdge) (t : String)
      → feeds n (get_or [] t (incoming_of edges)) ≡ true
      → HasEdge edges n t
  unfolding get_or get? feeds
  HasEdge-of_feeds edges t h = elim (feeds-add_edges edges [] t h) [
    | inl here ↦ here
    | inr old ↦ ground arith
  ]
