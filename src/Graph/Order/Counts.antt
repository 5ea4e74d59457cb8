-- ===== src/Graph/Order/Counts.antt =====
-- What the counters of `topological_order` in backend/graph/validation.py count.
use lluna.Prelude.{
  ℕ, ◌+◌, ◌<◌, String, ◌≡◌, refl, sym, append-nil, append_assoc, true, false, not, ◌&&◌, List, [],
  ◌∷◌, ◌++◌, if◌then◌else◌, arith, Bool-cases, inl, inr,
}
use lluna.Prelude.Key.{string_key, ◌==◌}
use lluna.Prelude.Sets.{elem, elem-append}
use lluna.Prelude.Dict.{Dict, get_or, get?, put, get_or-put}
use lluna.Graph.Schema.{WorkflowEdge, HasEdge}
use lluna.Graph.Order.{inner, zeros, count_incoming, list_outgoing}

-- How often the node stands in the list.
unfoldable pub count : String → List String → ℕ
count t [] = 0
count t (x ∷ xs) = (if t == x then 1 else 0) + count t xs

pub count-append : (t : String) (xs ys : List String) → count t (xs ++ ys) ≡ count t xs + count t ys
unfolding count
count-append t [] ys = omega arith
count-append t (x ∷ xs) ys = omega (arith, count-append t xs ys)

module _ (selected : List String) where
  -- The edges to `t` from the selected nodes that are not in `ordered`.
  pub pending : List String → List WorkflowEdge → String → ℕ
  pending ordered [] t = 0
  pending ordered (edge ∷ edges) t =
      (if inner selected edge && t == edge.target_node_id && not (elem edge.source_node_id ordered)
        then 1
        else 0)
      + pending ordered edges t

  -- The targets of the edges from `s`.
  pub targets : List WorkflowEdge → String → List String
  targets [] s = []
  targets (edge ∷ edges) s =
      if inner selected edge && s == edge.source_node_id
      then edge.target_node_id ∷ targets edges s
      else targets edges s

  pub get_or-count_incoming :
      (incoming : Dict String ℕ) (edges : List WorkflowEdge) (t : String)
      → get_or 0 t (count_incoming selected incoming edges)
        ≡ get_or 0 t incoming + pending [] edges t
  unfolding count_incoming pending elem
  get_or-count_incoming incoming [] t = omega arith
  get_or-count_incoming incoming (edge ∷ edges) t =
      let u = edge.target_node_id in
      ground (
        arith,
        get_or-count_incoming
            (if inner selected edge then put u (get_or 0 u incoming + 1) incoming else incoming)
            edges t,
        get_or-put 0 u t (get_or 0 u incoming + 1) incoming,
        string_key.test_iff t u,
      )

  pub get_or-list_outgoing :
      (outgoing : Dict String (List String)) (edges : List WorkflowEdge) (s : String)
      → get_or [] s (list_outgoing selected outgoing edges)
        ≡ get_or [] s outgoing ++ targets edges s
  unfolding list_outgoing targets
  get_or-list_outgoing outgoing [] s = sym (append-nil (get_or [] s outgoing))
  get_or-list_outgoing outgoing (edge ∷ edges) s =
      let u = edge.source_node_id in
      let t = edge.target_node_id in
      let longer = get_or [] u outgoing ++ t ∷ [] in
      ground (
        arith,
        get_or-list_outgoing (if inner selected edge then put u longer outgoing else outgoing) edges
            s,
        get_or-put [] u s longer outgoing,
        append_assoc (get_or [] s outgoing) (t ∷ []) (targets edges s),
        string_key.test_iff s u,
      )

  pub targets-elem :
      (edges : List WorkflowEdge) (s t : String)
      → elem t (targets edges s) ≡ true
      → elem t selected ≡ true
  unfolding targets inner elem
  targets-elem [] s t h = ground arith
  targets-elem (edge ∷ edges) s t h =
      ground (arith, h, targets-elem edges s t, string_key.test_iff t edge.target_node_id)

  -- Ordering `c` settles its edges.
  pub pending-snoc :
      (ordered : List String) (edges : List WorkflowEdge) (c t : String)
      → elem c ordered ≡ false
      → pending ordered edges t ≡ pending (ordered ++ c ∷ []) edges t + count t (targets edges c)
  unfolding pending targets count elem
  pending-snoc ordered [] c t h = omega arith
  pending-snoc ordered (edge ∷ edges) c t h = ground (
    arith,
    pending-snoc ordered edges c t h,
    elem-append edge.source_node_id ordered (c ∷ []),
    string_key.test_iff edge.source_node_id c,
    string_key.test_iff c edge.source_node_id,
  )

pub get_or-zeros : (nodes : List String) (t : String) → get_or 0 t (zeros nodes) ≡ 0
unfolding zeros get_or get?
get_or-zeros [] t = refl
get_or-zeros (node ∷ nodes) t =
    ground (arith, get_or-zeros nodes t, get_or-put 0 node t 0 (zeros nodes))

module _ (selected : List String) where
  -- An edge leads from the selected node `s` to the selected node `t`.
  abbrev pub Precedes : List WorkflowEdge → String → String → Type 0
  Precedes edges s t = (elem s selected ≡ true) × (elem t selected ≡ true) × HasEdge edges s t

  -- With no pending edge every predecessor is ordered.
  pub ordered_of_no_pending :
      (ordered : List String) (edges : List WorkflowEdge) (s t : String)
      → pending selected ordered edges t ≡ 0
      → Precedes edges s t
      → elem s ordered ≡ true
  unfolding pending inner
  ordered_of_no_pending ordered [] s t h p = absurd p.2
  ordered_of_no_pending ordered (edge ∷ edges) s t h p =
      ground
        (arith, ordered_of_no_pending ordered edges s t, string_key.test_iff t edge.target_node_id)

  -- A pending edge comes from a selected node that is not ordered.
  pub pending_source :
      (ordered : List String) (edges : List WorkflowEdge) (t : String)
      → 0 < pending selected ordered edges t
      → (s : String) × Precedes edges s t × (elem s ordered ≡ false)
  unfolding pending inner
  pending_source ordered [] t h = absurd (omega arith)
  pending_source ordered (edge ∷ edges) t h =
      elim (Bool-cases (
        inner selected edge
        && t == edge.target_node_id
        && not (elem edge.source_node_id ordered))) [
          | inl now ↦ (
            edge.source_node_id,
            ground (arith, now, string_key.test_iff t edge.target_node_id),
            ground (arith, now),
          )
          | inr past ↦
              let (s, p, out) = pending_source ordered edges t (ground (arith, h, past)) in
              (s, (p.0, p.1, inr p.2), out)
        ]
