-- ===== src/Graph/Order/Sequence.antt =====
-- The order that `topological_order` of backend/graph/validation.py returns.
use mathlib.Core.Path.{◌≡◌, ◌∙◌}
use lluna.Prelude.{
  ℕ, zero, suc, ◌<◌, String, true, false, ◌&&◌, some, List, [], length, select, nat_beq, Bool-cases,
  arith, inl, inr,
}
use lluna.Prelude.Key.{string_key}
use lluna.Prelude.Sets.{elem, update, elem-update, elem-select}
use lluna.Prelude.Perms.{elem-perm}
use lluna.Prelude.Sort.{sorted, sorted-perm, sorted-IsDistinct}
use lluna.Prelude.Distinct.{IsDistinct, IsDistinct-update, IsDistinct-select}
use lluna.Prelude.Dict.{Dict, get_or}
use lluna.Graph.Schema.{WorkflowEdge}
use lluna.Graph.Order.{topological_order, count_incoming, list_outgoing, zeros}
use lluna.Graph.Order.Counts.{
  count, pending, Precedes, get_or-count_incoming, get_or-list_outgoing, get_or-zeros,
  pending_source,
}
use lluna.Graph.Order.Loop.{IsOrdered, Inv, Result, run_lem}

module _ (edges : List WorkflowEdge) (node_ids : List String) where
  -- An edge leads from one of the given nodes to another.
  abbrev pub Before : String → String → Type 0
  Before = Precedes (update [] node_ids) edges

  counters : Dict String ℕ
  counters = count_incoming (update [] node_ids) (zeros (update [] node_ids)) edges

  first : List String
  unfolding counters
  first = sorted (select (λ n. nat_beq (get_or 0 n counters) 0) (update [] node_ids))

  counted : (t : String) → get_or 0 t counters ≡ pending (update [] node_ids) [] edges t
  unfolding counters
  counted t =
      get_or-count_incoming (update [] node_ids) (zeros (update [] node_ids)) edges t
      ∙ omega (arith, get_or-zeros (update [] node_ids) t)

  elem-first :
      (t : String) → elem t first ≡ (elem t (update [] node_ids) && nat_beq (get_or 0 t counters) 0)
  unfolding first
  elem-first t =
      elem-perm t (sorted-perm _)
      ∙ elem-select t (λ n. nat_beq (get_or 0 n counters) 0) (update [] node_ids)

  Inv-start : Inv (update [] node_ids) edges [] first [] counters
  unfolding count elem first
  Inv-start = record {
    counts = λ t. omega (arith, counted t);
    ready = λ t m. ground (arith, elem-first t, m);
    inside = λ t m. ground (arith, elem-first t, m);
    rest_inside = λ t m. ground (arith, m);
    distinct = sorted-IsDistinct _ (IsDistinct-select _ _ (IsDistinct-update [] node_ids tt));
    before = tt;
  }

  runs :
      (r : List String) × (topological_order edges node_ids ≡ some r)
      × Result (update [] node_ids) edges r
  unfolding topological_order first counters
  runs =
      run_lem (update [] node_ids) edges (list_outgoing (update [] node_ids) [] edges)
        (λ s. get_or-list_outgoing (update [] node_ids) [] edges s) (length (update [] node_ids))
        counters [] first (omega arith) Inv-start

  -- A node that is left out stands behind another one.
  abbrev pub Left : List String → Type 0
  Left r =
      (t : String)
      → elem t node_ids ≡ true
      → elem t r ≡ false
      → (s : String) × Before s t × (elem s r ≡ false)

  -- `topological_order` ends. It returns nodes of the given ones, none twice, each behind all the
  -- given nodes from which an edge leads to it. A given node that it leaves out has an edge from
  -- a given node that it leaves out.
  pub topological_order_lem :
      (r : List String) × (topological_order edges node_ids ≡ some r)
      × IsDistinct r
      × ((t : String) → elem t r ≡ true → elem t node_ids ≡ true)
      × IsOrdered Before [] r
      × Left r
  unfolding elem
  topological_order_lem =
      let (r, e, holds) = runs in
      let given = λ (t : String). elem-update t [] node_ids in
      (
        r,
        e,
        holds.once,
        λ t m. ground (arith, holds.chosen t m, given t),
        holds.in_order,
        λ t m out.
            pending_source (update [] node_ids) r edges t
              (ground (arith, holds.ended t (ground (arith, given t, m)), out)),
      )

  module _ (rank : String → ℕ) (ranked : (s t : String) → Before s t → rank s < rank t) where
    -- A node of least rank is not left out.
    stays :
        (r : List String)
        → Left r
        → (bound : ℕ) (t : String) → rank t < bound
        → elem t node_ids ≡ true
        → elem t r ≡ true
    unfolding elem
    stays r left zero t below given = absurd (omega (arith, below))
    stays r left (suc bound) t below given = elim (Bool-cases (elem t r)) [
      | inl there ↦ there
      | inr out ↦
          let (s, p, gone) = left t given out in
          let lower = ranked s t p in
          let selected = elem-update s [] node_ids in
          cc (
            gone,
            stays r left bound s (omega (arith, lower, below)) (ground (arith, selected, p.0)),
          )
    ]

    -- If the given nodes can be ranked so that each edge between them leads to a higher rank, then
    -- `topological_order` returns exactly the given nodes.
    pub topological_order_complete :
        (r : List String) × (topological_order edges node_ids ≡ some r)
        × ((t : String) → elem t r ≡ elem t node_ids)
    topological_order_complete =
        let (r, e, _, inside, _, left) = topological_order_lem in
        (
          r,
          e,
          λ t.
              let back = λ (given : elem t node_ids ≡ true).
                stays r left (suc (rank t)) t (omega arith) given in
              ground (arith, inside t, back),
        )
