-- ===== src/Graph/Scope/Selection.antt =====
-- Which nodes a run covers: `runnable_node_ids` and `scoped_node_ids` of backend/graph/validation.py.
use mathlib.Core.Option
use lluna.Prelude.{
  String, ◌≡◌, refl, ap, sym, ◌∙◌, ◌↔◌, inl, inr, true, Option, some, List, [], ◌∷◌, select,
  or-eq-true, arith,
}
use lluna.Prelude.Key.{string_key}
use lluna.Prelude.Sets.{elem, update, elem-update, elem-select}
use lluna.Graph.Schema.{WorkflowDocument, ids, Registry}
use lluna.Graph.Scope.{
  closure, parents, children, endpoints, selection, runnable_node_ids, scoped_node_ids,
}
use lluna.Graph.Scope.Closure.{Walk, start, step, Walk-map, closure_lem}
use lluna.Graph.Scope.Adjacency.{Link, adjacency_lem}

-- The node is a given endpoint, or its output leads to one; without endpoints, any node.
abbrev pub Feeds : WorkflowDocument → List String → String → Type 0
Feeds workflow [] x = elem x (ids workflow) ≡ true
Feeds workflow (out ∷ outs) x = Walk (λ n. elem n (out ∷ outs) ≡ true) (λ t s. Link workflow s t) x

-- The node is one of the workflow that the user selected.
abbrev pub Selected : WorkflowDocument → List String → String → Type 0
Selected workflow chosen x = (elem x chosen ≡ true) × (elem x (ids workflow) ≡ true)

-- What is known of a set of nodes that a function returns.
abbrev pub Returns : Option (List String) → (String → Type 0) → Type 0
Returns result P = (r : List String) × (result ≡ some r) × ((x : String) → (elem x r ≡ true) ↔ P x)

ids_of :
    (workflow : WorkflowDocument) (x : String)
    → elem x (update [] (ids workflow)) ≡ elem x (ids workflow)
unfolding elem
ids_of workflow x = elem-update x [] (ids workflow)

feeds :
    (workflow : WorkflowDocument) (outs : List String)
    → Returns
        (elim outs [
          | [] ↦ some (update [] (ids workflow))
          | out ∷ rest ↦ closure (out ∷ rest) (parents workflow)
        ])
        (Feeds workflow outs)
feeds workflow [] = (
  update [] (ids workflow),
  refl,
  λ x. (λ m. sym (ids_of workflow x) ∙ m, λ m. ids_of workflow x ∙ m),
)
feeds workflow (out ∷ outs) =
    let (r, e, reached) = closure_lem (parents workflow) (out ∷ outs) in
    (
      r,
      e,
      λ x. (
        λ m. Walk-map (λ _ h. h) (λ t s. (adjacency_lem workflow s t).0.0) ((reached x).0 m),
        λ w. (reached x).1 (Walk-map (λ _ h. h) (λ t s. (adjacency_lem workflow s t).0.1) w),
      ),
    )

nowhere : {R : String → String → Type 0} {x : String} → Walk (λ x. elem x [] ≡ true) R x → ⊥
unfolding elem
nowhere (start m) = cc m
nowhere (step w l) = nowhere w

module _ (registry : Registry) (workflow : WorkflowDocument) where
  -- In mode "all" the nodes run that feed a save output or, if the workflow has none, a previewable
  -- node at the end of a chain; if it has neither, all nodes.
  pub scoped_node_ids-all :
      (chosen : List String)
      → Returns
          (scoped_node_ids registry workflow "all" chosen)
          (Feeds workflow (endpoints registry workflow))
  unfolding scoped_node_ids runnable_node_ids
  scoped_node_ids-all chosen = feeds workflow (endpoints registry workflow)

  selection-selected :
      (nodes : List String)
      → Returns (selection registry workflow "selected" nodes) (λ x. elem x nodes ≡ true)
  unfolding selection elem
  selection-selected [] = ([], refl, λ x. (λ m. m, λ m. m))
  selection-selected (node ∷ nodes) =
      let same = λ (x : String). elem-update x [] (node ∷ nodes) in
      (update [] (node ∷ nodes), refl, λ x. (λ m. sym (same x) ∙ m, λ m. same x ∙ m))

  selection-from :
      (nodes : List String)
      → Returns
          (selection registry workflow "from" nodes)
          (Walk (λ x. elem x nodes ≡ true) (Link workflow))
  unfolding selection elem
  selection-from [] = ([], refl, λ x. (λ m. cc m, λ w. absurd (nowhere w)))
  selection-from (node ∷ nodes) =
      let seeds = update [] (node ∷ nodes) in
      let same = λ (x : String). elem-update x [] (node ∷ nodes) in
      let (r, e, reached) = closure_lem (children workflow) seeds in
      let down = λ (x y : String). (adjacency_lem workflow x y).1 in
      (
        update seeds r,
        ap (Option.map (update seeds)) e,
        λ x. (
          λ m. elim (or-eq-true (elem x seeds) (elem x r) (sym (elem-update x seeds r) ∙ m)) [
            | inl s ↦ start (sym (same x) ∙ s)
            | inr found ↦
                Walk-map (λ y h. sym (same y) ∙ h) (λ y z. (down y z).0) ((reached x).0 found)
          ],
          λ w.
              let found = (reached x).1 (Walk-map (λ y h. same y ∙ h) (λ y z. (down y z).1) w) in
              ground (arith, elem-update x seeds r, found),
        ),
      )

  -- In mode "selected" exactly the selected nodes run.
  pub scoped_node_ids-Selected :
      (chosen : List String)
      → Returns (scoped_node_ids registry workflow "selected" chosen) (Selected workflow chosen)
  unfolding scoped_node_ids
  scoped_node_ids-Selected chosen =
      let (r, e, holds) = selection-selected (select (λ n. elem n (ids workflow)) chosen) in
      (r, e, λ x. ground (arith, holds x, elem-select x (λ n. elem n (ids workflow)) chosen))

  -- In mode "from" the selected nodes run and all nodes that a chain of edges reaches from them.
  pub scoped_node_ids-from :
      (chosen : List String)
      → Returns
          (scoped_node_ids registry workflow "from" chosen)
          (Walk (Selected workflow chosen) (Link workflow))
  unfolding scoped_node_ids
  scoped_node_ids-from chosen =
      let (r, e, holds) = selection-from (select (λ n. elem n (ids workflow)) chosen) in
      let both = λ (x : String). elem-select x (λ n. elem n (ids workflow)) chosen in
      (
        r,
        e,
        λ x. (
          λ m. Walk-map (λ y h. ground (arith, both y, h)) (λ _ _ l. l) ((holds x).0 m),
          λ w. (holds x).1 (Walk-map (λ y h. ground (arith, both y, h)) (λ _ _ l. l) w),
        ),
      )
