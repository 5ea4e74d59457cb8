-- ===== src/Graph/Compiler/Plans.antt =====
-- The plans that backend/graph/compiler.py makes in each mode.
use mathlib.Core.Option
use lluna.Prelude.{
  String, ◌≡◌, sym, subst, List-cases, inl, inr, ◌⊎◌, Bool, true, not, ◌&&◌, some, List, [], ◌∷◌,
  map, select, or_else, arith,
}
use lluna.Prelude.Key.{string_key}
use lluna.Prelude.Sets.{elem}
use lluna.Graph.Schema.{WorkflowNode, WorkflowDocument, ids, Registry}
use lluna.Graph.Scope.{scoped_node_ids, endpoints, has_kind_output, has_preview, ends}
use lluna.Graph.Scope.Closure.{Walk, start, step}
use lluna.Graph.Scope.Adjacency.{Link}
use lluna.Graph.Scope.Selection.{
  Feeds, Selected, Returns, scoped_node_ids-all, scoped_node_ids-Selected, scoped_node_ids-from,
}
use lluna.Graph.Order.{topological_order}
use lluna.Graph.Compiler.{ExecutionStep, plan_workflow}
use lluna.Graph.Compiler.Steps.{IsPlan, is_off, plan_steps_lem}

elem-select-ids :
    (x : String) (keep : WorkflowNode → Bool) (nodes : List WorkflowNode)
    → elem x (map (λ n. n.id) (select keep nodes)) ≡ true
    → elem x (map (λ n. n.id) nodes) ≡ true
unfolding elem
elem-select-ids x keep [] h = h
elem-select-ids x keep (node ∷ nodes) h = ground (arith, h, elem-select-ids x keep nodes)

-- The first list, or else the second: all its members are nodes.
or_else-ids :
    (x : String) (p q : WorkflowNode → Bool) (nodes : List WorkflowNode)
    → elem x (or_else (map (λ n. n.id) (select p nodes)) (map (λ n. n.id) (select q nodes))) ≡ true
    → elem x (map (λ n. n.id) nodes) ≡ true
or_else-ids x p q nodes h = elim (List-cases (map (λ n. n.id) (select p nodes))) [
  | inl empty ↦
      elem-select-ids x q nodes
        (subst (λ xs. elem x (or_else xs (map (λ n. n.id) (select q nodes))) ≡ true) empty h)
  | inr (y, ys, full) ↦ elem-select-ids x p nodes (
      subst (λ xs. elem x xs ≡ true) (sym full)
        (subst (λ xs. elem x (or_else xs (map (λ n. n.id) (select q nodes))) ≡ true) full h))
]

module _ (registry : Registry) (workflow : WorkflowDocument) where
  elem-endpoints :
      (x : String) → elem x (endpoints registry workflow) ≡ true → elem x (ids workflow) ≡ true
  unfolding endpoints
  elem-endpoints x h =
      or_else-ids x (has_kind_output registry)
        (λ n. has_preview registry n && ends registry workflow n) workflow.nodes h

  Feeds-inside :
      (outs : List String)
      → ((x : String) → elem x outs ≡ true → elem x (ids workflow) ≡ true)
      → (x : String) → Feeds workflow outs x
      → elem x (ids workflow) ≡ true
  Feeds-inside [] inside x h = h
  Feeds-inside (out ∷ outs) inside x (start s) = inside x s
  Feeds-inside (out ∷ outs) inside x (step w l) = l.0

  Walk-inside :
      (chosen : List String) (x : String)
      → Walk (Selected workflow chosen) (Link workflow) x
      → elem x (ids workflow) ≡ true
  Walk-inside chosen x (start s) = s.1
  Walk-inside chosen x (step w l) = l.1

  -- The plan for a set of nodes.
  abbrev pub Plans : String → List String → Type 0
  Plans mode chosen =
      (active : List String) × (order : List String) × (steps : List ExecutionStep)
      × (scoped_node_ids registry workflow mode chosen ≡ some active)
      × (topological_order workflow.edges active ≡ some order)
      × (plan_workflow registry workflow mode chosen ≡ some steps)
      × IsPlan workflow active [] steps
      × ((id : String)
          → elem id (map (λ step. step.node_id) steps)
            ≡ (elem id order && not (is_off workflow active id)))

  plans :
      (mode : String) (chosen : List String) (P : String → Type 0)
      → Returns (scoped_node_ids registry workflow mode chosen) P
      → ((x : String) → P x → elem x (ids workflow) ≡ true)
      → Plans mode chosen
  unfolding plan_workflow Option.bind
  plans mode chosen P (active, scoped, iff) inside =
      let (order, steps, made, planned, plan, members) =
        plan_steps_lem workflow active (λ id m. inside id ((iff id).0 m)) in
      (active, order, steps, scoped, made, rw scoped planned, plan, members)

  -- In the modes "all", "selected" and "from", a plan is made for a valid workflow, with no KeyError,
  -- for the nodes that the mode covers: each step depends on exactly the covered nodes from which an
  -- edge leads to its node, and comes after the steps of those that are not disabled.
  pub plan_workflow_lem :
      (chosen : List String) → Plans "all" chosen × Plans "selected" chosen × Plans "from" chosen
  plan_workflow_lem chosen = (
    plans "all" chosen _ (scoped_node_ids-all registry workflow chosen)
        (Feeds-inside (endpoints registry workflow) elem-endpoints),
    plans "selected" chosen _ (scoped_node_ids-Selected registry workflow chosen) (λ x s. s.1),
    plans "from" chosen _ (scoped_node_ids-from registry workflow chosen) (Walk-inside chosen),
  )

  abbrev pub IsMode : String → Type 0
  IsMode mode = (mode ≡ "all") ⊎ (mode ≡ "selected") ⊎ (mode ≡ "from")

  inside_of :
      (mode : String) (chosen : List String) (P : String → Type 0)
      → Returns (scoped_node_ids registry workflow mode chosen) P
      → ((x : String) → P x → elem x (ids workflow) ≡ true)
      → (active : List String) × (scoped_node_ids registry workflow mode chosen ≡ some active)
        × ((x : String) → elem x active ≡ true → elem x (ids workflow) ≡ true)
  inside_of mode chosen P (active, scoped, iff) inside =
      (active, scoped, λ x m. inside x ((iff x).0 m))

  -- The scope of a run consists of nodes of the workflow.
  pub scoped_node_ids-inside :
      (chosen : List String) (mode : String)
      → IsMode mode
      → (active : List String) × (scoped_node_ids registry workflow mode chosen ≡ some active)
        × ((x : String) → elem x active ≡ true → elem x (ids workflow) ≡ true)
  scoped_node_ids-inside chosen mode (inl e) = rw e (
      inside_of "all" chosen _ (scoped_node_ids-all registry workflow chosen)
        (Feeds-inside (endpoints registry workflow) elem-endpoints))
  scoped_node_ids-inside chosen mode (inr (inl e)) = rw e (
      inside_of "selected" chosen _ (scoped_node_ids-Selected registry workflow chosen)
        (λ x s. s.1))
  scoped_node_ids-inside chosen mode (inr (inr e)) = rw e (
      inside_of "from" chosen _ (scoped_node_ids-from registry workflow chosen)
        (Walk-inside chosen))
