-- ===== src/Graph/Scope.antt =====
-- backend/graph/validation.py: which nodes of a workflow run (`_adjacency`, `_closure`,
-- `runnable_node_ids`, `scoped_node_ids`).
pub mod Adjacency
pub mod Closure
pub mod Selection
use mathlib.Core.List.{reverse}
use mathlib.Core.Option
use lluna.Prelude.{
  ℕ, zero, suc, ◌+◌, String, Bool, true, false, not, ◌&&◌, Option, none, some, List, [], ◌∷◌, ◌++◌,
  length, map, select, or_else, if◌then◌else◌,
}
use lluna.Prelude.Key.{string_key, ◌==◌}
use lluna.Prelude.Sets.{elem, add, update}
use lluna.Prelude.Dict.{Dict, get_or, put}
use lluna.Graph.Schema.{
  WorkflowEdge, WorkflowNode, WorkflowDocument, ids, NodeDefinition, Registry, NodeKind, output,
}

-- `d[key].append(value)` of a `defaultdict(list)`
append_to : String → String → Dict String (List String) → Dict String (List String)
append_to key value d = put key (get_or [] key d ++ value ∷ []) d

-- Both ends of the edge are nodes of the workflow.
joins : List String → WorkflowEdge → Bool
joins nodes edge = elem edge.source_node_id nodes && elem edge.target_node_id nodes

module _ (nodes : List String) where
  -- The loop of `_adjacency`: first the parents, then the children.
  adjacency :
      Dict String (List String)
      → Dict String (List String)
      → List WorkflowEdge
      → Dict String (List String) × Dict String (List String)
  adjacency parents children [] = (parents, children)
  adjacency parents children (edge ∷ edges) =
      let s = edge.source_node_id in
      let t = edge.target_node_id in
      adjacency (if joins nodes edge then append_to t s parents else parents)
        (if joins nodes edge then append_to s t children else children) edges

unfoldable pub parents : WorkflowDocument → Dict String (List String)
unfolding adjacency joins append_to put get_or elem
parents workflow = (adjacency (ids workflow) [] [] workflow.edges).0

unfoldable pub children : WorkflowDocument → Dict String (List String)
unfolding adjacency joins append_to put get_or elem
children workflow = (adjacency (ids workflow) [] [] workflow.edges).1

module _ (links : Dict String (List String)) where
  -- The `while stack` loop. The top of the stack is the head of the list, so `extend` puts the
  -- neighbours before it in reverse. `none` means that the fuel ran out.
  pub visit : ℕ → List String → List String → Option (List String)
  visit fuel active [] = some active
  visit zero active (current ∷ stack) = none
  visit (suc fuel) active (current ∷ stack) =
      let skip = visit fuel active stack in
      let expand = visit fuel (add current active) (reverse (get_or [] current links) ++ stack) in
      if elem current active then skip else expand

-- The number of links, which bounds what is pushed on the stack.
pub size : Dict String (List String) → ℕ
size [] = 0
size ((node, next) ∷ links) = length next + size links

unfoldable pub closure : List String → Dict String (List String) → Option (List String)
unfolding visit size elem add get_or
closure seeds links = visit links (length seeds + size links) [] (reverse seeds)

module _ (registry : Registry) where
  pub has_kind_output : WorkflowNode → Bool
  has_kind_output node = elim (registry node.schema_id) [
    | none ↦ false
    | some definition ↦ elim definition.kind [ output ↦ true | _ ↦ false ]
  ]

  -- `not children.get(node.id)`
  pub ends : WorkflowDocument → WorkflowNode → Bool
  ends workflow node = elim (get_or [] node.id (children workflow)) [ [] ↦ true | _ ∷ _ ↦ false ]

  pub has_preview : WorkflowNode → Bool
  has_preview node = elim (registry node.schema_id) [
    | none ↦ false
    | some definition ↦ definition.supports_preview
  ]

  -- The save outputs, or else the previewable nodes at the end of a chain.
  unfoldable pub endpoints : WorkflowDocument → List String
  unfolding has_kind_output ends has_preview
  endpoints workflow =
      let outputs = map (λ n. n.id) (select has_kind_output workflow.nodes) in
      let previews =
        map (λ n. n.id) (select (λ n. has_preview n && ends workflow n) workflow.nodes) in
      or_else outputs previews

  unfoldable pub runnable_node_ids : WorkflowDocument → Option (List String)
  runnable_node_ids workflow = elim (endpoints workflow) [
    | [] ↦ some (update [] (ids workflow))
    | out ∷ outs ↦ closure (out ∷ outs) (parents workflow)
  ]

  -- The modes other than "all", for the selected nodes of the workflow.
  selection : WorkflowDocument → String → List String → Option (List String)
  selection workflow mode [] = some []
  selection workflow mode (node ∷ nodes) =
      let seeds = update [] (node ∷ nodes) in
      if mode == "selected"
      then some seeds
      else if mode == "from"
      then Option.map (update seeds) (closure seeds (children workflow))
      else runnable_node_ids workflow

  unfoldable pub scoped_node_ids : WorkflowDocument → String → List String → Option (List String)
  unfolding selection
  scoped_node_ids workflow mode selected_node_ids =
      let selected = select (λ n. elem n (ids workflow)) selected_node_ids in
      if mode == "all" then runnable_node_ids workflow else selection workflow mode selected
