-- ===== src/Graph/Compiler.antt =====
-- The steps of `compile_workflow` (backend/graph/compiler.py) for a workflow that is valid. The cache keys of
-- the steps are left out.
pub mod Steps
pub mod Plans
use mathlib.Core.Option
use lluna.Prelude.{
  ℕ, ◌+◌, String, Bool, ◌&&◌, Option, none, some, List, [], ◌∷◌, ◌++◌, if◌then◌else◌,
}
use lluna.Prelude.Key.{string_key}
use lluna.Prelude.Sets.{elem, update}
use lluna.Prelude.Dict.{Dict, get?, get_or, put}
use lluna.Prelude.Sort.{sorted}
use lluna.Graph.Schema.{WorkflowEdge, WorkflowNode, WorkflowDocument, Registry}
use lluna.Graph.Scope.{scoped_node_ids}
use lluna.Graph.Order.{topological_order}

pub record ExecutionStep : Type 0 where
  pub index : ℕ
  pub node_id : String
  pub schema_id : String
  pub dependencies : List String

-- `{node.id: node for node in workflow.nodes}`: of two nodes with one id the last stays.
unfoldable pub node_table : Dict String WorkflowNode → List WorkflowNode → Dict String WorkflowNode
node_table table [] = table
node_table table (node ∷ nodes) = node_table (put node.id node table) nodes

-- The loop over the edges: for each active node the active sources of its edges.
unfoldable pub collect :
    List String → Dict String (List String) → List WorkflowEdge → Dict String (List String)
collect active found [] = found
collect active found (edge ∷ edges) =
    let t = edge.target_node_id in
    collect active
      (if elem edge.source_node_id active && elem t active
        then put t (get_or [] t found ++ edge.source_node_id ∷ []) found
        else found)
      edges

module _ (nodes : Dict String WorkflowNode) (dependencies : Dict String (List String)) where
  abbrev pub step_of : ℕ → WorkflowNode → String → ExecutionStep
  step_of index node node_id = record {
    index = index;
    node_id = node_id;
    schema_id = node.schema_id;
    dependencies = sorted (update [] (get_or [] node_id dependencies));
  }

  -- The list comprehension over `enumerate`; `none` is the KeyError of `nodes[node_id]`.
  unfoldable pub steps_from : ℕ → List String → Option (List ExecutionStep)
  steps_from index [] = some []
  steps_from index (node_id ∷ order) =
      let rest = steps_from (index + 1) order in
      elim (get? node_id nodes) [
        | none ↦ none
        | some node ↦
            if node.disabled then rest else Option.map (◌∷◌ (step_of index node node_id)) rest
      ]

-- The steps for a set of active nodes.
unfoldable pub plan_steps : WorkflowDocument → List String → Option (List ExecutionStep)
plan_steps workflow active =
    Option.bind (topological_order workflow.edges active)
      (steps_from (node_table [] workflow.nodes) (collect active [] workflow.edges) 0)

unfoldable pub plan_workflow :
    Registry → WorkflowDocument → String → List String → Option (List ExecutionStep)
plan_workflow registry workflow mode selected_node_ids =
    Option.bind (scoped_node_ids registry workflow mode selected_node_ids) (plan_steps workflow)
