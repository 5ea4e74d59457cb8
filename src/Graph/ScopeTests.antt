-- ===== src/Graph/ScopeTests.antt =====
-- A small workflow, and what backend/graph/validation.py does with it.
use mathlib.Core.Option
use lluna.Prelude.{
  ℕ, ◌<◌, String, ◌≡◌, refl, ◌↔◌, true, false, none, some, List, [], ◌∷◌, arith, inl, inr,
}
use lluna.Prelude.Key.{string_key}
use lluna.Prelude.Sets.{elem, update}
use lluna.Prelude.Distinct.{IsDistinct}
use lluna.Prelude.Dict.{Dict, get?, put, get_or}
use lluna.Prelude.Sort.{sorted}
use lluna.Graph.Schema.{
  WorkflowEdge, WorkflowNode, WorkflowDocument, NodeDefinition, Registry, NodeKind, input, output,
  HasEdge,
}
use lluna.Graph.Scope.{closure, parents, children, scoped_node_ids, runnable_node_ids, endpoints}
use lluna.Graph.Scope.Closure.{Reached, closure_lem}
use lluna.Graph.Compiler.{ExecutionStep, plan_steps, node_table, collect, steps_from}
use lluna.Graph.Order.{topological_order}
use lluna.Graph.Order.Loop.{IsOrdered}
use lluna.Graph.Order.Sequence.{Before, Left, topological_order_lem, topological_order_complete}

abbrev link : String → String → WorkflowEdge
link s t = record {
  id = "e";
  source_node_id = s;
  source_port_id = "image";
  target_node_id = t;
  target_port_id = "image";
}

abbrev node : String → String → WorkflowNode
node id schema_id = record {
  id = id;
  schema_id = schema_id;
  schema_version = 1;
  parameters = [];
  result = none;
  disabled = false;
}

abbrev definition : NodeKind → NodeDefinition
definition kind = record {
  schema_id = "s";
  schema_version = 1;
  kind = kind;
  inputs = [];
  outputs = [];
  parameters = [];
  supports_preview = false;
  available = true;
  adapter = none;
}

abbrev registry : Registry
registry schema_id =
    get_or none schema_id
      (("load", some (definition input)) ∷ ("save", some (definition output)) ∷ [])

-- A chain from `a` to the saved `b`, and `c` to which `a` also leads.
abbrev workflow : WorkflowDocument
workflow = record {
  nodes = node "a" "load" ∷ node "b" "save" ∷ node "c" "blur" ∷ [];
  edges = link "a" "b" ∷ link "a" "c" ∷ [];
}

all_nodes : scoped_node_ids registry workflow "all" [] ≡ some ("b" ∷ "a" ∷ [])
unfolding scoped_node_ids runnable_node_ids endpoints parents children closure get_or
all_nodes = refl

from_a : scoped_node_ids registry workflow "from" ("a" ∷ []) ≡ some ("a" ∷ "c" ∷ "b" ∷ [])
unfolding scoped_node_ids parents children closure get_or update
from_a = refl

abbrev loop : Dict String (List String)
loop = ("a", "b" ∷ []) ∷ ("b", "a" ∷ "c" ∷ []) ∷ []

closure_lem_example :
    (r : List String) × (closure ("a" ∷ []) loop ≡ some r)
    × ((x : String) → (elem x r ≡ true) ↔ Reached loop ("a" ∷ []) x)
closure_lem_example = closure_lem loop ("a" ∷ [])

abbrev chosen : List String
chosen = "c" ∷ "b" ∷ "a" ∷ "b" ∷ []

order_of_workflow : topological_order workflow.edges chosen ≡ some ("a" ∷ "b" ∷ "c" ∷ [])
unfolding topological_order
order_of_workflow = refl

-- The nodes of a cycle are left out.
order_of_cycle :
    topological_order (link "a" "b" ∷ link "b" "c" ∷ link "c" "b" ∷ []) chosen ≡ some ("a" ∷ [])
unfolding topological_order
order_of_cycle = refl

topological_order_lem_example :
    (r : List String) × (topological_order workflow.edges chosen ≡ some r)
    × IsDistinct r
    × ((t : String) → elem t r ≡ true → elem t chosen ≡ true)
    × IsOrdered (Before workflow.edges chosen) [] r
    × Left workflow.edges chosen r
topological_order_lem_example = topological_order_lem workflow.edges chosen

abbrev depth : String → ℕ
depth n = get_or 1 n (("a", 0) ∷ [])

depth_lt : (s t : String) → HasEdge workflow.edges s t → depth s < depth t
unfolding get_or
depth_lt s t (inl (p, q)) = rw (p, q) (omega arith)
depth_lt s t (inr (inl (p, q))) = rw (p, q) (omega arith)
depth_lt s t (inr (inr h)) = absurd h

topological_order_complete_example :
    (r : List String) × (topological_order workflow.edges chosen ≡ some r)
    × ((t : String) → elem t r ≡ elem t chosen)
topological_order_complete_example =
    topological_order_complete workflow.edges chosen depth (λ s t b. depth_lt s t b.2)

abbrev step : ℕ → String → String → List String → ExecutionStep
step index node_id schema_id dependencies = record {
  index = index;
  node_id = node_id;
  schema_id = schema_id;
  dependencies = dependencies;
}

plan_of_workflow :
    plan_steps workflow ("b" ∷ "a" ∷ [])
    ≡ some (step 0 "a" "load" [] ∷ step 1 "b" "save" ("a" ∷ []) ∷ [])
unfolding plan_steps topological_order node_table collect steps_from get? put get_or elem update
    sorted Option.bind
plan_of_workflow = refl
