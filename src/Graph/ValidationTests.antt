-- ===== src/Graph/ValidationTests.antt =====
-- A valid workflow of two nodes, and one with a cycle.
use mathlib.Core.Option
use lluna.Prelude.{String, Bool, List, [], ◌∷◌, none, some, inl, ◌++◌, ◌≤◌, ◌≡◌, refl, true, false}
use lluna.Prelude.Key.{string_key}
use lluna.Prelude.Dict.{get?, get_or, put}
use lluna.Prelude.Sets.{elem, add, update}
use lluna.Prelude.Sort.{sorted}
use lluna.Json.{Conversions}
use lluna.Graph.Schema.{
  WorkflowNode, WorkflowEdge, WorkflowDocument, NodeDefinition, PortDefinition, Registry, NodeKind,
  input, output, image, ids, ports_compatible,
}
use lluna.Graph.Issues.{no_errors, flat_map, is_warning, Member, on_edge, global, error, Code}
use lluna.Graph.Scope.{scoped_node_ids, runnable_node_ids, endpoints, closure, parents, children}
use lluna.Graph.Order.{topological_order}
use lluna.Graph.Compiler.{node_table}
use lluna.Graph.Parameters.{
  Services, check_node, definition_issues, enabled_issues, check_parameter,
}
use lluna.Graph.Ports.{port, has_completed_boundary_output}
use lluna.Graph.Batches.{
  batch_node_ids, collect_batch, is_batch, any_queue_port, count_ports, takes_queue,
  repeated_processor_nodes, collect_repeated, inherited, is_processor,
}
use lluna.Graph.Connections.{resolve, check_edges, check_ends, connection_issues, input_key}
use lluna.Graph.Validation.{
  ValidationResult, validate_workflow, all_issues, edge_state, any_duplicate, count_id,
  check_inputs, port_issues, order_issues, issues_of_order, output_issues, is_empty,
}
use lluna.Graph.Connections.Sound.{IsConnection}
use lluna.Graph.Validation.Passing.{Scoped}
use lluna.Graph.Validation.Ready.{IsReady, valid_nodes}
use lluna.Graph.Validation.Sound.{valid_order, valid_connections}
use lluna.Graph.Validation.Total.{validate_workflow_returns}
use lluna.Graph.Planning.Valid.{Compiles, compile_workflow_lem}

abbrev pub python : Conversions
python = record { str_of = λ value. "?"; int_of = λ s. none; dict_of = λ xs. none }

abbrev pub services : Services
services = record { capability_issues = λ node. []; availability_issues = λ node. [] }

abbrev picture : Bool → PortDefinition
picture required = record { id = "image"; type = image; required = required; multiple = false }

abbrev definition : NodeKind → List PortDefinition → List PortDefinition → NodeDefinition
definition kind inputs outputs = record {
  schema_id = "s";
  schema_version = 1;
  kind = kind;
  inputs = inputs;
  outputs = outputs;
  parameters = [];
  supports_preview = false;
  available = true;
  adapter = none;
}

abbrev pub registry : Registry
registry schema_id = get_or none schema_id (
    ("load", some (definition input [] (picture false ∷ [])))
    ∷ ("save", some (definition output (picture true ∷ []) []))
    ∷ [])

abbrev node : String → String → WorkflowNode
node id schema_id = record {
  id = id;
  schema_id = schema_id;
  schema_version = 1;
  parameters = [];
  result = none;
  disabled = false;
}

abbrev link : String → String → String → WorkflowEdge
link id s t = record {
  id = id;
  source_node_id = s;
  source_port_id = "image";
  target_node_id = t;
  target_port_id = "image";
}

abbrev pub workflow : WorkflowDocument
workflow = record { nodes = node "a" "load" ∷ node "b" "save" ∷ []; edges = link "e" "a" "b" ∷ [] }

abbrev pub good : ValidationResult
good = record { valid = true; issues = [] }

pub validated : validate_workflow python services registry workflow "all" [] false ≡ some good
unfolding validate_workflow scoped_node_ids runnable_node_ids endpoints closure parents children
    topological_order node_table check_node definition_issues enabled_issues check_parameter port
    has_completed_boundary_output batch_node_ids collect_batch is_batch any_queue_port count_ports
    takes_queue repeated_processor_nodes collect_repeated inherited is_processor resolve check_edges
    check_ends connection_issues all_issues edge_state any_duplicate count_id check_inputs
    port_issues order_issues issues_of_order output_issues is_empty no_errors flat_map is_warning
    elem add update sorted get? get_or put Option.bind ports_compatible
validated = refl

-- With an edge back there is a cycle, and an edge from an output that `save` does not have.
abbrev looped : WorkflowDocument
looped = record {
  nodes = node "a" "load" ∷ node "b" "save" ∷ [];
  edges = link "e" "a" "b" ∷ link "f" "b" "a" ∷ [];
}

abbrev bad : ValidationResult
bad = record {
  valid = false;
  issues = on_edge Code.unknown_port "f" ∷ global error Code.cycle ∷ [];
}

refused : validate_workflow python services registry looped "all" [] false ≡ some bad
unfolding validate_workflow scoped_node_ids runnable_node_ids endpoints closure parents children
    topological_order node_table check_node definition_issues enabled_issues check_parameter port
    has_completed_boundary_output batch_node_ids collect_batch is_batch any_queue_port count_ports
    takes_queue repeated_processor_nodes collect_repeated inherited is_processor resolve check_edges
    check_ends connection_issues all_issues edge_state any_duplicate count_id check_inputs
    port_issues order_issues issues_of_order output_issues is_empty no_errors flat_map is_warning
    elem add update sorted get? get_or put Option.bind ports_compatible
refused = refl

-- The scope of the run.
abbrev OfScope : (List String → Type 0) → Type 0
OfScope = Scoped python services registry workflow "all" [] false

valid_order_example : OfScope λ validation_ids.
    (order : List String) × (topological_order workflow.edges validation_ids ≡ some order)
    × ((id : String) → elem id order ≡ elem id validation_ids)
    × ((id : String) → elem id validation_ids ≡ true → count_id id (ids workflow) ≤ 1)
valid_order_example =
    valid_order python services registry workflow "all" [] false good validated refl

valid_connections_example : OfScope λ validation_ids.
    (batch_nodes : List String) × (batch_node_ids registry workflow validation_ids
      ≡ some batch_nodes)
    × ((before rest : List WorkflowEdge) (edge : WorkflowEdge)
        → workflow.edges ≡ before ++ edge ∷ rest
        → elem edge.target_node_id validation_ids ≡ true
        → IsConnection registry
            (node_table [] workflow.nodes)
            validation_ids
            batch_nodes
            before
            edge
            (resolve registry (node_table [] workflow.nodes) edge))
valid_connections_example =
    valid_connections python services registry workflow "all" [] false good validated refl

valid_nodes_example : OfScope λ validation_ids.
    (n : WorkflowNode)
    → Member n workflow.nodes
    → elem n.id validation_ids ≡ true
    → (d : NodeDefinition) × (registry n.schema_id ≡ some d)
      × IsReady python services registry workflow validation_ids n d
valid_nodes_example =
    valid_nodes python services registry workflow "all" [] false good validated refl

validate_workflow_returns_example :
    (result : ValidationResult) × (validate_workflow python services registry looped "all" [] false
      ≡ some result)
validate_workflow_returns_example =
    validate_workflow_returns registry looped python services [] "all" false (inl refl)

compile_workflow_lem_example : Compiles python services registry workflow "all" [] good
compile_workflow_lem_example =
    compile_workflow_lem python services registry workflow [] "all" good (inl refl) validated refl
