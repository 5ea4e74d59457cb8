-- ===== src/Graph/Schema.antt =====
-- backend/graph/schema.py and backend/graph/types.py: what a workflow document holds.
use mathlib.Core.Bool.{decide}
use lluna.Json.{Record}
use lluna.Prelude.Int.{ℤ}
use lluna.Prelude.{ℕ, String, Bool, ◌≡◌, ◌⊎◌, List, [], ◌∷◌, map, ◌||◌, ◌&&◌, Option}

pub data PortType : Type 0 where
  image mask alpha video audio frames text prompt path directory number integer boolean enum color
        seed model control :
      PortType

PortType-discrete : Discrete PortType
PortType-discrete = hlevel

pub same_port : PortType → PortType → Bool
unfolding PortType-discrete
same_port a b = decide (PortType-discrete a b)

-- One pair, `(INTEGER, NUMBER)`, is in `_SAFE_COERCIONS`.
unfoldable pub ports_compatible : PortType → PortType → Bool
unfolding same_port decide
ports_compatible source target =
    same_port source target || (same_port source integer && same_port target number)

pub record WorkflowEdge : Type 0 where
  pub id : String
  pub source_node_id : String
  pub source_port_id : String
  pub target_node_id : String
  pub target_port_id : String

pub record PortDefinition : Type 0 where
  pub id : String
  pub type : PortType
  pub required : Bool
  pub multiple : Bool

pub record ParameterDefinition : Type 0 where
  pub id : String
  pub required : Bool
  pub minimum : Option (ℤ × ℕ)
  pub maximum : Option (ℤ × ℕ)

pub data NodeKind : Type 0 where
  input processor output : NodeKind

pub record NodeDefinition : Type 0 where
  pub schema_id : String
  pub schema_version : ℕ
  pub kind : NodeKind
  pub inputs : List PortDefinition
  pub outputs : List PortDefinition
  pub parameters : List ParameterDefinition
  pub supports_preview : Bool
  pub available : Bool
  pub adapter : Option String

pub record WorkflowNode : Type 0 where
  pub id : String
  pub schema_id : String
  pub schema_version : ℕ
  pub parameters : Record
  pub result : Option Record
  pub disabled : Bool

pub record WorkflowDocument : Type 0 where
  pub nodes : List WorkflowNode
  pub edges : List WorkflowEdge

abbrev pub ids : WorkflowDocument → List String
ids workflow = map (λ node. node.id) workflow.nodes

-- `NODE_REGISTRY.get`, over any catalog of node definitions.
abbrev pub Registry : Type 0
Registry = String → Option NodeDefinition

-- An edge leads from `s` to `t`.
abbrev pub HasEdge : List WorkflowEdge → String → String → Type 0
HasEdge [] s t = ⊥
HasEdge (edge ∷ edges) s t =
    (s ≡ edge.source_node_id) × (t ≡ edge.target_node_id) ⊎ HasEdge edges s t
