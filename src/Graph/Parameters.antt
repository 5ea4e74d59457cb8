-- ===== src/Graph/Parameters.antt =====
-- The checks of `validate_workflow` (backend/graph/validation.py) on a node and its parameters.
use lluna.Prelude.{
  ℕ, String, Bool, true, false, not, ◌&&◌, ◌||◌, Option, none, some, List, [], ◌∷◌, ◌++◌, nat_beq,
  if◌then◌else◌,
}
use lluna.Prelude.Key.{string_key, ◌==◌}
use lluna.Prelude.Sets.{elem}
use lluna.Prelude.Int.{ℤ}
use lluna.Prelude.Text.{strip}
use lluna.Json.{
  Json, nil, cons, array, text, Conversions, truthy, or_else, lookup, to_str, to_number, number_lt,
  elements,
}
use lluna.Graph.Schema.{WorkflowNode, NodeDefinition, ParameterDefinition, Registry}
use lluna.Graph.Issues.{ValidationIssue, error, Code, on_node, flag, flat_map}

-- What the checks ask of the other parts of the program: the issues of a node's chosen model, its
-- capabilities first, then whether it can be used. Their calls do not raise.
pub record Services : Type 0 where
  pub capability_issues : WorkflowNode → List ValidationIssue
  pub availability_issues : WorkflowNode → List ValidationIssue

-- A bound that is not None and that `test` finds broken.
abbrev pub breaks : (ℤ × ℕ → Bool) → Option (ℤ × ℕ) → Bool
breaks test none = false
breaks test (some bound) = test bound

unfoldable pub range_issues : WorkflowNode → ParameterDefinition → Json → List ValidationIssue
unfolding to_number
range_issues node parameter value = elim (to_number value) [
  | none ↦ []
  | some n ↦
      flag (breaks (λ bound. number_lt n bound) parameter.minimum)
        (on_node error Code.parameter_range node.id)
      ++ flag (breaks (λ bound. number_lt bound n) parameter.maximum)
          (on_node error Code.parameter_range node.id)
]

-- One turn of the loop over the parameters.
unfoldable pub check_parameter : WorkflowNode → ParameterDefinition → List ValidationIssue
unfolding range_issues
check_parameter node parameter =
    let value = lookup parameter.id node.parameters in
    flag (parameter.required && not (truthy value)) (on_node error Code.required_parameter node.id)
    ++ range_issues node parameter value

-- `isinstance(point, (list, tuple)) and len(point) >= 2`
abbrev pub is_point : Json → Bool
is_point (array (cons x (cons y rest))) = true
is_point value = false

unfoldable pub any_point : List Json → Bool
any_point [] = false
any_point (value ∷ values) = is_point value || any_point values

unfoldable pub has_point : Json → Bool
has_point (array xs) = any_point (elements xs)
has_point value = false

unfoldable pub has_area : Json → Bool
has_area (array (cons area areas)) = true
has_area value = false

module _ (python : Conversions) (services : Services) (registry : Registry) where
  select_object_issues : WorkflowNode → List ValidationIssue
  unfolding has_point
  select_object_issues node =
      let name = strip (to_str python (or_else (lookup "text" node.parameters) (text ""))) in
      let points = or_else (lookup "points" node.parameters) (array nil) in
      flag (node.schema_id == "lluna.mask.select_object" && name == "" && not (has_point points))
        (on_node error Code.select_object_input node.id)

  retouch_issues : WorkflowNode → List ValidationIssue
  unfolding has_area
  retouch_issues node =
      let areas = or_else (lookup "subAreas" node.parameters) (array nil) in
      flag (node.schema_id == "lluna.video.retouch" && not (has_area areas))
        (on_node error Code.video_retouch_input node.id)

  -- What is checked unless the node is disabled.
  unfoldable pub enabled_issues : WorkflowNode → NodeDefinition → List ValidationIssue
  unfolding flat_map check_parameter select_object_issues retouch_issues
  enabled_issues node definition =
      services.capability_issues node
      ++ flat_map (check_parameter node) definition.parameters
      ++ select_object_issues node
      ++ retouch_issues node
      ++ services.availability_issues node

  unfoldable pub definition_issues : WorkflowNode → NodeDefinition → List ValidationIssue
  unfolding enabled_issues
  definition_issues node definition =
      flag (not (nat_beq node.schema_version definition.schema_version))
        (on_node error Code.node_version node.id)
      ++ flag (not definition.available) (on_node error Code.node_unavailable node.id)
      ++ (if node.disabled then [] else enabled_issues node definition)

  -- One turn of the loop over the nodes.
  unfoldable pub check_node : List String → WorkflowNode → List ValidationIssue
  unfolding definition_issues elem
  check_node validation_ids node =
      let issues : List ValidationIssue = elim (registry node.schema_id) [
        | none ↦ on_node error Code.unknown_node node.id ∷ []
        | some definition ↦ definition_issues node definition
      ] in
      if elem node.id validation_ids then issues else []
