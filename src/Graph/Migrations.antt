-- ===== src/Graph/Migrations.antt =====
-- backend/graph/migrations.py: bringing the nodes of a saved workflow forward.
pub mod Climbing
mod Fields
pub mod Versions
pub mod Settled
pub mod Workflows
use lluna.Prelude.{
  ℕ, zero, suc, String, Bool, true, false, not, List, [], ◌∷◌, ◌++◌, Option, none, some, ◌⊎◌, inl,
  inr, if◌then◌else◌,
}
use lluna.Prelude.Key.{Key, string_key, pair_key}
use lluna.Prelude.Dict.{Dict, get?, put, discard}
use lluna.Prelude.Int.{ℤ, int_lt, int_beq, int_key, next, gap}
use lluna.Json.{
  Record, Json, array, object, text, whole, Conversions, to_str, to_int, to_dict, or_else, lookup,
  entries, fields, elements, items, end, nil,
}
use lluna.Graph.Schema.{Registry}

-- The ways in which a migration ends without a result. `raised` is an exception of Python itself.
pub data Failure : Type 0 where
  missing_migration : String → ℤ → ℕ → Failure
  newer_version : String → ℤ → ℕ → Failure
  nodes_not_a_list node_not_an_object raised out_of_fuel : Failure

abbrev pub Result {ℓ} : Type ℓ → Type ℓ
Result A = Failure ⊎ A

unfoldable pub and_then {ℓ κ} : {A : Type ℓ} {B : Type κ} → Result A → (A → Result B) → Result B
and_then (inl e) f = inl e
and_then (inr a) f = f a

-- A `NodeMigration`; one that raises gives `none`.
abbrev pub NodeMigration : Type 0
NodeMigration = Record → Option Record

instance abbrev pub version_key : Key (String × ℤ)
version_key = pair_key string_key int_key

abbrev pub Migrations : Type 0
Migrations = Dict (String × ℤ) NodeMigration

-- The decorator that `register` returns; `none` is the ValueError.
unfoldable pub register : String → ℤ → NodeMigration → Migrations → Option Migrations
register schema_id from_version function migrations =
    elim (get? (schema_id, from_version) migrations) [
      | some _ ↦ none
      | none ↦ some (put (schema_id, from_version) function migrations)
    ]

-- One entry of the report, "`schema_id` v`from`->v`to`".
pub record Applied : Type 0 where
  pub schema_id : String
  pub from : ℤ
  pub to : ℤ

unfoldable pub target_of : Registry → String → Option ℕ
target_of registry schema_id = elim (registry schema_id) [
  | none ↦ none
  | some definition ↦ some definition.schema_version
]

-- `node.get("schemaId") or node.get("schema_id")`, and the same for the version
abbrev pub saved_id : Record → Json
saved_id node = or_else (lookup "schemaId" node) (or_else (lookup "schema_id" node) (text ""))

abbrev pub saved_version : Record → Json
saved_version node =
    or_else (lookup "schemaVersion" node) (or_else (lookup "schema_version" node) (whole (ℤ.pos 1)))

abbrev pub set_version : ℤ → Record → Record
set_version version node = discard "schema_version" (put "schemaVersion" (whole version) node)

abbrev pub set_default : String → Json → Record → Record
set_default key value d = elim (get? key d) [ none ↦ put key value d | some _ ↦ d ]

module _ (python : Conversions) where
  abbrev pub id_of : Record → String
  id_of node = to_str python (saved_id node)

  -- `int` raises for a version that is no number.
  abbrev pub version_of : Record → Option ℤ
  version_of node = to_int python (saved_version node)

  unfoldable pub video_remove_text_regions : NodeMigration
  unfolding to_dict
  video_remove_text_regions node =
      elim (to_dict python (or_else (lookup "parameters" node) (object end))) [
        | none ↦ none
        | some parameters ↦ some (
            put "parameters" (object (fields (set_default "subAreas" (array nil) parameters))) node)
      ]

  -- `MIGRATIONS` after the module is loaded: one migration is registered.
  abbrev pub shipped_migrations : Migrations
  unfolding register
  shipped_migrations =
      elim (register "lluna.video.remove_text" (ℤ.pos 1) video_remove_text_regions []) [
        | none ↦ []
        | some migrations ↦ migrations
      ]

-- `document.get("nodes") or []`
abbrev pub raw_nodes : Record → Json
raw_nodes document = or_else (lookup "nodes" document) (array nil)

-- `{**dict(document), "nodes": nodes}`
unfoldable pub with_nodes : Record → List Json → Record
with_nodes document nodes = put "nodes" (array (items nodes)) document

module _ (migrations : Migrations) (schema_id : String) (target : ℕ) where
  abbrev pub applied_at : ℤ → Applied
  applied_at version = record { schema_id = schema_id; from = version; to = next version }

  -- The body of the `while` loop: the node one version further.
  unfoldable pub move : ℤ → Record → Result Record
  move version current = elim (get? (schema_id, version) migrations) [
    | none ↦ inl (missing_migration schema_id version target)
    | some migration ↦ elim (migration current) [
      | none ↦ inl raised
      | some moved ↦ inr (set_version (next version) moved)
    ]
  ]

  -- The loop, on fuel.
  unfoldable pub step_up : ℕ → ℤ → Record → List Applied → Result (ℤ × Record × List Applied)
  unfolding and_then
  step_up zero version current applied =
      if int_lt version (ℤ.pos target) then inl out_of_fuel else inr (version, current, applied)
  step_up (suc fuel) version current applied =
      let moved =
        and_then (move version current)
          λ node. step_up fuel (next version) node (applied ++ applied_at version ∷ []) in
      if int_lt version (ℤ.pos target) then moved else inr (version, current, applied)

  -- What follows the loop.
  unfoldable pub check_version : ℤ × Record × List Applied → Result (Record × List Applied)
  check_version (version, current, applied) =
      if int_lt (ℤ.pos target) version
      then inl (newer_version schema_id version target)
      else inr (current, applied)

module _ (python : Conversions) (migrations : Migrations) where
  unfoldable pub migrate_node : Record → ℕ → Result (Record × List Applied)
  unfolding and_then step_up check_version
  migrate_node node target =
      let schema_id = id_of python node in
      elim (version_of python node) [
        | none ↦ inl raised
        | some version ↦
            and_then (step_up migrations schema_id target (gap version target) version node [])
              (check_version migrations schema_id target)
      ]

module _ (python : Conversions) (migrations : Migrations) (registry : Registry) where
  -- One turn of the loop over the nodes.
  unfoldable pub migrate_item : Json → Result (Record × List Applied)
  unfolding target_of migrate_node
  migrate_item (object fs) =
      let node = entries fs in
      elim (target_of registry (id_of python node)) [
        | none ↦ inr (node, [])
        | some target ↦ migrate_node python migrations node target
      ]
  migrate_item value = inl node_not_an_object

  unfoldable pub migrate_items : List Json → Result (List Json × List Applied)
  unfolding and_then migrate_item
  migrate_items [] = inr ([], [])
  migrate_items (value ∷ values) = and_then (migrate_item value) λ first.
      and_then (migrate_items values)
        λ rest. inr (object (fields first.0) ∷ rest.0, first.1 ++ rest.1)

  unfoldable pub migrate_workflow : Record → Result (Record × List Applied)
  unfolding and_then migrate_items with_nodes
  migrate_workflow document = elim (raw_nodes document) [
    | array xs ↦
        and_then (migrate_items (elements xs))
          λ result. inr (with_nodes document result.0, result.1)
    | _ ↦ inl nodes_not_a_list
  ]

module _ (python : Conversions) (registry : Registry) where
  -- One turn of the loop of `needs_migration`: whether it returns there.
  unfoldable pub item_needs_migration : Json → Option Bool
  unfolding target_of
  item_needs_migration (object fs) =
      let node = entries fs in
      elim (target_of registry (id_of python node)) [
        | none ↦ some false
        | some target ↦ elim (version_of python node) [
          | none ↦ none
          | some version ↦ some (not (int_beq version (ℤ.pos target)))
        ]
      ]
  item_needs_migration value = some false

  unfoldable pub any_needs_migration : List Json → Option Bool
  any_needs_migration [] = some false
  any_needs_migration (value ∷ values) = elim (item_needs_migration value) [
    | none ↦ none
    | some true ↦ some true
    | some false ↦ any_needs_migration values
  ]

  -- `none` is an exception. A text is iterated by its characters, an object by its keys, and
  -- neither are mappings.
  unfoldable pub needs_migration : Record → Option Bool
  unfolding any_needs_migration
  needs_migration document = elim (raw_nodes document) [
    | array xs ↦ any_needs_migration (elements xs)
    | text s ↦ some false
    | object fs ↦ some false
    | _ ↦ none
  ]
