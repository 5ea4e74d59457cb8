-- ===== src/Graph/MigrationTests.antt =====
-- Saved workflows of an older release, and what becomes of them.
use lluna.Prelude.{
  [], ◌∷◌, none, some, inl, inr, ◌≡◌, refl, true, false, arith, if◌then◌else◌, Bool-cases,
}
use lluna.Prelude.Key.{string_key}
use lluna.Prelude.Dict.{get?, get_or, put, discard}
use lluna.Prelude.Int.{ℤ, int_lt, next, gap, int_beq}
use lluna.Json.{
  Record, text, whole, array, object, nil, Conversions, to_str, to_int, to_dict, truthy, entries,
  fields, elements, items,
}
use lluna.Graph.Schema.{Registry, NodeDefinition, processor}
use lluna.Graph.Migrations.{
  Applied, and_then, migrate_node, migrate_item, migrate_items, migrate_workflow, move, step_up,
  check_version, with_nodes, needs_migration, target_of, video_remove_text_regions,
  shipped_migrations, register,
}
use lluna.Graph.Migrations.{version_of}
use lluna.Graph.Migrations.Climbing.{Ends, migrate_node_lem}
use lluna.Graph.Migrations.Settled.{AreVersioned}
use lluna.Graph.Migrations.Versions.{shipped-KeepsId}
use lluna.Graph.Migrations.Workflows.{needs_migration_lem, migrate_workflow_settles}

abbrev python : Conversions
python = record { str_of = λ value. "?"; int_of = λ s. none; dict_of = λ xs. none }

abbrev remove_text : NodeDefinition
remove_text = record {
  schema_id = "lluna.video.remove_text";
  schema_version = 2;
  kind = processor;
  inputs = [];
  outputs = [];
  parameters = [];
  supports_preview = false;
  available = true;
  adapter = none;
}

abbrev registry : Registry
registry schema_id =
    if string_key.test schema_id "lluna.video.remove_text" then some remove_text else none

abbrev saved_node : Record
saved_node = ("schemaId", text "lluna.video.remove_text") ∷ ("schema_version", whole (ℤ.pos 1)) ∷ []

abbrev moved_node : Record
moved_node =
    ("schemaId", text "lluna.video.remove_text")
    ∷ ("parameters", object (fields (("subAreas", array nil) ∷ [])))
    ∷ ("schemaVersion", whole (ℤ.pos 2))
    ∷ []

abbrev foreign_node : Record
foreign_node = ("schemaId", text "other") ∷ []

abbrev saved_workflow : Record
saved_workflow = with_nodes [] (object (fields saved_node) ∷ object (fields foreign_node) ∷ [])

abbrev moved_workflow : Record
moved_workflow = with_nodes [] (object (fields moved_node) ∷ object (fields foreign_node) ∷ [])

abbrev first_step : Applied
first_step = record { schema_id = "lluna.video.remove_text"; from = ℤ.pos 1; to = ℤ.pos 2 }

moves_to_two :
    migrate_workflow python (shipped_migrations python) registry saved_workflow
    ≡ inr (moved_workflow, first_step ∷ [])
unfolding migrate_workflow migrate_items migrate_item migrate_node and_then move step_up
    check_version with_nodes target_of video_remove_text_regions register get? get_or put discard
    int_lt next gap to_str to_int to_dict truthy entries fields elements items int_beq
moves_to_two = refl

registry-AreVersioned : AreVersioned python (shipped_migrations python) registry
unfolding target_of
registry-AreVersioned schema_id target h =
    elim (Bool-cases (string_key.test schema_id "lluna.video.remove_text")) [
      | inl e ↦ ground arith
      | inr e ↦ ground arith
    ]

version : version_of python saved_node ≡ some (ℤ.pos 1)
unfolding to_int truthy get_or get?
version = refl

migrate_node_lem_example :
    Ends python
      (shipped_migrations python)
      saved_node
      2
      (ℤ.pos 1)
      (migrate_node python (shipped_migrations python) saved_node 2)
migrate_node_lem_example =
    migrate_node_lem python (shipped_migrations python) saved_node 2 (ℤ.pos 1) version

needs_migration_lem_example : needs_migration python registry saved_workflow ≡ some true
needs_migration_lem_example =
    needs_migration_lem python (shipped_migrations python) registry saved_workflow moved_workflow
      (first_step ∷ []) moves_to_two

migrate_workflow_settles_example :
    (migrate_workflow python (shipped_migrations python) registry moved_workflow
      ≡ inr (moved_workflow, []))
    × (needs_migration python registry moved_workflow ≡ some false)
migrate_workflow_settles_example =
    migrate_workflow_settles python (shipped_migrations python) registry saved_workflow
      moved_workflow (first_step ∷ []) (shipped-KeepsId python) registry-AreVersioned moves_to_two
