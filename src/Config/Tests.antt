-- ===== src/Config/Tests.antt =====
-- Runs of the migrations and of the layers of the settings.
use lluna.Prelude.{true, false, [], ◌∷◌, Option, none, some, ◌≡◌, refl}
use lluna.Prelude.Dict.{get?, get_or, put, discard}
use lluna.Prelude.Int.{ℤ, int_lt, int_beq}
use lluna.Json.{
  Record, Json, Fields, object, text, truth, whole, field, end, Conversions, to_dict, to_int,
  to_str, to_number, number_lt, decimal, lookup, fields, entries,
}
use lluna.Config.Layers.{mapping, merge}
use lluna.Config.Layers.Paths.{IsDistinct, leaf_at, layered, merge-layered}
use lluna.Config.Migrations.{
  migrate_legacy, of_legacy, has, is_legacy_mapping, migrate_sections, migrate_modern,
  migrate_mapping, any_section,
}
use lluna.Config.Migrations.Current.{IsCurrent}
use lluna.Prelude.Sets.{add, elem}
use lluna.Config.Loader.{load, environment_overlay, environment_keys, convert, parse_bool, set_in}
use lluna.Config.Loader.Reload.{load-to_mapping}
use lluna.Config.Models.{FloatOf, passes, to_float, init_fields, all_known, construct, only_known}
use lluna.Config.Models.Application.{
  ApplicationConfiguration, to_mapping, from_mapping, read_sections, read_section, read_subtitle,
  read_models, has_version,
}
use lluna.Config.Models.RoundTrip.{IsValid, from_mapping-IsValid}
use lluna.Config.Service.{ConfigurationService, start, replace, subscribe, default_configuration}
use lluna.Config.Service.Reached.{IsKept, started, replaced, subscribed, settings-IsKept}
use lluna.Config.Migrations.Settled.{migrate_mapping_settles}

abbrev python : Conversions
python = record { str_of = λ value. "value"; int_of = λ s. none; dict_of = λ values. none }

-- Settings of version 3.
abbrev saved : Record
saved =
    ("schema_version", whole (ℤ.pos 3))
    ∷ (
      "subtitle",
      object
          (field "hardware_acceleration" (truth false) (field "inpaint_mode" (text "opencv") end)),
    )
    ∷ ("object_selection", object (field "more_complex" (truth true) end))
    ∷ []

abbrev migrated : Record
migrated =
    ("schema_version", whole (ℤ.pos 6))
    ∷ ("subtitle", object (field "inpaint_mode" (text "sttn-auto") end))
    ∷ ("object_selection", object end)
    ∷ ("runtime", object (field "hardware_acceleration" (truth false) end))
    ∷ []

saved_migrates : migrate_mapping python saved ≡ some migrated
unfolding migrate_mapping migrate_modern migrate_sections is_legacy_mapping any_section has get?
    mathlib.Core.Option.bind get_or put discard to_dict entries fields
saved_migrates = refl

migrate_mapping_settles_example :
    IsCurrent python migrated × (migrate_mapping python migrated ≡ some migrated)
migrate_mapping_settles_example = migrate_mapping_settles python saved migrated saved_migrates

abbrev base_layer : Record
base_layer =
    ("runtime", object (field "node_retry_limit" (whole (ℤ.pos 2)) end))
    ∷ ("save_directory", text "")
    ∷ []

abbrev overlay : Fields
overlay =
    field "runtime" (object (field "idle_release_seconds" (whole (ℤ.pos 0)) end))
      (field "save_directory" (text "/x") end)

abbrev merged : Record
merged =
    (
      "runtime",
      object (
          field "node_retry_limit" (whole (ℤ.pos 2))
            (field "idle_release_seconds" (whole (ℤ.pos 0)) end)),
    )
    ∷ ("save_directory", text "/x")
    ∷ []

merge_layers : merge base_layer overlay ≡ merged
unfolding merge mapping get? put entries fields
merge_layers = refl

overlay-IsDistinct : IsDistinct overlay
unfolding IsDistinct get? entries
overlay-IsDistinct = (refl, (refl, tt, tt), (refl, tt, tt))

merge-layered_example :
    leaf_at
      ("runtime" ∷ "node_retry_limit" ∷ [])
      (some (object (fields (merge base_layer overlay))))
    ≡ layered
        ("runtime" ∷ "node_retry_limit" ∷ [])
        (some (object overlay))
        (some (object (fields base_layer)))
merge-layered_example =
    merge-layered ("runtime" ∷ "node_retry_limit" ∷ []) base_layer overlay overlay-IsDistinct

abbrev read_directory : Option Record → Json
read_directory settings = elim settings [
  | none ↦ text "none"
  | some found ↦ lookup "save_directory" found
]

-- Overrides that give the directory alone: it is lost, and the other sections are reset.
overrides_reset :
    read_directory (migrate_mapping python (("save_directory", text "/x") ∷ [])) ≡ text ""
unfolding migrate_mapping migrate_legacy of_legacy is_legacy_mapping any_section has get? get_or put
    to_dict entries fields mathlib.Core.Option.bind
overrides_reset = refl

abbrev float_of : FloatOf
float_of = λ s. none

-- The settings of a file that leaves all but one field out.
abbrev chosen : ApplicationConfiguration
chosen = record default_configuration {
  runtime =
      ("job_watchdog_seconds", decimal (ℤ.pos 900) 1)
      ∷ ("idle_release_seconds", whole (ℤ.pos 0))
      ∷ ("smart_cache_enabled", truth true)
      ∷ ("run_history_limit", whole (ℤ.pos 100))
      ∷ ("check_updates_on_startup", truth true)
      ∷ ("soft_defaults_applied", truth false)
      ∷ ("hardware_acceleration", truth true)
      ∷ ("node_retry_limit", whole (ℤ.pos 2))
      ∷ [];
}

given :
    from_mapping python float_of
      (("runtime", object (field "idle_release_seconds" (whole (ℤ.pos 0)) end)) ∷ [])
    ≡ some chosen
unfolding from_mapping read_sections get? get_or has_version to_int to_str read_section
    read_subtitle read_models construct init_fields all_known only_known passes number_lt int_lt
    to_number to_float elem mapping to_dict entries int_beq mathlib.Core.Option.bind
given = refl

refused :
    from_mapping python float_of
      (("runtime", object (field "node_retry_limit" (whole (ℤ.pos 6)) end)) ∷ [])
    ≡ none
unfolding from_mapping read_sections get? get_or has_version to_int to_str read_section
    read_subtitle read_models construct init_fields all_known only_known passes number_lt int_lt
    to_number to_float elem mapping to_dict entries int_beq mathlib.Core.Option.bind
refused = refl

abbrev told_once : ConfigurationService
told_once = record {
  value = chosen;
  saved = some (to_mapping chosen);
  listeners = 7 ∷ [];
  told = (7, chosen) ∷ [];
}

replace_tells :
    replace true chosen (subscribe 7 (start default_configuration)) ≡ some (told_once, chosen)
unfolding replace subscribe add elem
replace_tells = refl

chosen-IsValid : IsValid python float_of chosen
chosen-IsValid =
    from_mapping-IsValid python float_of
      (("runtime", object (field "idle_release_seconds" (whole (ℤ.pos 0)) end)) ∷ []) chosen given

default-IsValid : IsValid python float_of default_configuration
unfolding construct init_fields all_known passes number_lt int_lt to_number to_float elem get?
    get_or
default-IsValid = (refl, refl, refl, refl, refl, refl, refl)

settings-IsKept_example : IsKept python float_of told_once
settings-IsKept_example = settings-IsKept python float_of told_once (
    replaced true chosen chosen (subscribe 7 (start default_configuration)) told_once
      (subscribed 7 (start default_configuration) (started default_configuration default-IsValid))
      chosen-IsValid replace_tells)

load-to_mapping_example :
    load python float_of (λ s. s) none (some (to_mapping chosen)) none false [] [] ≡ some chosen
load-to_mapping_example = load-to_mapping python float_of chosen none false chosen-IsValid (λ s. s)

-- Variables of one section are gathered, and those of the root stand beside it.
variables :
    environment_overlay python float_of
      (λ s. s)
      environment_keys
      (("LLUNA_SAVE_DIRECTORY", "/x")
        ∷ ("LLUNA_HARDWARE_ACCELERATION", "off")
        ∷ ("LLUNA_INPAINT_MODE", "lama")
        ∷ [])
      []
    ≡ some (
        ("runtime", object (field "hardware_acceleration" (truth false) end))
        ∷ ("subtitle", object (field "inpaint_mode" (text "lama") end))
        ∷ ("save_directory", text "/x")
        ∷ [])
unfolding environment_overlay convert parse_bool set_in get? get_or put elem mapping entries fields
variables = refl

bad_variable :
    environment_overlay python float_of
      (λ s. s)
      environment_keys
      (("LLUNA_HARDWARE_ACCELERATION", "maybe") ∷ [])
      []
    ≡ none
unfolding environment_overlay convert parse_bool set_in get? get_or put elem mapping entries fields
bad_variable = refl
