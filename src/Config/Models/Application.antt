-- ===== src/Config/Models/Application.antt =====
-- backend/configuration/models.py: `ApplicationConfiguration`.
use mathlib.Core.Option
use lluna.Prelude.{String, Bool, false, Option, none, some, List, [], ◌∷◌, if◌then◌else◌}
use lluna.Prelude.Key.{string_key}
use lluna.Prelude.Dict.{get_or}
use lluna.Prelude.Int.{ℤ, int_beq}
use lluna.Json.{Record, text, object, end, Conversions, to_int, to_str, fields}
use lluna.Config.Migrations.{schema_version, section}
use lluna.Config.Layers.{mapping}
use lluna.Config.Models.{FloatOf, Setting, names, construct, only_known}
use lluna.Config.Models.Schema.{
  runtime_settings, subtitle_settings, enhancement_settings, low_light_settings,
  generation_settings, object_selection_settings, model_platform_settings,
}

-- The version of an instance is always `SCHEMA_VERSION`, since `__post_init__` refuses all others.
pub record ApplicationConfiguration : Type 0 where
  pub runtime : Record
  pub subtitle : Record
  pub enhancement : Record
  pub low_light : Record
  pub generation : Record
  pub object_selection : Record
  pub models : Record
  pub save_directory : String

-- `asdict`
unfoldable pub to_mapping : ApplicationConfiguration → Record
unfolding fields
to_mapping configuration =
    ("schema_version", schema_version)
    ∷ ("runtime", object (fields configuration.runtime))
    ∷ ("subtitle", object (fields configuration.subtitle))
    ∷ ("enhancement", object (fields configuration.enhancement))
    ∷ ("low_light", object (fields configuration.low_light))
    ∷ ("generation", object (fields configuration.generation))
    ∷ ("object_selection", object (fields configuration.object_selection))
    ∷ ("models", object (fields configuration.models))
    ∷ ("save_directory", text configuration.save_directory)
    ∷ []

module _ (python : Conversions) (float_of : FloatOf) where
  -- `Settings(**dict(values.get(name, {})))`
  unfoldable pub read_section : List Setting → String → Record → Option Record
  unfolding construct
  read_section settings name values =
      Option.bind (section python name values) (construct float_of settings)

  -- `SubtitleSettings.from_mapping(values.get("subtitle", {}))`, which takes mappings only
  unfoldable pub read_subtitle : Record → Option Record
  unfolding construct only_known mapping get_or
  read_subtitle values =
      Option.bind (mapping (some (get_or (object end) "subtitle" values))) λ subtitle.
        construct float_of subtitle_settings (only_known (names subtitle_settings) subtitle)

  unfoldable pub read_models : Record → Option Record
  unfolding construct only_known
  read_models values = Option.bind (section python "models" values) λ models.
      construct float_of model_platform_settings (only_known (names model_platform_settings) models)

  -- `int(values.get("schema_version", SCHEMA_VERSION))` is the current version.
  unfoldable pub has_version : Record → Bool
  unfolding to_int get_or
  has_version values = elim (to_int python (get_or schema_version "schema_version" values)) [
    | none ↦ false
    | some version ↦ int_beq version (ℤ.pos 6)
  ]

  unfoldable pub read_sections : Record → Option ApplicationConfiguration
  unfolding read_section read_subtitle read_models to_str get_or
  read_sections values = Option.bind (read_section runtime_settings "runtime" values) λ runtime.
      Option.bind (read_subtitle values) λ subtitle.
        Option.bind (read_section enhancement_settings "enhancement" values) λ enhancement.
          Option.bind (read_section low_light_settings "low_light" values) λ low_light.
            Option.bind (read_section generation_settings "generation" values) λ generation.
              Option.bind (read_section object_selection_settings "object_selection" values)
                λ object_selection.
                  Option.map
                    (λ models. record {
                      runtime = runtime;
                      subtitle = subtitle;
                      enhancement = enhancement;
                      low_light = low_light;
                      generation = generation;
                      object_selection = object_selection;
                      models = models;
                      save_directory = to_str python (get_or (text "") "save_directory" values);
                    })
                    (read_models values)

  unfoldable pub from_mapping : Record → Option ApplicationConfiguration
  unfolding read_sections has_version
  from_mapping values = if has_version values then read_sections values else none
