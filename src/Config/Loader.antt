-- ===== src/Config/Loader.antt =====
-- backend/configuration/loader.py: the layers of the settings, one written over the other. What is
-- read from a file is an argument: none for a file that is missing, broken or no object.
pub mod Saved
pub mod Reload
use mathlib.Core.Option
use lluna.Prelude.{String, Bool, true, false, Option, none, some, List, [], ◌∷◌, if◌then◌else◌}
use lluna.Prelude.Key.{string_key, ◌==◌}
use lluna.Prelude.Sets.{elem}
use lluna.Prelude.Dict.{Dict, get?, get_or, put}
use lluna.Json.{Record, Json, text, decimal, truth, object, end, Conversions, entries, fields}
use lluna.Config.Migrations.{migrate_mapping}
use lluna.Config.Layers.{mapping, merge}
use lluna.Config.Models.{FloatOf}
use lluna.Config.Models.Application.{ApplicationConfiguration, to_mapping, from_mapping}
use lluna.Config.Service.{default_configuration}

pub data Converter : Type 0 where
  of_bool of_str of_float : Converter

pub record EnvironmentKey : Type 0 where
  pub env_name : String
  pub section : String
  pub key : String
  pub converter : Converter

abbrev pub env : String → String → String → Converter → EnvironmentKey
env env_name section key converter = record {
  env_name = env_name;
  section = section;
  key = key;
  converter = converter;
}

-- `_ENVIRONMENT_KEYS`
abbrev pub environment_keys : List EnvironmentKey
environment_keys =
    env "LLUNA_HARDWARE_ACCELERATION" "runtime" "hardware_acceleration" of_bool
    ∷ env "LLUNA_INPAINT_MODE" "subtitle" "inpaint_mode" of_str
    ∷ env "LLUNA_SUBTITLE_DETECT_MODE" "subtitle" "subtitle_detect_mode" of_str
    ∷ env "LLUNA_JOB_WATCHDOG_SECONDS" "runtime" "job_watchdog_seconds" of_float
    ∷ env "LLUNA_IDLE_RELEASE_SECONDS" "runtime" "idle_release_seconds" of_float
    ∷ env "LLUNA_SAVE_DIRECTORY" "root" "save_directory" of_str
    ∷ []

-- `overlay.setdefault(section, {})[key] = value`
unfoldable pub set_in : String → String → Json → Record → Record
unfolding mapping get_or put fields
set_in section key value overlay = elim (mapping (some (get_or (object end) section overlay))) [
  | none ↦ overlay
  | some inside ↦ put section (object (fields (put key value inside))) overlay
]

-- `normalize` is Python's `raw.strip().lower()`.
module _ (python : Conversions) (float_of : FloatOf) (normalize : String → String) where
  -- `_parse_bool`, where none is the ValueError
  unfoldable pub parse_bool : String → Option Bool
  unfolding elem
  parse_bool raw =
      let normalized = normalize raw in
      if elem normalized ("1" ∷ "true" ∷ "yes" ∷ "on" ∷ [])
      then some true
      else if elem normalized ("0" ∷ "false" ∷ "no" ∷ "off" ∷ [])
      then some false
      else none

  unfoldable pub convert : Converter → String → Option Json
  unfolding parse_bool
  convert of_bool raw = Option.map truth (parse_bool raw)
  convert of_str raw = some (text raw)
  convert of_float raw = Option.map (λ number. decimal number.0 number.1) (float_of raw)

  unfoldable pub environment_overlay :
      List EnvironmentKey → Dict String String → Record → Option Record
  unfolding convert set_in get? put
  environment_overlay [] environ overlay = some overlay
  environment_overlay (k ∷ keys) environ overlay = elim (get? k.env_name environ) [
    | none ↦ environment_overlay keys environ overlay
    | some raw ↦ elim (convert k.converter raw) [
      | none ↦ none
      | some value ↦ environment_overlay keys environ (
          if k.section == "root"
          then put k.key value overlay
          else set_in k.section k.key value overlay)
    ]
  ]

  -- `merged = _merge(merged, migrate_mapping(data))`, if there are data
  unfoldable pub add_layer : Option Record → Record → Option Record
  unfolding migrate_mapping merge fields
  add_layer none merged = some merged
  add_layer (some data_) merged =
      Option.map (λ migrated. merge merged (fields migrated)) (migrate_mapping python data_)

  -- The legacy file counts if there are no settings of the user and it is another file.
  abbrev pub user_layer : Option Record → Option Record → Bool → Option Record
  user_layer (some user) legacy same_file = some user
  user_layer none legacy same_file = if same_file then none else legacy

  -- `if overrides`
  abbrev pub given_overrides : Record → Option Record
  given_overrides [] = none
  given_overrides (o ∷ os) = some (o ∷ os)

  -- `load`, up to the files that it writes back
  unfoldable pub load :
      (shipped user legacy : Option Record) (same_file : Bool) (environ : Dict String String)
      (overrides : Record)
      → Option ApplicationConfiguration
  unfolding add_layer environment_overlay to_mapping from_mapping
  load shipped user legacy same_file environ overrides =
      Option.bind (add_layer shipped (to_mapping default_configuration)) λ with_shipped.
        Option.bind (add_layer (user_layer user legacy same_file) with_shipped) λ with_user.
          Option.bind (environment_overlay environment_keys environ []) λ overlay.
            Option.bind (add_layer (given_overrides overrides) (merge with_user (fields overlay)))
              (from_mapping python float_of)
