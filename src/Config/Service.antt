-- ===== src/Config/Service.antt =====
-- backend/configuration/service.py: `ConfigurationService`, which keeps the settings in memory, writes
-- each change to the user's file and tells the listeners. One function is one call. Whether the
-- write of the file succeeds is an argument; `none` is a call that raises, and nothing is changed.
pub mod Reached
use mathlib.Core.Option
use lluna.Prelude.{
  ℕ, String, Bool, true, false, Option, none, some, List, [], ◌∷◌, ◌++◌, map, select, reject,
  if◌then◌else◌,
}
use lluna.Prelude.Key.{string_key, nat_key, ◌==◌}
use lluna.Prelude.Sets.{add}
use lluna.Prelude.Dict.{get_or}
use lluna.Json.{Record, Json, Fields, text, object, field, end, Conversions, fields, lookup}
use lluna.Config.Migrations.{has}
use lluna.Config.Layers.{merge}
use lluna.Config.Models.{FloatOf, Setting}
use lluna.Config.Models.Schema.{
  runtime_settings, subtitle_settings, enhancement_settings, low_light_settings,
  generation_settings, object_selection_settings, model_platform_settings,
}
use lluna.Config.Models.Application.{ApplicationConfiguration, to_mapping, from_mapping}

pub record ConfigurationService : Type 0 where
  pub value : ApplicationConfiguration
  -- What the service has written to the file, if it has.
  pub saved : Option Record
  pub listeners : List ℕ
  -- The calls of listeners so far.
  pub told : List (ℕ × ApplicationConfiguration)

abbrev pub Outcome : Type 0
Outcome = Option (ConfigurationService × ApplicationConfiguration)

-- `__init__`, with what the loader returned
abbrev pub start : ApplicationConfiguration → ConfigurationService
start value = record { value = value; saved = none; listeners = []; told = [] }

abbrev pub tell : ApplicationConfiguration → List ℕ → List (ℕ × ApplicationConfiguration)
tell value listeners = map (λ listener. (listener, value)) listeners

-- A class of fields with all its default values.
abbrev pub defaults : List Setting → Record
defaults settings = map (λ (s : Setting). (s.name, s.default)) settings

abbrev pub default_configuration : ApplicationConfiguration
default_configuration = record {
  runtime = defaults runtime_settings;
  subtitle = defaults subtitle_settings;
  enhancement = defaults enhancement_settings;
  low_light = defaults low_light_settings;
  generation = defaults generation_settings;
  object_selection = defaults object_selection_settings;
  models = defaults model_platform_settings;
  save_directory = "";
}

unfoldable pub replace : Bool → ApplicationConfiguration → ConfigurationService → Outcome
unfolding to_mapping
replace writes value s =
    if writes
    then some (
      record s {
        value = value;
        saved = some (to_mapping value);
        told = s.told ++ tell value s.listeners;
      },
      value,
    )
    else none

unfoldable pub subscribe : ℕ → ConfigurationService → ConfigurationService
unfolding add
subscribe listener s = record s { listeners = add listener s.listeners }

unfoldable pub unsubscribe : ℕ → ConfigurationService → ConfigurationService
unsubscribe listener s = record s { listeners = reject (λ l. l == listener) s.listeners }

module _ (python : Conversions) (float_of : FloatOf) where
  unfoldable pub update : Bool → Fields → ConfigurationService → Outcome
  unfolding replace merge from_mapping to_mapping
  update writes patch s =
      Option.bind (from_mapping python float_of (merge (to_mapping s.value) patch))
        λ updated. replace writes updated s

  unfoldable pub reset_section : Bool → String → ConfigurationService → Outcome
  unfolding update has to_mapping get_or
  reset_section writes section s =
      let default = to_mapping default_configuration in
      if section == "save_directory"
      then update writes (field section (lookup section default) end) s
      else if has section default
      then update writes (field section (lookup section default) end) s
      else none
