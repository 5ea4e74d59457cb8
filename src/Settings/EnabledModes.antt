-- ===== src/Settings/EnabledModes.antt =====
-- backend/tools/shared/enabled_modes.py: which models of a catalog are On, and which is selected. A
-- mode is its value, and the two settings are a state.
pub mod Values
pub mod Selected
use lluna.Prelude.{
  String, Bool, true, false, not, ◌&&◌, Option, none, some, List, [], ◌∷◌, ◌++◌, map, select,
  reject, if◌then◌else◌,
}
use lluna.Prelude.Key.{string_key, ◌==◌}
use lluna.Prelude.Sets.{elem, add, update}
use lluna.Prelude.Text.{strip, split, join}

abbrev pub none_enabled : String
none_enabled = "__none__"

-- The values of `mode_cls`, those that `catalog_modes()` lists, and the other fields. What is
-- installed is asked of the disk.
pub record EnabledModesCatalog : Type 0 where
  pub mode_cls : List String
  pub catalog_modes : List String
  pub default_enabled : List String
  pub is_installed : String → Bool
  pub preferred_modes : List String

-- The fields `enabled_models` and `mode` of the section.
pub record Section : Type 0 where
  pub enabled_models : String
  pub mode : String

-- `{part.strip() for part in s.split(",") if part.strip()}`
unfoldable pub parts_of : String → List String
parts_of s = update [] (select (λ part. not (part == "")) (map (λ part. strip part) (split s)))

module _ (catalog : EnabledModesCatalog) where
  -- For the text without the space around it.
  unfoldable pub parse_text : String → List String
  unfolding parts_of
  parse_text s =
      if s == ""
      then update [] catalog.default_enabled
      else if s == none_enabled
      then []
      else select (λ v. elem v catalog.mode_cls) (parts_of s)

  unfoldable pub parse_enabled_values : Option String → List String
  unfolding parse_text
  parse_enabled_values none = parse_text ""
  parse_enabled_values (some raw) = parse_text (strip raw)

  -- The loop of `serialize_enabled_values`; `ordered` and `seen` hold the same values.
  unfoldable pub order_values : List String → List String → List String → List String
  order_values values ordered [] = ordered
  order_values values ordered (v ∷ modes) =
      order_values values
        (if elem v values && not (elem v ordered) then ordered ++ v ∷ [] else ordered) modes

  abbrev pub join_values : List String → String
  join_values [] = none_enabled
  join_values (v ∷ vs) = join (v ∷ vs)

  unfoldable pub serialize_enabled_values : List String → String
  unfolding order_values
  serialize_enabled_values values = join_values (order_values values [] catalog.catalog_modes)

  abbrev pub get_enabled_values : Section → List String
  get_enabled_values section = parse_enabled_values (some section.enabled_models)

  unfoldable pub set_model_enabled : String → Bool → Section → Section
  set_model_enabled mode enabled section =
      let values = get_enabled_values section in
      let values' = if enabled then add mode values else reject (λ v. v == mode) values in
      record section { enabled_models = serialize_enabled_values values' }

  unfoldable pub selectable_modes : Section → List String
  selectable_modes section =
      let enabled = get_enabled_values section in
      select (λ mode. elem mode enabled && catalog.is_installed mode) catalog.catalog_modes

  -- The first preferred mode that is available, or else the first available one.
  unfoldable pub fallback : List String → List String → Option String
  fallback available (preferred ∷ rest) =
      if elem preferred available then some preferred else fallback available rest
  fallback [] [] = none
  fallback (mode ∷ modes) [] = some mode

  abbrev pub replace_mode : Section → Option String → String × Section
  replace_mode section none = (section.mode, section)
  replace_mode section (some mode) = (mode, record section { mode = mode })

  -- `none` is the ValueError of `mode_cls` at an unknown value.
  unfoldable pub ensure_selected_mode_valid : Section → Option (String × Section)
  unfolding fallback selectable_modes
  ensure_selected_mode_valid section =
      let available = selectable_modes section in
      if not (elem section.mode catalog.mode_cls)
      then none
      else if elem section.mode available
      then some (section.mode, section)
      else some (replace_mode section (fallback available catalog.preferred_modes))
