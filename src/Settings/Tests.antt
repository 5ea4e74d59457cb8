-- ===== src/Settings/Tests.antt =====
-- A catalog of two models, and what backend/tools/shared/enabled_modes.py does with it.
use lluna.Prelude.{String, ◌≡◌, refl, true, false, ◌&&◌, none, some, List, [], ◌∷◌}
use lluna.Prelude.Key.{string_key, ◌==◌}
use lluna.Prelude.Sets.{elem, update}
use lluna.Prelude.Text.{is_space, is_comma, lstrip, rstrip, split, join, is_plain}
use lluna.Settings.EnabledModes.{
  none_enabled, EnabledModesCatalog, Section, parse_enabled_values, serialize_enabled_values,
  ensure_selected_mode_valid,
}
use lluna.Settings.EnabledModes.Values.{IsCatalog, parse-serialize}
use lluna.Settings.EnabledModes.Selected.{Stores, ensure_selected_mode_valid_lem}

abbrev catalog : EnabledModesCatalog
catalog = record {
  mode_cls = "x2" ∷ "x4" ∷ [];
  catalog_modes = "x2" ∷ "x4" ∷ [];
  default_enabled = "x2" ∷ [];
  is_installed = λ mode. mode == "x4";
  preferred_modes = [];
}

catalog-IsCatalog : IsCatalog catalog
unfolding elem is_plain is_space is_comma
catalog-IsCatalog = record { words = refl; known = λ v m. m; no_sentinel = refl }

read_spaced : parse_enabled_values catalog (some " x4 , x2,y,") ≡ "x4" ∷ "x2" ∷ []
unfolding parse_enabled_values split lstrip rstrip is_space is_comma update elem
read_spaced = refl

written_both : serialize_enabled_values catalog ("x4" ∷ "y" ∷ "x2" ∷ []) ≡ "x2,x4"
unfolding serialize_enabled_values join elem
written_both = refl

written_none : serialize_enabled_values catalog [] ≡ none_enabled
unfolding serialize_enabled_values elem
written_none = refl

abbrev x2 : String
x2 = "x2"

abbrev x4 : String
x4 = "x4"

abbrev only_x4 : List String
only_x4 = "x4" ∷ []

parse-serialize_example :
    elem x4 (parse_enabled_values catalog (some (serialize_enabled_values catalog only_x4)))
    ≡ (elem x4 catalog.catalog_modes && elem x4 only_x4)
parse-serialize_example = parse-serialize catalog catalog-IsCatalog only_x4 x4

abbrev section : Section
section = record { enabled_models = "x2,x4"; mode = "x2" }

-- Only `x4` is installed.
selected_x4 :
    ensure_selected_mode_valid catalog section ≡ some ("x4", record section { mode = "x4" })
unfolding ensure_selected_mode_valid parse_enabled_values split lstrip rstrip is_space is_comma
    update elem
selected_x4 = refl

ensure_selected_mode_valid_lem_example :
    (elem section.mode catalog.mode_cls ≡ false → ensure_selected_mode_valid catalog section ≡ none)
    × (elem section.mode catalog.mode_cls ≡ true
        → (result : String × Section) × (ensure_selected_mode_valid catalog section ≡ some result)
          × Stores catalog section result)
ensure_selected_mode_valid_lem_example = ensure_selected_mode_valid_lem catalog section
