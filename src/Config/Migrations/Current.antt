-- ===== src/Config/Migrations/Current.antt =====
-- Settings of the current schema: what no step of migrations.py changes.
use mathlib.Core.Option
use lluna.Prelude.{String, false, some, ◌≡◌, refl, arith}
use lluna.Prelude.Key.{string_key}
use lluna.Prelude.Dict.{get?, get_or, put, get?-put, get_or-put, put_present}
use lluna.Json.{Record, Json, object, end, Conversions, to_dict, lookup, fields, entries-fields}
use lluna.Config.Migrations.{
  schema_version, has, any_section, is_legacy_mapping, is_opencv, moves, section, new_subtitle,
  new_inpaint, migrate_sections, migrate_modern,
}

pub get?-put_other :
    (k j : String) (v : Json) (d : Record)
    → string_key.test j k ≡ false
    → get? j (put k v d) ≡ get? j d
get?-put_other k j v d h = rw (get?-put k j v d, h) refl

pub get?-put_same : (k : String) (v : Json) (d : Record) → get? k (put k v d) ≡ some v
get?-put_same k v d = rw (get?-put k k v d) (ground (arith, string_key.test_iff k k))

module _ (python : Conversions) where
  abbrev pub IsCurrent : Record → Type 0
  IsCurrent settings =
      (runtime subtitle object_selection : Record) × (get? "schema_version" settings
        ≡ some schema_version)
      × (section python "runtime" settings ≡ some runtime)
      × (get? "subtitle" settings ≡ some (object (fields subtitle)))
      × (section python "object_selection" settings ≡ some object_selection)
      × (moves runtime subtitle ≡ false)
      × (is_opencv (lookup "inpaint_mode" subtitle) ≡ false)
      × (has "more_complex" object_selection ≡ false)

  pub section_written :
      (name : String) (r d : Record)
      → get? name d ≡ some (object (fields r))
      → section python name d ≡ some r
  unfolding to_dict get_or
  section_written name r d h = rw (get_or, h, entries-fields r) refl

  pub section-put :
      (k name : String) (v : Json) (d : Record)
      → string_key.test name k ≡ false
      → section python name (put k v d) ≡ section python name d
  section-put k name v d h = rw (get_or-put (object end) k name v d, h) refl

  pub current_modern : (settings : Record) → IsCurrent settings → is_legacy_mapping settings ≡ false
  unfolding is_legacy_mapping any_section has
  current_modern settings (r, s, o, v, er, es, eo, m, c, h) = ground arith

  settled_subtitle :
      (r s : Record)
      → moves r s ≡ false
      → is_opencv (lookup "inpaint_mode" s) ≡ false
      → new_inpaint (new_subtitle r s) ≡ s
  settled_subtitle r s m c = rw (m, c) refl

  sections_kept :
      (r s o settings : Record)
      → get? "subtitle" settings ≡ some (object (fields s))
      → section python "object_selection" settings ≡ some o
      → moves r s ≡ false
      → is_opencv (lookup "inpaint_mode" s) ≡ false
      → has "more_complex" o ≡ false
      → migrate_sections python settings r s ≡ some settings
  unfolding migrate_sections
  sections_kept r s o settings es eo m c h =
      rw
        (settled_subtitle r s m c, m, put_present "subtitle" (object (fields s)) settings es, eo, h)
        refl

  -- Settings of the current schema are left as they are.
  pub current_kept :
      (settings : Record) → IsCurrent settings → migrate_modern python settings ≡ some settings
  unfolding migrate_modern Option.bind to_dict
  current_kept settings (r, s, o, v, er, es, eo, m, c, h) =
      rw
        (
          put_present "schema_version" schema_version settings v,
          er,
          section_written "subtitle" s settings es,
        )
        (sections_kept r s o settings es eo m c h)
