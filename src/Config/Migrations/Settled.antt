-- ===== src/Config/Migrations/Settled.antt =====
-- Both branches of migrate_mapping lead to settings of the current schema.

use lluna.Prelude.{
  bind_inv, map_inv, Bool, false, some, [], ◌≡◌, refl, subst, inl, inr, Bool-cases, if◌then◌else◌,
}
use lluna.Prelude.Key.{string_key}
use lluna.Prelude.Dict.{get?, get_or, put}
use lluna.Json.{Record, Json, text, Conversions, to_dict, fields, entries}
use lluna.Config.Migrations.{
  schema_version, has, is_opencv, replace_opencv, section, of_legacy, legacy_runtime,
  legacy_subtitle, is_legacy_mapping, migrate_modern, migrate_legacy, migrate_mapping,
}
use lluna.Config.Migrations.Current.{
  IsCurrent, section_written, get?-put_same, current_modern, current_kept,
}
use lluna.Config.Migrations.Moved.{sections-IsCurrent}

replaced_opencv : (mode : Json) → is_opencv (replace_opencv mode) ≡ false
replaced_opencv mode = elim (Bool-cases (is_opencv mode)) [ inl e ↦ rw e refl | inr e ↦ rw e e ]

module _ (python : Conversions) where
  modern-IsCurrent :
      (raw settings : Record)
      → migrate_modern python raw ≡ some settings
      → IsCurrent python settings
  unfolding migrate_modern
  modern-IsCurrent raw settings h =
      let migrated : Record = put "schema_version" schema_version raw in
      let (r, er, g) = bind_inv (section python "runtime" migrated) _ settings h in
      let (s, es, f) = bind_inv (section python "subtitle" migrated) _ settings g in
      sections-IsCurrent python r s migrated settings
        (get?-put_same "schema_version" schema_version raw) er f

  of_legacy-IsCurrent :
      (main infer sttn propainter enhancement low_light generation : Record)
      → IsCurrent python (of_legacy main infer sttn propainter enhancement low_light generation)
  unfolding of_legacy get? has get_or to_dict entries fields
  of_legacy-IsCurrent main infer sttn propainter enhancement low_light generation = (
    legacy_runtime main infer,
    legacy_subtitle main sttn propainter,
    [],
    refl,
    section_written python "runtime" (legacy_runtime main infer)
        (of_legacy main infer sttn propainter enhancement low_light generation) refl,
    refl,
    refl,
    refl,
    replaced_opencv (get_or (text "sttn-auto") "InpaintMode" main),
    refl,
  )

  legacy-IsCurrent :
      (raw settings : Record)
      → migrate_legacy python raw ≡ some settings
      → IsCurrent python settings
  unfolding migrate_legacy
  legacy-IsCurrent raw settings h =
      let (main, _, h1) = bind_inv (section python "Main" raw) _ settings h in
      let (infer, _, h2) = bind_inv (section python "Infer" raw) _ settings h1 in
      let (sttn, _, h3) = bind_inv (section python "Sttn" raw) _ settings h2 in
      let (propainter, _, h4) = bind_inv (section python "ProPainter" raw) _ settings h3 in
      let (enhancement, _, h5) = bind_inv (section python "Enhance" raw) _ settings h4 in
      let (low_light, _, h6) = bind_inv (section python "LowLight" raw) _ settings h5 in
      let (generation, _, at) = map_inv (section python "Generate" raw) _ settings h6 in
      subst (IsCurrent python) at
        (of_legacy-IsCurrent main infer sttn propainter enhancement low_light generation)

  mapping-IsCurrent :
      (raw settings : Record)
      → migrate_mapping python raw ≡ some settings
      → IsCurrent python settings
  unfolding migrate_mapping
  mapping-IsCurrent raw settings h =
      let Branch : Bool → Type 0 = λ legacy.
        (if legacy then migrate_legacy python raw else migrate_modern python raw) ≡ some settings in
      elim (Bool-cases (is_legacy_mapping raw)) [
        | inl e ↦ legacy-IsCurrent raw settings (subst Branch e h)
        | inr e ↦ modern-IsCurrent raw settings (subst Branch e h)
      ]

  -- Migrated settings, of any age, are of the current schema, and to migrate them again changes
  -- nothing: a second call returns exactly them.
  pub migrate_mapping_settles :
      (raw settings : Record)
      → migrate_mapping python raw ≡ some settings
      → IsCurrent python settings × (migrate_mapping python settings ≡ some settings)
  unfolding migrate_mapping
  migrate_mapping_settles raw settings h =
      let current = mapping-IsCurrent raw settings h in
      (current, rw (current_modern python settings current) (current_kept python settings current))
