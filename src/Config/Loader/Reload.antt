-- ===== src/Config/Loader/Reload.antt =====
-- The loader reads back what the settings service has written.
use mathlib.Core.Option
use lluna.Prelude.{
  String, Bool, true, false, Option, none, some, List, [], ◌∷◌, ◌≡◌, refl, sym, ap, subst, inl, inr,
  ◌∙◌, arith, Bool-cases,
}
use lluna.Prelude.Key.{string_key}
use lluna.Prelude.Sets.{elem}
use lluna.Prelude.Dict.{get?, get_or, put}
use lluna.Json.{
  Json, Record, null, truth, whole, decimal, text, array, object, Conversions, entries, fields,
  lookup,
}
use lluna.Config.Migrations.{has, is_opencv, migrate_mapping}
use lluna.Config.Migrations.Current.{IsCurrent, section_written, current_modern, current_kept}
use lluna.Config.Layers.{mapping, merge}
use lluna.Config.Models.{FloatOf, Setting, names, construct, passes, all_known, one_of}
use lluna.Config.Models.Schema.{
  runtime_settings, subtitle_settings, enhancement_settings, low_light_settings,
  generation_settings, object_selection_settings, model_platform_settings, inpaint_modes,
}
use lluna.Config.Models.Built.{init_fields_inv}
use lluna.Config.Models.Application.{ApplicationConfiguration, to_mapping, from_mapping}
use lluna.Config.Models.RoundTrip.{
  IsValid, IsBuilt, from_mapping-to_mapping, runtime-IsDistinct, subtitle-IsDistinct,
  enhancement-IsDistinct, low_light-IsDistinct, generation-IsDistinct, object_selection-IsDistinct,
  model_platform-IsDistinct,
}
use lluna.Config.Service.{defaults, default_configuration}
use lluna.Config.Loader.{load, add_layer, environment_overlay}
use lluna.Config.Loader.Saved.{AreLeaves, different, init_fields_of_construct, merge-defaults}

unknown_absent :
    (known : List String) (r : Record) (k : String)
    → all_known known r ≡ true
    → elem k known ≡ false
    → get? k r ≡ none
unfolding all_known get?
unknown_absent known [] k a h = refl
unknown_absent known ((key, v) ∷ r) k a h = elim (Bool-cases (elem key known)) [
  | inr e ↦ ground arith
  | inl e ↦
      let apart = different key k known h e in
      let ih = unknown_absent known r k (ground arith) h in
      ground (arith, string_key.test_iff key k, string_key.test_iff k key)
]

not_opencv_of_mode :
    (float_of : FloatOf) (mode : Option Json)
    → passes float_of (one_of inpaint_modes) (elim mode [ none ↦ text "sttn-auto" | some w ↦ w ])
      ≡ true
    → is_opencv (elim mode [ none ↦ null | some w ↦ w ]) ≡ false
unfolding passes elem
not_opencv_of_mode float_of none h = refl
not_opencv_of_mode float_of (some null) h = refl
not_opencv_of_mode float_of (some (truth b)) h = refl
not_opencv_of_mode float_of (some (whole i)) h = refl
not_opencv_of_mode float_of (some (decimal m k)) h = refl
not_opencv_of_mode float_of (some (array xs)) h = refl
not_opencv_of_mode float_of (some (object fs)) h = refl
not_opencv_of_mode float_of (some (text s)) h = elim (Bool-cases (string_key.test s "opencv")) [
  | inr e ↦ e
  | inl e ↦
      let same : s ≡ "opencv" = ground (arith, string_key.test_iff s "opencv") in
      let no : elem "opencv" inpaint_modes ≡ true =
        subst (λ x. elem x inpaint_modes ≡ true) same h in
      ground arith
]

runtime-AreLeaves : AreLeaves runtime_settings
unfolding AreLeaves mapping
runtime-AreLeaves = (refl, (refl, (refl, (refl, (refl, (refl, (refl, (refl, tt))))))))

subtitle-AreLeaves : AreLeaves subtitle_settings
unfolding AreLeaves mapping
subtitle-AreLeaves = (
  refl,
  (
    refl,
    (
      refl,
      (refl, (refl, (refl, (refl, (refl, (refl, (refl, (refl, (refl, (refl, (refl, tt))))))))))),
    ),
  ),
)

enhancement-AreLeaves : AreLeaves enhancement_settings
unfolding AreLeaves mapping
enhancement-AreLeaves = (refl, (refl, (refl, (refl, (refl, tt)))))

low_light-AreLeaves : AreLeaves low_light_settings
unfolding AreLeaves mapping
low_light-AreLeaves = (refl, (refl, (refl, tt)))

generation-AreLeaves : AreLeaves generation_settings
unfolding AreLeaves mapping
generation-AreLeaves = (refl, (refl, (refl, (refl, (refl, tt)))))

object_selection-AreLeaves : AreLeaves object_selection_settings
unfolding AreLeaves mapping
object_selection-AreLeaves = (refl, (refl, tt))

model_platform-AreLeaves : AreLeaves model_platform_settings
unfolding AreLeaves mapping
model_platform-AreLeaves = (refl, tt)

module _ (python : Conversions) (float_of : FloatOf) where
  has-IsBuilt :
      (settings : List Setting) (r : Record) (k : String)
      → IsBuilt python float_of settings r
      → elem k (names settings) ≡ false
      → has k r ≡ false
  unfolding construct has
  has-IsBuilt settings r k built h = elim (Bool-cases (all_known (names settings) r)) [
    | inr e ↦ ground arith
    | inl e ↦ rw (has, unknown_absent (names settings) r k e h) refl
  ]

  mode-IsBuilt :
      (r : Record)
      → IsBuilt python float_of subtitle_settings r
      → is_opencv (lookup "inpaint_mode" r) ≡ false
  unfolding get_or
  mode-IsBuilt r built =
      let made = init_fields_of_construct float_of subtitle_settings r r built in
      let (rest, _, later, _) = init_fields_inv float_of _ _ r r made in
      let (_, ok, _, _) = init_fields_inv float_of _ _ r rest later in
      not_opencv_of_mode float_of (get? "inpaint_mode" r) ok

  saved-IsCurrent :
      (c : ApplicationConfiguration) → IsValid python float_of c → IsCurrent python (to_mapping c)
  unfolding to_mapping get? elem
  saved-IsCurrent c (r, s, e, l, g, o, m) =
      let no_switch = has-IsBuilt subtitle_settings c.subtitle "hardware_acceleration" s refl in
      (
        c.runtime,
        c.subtitle,
        c.object_selection,
        refl,
        section_written python "runtime" c.runtime (to_mapping c) refl,
        refl,
        section_written python "object_selection" c.object_selection (to_mapping c) refl,
        ground arith,
        mode-IsBuilt c.subtitle s,
        has-IsBuilt object_selection_settings c.object_selection "more_complex" o refl,
      )

  -- Each section written over its default values.
  abbrev over_defaults : ApplicationConfiguration → ApplicationConfiguration
  over_defaults c = record {
    runtime = merge (defaults runtime_settings) (fields c.runtime);
    subtitle = merge (defaults subtitle_settings) (fields c.subtitle);
    enhancement = merge (defaults enhancement_settings) (fields c.enhancement);
    low_light = merge (defaults low_light_settings) (fields c.low_light);
    generation = merge (defaults generation_settings) (fields c.generation);
    object_selection = merge (defaults object_selection_settings) (fields c.object_selection);
    models = merge (defaults model_platform_settings) (fields c.models);
    save_directory = c.save_directory;
  }

  over_defaults-IsValid :
      (c : ApplicationConfiguration) → IsValid python float_of c → over_defaults c ≡ c
  over_defaults-IsValid c (r, s, e, l, g, o, m) = λ i. record {
    runtime =
        merge-defaults float_of runtime_settings c.runtime runtime-AreLeaves runtime-IsDistinct r i;
    subtitle =
        merge-defaults float_of subtitle_settings c.subtitle subtitle-AreLeaves subtitle-IsDistinct
          s i;
    enhancement =
        merge-defaults float_of enhancement_settings c.enhancement enhancement-AreLeaves
          enhancement-IsDistinct e i;
    low_light =
        merge-defaults float_of low_light_settings c.low_light low_light-AreLeaves
          low_light-IsDistinct l i;
    generation =
        merge-defaults float_of generation_settings c.generation generation-AreLeaves
          generation-IsDistinct g i;
    object_selection =
        merge-defaults float_of object_selection_settings c.object_selection
          object_selection-AreLeaves object_selection-IsDistinct o i;
    models =
        merge-defaults float_of model_platform_settings c.models model_platform-AreLeaves
          model_platform-IsDistinct m i;
    save_directory = c.save_directory;
  }

  merge_saved_sections :
      (c : ApplicationConfiguration)
      → merge (to_mapping default_configuration) (fields (to_mapping c))
        ≡ to_mapping (over_defaults c)
  unfolding to_mapping merge fields get? put entries
  merge_saved_sections c = refl

  merge_saved :
      (c : ApplicationConfiguration)
      → IsValid python float_of c
      → merge (to_mapping default_configuration) (fields (to_mapping c)) ≡ to_mapping c
  merge_saved c valid = merge_saved_sections c ∙ ap to_mapping (over_defaults-IsValid c valid)

  -- With no shipped file, no environment variable and no overrides, the loader returns exactly the
  -- valid settings that the service has written to the file, whatever the legacy file holds.
  pub load-to_mapping :
      (c : ApplicationConfiguration) (legacy : Option Record) (same_file : Bool)
      → IsValid python float_of c
      → (normalize : String → String)
      → load python float_of normalize none (some (to_mapping c)) legacy same_file [] [] ≡ some c
  unfolding load add_layer environment_overlay migrate_mapping merge fields Option.bind get?
  load-to_mapping c legacy same_file valid normalize =
      let current = saved-IsCurrent c valid in
      rw (current_modern python (to_mapping c) current, current_kept python (to_mapping c) current)
        (subst (λ merged. from_mapping python float_of merged ≡ some c) (sym (merge_saved c valid))
          (from_mapping-to_mapping python float_of c valid))
