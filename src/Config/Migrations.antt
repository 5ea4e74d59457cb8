-- ===== src/Config/Migrations.antt =====
-- backend/configuration/migrations.py. `none` is the exception of `dict` on a section that is no
-- mapping.
pub mod Current
pub mod Moved
pub mod Settled
use mathlib.Core.Option
use lluna.Prelude.{
  String, Bool, true, false, not, ◌&&◌, ◌||◌, Option, none, some, List, [], ◌∷◌, if◌then◌else◌,
}
use lluna.Prelude.Key.{string_key, ◌==◌}
use lluna.Prelude.Dict.{get?, get_or, put, discard}
use lluna.Prelude.Int.{ℤ}
use lluna.Json.{Json, Record, text, whole, truth, object, end, Conversions, to_dict, lookup, fields}

-- `SCHEMA_VERSION`
abbrev pub schema_version : Json
schema_version = whole (ℤ.pos 6)

-- `key in d`
unfoldable pub has : String → Record → Bool
has key d = elim (get? key d) [ none ↦ false | some value ↦ true ]

abbrev pub modern_sections : List String
modern_sections =
    "runtime" ∷ "subtitle" ∷ "enhancement" ∷ "low_light" ∷ "generation" ∷ "object_selection"
    ∷ "models" ∷ []

unfoldable pub any_section : List String → Record → Bool
unfolding has
any_section [] raw = false
any_section (section ∷ sections) raw = has section raw || any_section sections raw

unfoldable pub is_legacy_mapping : Record → Bool
unfolding any_section
is_legacy_mapping raw = not (any_section modern_sections raw)

-- `value == "opencv"`
abbrev pub is_opencv : Json → Bool
is_opencv (text s) = s == "opencv"
is_opencv value = false

-- v4 to v5: the mode was removed.
abbrev pub replace_opencv : Json → Json
replace_opencv mode = if is_opencv mode then text "sttn-auto" else mode

-- v3 to v4: whether `hardware_acceleration` has to move.
abbrev pub moves : Record → Record → Bool
moves runtime subtitle =
    not (has "hardware_acceleration" runtime) && has "hardware_acceleration" subtitle

abbrev pub with_acceleration : Record → Record → Record
with_acceleration runtime subtitle =
    put "hardware_acceleration" (lookup "hardware_acceleration" subtitle) runtime

abbrev pub new_subtitle : Record → Record → Record
new_subtitle runtime subtitle =
    if moves runtime subtitle then discard "hardware_acceleration" subtitle else subtitle

abbrev pub new_inpaint : Record → Record
new_inpaint subtitle =
    if is_opencv (lookup "inpaint_mode" subtitle)
    then put "inpaint_mode" (text "sttn-auto") subtitle
    else subtitle

abbrev pub put_section : String → Record → Record → Record
put_section name section migrated = put name (object (fields section)) migrated

-- v5 to v6: the field is dropped.
abbrev pub drop_more_complex : Record → Record → Record
drop_more_complex object_selection migrated =
    if has "more_complex" object_selection
    then put_section "object_selection" (discard "more_complex" object_selection) migrated
    else migrated

abbrev pub move_acceleration : Record → Record → Record → Record
move_acceleration runtime subtitle migrated =
    if moves runtime subtitle
    then put_section "runtime" (with_acceleration runtime subtitle) migrated
    else migrated

abbrev pub legacy_runtime : Record → Record → Record
legacy_runtime main infer =
    ("job_watchdog_seconds", get_or (whole (ℤ.pos 90)) "JobWatchdogSec" infer)
    ∷ ("idle_release_seconds", get_or (whole (ℤ.pos 60)) "IdleReleaseSec" infer)
    ∷ ("check_updates_on_startup", get_or (truth true) "CheckUpdateOnStartup" main)
    ∷ ("soft_defaults_applied", get_or (truth false) "SoftDefaultsApplied" infer)
    ∷ ("hardware_acceleration", get_or (truth true) "HardwareAcceleration" main)
    ∷ []

abbrev pub legacy_subtitle : Record → Record → Record → Record
legacy_subtitle main sttn propainter =
    ("selection_areas", get_or (text "0.88,0.99,0.15,0.85") "SubtitleSelectionAreas" main)
    ∷ ("inpaint_mode", replace_opencv (get_or (text "sttn-auto") "InpaintMode" main))
    ∷ ("subtitle_detect_mode", get_or (text "PP_OCRv5_SERVER") "SubtitleDetectMode" main)
    ∷ ("sttn_neighbor_stride", get_or (whole (ℤ.pos 5)) "NeighborStride" sttn)
    ∷ ("sttn_reference_length", get_or (whole (ℤ.pos 10)) "ReferenceLength" sttn)
    ∷ ("sttn_max_load_num", get_or (whole (ℤ.pos 50)) "MaxLoadNum" sttn)
    ∷ ("propainter_max_load_num", get_or (whole (ℤ.pos 70)) "MaxLoadNum" propainter)
    ∷ ("mask_expansion_px", get_or (whole (ℤ.pos 10)) "SubtitleAreaDeviationPixel" main)
    ∷ (
      "area_y_axis_difference_px",
      get_or (whole (ℤ.pos 20)) "SubtitleAreaYAxisDifferencePixel" main,
    )
    ∷ ("timeline_before_frames", get_or (whole (ℤ.pos 3)) "SubtitleTimelineBackwardFrameCount" main)
    ∷ ("timeline_after_frames", get_or (whole (ℤ.pos 3)) "SubtitleTimelineForwardFrameCount" main)
    ∷ ("vertical_box_tolerance_px", get_or (whole (ℤ.pos 10)) "SubtitleYXAxisDifferencePixel" main)
    ∷ ("box_tolerance_x_px", get_or (whole (ℤ.pos 20)) "SubtitleAreaPixelToleranceXPixel" main)
    ∷ ("box_tolerance_y_px", get_or (whole (ℤ.pos 20)) "SubtitleAreaPixelToleranceYPixel" main)
    ∷ []

abbrev pub legacy_enhancement : Record → Record
legacy_enhancement enhancement =
    ("mode", get_or (text "RealESRGAN_x2plus") "Mode" enhancement)
    ∷ ("enabled_models", get_or (text "RealESRGAN_x2plus") "EnabledModels" enhancement)
    ∷ ("max_long_edge", get_or (whole (ℤ.pos 5000)) "MaxLongEdge" enhancement)
    ∷ ("denoise_enabled", get_or (truth false) "DenoiseEnabled" enhancement)
    ∷ ("denoise_strength", get_or (text "safe") "DenoiseStrength" enhancement)
    ∷ []

abbrev pub legacy_low_light : Record → Record
legacy_low_light low_light =
    ("mode", get_or (text "MIRNet_LOL") "Mode" low_light)
    ∷ ("enabled_models", get_or (text "MIRNet_LOL") "EnabledModels" low_light)
    ∷ ("max_long_edge", get_or (whole (ℤ.pos 2048)) "MaxLongEdge" low_light)
    ∷ []

abbrev pub legacy_generation : Record → Record
legacy_generation generation =
    ("mode", get_or (text "FLUX.2-klein-base-4B") "Mode" generation)
    ∷ ("enabled_models", get_or (text "__none__") "EnabledModels" generation)
    ∷ ("width", get_or (whole (ℤ.pos 768)) "Width" generation)
    ∷ ("height", get_or (whole (ℤ.pos 768)) "Height" generation)
    ∷ ("steps", get_or (whole (ℤ.pos 4)) "Steps" generation)
    ∷ []

-- The record that the settings of before version 1 become.
unfoldable pub of_legacy :
    (main infer sttn propainter enhancement low_light generation : Record) → Record
of_legacy main infer sttn propainter enhancement low_light generation =
    ("schema_version", schema_version)
    ∷ ("runtime", object (fields (legacy_runtime main infer)))
    ∷ ("subtitle", object (fields (legacy_subtitle main sttn propainter)))
    ∷ ("enhancement", object (fields (legacy_enhancement enhancement)))
    ∷ ("low_light", object (fields (legacy_low_light low_light)))
    ∷ ("generation", object (fields (legacy_generation generation)))
    ∷ ("object_selection", object end)
    ∷ ("models", object end)
    ∷ ("save_directory", get_or (text "") "SaveDirectory" main)
    ∷ []

module _ (python : Conversions) where
  -- `dict(raw.get(name, {}))`
  abbrev pub section : String → Record → Option Record
  section name raw = to_dict python (get_or (object end) name raw)

  -- What follows once both sections are read.
  unfoldable pub migrate_sections : Record → Record → Record → Option Record
  unfolding has
  migrate_sections migrated runtime subtitle =
      let updated =
        put_section "subtitle" (new_inpaint (new_subtitle runtime subtitle))
          (move_acceleration runtime subtitle migrated) in
      Option.map (λ o. drop_more_complex o updated) (section "object_selection" updated)

  unfoldable pub migrate_modern : Record → Option Record
  unfolding migrate_sections
  migrate_modern raw =
      let migrated = put "schema_version" schema_version raw in
      Option.bind (section "runtime" migrated) λ runtime.
        Option.bind (section "subtitle" migrated)
          λ subtitle. migrate_sections migrated runtime subtitle

  unfoldable pub migrate_legacy : Record → Option Record
  unfolding of_legacy
  migrate_legacy raw = Option.bind (section "Main" raw) λ main.
      Option.bind (section "Infer" raw) λ infer. Option.bind (section "Sttn" raw) λ sttn.
        Option.bind (section "ProPainter" raw) λ propainter.
          Option.bind (section "Enhance" raw) λ enhancement.
            Option.bind (section "LowLight" raw) λ low_light.
              Option.map
                (λ generation.
                  of_legacy main infer sttn propainter enhancement low_light generation)
                (section "Generate" raw)

  unfoldable pub migrate_mapping : Record → Option Record
  unfolding migrate_modern migrate_legacy
  migrate_mapping raw = if is_legacy_mapping raw then migrate_legacy raw else migrate_modern raw
