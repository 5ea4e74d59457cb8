-- ===== src/Config/Models/Schema.antt =====
-- backend/configuration/models.py: the fields of each section.
use lluna.Prelude.{String, true, false, List, [], ◌∷◌}
use lluna.Prelude.Int.{ℤ}
use lluna.Json.{Json, text, whole, decimal, truth}
use lluna.Config.Models.{Check, boolean, string, bounded, between, one_of, Setting}

abbrev pub setting : String → Json → Check → Setting
setting name default check = record { name = name; default = default; check = check }

abbrev pub inpaint_modes : List String
inpaint_modes = "sttn-auto" ∷ "sttn-det" ∷ "lama" ∷ "propainter" ∷ []

abbrev pub detect_modes : List String
detect_modes = "PP_OCRv5_MOBILE" ∷ "PP_OCRv5_SERVER" ∷ []

abbrev pub denoise_strengths : List String
denoise_strengths = "safe" ∷ "medium" ∷ []

abbrev pub runtime_settings : List Setting
runtime_settings =
    setting "job_watchdog_seconds" (decimal (ℤ.pos 900) 1) (between 5 3600)
    ∷ setting "idle_release_seconds" (decimal (ℤ.pos 600) 1) (between 0 86400)
    ∷ setting "smart_cache_enabled" (truth true) boolean
    ∷ setting "run_history_limit" (whole (ℤ.pos 100)) (bounded 10 1000)
    ∷ setting "check_updates_on_startup" (truth true) boolean
    ∷ setting "soft_defaults_applied" (truth false) boolean
    ∷ setting "hardware_acceleration" (truth true) boolean
    ∷ setting "node_retry_limit" (whole (ℤ.pos 2)) (bounded 0 5)
    ∷ []

abbrev pub subtitle_settings : List Setting
subtitle_settings =
    setting "selection_areas" (text "0.88,0.99,0.15,0.85") string
    ∷ setting "inpaint_mode" (text "sttn-auto") (one_of inpaint_modes)
    ∷ setting "subtitle_detect_mode" (text "PP_OCRv5_SERVER") (one_of detect_modes)
    ∷ setting "sttn_neighbor_stride" (whole (ℤ.pos 5)) (bounded 1 100)
    ∷ setting "sttn_reference_length" (whole (ℤ.pos 10)) (bounded 1 100)
    ∷ setting "sttn_max_load_num" (whole (ℤ.pos 50)) (bounded 1 300)
    ∷ setting "propainter_max_load_num" (whole (ℤ.pos 70)) (bounded 1 300)
    ∷ setting "mask_expansion_px" (whole (ℤ.pos 10)) (bounded 0 300)
    ∷ setting "area_y_axis_difference_px" (whole (ℤ.pos 20)) (bounded 0 300)
    ∷ setting "timeline_before_frames" (whole (ℤ.pos 3)) (bounded 0 300)
    ∷ setting "timeline_after_frames" (whole (ℤ.pos 3)) (bounded 0 300)
    ∷ setting "vertical_box_tolerance_px" (whole (ℤ.pos 10)) (bounded 0 300)
    ∷ setting "box_tolerance_x_px" (whole (ℤ.pos 20)) (bounded 0 300)
    ∷ setting "box_tolerance_y_px" (whole (ℤ.pos 20)) (bounded 0 300)
    ∷ []

abbrev pub enhancement_settings : List Setting
enhancement_settings =
    setting "mode" (text "RealESRGAN_x2plus") string
    ∷ setting "enabled_models" (text "RealESRGAN_x2plus") string
    ∷ setting "max_long_edge" (whole (ℤ.pos 5000)) (bounded 256 32768)
    ∷ setting "denoise_enabled" (truth false) boolean
    ∷ setting "denoise_strength" (text "safe") (one_of denoise_strengths)
    ∷ []

abbrev pub low_light_settings : List Setting
low_light_settings =
    setting "mode" (text "MIRNet_LOL") string
    ∷ setting "enabled_models" (text "MIRNet_LOL") string
    ∷ setting "max_long_edge" (whole (ℤ.pos 2048)) (bounded 256 32768)
    ∷ []

abbrev pub generation_settings : List Setting
generation_settings =
    setting "mode" (text "FLUX.2-klein-base-4B") string
    ∷ setting "enabled_models" (text "__none__") string
    ∷ setting "width" (whole (ℤ.pos 768)) (bounded 64 8192)
    ∷ setting "height" (whole (ℤ.pos 768)) (bounded 64 8192)
    ∷ setting "steps" (whole (ℤ.pos 4)) (bounded 1 250)
    ∷ []

abbrev pub object_selection_settings : List Setting
object_selection_settings =
    setting "confidence_threshold" (decimal (ℤ.pos 3) 1) (between 0 1)
    ∷ setting "mask_threshold" (decimal (ℤ.pos 5) 1) (between 0 1)
    ∷ []

abbrev pub model_platform_settings : List Setting
model_platform_settings = setting "auto_enable_imports" (truth false) boolean ∷ []
