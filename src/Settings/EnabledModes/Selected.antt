-- ===== src/Settings/EnabledModes/Selected.antt =====
-- The selected mode, in backend/tools/shared/enabled_modes.py.
use lluna.Prelude.{
  String, ◌≡◌, refl, ◌⊎◌, true, false, Option, none, some, List, [], ◌∷◌, Bool-cases, inl, inr,
  arith,
}
use lluna.Prelude.Key.{string_key}
use lluna.Prelude.Sets.{elem, elem_head}
use lluna.Settings.EnabledModes.{
  EnabledModesCatalog, Section, selectable_modes, fallback, replace_mode,
  ensure_selected_mode_valid,
}

-- What the fallback chooses is available, and it chooses something if anything is.
Chosen : List String → Option String → Type 0
Chosen available none = available ≡ []
Chosen available (some mode) = elem mode available ≡ true

fallback-Chosen :
    (catalog : EnabledModesCatalog) (available preferred : List String)
    → Chosen available (fallback catalog available preferred)
unfolding fallback Chosen
fallback-Chosen catalog [] [] = refl
fallback-Chosen catalog (mode ∷ modes) [] = elem_head mode modes
fallback-Chosen catalog available (p ∷ preferred) = elim (Bool-cases (elem p available)) [
  | inl there ↦ rw there there
  | inr gone ↦ rw gone (fallback-Chosen catalog available preferred)
]

module _ (catalog : EnabledModesCatalog) (section : Section) where
  -- The mode is selectable, or it is the old one and nothing is.
  abbrev pub IsUsable : String → Type 0
  IsUsable mode =
      (elem mode (selectable_modes catalog section) ≡ true)
      ⊎ (selectable_modes catalog section ≡ []) × (mode ≡ section.mode)

  -- What is stored is what is returned.
  abbrev pub Stores : String × Section → Type 0
  Stores (mode, stored) =
      (stored.mode ≡ mode)
      × (stored.enabled_models ≡ section.enabled_models)
      × IsUsable mode
      × (elem section.mode (selectable_modes catalog section) ≡ true → mode ≡ section.mode)

  replace_mode-Stores :
      (o : Option String)
      → Chosen (selectable_modes catalog section) o
      → elem section.mode (selectable_modes catalog section) ≡ false
      → Stores (replace_mode catalog section o)
  unfolding Chosen
  replace_mode-Stores none empty out =
      (refl, refl, inr (empty, refl), λ here. absurd (ground (arith, here, out)))
  replace_mode-Stores (some mode) there out =
      (refl, refl, inl there, λ here. absurd (ground (arith, here, out)))

  -- For a known mode, `ensure_selected_mode_valid` stores the mode that it returns and leaves the
  -- enabled models alone. The mode is the old one if that is selectable; if not, it is selectable,
  -- or nothing is and it is the old one. For an unknown mode it raises ValueError.
  pub ensure_selected_mode_valid_lem :
      (elem section.mode catalog.mode_cls ≡ false
        → ensure_selected_mode_valid catalog section ≡ none)
      × (elem section.mode catalog.mode_cls ≡ true
          → (result : String × Section) × (ensure_selected_mode_valid catalog section ≡ some result)
            × Stores result)
  unfolding ensure_selected_mode_valid
  ensure_selected_mode_valid_lem = (
    λ unknown. rw (ensure_selected_mode_valid, unknown) refl,
    λ known. elim (Bool-cases (elem section.mode (selectable_modes catalog section))) [
      | inl here ↦ (
        (section.mode, section),
        rw (ensure_selected_mode_valid, known, here) refl,
        (refl, refl, inl here, λ h. refl),
      )
      | inr out ↦ (
        replace_mode catalog section
            (fallback catalog (selectable_modes catalog section) catalog.preferred_modes),
        rw (ensure_selected_mode_valid, known, out) refl,
        replace_mode-Stores _
            (fallback-Chosen catalog (selectable_modes catalog section) catalog.preferred_modes)
            out,
      )
    ],
  )
