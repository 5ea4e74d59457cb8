-- ===== src/Config/Service/Reached.antt =====
-- The settings service, whatever calls were made of it.

use lluna.Prelude.{
  ℕ, String, Bool, Option, none, some, ◌≡◌, sym, subst, inl, inr, arith, Bool-cases, bind_inv,
}
use lluna.Prelude.Key.{string_key}
use lluna.Json.{Record, Fields, Conversions, field, end, lookup}
use lluna.Config.Migrations.{has}
use lluna.Config.Layers.{merge}
use lluna.Config.Models.{FloatOf}
use lluna.Config.Models.Application.{ApplicationConfiguration, to_mapping, from_mapping}
use lluna.Config.Models.RoundTrip.{IsValid, from_mapping-IsValid, from_mapping-to_mapping}
use lluna.Config.Service.{
  ConfigurationService, start, replace, update, reset_section, subscribe, unsubscribe,
  default_configuration,
}

module _ (python : Conversions) (float_of : FloatOf) where
  -- The states that calls lead to, in any order. A call that raises leads nowhere.
  pub data Reached : ConfigurationService → Type 0 where
    started :
        (value : ApplicationConfiguration) → IsValid python float_of value → Reached (start value)
    replaced :
        (writes : Bool) (new value : ApplicationConfiguration) (s s' : ConfigurationService)
        → Reached s
        → IsValid python float_of new
        → replace writes new s ≡ some (s', value)
        → Reached s'
    updated :
        (writes : Bool) (patch : Fields) (value : ApplicationConfiguration)
        (s s' : ConfigurationService)
        → Reached s
        → update python float_of writes patch s ≡ some (s', value)
        → Reached s'
    reset :
        (writes : Bool) (section : String) (value : ApplicationConfiguration)
        (s s' : ConfigurationService)
        → Reached s
        → reset_section python float_of writes section s ≡ some (s', value)
        → Reached s'
    subscribed :
        (listener : ℕ) (s : ConfigurationService) → Reached s → Reached (subscribe listener s)
    unsubscribed :
        (listener : ℕ) (s : ConfigurationService) → Reached s → Reached (unsubscribe listener s)

  -- A file that was written is read back as these settings.
  unfoldable pub Reads : Option Record → ApplicationConfiguration → Type 0
  Reads none value = Unit
  Reads (some file) value = from_mapping python float_of file ≡ some value

  -- The settings in memory are valid, and the file has them if it was written.
  abbrev pub IsKept : ConfigurationService → Type 0
  IsKept s = IsValid python float_of s.value × Reads s.saved s.value

  replace-IsKept :
      (writes : Bool) (new value : ApplicationConfiguration) (s s' : ConfigurationService)
      → IsValid python float_of new
      → replace writes new s ≡ some (s', value)
      → IsKept s'
  unfolding replace Reads
  replace-IsKept writes new value s s' valid h =
      let at : s'.value ≡ new = ground arith in
      let file_at : s'.saved ≡ some (to_mapping new) = ground arith in
      let back = from_mapping-to_mapping python float_of new valid in
      (
        subst (IsValid python float_of) (sym at) valid,
        subst (λ file. Reads file s'.value) (sym file_at)
            (subst (λ v. from_mapping python float_of (to_mapping new) ≡ some v) (sym at) back),
      )

  update-IsKept :
      (writes : Bool) (patch : Fields) (value : ApplicationConfiguration)
      (s s' : ConfigurationService)
      → update python float_of writes patch s ≡ some (s', value)
      → IsKept s'
  unfolding update
  update-IsKept writes patch value s s' h =
      let (new, made, g) =
        bind_inv (from_mapping python float_of (merge (to_mapping s.value) patch)) _ (s', value)
          h in
      replace-IsKept writes new value s s'
        (from_mapping-IsValid python float_of (merge (to_mapping s.value) patch) new made) g

  reset_section-IsKept :
      (writes : Bool) (section : String) (value : ApplicationConfiguration)
      (s s' : ConfigurationService)
      → reset_section python float_of writes section s ≡ some (s', value)
      → IsKept s'
  unfolding reset_section
  reset_section-IsKept writes section value s s' h =
      let patch : Fields = field section (lookup section (to_mapping default_configuration)) end in
      let done : update python float_of writes patch s ≡ some (s', value) =
        elim (Bool-cases (string_key.test section "save_directory")) [
          | inl e ↦ ground arith
          | inr e ↦ elim (Bool-cases (has section (to_mapping default_configuration))) [
            | inl g ↦ ground arith
            | inr g ↦ ground arith
          ]
        ] in
      update-IsKept writes patch value s s' done

  -- In every state that the calls of the service lead to, in whatever order, with whatever patches
  -- and whichever of them raise, the settings in memory are valid, and the file, once the service
  -- has written it, is read back as exactly these settings.
  pub settings-IsKept : (s : ConfigurationService) → Reached s → IsKept s
  unfolding subscribe unsubscribe Reads
  settings-IsKept _ (started value valid) = (valid, tt)
  settings-IsKept _ (replaced writes new value s s' r valid h) =
      replace-IsKept writes new value s s' valid h
  settings-IsKept _ (updated writes patch value s s' r h) = update-IsKept writes patch value s s' h
  settings-IsKept _ (reset writes section value s s' r h) =
      reset_section-IsKept writes section value s s' h
  settings-IsKept _ (subscribed listener s r) = settings-IsKept s r
  settings-IsKept _ (unsubscribed listener s r) = settings-IsKept s r
