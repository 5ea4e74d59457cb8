-- ===== src/Config/Models/RoundTrip.antt =====
-- `from_mapping` of what `to_dict` gives.
use mathlib.Core.Option
use lluna.Prelude.{
  String, some, List, ◌≡◌, refl, subst, inl, inr, arith, Bool-cases, bind_inv, map_inv,
}
use lluna.Prelude.Key.{string_key}
use lluna.Prelude.Sets.{elem}
use lluna.Prelude.Dict.{get?, get_or}
use lluna.Prelude.Distinct.{IsDistinct}
use lluna.Prelude.Int.{int_beq}
use lluna.Json.{Record, object, end, Conversions, to_int, to_str, fields, entries-fields}
use lluna.Config.Migrations.{section}
use lluna.Config.Migrations.Current.{section_written}
use lluna.Config.Layers.{mapping}
use lluna.Config.Models.{FloatOf, Setting, names, construct, all_known, only_known}
use lluna.Config.Models.Schema.{
  runtime_settings, subtitle_settings, enhancement_settings, low_light_settings,
  generation_settings, object_selection_settings, model_platform_settings,
}
use lluna.Config.Models.Built.{construct_again, only_known_all}
use lluna.Config.Models.Application.{
  ApplicationConfiguration, to_mapping, read_section, read_subtitle, read_models, has_version,
  read_sections, from_mapping,
}

pub runtime-IsDistinct : IsDistinct (names runtime_settings)
unfolding elem
runtime-IsDistinct = (refl, (refl, (refl, (refl, (refl, (refl, (refl, (refl, tt))))))))

pub subtitle-IsDistinct : IsDistinct (names subtitle_settings)
unfolding elem
subtitle-IsDistinct = (
  refl,
  (
    refl,
    (
      refl,
      (refl, (refl, (refl, (refl, (refl, (refl, (refl, (refl, (refl, (refl, (refl, tt))))))))))),
    ),
  ),
)

pub enhancement-IsDistinct : IsDistinct (names enhancement_settings)
unfolding elem
enhancement-IsDistinct = (refl, (refl, (refl, (refl, (refl, tt)))))

pub low_light-IsDistinct : IsDistinct (names low_light_settings)
unfolding elem
low_light-IsDistinct = (refl, (refl, (refl, tt)))

pub generation-IsDistinct : IsDistinct (names generation_settings)
unfolding elem
generation-IsDistinct = (refl, (refl, (refl, (refl, (refl, tt)))))

pub object_selection-IsDistinct : IsDistinct (names object_selection_settings)
unfolding elem
object_selection-IsDistinct = (refl, (refl, tt))

pub model_platform-IsDistinct : IsDistinct (names model_platform_settings)
unfolding elem
model_platform-IsDistinct = (refl, tt)

module _ (python : Conversions) (float_of : FloatOf) where
  -- The fields of a section are accepted, as they are, by its constructor.
  abbrev pub IsBuilt : List Setting → Record → Type 0
  IsBuilt settings r = construct float_of settings r ≡ some r

  known_of_IsBuilt :
      (settings : List Setting) (r : Record)
      → IsBuilt settings r
      → only_known (names settings) r ≡ r
  unfolding construct
  known_of_IsBuilt settings r h = elim (Bool-cases (all_known (names settings) r)) [
    | inl e ↦ only_known_all (names settings) r e
    | inr e ↦ ground arith
  ]

  read_section-IsBuilt :
      (settings : List Setting) (name : String) (values r : Record)
      → IsDistinct (names settings)
      → read_section python float_of settings name values ≡ some r
      → IsBuilt settings r
  unfolding read_section
  read_section-IsBuilt settings name values r d h =
      let (given, _, g) = bind_inv (section python name values) (construct float_of settings) r h in
      construct_again float_of settings given r d g

  read_subtitle-IsBuilt :
      (values r : Record)
      → read_subtitle python float_of values ≡ some r
      → IsBuilt subtitle_settings r
  unfolding read_subtitle
  read_subtitle-IsBuilt values r h =
      let (given, _, g) = bind_inv (mapping (some (get_or (object end) "subtitle" values))) _ r h in
      construct_again float_of subtitle_settings (only_known (names subtitle_settings) given) r
        subtitle-IsDistinct g

  read_models-IsBuilt :
      (values r : Record)
      → read_models python float_of values ≡ some r
      → IsBuilt model_platform_settings r
  unfolding read_models
  read_models-IsBuilt values r h =
      let (given, _, g) = bind_inv (section python "models" values) _ r h in
      construct_again float_of model_platform_settings
        (only_known (names model_platform_settings) given) r model_platform-IsDistinct g

  -- Every section of the configuration is accepted as it is.
  abbrev pub IsValid : ApplicationConfiguration → Type 0
  IsValid c =
      IsBuilt runtime_settings c.runtime
      × IsBuilt subtitle_settings c.subtitle
      × IsBuilt enhancement_settings c.enhancement
      × IsBuilt low_light_settings c.low_light
      × IsBuilt generation_settings c.generation
      × IsBuilt object_selection_settings c.object_selection
      × IsBuilt model_platform_settings c.models

  sections-IsValid :
      (values : Record) (c : ApplicationConfiguration)
      → read_sections python float_of values ≡ some c
      → IsValid c
  unfolding read_sections
  sections-IsValid values c h =
      let (r, er, h1) =
        bind_inv (read_section python float_of runtime_settings "runtime" values) _ c h in
      let (s, es, h2) = bind_inv (read_subtitle python float_of values) _ c h1 in
      let (e, ee, h3) =
        bind_inv (read_section python float_of enhancement_settings "enhancement" values) _ c h2 in
      let (l, el, h4) =
        bind_inv (read_section python float_of low_light_settings "low_light" values) _ c h3 in
      let (g, eg, h5) =
        bind_inv (read_section python float_of generation_settings "generation" values) _ c h4 in
      let (o, eo, h6) =
        bind_inv (read_section python float_of object_selection_settings "object_selection" values)
          _ c h5 in
      let (m, em, at) = map_inv (read_models python float_of values) _ c h6 in
      subst IsValid at (
        read_section-IsBuilt runtime_settings "runtime" values r runtime-IsDistinct er,
        read_subtitle-IsBuilt values s es,
        read_section-IsBuilt enhancement_settings "enhancement" values e enhancement-IsDistinct ee,
        read_section-IsBuilt low_light_settings "low_light" values l low_light-IsDistinct el,
        read_section-IsBuilt generation_settings "generation" values g generation-IsDistinct eg,
        read_section-IsBuilt object_selection_settings "object_selection" values o
            object_selection-IsDistinct eo,
        read_models-IsBuilt values m em,
      )

  pub from_mapping-IsValid :
      (values : Record) (c : ApplicationConfiguration)
      → from_mapping python float_of values ≡ some c
      → IsValid c
  unfolding from_mapping
  from_mapping-IsValid values c h = elim (Bool-cases (has_version python float_of values)) [
    | inr e ↦ ground arith
    | inl e ↦ sections-IsValid values c (ground arith)
  ]

  read_section-built :
      (settings : List Setting) (name : String) (values r : Record)
      → get? name values ≡ some (object (fields r))
      → IsBuilt settings r
      → read_section python float_of settings name values ≡ some r
  unfolding read_section Option.bind
  read_section-built settings name values r h built =
      rw (section_written python name r values h) built

  read_subtitle-built :
      (values r : Record)
      → get? "subtitle" values ≡ some (object (fields r))
      → IsBuilt subtitle_settings r
      → read_subtitle python float_of values ≡ some r
  unfolding read_subtitle Option.bind mapping get_or
  read_subtitle-built values r h built =
      rw (get_or, h, entries-fields r, known_of_IsBuilt subtitle_settings r built) built

  read_models-built :
      (values r : Record)
      → get? "models" values ≡ some (object (fields r))
      → IsBuilt model_platform_settings r
      → read_models python float_of values ≡ some r
  unfolding read_models Option.bind
  read_models-built values r h built =
      rw
        (
          section_written python "models" r values h,
          known_of_IsBuilt model_platform_settings r built,
        )
        built

  pub from_mapping-to_mapping :
      (c : ApplicationConfiguration)
      → IsValid c
      → from_mapping python float_of (to_mapping c) ≡ some c
  unfolding from_mapping to_mapping get? get_or to_int has_version to_str read_sections Option.bind
      int_beq
  from_mapping-to_mapping c (r, s, e, l, g, o, m) =
      let d = to_mapping c in
      rw
        (
          read_section-built runtime_settings "runtime" d c.runtime refl r,
          read_subtitle-built d c.subtitle refl s,
          read_section-built enhancement_settings "enhancement" d c.enhancement refl e,
          read_section-built low_light_settings "low_light" d c.low_light refl l,
          read_section-built generation_settings "generation" d c.generation refl g,
          read_section-built object_selection_settings "object_selection" d c.object_selection refl
              o,
          read_models-built d c.models refl m,
        )
        refl

  -- `from_mapping` takes back what `to_dict` gives of a configuration that it has made: all
  -- sections and their fields are those that were there.
  pub from_mapping_round_trip :
      (values : Record) (c : ApplicationConfiguration)
      → from_mapping python float_of values ≡ some c
      → from_mapping python float_of (to_mapping c) ≡ some c
  from_mapping_round_trip values c h = from_mapping-to_mapping c (from_mapping-IsValid values c h)
