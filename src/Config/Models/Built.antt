-- ===== src/Config/Models/Built.antt =====
-- The constructor of a section, applied to the fields of an instance.

use lluna.Prelude.{
  String, true, false, some, List, [], ◌∷◌, ◌≡◌, refl, subst, inl, inr, arith, Bool-cases,
  Option-cases,
}
use lluna.Prelude.Key.{string_key}
use lluna.Prelude.Sets.{elem}
use lluna.Prelude.Dict.{get?, get_or}
use lluna.Prelude.Distinct.{IsDistinct}
use lluna.Json.{Record, Json}
use lluna.Config.Models.{
  Setting, FloatOf, names, passes, init_fields, all_known, construct, only_known,
}

get_or_tail :
    (u : Json) (j k : String) (v : Json) (d : Record)
    → string_key.test j k ≡ false
    → get_or u j ((k, v) ∷ d) ≡ get_or u j d
unfolding get_or get?
get_or_tail u j k v d h = ground arith

get_or_head : (u : Json) (k : String) (v : Json) (d : Record) → get_or u k ((k, v) ∷ d) ≡ v
unfolding get_or get?
get_or_head u k v d = ground (arith, string_key.test_iff k k)

module _ (float_of : FloatOf) where
  -- A field was accepted: its value passes, and the others were accepted.
  pub init_fields_inv :
      (s : Setting) (settings : List Setting) (values r : Record)
      → init_fields float_of (s ∷ settings) values ≡ some r
      → (rest : Record) × (passes float_of s.check (get_or s.default s.name values) ≡ true)
        × (init_fields float_of settings values ≡ some rest)
        × ((s.name, get_or s.default s.name values) ∷ rest ≡ r)
  unfolding init_fields
  init_fields_inv s settings values r h =
      elim (Bool-cases (passes float_of s.check (get_or s.default s.name values))) [
        | inr e ↦ ground arith
        | inl e ↦ elim (Option-cases (init_fields float_of settings values)) [
          | inl g ↦ ground arith
          | inr (rest, g) ↦ (rest, e, g, ground arith)
        ]
      ]

  -- The fields of other names do not matter.
  pub init_fields-other :
      (settings : List Setting) (key : String) (value : Json) (values : Record)
      → elem key (names settings) ≡ false
      → init_fields float_of settings ((key, value) ∷ values) ≡ init_fields float_of settings values
  unfolding init_fields elem get? get_or
  init_fields-other [] key value values h = refl
  init_fields-other (s ∷ settings) key value values h =
      let ih = init_fields-other settings key value values (ground arith) in
      let different : string_key.test s.name key ≡ false =
        ground (arith, string_key.test_iff s.name key, string_key.test_iff key s.name) in
      rw (ih, get_or_tail s.default s.name key value values different) refl

  init_fields_again :
      (settings : List Setting) (values r : Record)
      → IsDistinct (names settings)
      → init_fields float_of settings values ≡ some r
      → init_fields float_of settings r ≡ some r
  unfolding init_fields get? get_or
  init_fields_again [] values r d h = ground arith
  init_fields_again (s ∷ settings) values r d h =
      let (rest, ok, g, at) = init_fields_inv s settings values r h in
      let ih = init_fields_again settings values rest d.1 g in
      let value = get_or s.default s.name values in
      let other = init_fields-other settings s.name value rest d.0 in
      subst (λ made. init_fields float_of (s ∷ settings) made ≡ some made) at
        (rw (get_or_head s.default s.name value rest, other, ih, ok) refl)

  all_known-init_fields :
      (settings : List Setting) (known : List String) (values r : Record)
      → ((n : String) → elem n (names settings) ≡ true → elem n known ≡ true)
      → init_fields float_of settings values ≡ some r
      → all_known known r ≡ true
  unfolding all_known init_fields elem
  all_known-init_fields [] known values r k h = ground arith
  all_known-init_fields (s ∷ settings) known values r k h =
      let (rest, ok, g, at) = init_fields_inv s settings values r h in
      let ih = all_known-init_fields settings known values rest (λ n m. k n (ground arith)) g in
      let here = k s.name (ground (arith, string_key.test_iff s.name s.name)) in
      subst (λ made. all_known known made ≡ true) at (rw (here, ih) refl)

  pub construct_again :
      (settings : List Setting) (values r : Record)
      → IsDistinct (names settings)
      → construct float_of settings values ≡ some r
      → construct float_of settings r ≡ some r
  unfolding construct
  construct_again settings values r d h = elim (Bool-cases (all_known (names settings) values)) [
    | inr e ↦ ground arith
    | inl e ↦
        let g : init_fields float_of settings values ≡ some r = ground arith in
        rw (all_known-init_fields settings (names settings) values r (λ n m. m) g)
          (init_fields_again settings values r d g)
  ]

pub only_known_all :
    (known : List String) (values : Record)
    → all_known known values ≡ true
    → only_known known values ≡ values
unfolding all_known only_known
only_known_all known [] h = refl
only_known_all known ((key, value) ∷ values) h = ground (arith, only_known_all known values)
