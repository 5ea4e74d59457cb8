-- ===== src/Config/Loader/Saved.antt =====
-- The loader, given a file that the settings service has written.

use lluna.Prelude.{
  String, true, false, Option, none, some, List, [], ◌∷◌, ◌++◌, ◌≡◌, refl, sym, ap, subst, inl, inr,
  ◌∙◌, arith, Bool-cases, append_assoc,
}
use lluna.Prelude.Key.{string_key}
use lluna.Prelude.Sets.{elem}
use lluna.Prelude.Dict.{get?, get_or, put}
use lluna.Prelude.Distinct.{IsDistinct}
use lluna.Json.{Json, Record, null, truth, whole, decimal, text, array, object, fields}
use lluna.Config.Layers.{mapping, merge, merge_value}
use lluna.Config.Models.{FloatOf, Setting, names, init_fields, construct}
use lluna.Config.Models.Built.{init_fields_inv}
use lluna.Config.Service.{defaults}

-- A value written over one that is no mapping.
merge_value_leaf :
    (value : Json) (old : Option Json) → mapping old ≡ none → merge_value value old ≡ value
unfolding merge
merge_value_leaf null old h = refl
merge_value_leaf (truth b) old h = refl
merge_value_leaf (whole i) old h = refl
merge_value_leaf (decimal m k) old h = refl
merge_value_leaf (text s) old h = refl
merge_value_leaf (array xs) old h = refl
merge_value_leaf (object gs) old h =
    ap (λ m. elim m [ none ↦ object gs | some base ↦ object (fields (merge base gs)) ]) h

keys : Record → List String
keys [] = []
keys ((k, v) ∷ d) = k ∷ keys d

get?-behind :
    (done d : Record) (key : String) (v : Json)
    → elem key (keys done) ≡ false
    → get? key (done ++ (key, v) ∷ d) ≡ some v
unfolding get? elem keys
get?-behind [] d key v h = ground (arith, string_key.test_iff key key)
get?-behind ((k, w) ∷ done) d key v h = ground (arith, get?-behind done d key v)

put-behind :
    (done d : Record) (key : String) (v w : Json)
    → elem key (keys done) ≡ false
    → put key w (done ++ (key, v) ∷ d) ≡ done ++ (key, w) ∷ d
unfolding put elem keys
put-behind [] d key v w h = ground (arith, string_key.test_iff key key)
put-behind ((k, u) ∷ done) d key v w h = ground (arith, put-behind done d key v w)

elem-keys-snoc :
    (done : Record) (key k : String) (v : Json)
    → string_key.test key k ≡ false
    → elem key (keys (done ++ (k, v) ∷ [])) ≡ elem key (keys done)
unfolding elem keys
elem-keys-snoc [] key k v h = ground arith
elem-keys-snoc ((j, u) ∷ done) key k v h = ground (arith, elem-keys-snoc done key k v h)

-- No default value is a mapping.
unfoldable pub AreLeaves : List Setting → Type 0
AreLeaves [] = Unit
AreLeaves (s ∷ settings) = (mapping (some s.default) ≡ none) × AreLeaves settings

pub different :
    (n k : String) (ks : List String)
    → elem k ks ≡ false
    → elem n ks ≡ true
    → string_key.test n k ≡ false
different n k ks h g = elim (Bool-cases (string_key.test n k)) [
  | inr e ↦ e
  | inl e ↦
      let same : n ≡ k = ground (arith, string_key.test_iff n k) in
      let there : elem k ks ≡ true = subst (λ m. elem m ks ≡ true) same g in ground arith
]

module _ (float_of : FloatOf) where
  merge-after :
      (settings : List Setting) (done values r : Record)
      → AreLeaves settings
      → IsDistinct (names settings)
      → ((n : String) → elem n (names settings) ≡ true → elem n (keys done) ≡ false)
      → init_fields float_of settings values ≡ some r
      → merge (done ++ defaults settings) (fields r) ≡ done ++ r
  unfolding merge fields AreLeaves init_fields elem
  merge-after [] done values r leaves d apart h =
      let none_left : [] ≡ r = ground arith in
      subst (λ x. merge (done ++ []) (fields x) ≡ done ++ x) none_left refl
  merge-after (s ∷ settings) done values r leaves d apart h =
      let (rest, ok, g, at) = init_fields_inv float_of s settings values r h in
      let v = get_or s.default s.name values in
      let new = apart s.name (ground (arith, string_key.test_iff s.name s.name)) in
      let done' : Record = done ++ (s.name, v) ∷ [] in
      let written : put s.name
            (merge_value v (get? s.name (done ++ (s.name, s.default) ∷ defaults settings)))
            (done ++ (s.name, s.default) ∷ defaults settings)
          ≡ done ++ (s.name, v) ∷ defaults settings =
        rw
          (
            get?-behind done (defaults settings) s.name s.default new,
            merge_value_leaf v (some s.default) leaves.0,
          )
          (put-behind done (defaults settings) s.name s.default v new) in
      let ih =
        merge-after settings done' values rest leaves.1 d.1
          (λ n m.
            elem-keys-snoc done n s.name v (different n s.name (names settings) d.0 m)
            ∙ apart n (ground arith))
          g in
      subst (λ x. merge (done ++ defaults (s ∷ settings)) (fields x) ≡ done ++ x) at
        (ap (λ b. merge b (fields rest))
            (written ∙ sym (append_assoc done ((s.name, v) ∷ []) (defaults settings)))
          ∙ ih
          ∙ append_assoc done ((s.name, v) ∷ []) rest)

  pub init_fields_of_construct :
      (settings : List Setting) (values r : Record)
      → construct float_of settings values ≡ some r
      → init_fields float_of settings values ≡ some r
  unfolding construct
  init_fields_of_construct settings values r h = ground arith

  -- A section that its constructor takes as it is, written over the default values, is that section.
  pub merge-defaults :
      (settings : List Setting) (r : Record)
      → AreLeaves settings
      → IsDistinct (names settings)
      → construct float_of settings r ≡ some r
      → merge (defaults settings) (fields r) ≡ r
  unfolding elem keys
  merge-defaults settings r leaves d h =
      merge-after settings [] r r leaves d (λ n m. refl) (init_fields_of_construct settings r r h)
