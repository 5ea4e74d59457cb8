-- ===== src/Config/Layers/Paths.antt =====
-- What merged settings hold at each path.
use lluna.Prelude.{
  String, Option, none, some, List, [], ◌∷◌, ◌≡◌, refl, sym, ap, subst, inl, inr, ◌∙◌, arith,
  Bool-cases, Option-cases,
}
use lluna.Prelude.Key.{string_key}
use lluna.Prelude.Dict.{get?, put, get?-put}
use lluna.Json.{
  Json, Fields, Record, null, truth, whole, decimal, array, text, object, field, end, entries,
  fields, entries-fields,
}
use lluna.Config.Layers.{mapping, merge, merge_value}

unfoldable mutual
  -- Every mapping inside has each of its keys once, as a `dict` does.
  pub IsDistinct : Fields → Type 0
  IsDistinct end = Unit
  IsDistinct (field key value rest) =
      (get? key (entries rest) ≡ none) × IsDistinctValue value × IsDistinct rest

  pub IsDistinctValue : Json → Type 0
  IsDistinctValue (object fs) = IsDistinct fs
  IsDistinctValue value = Unit

-- The value, other than a mapping, at the end of a path.
unfoldable pub leaf_at : List String → Option Json → Option Json
leaf_at path none = none
leaf_at [] (some (object fs)) = none
leaf_at [] (some value) = some value
leaf_at (key ∷ path) (some (object fs)) = leaf_at path (get? key (entries fs))
leaf_at (key ∷ path) (some value) = none

-- The value at the end of a path that passes through mappings of both layers: the new layer counts
-- as soon as the old one has no mapping there, the old one as soon as the new one has nothing.
unfoldable pub layered : List String → Option Json → Option Json → Option Json
unfolding leaf_at mapping
layered path none old = leaf_at path old
layered [] (some value) old = leaf_at [] (some value)
layered (key ∷ path) (some (object gs)) old = elim (mapping old) [
  | none ↦ leaf_at path (get? key (entries gs))
  | some base ↦ layered path (get? key (entries gs)) (get? key base)
]
layered (key ∷ path) (some value) old = none

-- What `merge` leaves under a key.
unfoldable pub combined : Option Json → Option Json → Option Json
unfolding merge
combined old none = old
combined old (some value) = some (merge_value value old)

get?-merge :
    (overlay : Fields) (base : Record) (key : String)
    → IsDistinct overlay
    → get? key (merge base overlay) ≡ combined (get? key base) (get? key (entries overlay))
unfolding IsDistinct combined merge get? entries
get?-merge end base key d = refl
get?-merge (field k value rest) base key (fresh, _, distinct) =
    let new = merge_value value (get? k base) in
    let ih = get?-merge rest (put k new base) key distinct in
    elim (Bool-cases (string_key.test key k)) [
      | inl e ↦
          let same : key ≡ k = ground (arith, string_key.test_iff key k) in
          let absent : get? key (entries rest) ≡ none =
            subst (λ j. get? j (entries rest) ≡ none) (sym same) fresh in
          let old : get? k base ≡ get? key base = ap (λ j. get? j base) (sym same) in
          rw (ih, get?-put k key new base, e, absent, old) refl
      | inr e ↦ rw (ih, get?-put k key new base, e) refl
    ]

distinct_at :
    (key : String) (fs : Fields) (value : Json)
    → IsDistinct fs
    → get? key (entries fs) ≡ some value
    → IsDistinctValue value
unfolding IsDistinct get? entries
distinct_at key end value d h = ground arith
distinct_at key (field k v rest) value (fresh, inside, distinct) h =
    elim (Bool-cases (string_key.test key k)) [
      | inl e ↦ let same : v ≡ value = ground arith in subst IsDistinctValue same inside
      | inr e ↦ distinct_at key rest value distinct (ground arith)
    ]

leaf_at-merge_value :
    (value : Json) (old : Option Json)
    → leaf_at [] (some (merge_value value old)) ≡ leaf_at [] (some value)
unfolding leaf_at merge
leaf_at-merge_value null old = refl
leaf_at-merge_value (truth b) old = refl
leaf_at-merge_value (whole i) old = refl
leaf_at-merge_value (decimal m k) old = refl
leaf_at-merge_value (text s) old = refl
leaf_at-merge_value (array xs) old = refl
leaf_at-merge_value (object gs) old = elim (Option-cases (mapping old)) [
  | inl e ↦ rw (leaf_at, e) refl
  | inr (base, e) ↦ rw (leaf_at, e) refl
]

leaf_at-combined :
    (path : List String) (new old : Option Json)
    → ((value : Json) → new ≡ some value → IsDistinctValue value)
    → leaf_at path (combined old new) ≡ layered path new old
unfolding combined leaf_at layered IsDistinct merge
leaf_at-combined path none old d = refl
leaf_at-combined [] (some value) old d = leaf_at-merge_value value old
leaf_at-combined (key ∷ path) (some null) old d = refl
leaf_at-combined (key ∷ path) (some (truth b)) old d = refl
leaf_at-combined (key ∷ path) (some (whole i)) old d = refl
leaf_at-combined (key ∷ path) (some (decimal m k)) old d = refl
leaf_at-combined (key ∷ path) (some (text s)) old d = refl
leaf_at-combined (key ∷ path) (some (array xs)) old d = refl
leaf_at-combined (key ∷ path) (some (object gs)) old d = elim (Option-cases (mapping old)) [
  | inl e ↦ rw (leaf_at, layered, e) refl
  | inr (base, e) ↦
      let distinct : IsDistinct gs = d (object gs) refl in
      let under : get? key (entries (fields (merge base gs)))
          ≡ combined (get? key base) (get? key (entries gs)) =
        ap (get? key) (entries-fields (merge base gs)) ∙ get?-merge gs base key distinct in
      rw (leaf_at, layered, e)
        (ap (leaf_at path) under
          ∙ leaf_at-combined path (get? key (entries gs)) (get? key base)
              (λ value h. distinct_at key gs value distinct h))
]

-- Settings merged with a layer whose mappings have each key once hold at each path the value that
-- the two layers decide: the one of the new layer where it has one or has replaced a mapping, else
-- the one that was there.
pub merge-layered :
    (path : List String) (base : Record) (overlay : Fields)
    → IsDistinct overlay
    → leaf_at path (some (object (fields (merge base overlay))))
      ≡ layered path (some (object overlay)) (some (object (fields base)))
unfolding combined merge IsDistinct
merge-layered path base overlay distinct =
    subst
      (λ b.
        leaf_at path (some (object (fields (merge b overlay))))
        ≡ layered path (some (object overlay)) (some (object (fields base))))
      (entries-fields base)
      (leaf_at-combined path (some (object overlay)) (some (object (fields base))) (λ value h.
        let same : object overlay ≡ value = ground arith in subst IsDistinctValue same distinct))
