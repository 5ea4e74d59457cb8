-- ===== src/Settings/EnabledModes/Values.antt =====
-- What is enabled is read back as it was written, in backend/tools/shared/enabled_modes.py.
use lluna.Prelude.{
  String, ◌≡◌, refl, sym, subst, ap, ◌∙◌, Bool, true, false, not, ◌&&◌, ◌||◌, some, List, [], ◌∷◌,
  ◌++◌, map, select, reject, if◌then◌else◌, Bool-cases, inl, inr, arith,
}
use lluna.Prelude.Key.{string_key, ◌==◌}
use lluna.Prelude.Sets.{
  elem, add, update, elem-append, elem-add, elem-update, elem-select, elem_head,
}
use lluna.Prelude.Text.{
  is_comma, is_space, lstrip, rstrip, strip, split, join, is_plain, all_plain, split-join,
  strip-join, strip_plain,
}
use lluna.Settings.EnabledModes.{
  none_enabled, EnabledModesCatalog, Section, parts_of, parse_text, parse_enabled_values,
  order_values, join_values, serialize_enabled_values, get_enabled_values, set_model_enabled,
}

elem-order_values :
    (catalog : EnabledModesCatalog) (values ordered modes : List String) (v : String)
    → elem v (order_values catalog values ordered modes)
      ≡ (elem v ordered || (elem v modes && elem v values))
unfolding order_values elem
elem-order_values catalog values ordered [] v = ground arith
elem-order_values catalog values ordered (m ∷ modes) v = ground (
  arith,
  elem-order_values catalog values
      (if elem m values && not (elem m ordered) then ordered ++ m ∷ [] else ordered) modes v,
  elem-append v ordered (m ∷ []),
  string_key.test_iff v m,
)

-- Texts without spaces and commas that are not empty.
abbrev pub is_word : String → Bool
is_word v = is_plain v && not (v == "")

abbrev pub all_words : List String → Bool
all_words [] = true
all_words (v ∷ vs) = is_word v && all_words vs

all_words-elem :
    (v : String) (vs : List String) → all_words vs ≡ true → elem v vs ≡ true → is_word v ≡ true
unfolding elem
all_words-elem v [] h m = absurd (ground (arith, m))
all_words-elem v (w ∷ vs) h m = elim (Bool-cases (v == w)) [
  | inl same ↦
      subst (λ x. is_word x ≡ true) (sym ((string_key.test_iff v w).0 same)) (ground (arith, h))
  | inr other ↦ all_words-elem v vs (ground (arith, h)) (ground (arith, m, other))
]

all_words_of :
    (vs : List String) → ((v : String) → elem v vs ≡ true → is_word v ≡ true) → all_words vs ≡ true
unfolding elem
all_words_of [] h = refl
all_words_of (v ∷ vs) h =
    ground (arith, h v (elem_head v vs), all_words_of vs (λ w m. h w (ground (arith, m))))

all_plain_of : (vs : List String) → all_words vs ≡ true → all_plain vs ≡ true
all_plain_of [] h = refl
all_plain_of (v ∷ vs) h = ground (arith, h, all_plain_of vs)

map-strip : (vs : List String) → all_words vs ≡ true → map (λ v. strip v) vs ≡ vs
map-strip [] h = refl
map-strip (v ∷ vs) h = ground (arith, h, strip_plain v, map-strip vs)

select-words : (vs : List String) → all_words vs ≡ true → select (λ v. not (v == "")) vs ≡ vs
select-words [] h = refl
select-words (v ∷ vs) h = ground (arith, h, select-words vs)

-- Words that were joined come back.
parts_of-join :
    (v : String) (vs : List String)
    → all_words (v ∷ vs) ≡ true
    → parts_of (join (v ∷ vs)) ≡ update [] (v ∷ vs)
unfolding parts_of
parts_of-join v vs h =
    ap (λ ps. update [] (select (λ p. not (p == "")) (map (λ p. strip p) ps)))
      (split-join v vs (all_plain_of (v ∷ vs) h))
    ∙ ap (λ ps. update [] (select (λ p. not (p == "")) ps)) (map-strip (v ∷ vs) h)
    ∙ ap (update []) (select-words (v ∷ vs) h)

-- The catalog lists values of its enum, which are words, and none of them is the sentinel.
pub record IsCatalog (catalog : EnabledModesCatalog) : Type 0 where
  pub words : all_words catalog.catalog_modes ≡ true
  pub known : (v : String) → elem v catalog.catalog_modes ≡ true → elem v catalog.mode_cls ≡ true
  pub no_sentinel : elem none_enabled catalog.catalog_modes ≡ false

abbrev first_of : List String → String
first_of [] = ""
first_of (x ∷ xs) = x

-- A joined list of words is not empty, and not the sentinel unless the sentinel is the list.
join_apart :
    (v : String) (vs : List String)
    → all_words (v ∷ vs) ≡ true
    → elem none_enabled (v ∷ vs) ≡ false
    → (join (v ∷ vs) == "" ≡ false) × (join (v ∷ vs) == none_enabled ≡ false)
unfolding elem split is_comma
join_apart v vs h out = (
  apart "" λ e. ground (arith, h, string_key.test_iff v "", ap first_of e),
  apart none_enabled λ e. ground (arith, out, string_key.test_iff none_enabled v, ap first_of e),
)
  where
    apart : (t : String) → (split t ≡ v ∷ vs → ⊥) → join (v ∷ vs) == t ≡ false
    apart t differs = elim (Bool-cases (join (v ∷ vs) == t)) [
      | inl same ↦ absurd (
          differs (
            ap split (sym ((string_key.test_iff (join (v ∷ vs)) t).0 same))
            ∙ split-join v vs (all_plain_of (v ∷ vs) h)))
      | inr other ↦ other
    ]

module _ (catalog : EnabledModesCatalog) (c : IsCatalog catalog) where
  parse_text-sentinel : parse_text catalog (strip none_enabled) ≡ []
  unfolding parse_text rstrip lstrip is_space
  parse_text-sentinel = refl

  -- A list from the catalog does not hold the sentinel.
  out :
      (vs : List String)
      → ((v : String) → elem v vs ≡ true → elem v catalog.catalog_modes ≡ true)
      → elem none_enabled vs ≡ false
  out vs inside = elim (Bool-cases (elem none_enabled vs)) [
    | inl there ↦ absurd (ground (arith, inside none_enabled there, c.no_sentinel))
    | inr gone ↦ gone
  ]

  parse_text-join :
      (v : String) (vs : List String)
      → all_words (v ∷ vs) ≡ true
      → join (v ∷ vs) == "" ≡ false
      → join (v ∷ vs) == none_enabled ≡ false
      → parse_text catalog (strip (join (v ∷ vs)))
        ≡ select (λ x. elem x catalog.mode_cls) (update [] (v ∷ vs))
  unfolding parse_text
  parse_text-join v vs h full real =
      ap (parse_text catalog) (strip-join (v ∷ vs) (all_plain_of (v ∷ vs) h))
      ∙ rw (full, real) (ap (select (λ x. elem x catalog.mode_cls)) (parts_of-join v vs h))

  pub parse-join_values :
      (vs : List String)
      → ((v : String) → elem v vs ≡ true → elem v catalog.catalog_modes ≡ true)
      → (v : String)
      → elem v (parse_enabled_values catalog (some (join_values catalog vs))) ≡ elem v vs
  unfolding parse_enabled_values elem
  parse-join_values [] inside v = rw (parse_text-sentinel) refl
  parse-join_values (w ∷ vs) inside v =
      let words =
        all_words_of (w ∷ vs)
          (λ x m. all_words-elem x catalog.catalog_modes c.words (inside x m)) in
      let apart = join_apart w vs words (out (w ∷ vs) inside) in
      let known = λ (x : String) (m : elem x (w ∷ vs) ≡ true). c.known x (inside x m) in
      ground (
        arith,
        elem-select v (λ x. elem x catalog.mode_cls) (update [] (w ∷ vs)),
        elem-update v [] (w ∷ vs),
        known v,
        ap (elem v) (parse_text-join w vs words apart.0 apart.1),
      )

  ordered_inside :
      (values : List String) (v : String)
      → elem v (order_values catalog values [] catalog.catalog_modes) ≡ true
      → elem v catalog.catalog_modes ≡ true
  unfolding elem
  ordered_inside values v m =
      ground (arith, elem-order_values catalog values [] catalog.catalog_modes v, m)

  -- For a catalog whose values are words, belong to its enum and are not the sentinel, what is
  -- serialised is parsed again: the values that the catalog lists, and no others.
  pub parse-serialize :
      (values : List String) (v : String)
      → elem v (parse_enabled_values catalog (some (serialize_enabled_values catalog values)))
        ≡ (elem v catalog.catalog_modes && elem v values)
  unfolding serialize_enabled_values elem
  parse-serialize values v =
      parse-join_values (order_values catalog values [] catalog.catalog_modes)
        (ordered_inside values) v
      ∙ elem-order_values catalog values [] catalog.catalog_modes v

  -- For such a catalog, switching one model On or Off changes it alone, among those that the
  -- catalog lists.
  pub set_model_enabled_lem :
      (mode : String) (enabled : Bool) (section : Section) (v : String)
      → elem v (get_enabled_values catalog (set_model_enabled catalog mode enabled section)) ≡ (
          elem v catalog.catalog_modes
          && (if v == mode then enabled else elem v (get_enabled_values catalog section)))
  unfolding set_model_enabled
  set_model_enabled_lem mode true section v =
      parse-serialize (add mode (get_enabled_values catalog section)) v
      ∙ ground (arith, elem-add v mode (get_enabled_values catalog section))
  set_model_enabled_lem mode false section v =
      parse-serialize (reject (λ w. w == mode) (get_enabled_values catalog section)) v
      ∙ ground (arith, elem-select v (λ w. not (w == mode)) (get_enabled_values catalog section))
