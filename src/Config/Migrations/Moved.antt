-- ===== src/Config/Migrations/Moved.antt =====
-- What the steps of migrations.py leave is of the current schema.

use lluna.Prelude.{
  String, true, false, some, ◌≡◌, refl, subst, inl, inr, ◌∙◌, arith, Bool-cases, Option-cases,
  if◌then◌else◌,
}
use lluna.Prelude.Key.{string_key}
use lluna.Prelude.Dict.{get?, get_or, put, discard, get?-discard}
use lluna.Json.{Record, Json, object, text, Conversions, lookup, lookup_same, fields}
use lluna.Config.Migrations.{
  schema_version, has, is_opencv, moves, section, new_subtitle, new_inpaint, put_section,
  drop_more_complex, move_acceleration, with_acceleration, migrate_sections,
}
use lluna.Config.Migrations.Current.{
  IsCurrent, section_written, section-put, get?-put_other, get?-put_same,
}

has-put_other :
    (k j : String) (v : Json) (d : Record)
    → string_key.test j k ≡ false
    → has j (put k v d) ≡ has j d
unfolding has
has-put_other k j v d h = rw (has, get?-put_other k j v d h) refl

has-put_same : (k : String) (v : Json) (d : Record) → has k (put k v d) ≡ true
unfolding has
has-put_same k v d = rw (has, get?-put_same k v d) refl

has-discard : (k : String) (d : Record) → has k (discard k d) ≡ false
unfolding has
has-discard k d = rw (has, get?-discard k k d) (ground (arith, string_key.test_iff k k))

not_opencv : (s : Record) → is_opencv (lookup "inpaint_mode" (new_inpaint s)) ≡ false
unfolding get_or
not_opencv s = elim (Bool-cases (is_opencv (lookup "inpaint_mode" s))) [
  | inl e ↦ rw (e, lookup_same "inpaint_mode" (text "sttn-auto") s) refl
  | inr e ↦ rw (e, e) refl
]

has-new_inpaint :
    (s : Record) → has "hardware_acceleration" (new_inpaint s) ≡ has "hardware_acceleration" s
has-new_inpaint s = elim (Bool-cases (is_opencv (lookup "inpaint_mode" s))) [
  | inl e ↦ rw e (has-put_other "inpaint_mode" "hardware_acceleration" (text "sttn-auto") s refl)
  | inr e ↦ rw e refl
]

abbrev moved_runtime : Record → Record → Record
moved_runtime r s = if moves r s then with_acceleration r s else r

moves_done : (r s : Record) → moves (moved_runtime r s) (new_inpaint (new_subtitle r s)) ≡ false
moves_done r s = elim (Bool-cases (moves r s)) [
  | inl e ↦ rw (e, has-put_same "hardware_acceleration" (lookup "hardware_acceleration" s) r) refl
  | inr e ↦ rw (e, has-new_inpaint s) e
]

module _ (python : Conversions) where
  section-move_acceleration :
      (r s migrated : Record)
      → section python "runtime" migrated ≡ some r
      → section python "runtime" (move_acceleration r s migrated) ≡ some (moved_runtime r s)
  section-move_acceleration r s migrated h = elim (Bool-cases (moves r s)) [
    | inl e ↦ rw e (
        section_written python "runtime" (with_acceleration r s)
          (put_section "runtime" (with_acceleration r s) migrated)
          (get?-put_same "runtime" (object (fields (with_acceleration r s))) migrated))
    | inr e ↦ rw e h
  ]

  version-move_acceleration :
      (r s migrated : Record)
      → get? "schema_version" migrated ≡ some schema_version
      → get? "schema_version" (move_acceleration r s migrated) ≡ some schema_version
  version-move_acceleration r s migrated h = elim (Bool-cases (moves r s)) [
    | inl e ↦ rw e (
        get?-put_other "runtime" "schema_version" (object (fields (with_acceleration r s))) migrated
          refl
        ∙ h)
    | inr e ↦ rw e h
  ]

  -- The last step keeps everything but the field that it drops.
  drop-IsCurrent :
      (r s o updated : Record)
      → get? "schema_version" updated ≡ some schema_version
      → section python "runtime" updated ≡ some r
      → get? "subtitle" updated ≡ some (object (fields s))
      → section python "object_selection" updated ≡ some o
      → moves r s ≡ false
      → is_opencv (lookup "inpaint_mode" s) ≡ false
      → IsCurrent python (drop_more_complex o updated)
  drop-IsCurrent r s o updated v er es eo m c = elim (Bool-cases (has "more_complex" o)) [
    | inl e ↦
        let kept = discard "more_complex" o in
        let put_kept = object (fields kept) in
        rw e (
          r,
          s,
          kept,
          get?-put_other "object_selection" "schema_version" put_kept updated refl ∙ v,
          section-put python "object_selection" "runtime" put_kept updated refl ∙ er,
          get?-put_other "object_selection" "subtitle" put_kept updated refl ∙ es,
          section_written python "object_selection" kept
              (put_section "object_selection" kept updated)
              (get?-put_same "object_selection" put_kept updated),
          m,
          c,
          has-discard "more_complex" o,
        )
    | inr e ↦ rw e (r, s, o, v, er, es, eo, m, c, e)
  ]

  pub sections-IsCurrent :
      (r s migrated settings : Record)
      → get? "schema_version" migrated ≡ some schema_version
      → section python "runtime" migrated ≡ some r
      → migrate_sections python migrated r s ≡ some settings
      → IsCurrent python settings
  unfolding migrate_sections
  sections-IsCurrent r s migrated settings v er h =
      let s' : Record = new_inpaint (new_subtitle r s) in
      let before : Record = move_acceleration r s migrated in
      let updated : Record = put_section "subtitle" s' before in
      elim (Option-cases (section python "object_selection" updated)) [
        | inl e ↦ ground arith
        | inr (o, e) ↦
            let at : drop_more_complex o updated ≡ settings = ground arith in
            subst (IsCurrent python) at (
              drop-IsCurrent (moved_runtime r s) s' o updated
                (get?-put_other "subtitle" "schema_version" (object (fields s')) before refl
                  ∙ version-move_acceleration r s migrated v)
                (section-put python "subtitle" "runtime" (object (fields s')) before refl
                  ∙ section-move_acceleration r s migrated er)
                (get?-put_same "subtitle" (object (fields s')) before) e (moves_done r s)
                (not_opencv (new_subtitle r s)))
      ]
