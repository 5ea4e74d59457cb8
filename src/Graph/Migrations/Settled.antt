-- ===== src/Graph/Migrations/Settled.antt =====
-- A migrated workflow is at the versions of this build.
use lluna.Prelude.{
  ℕ, zero, suc, String, false, List, [], ◌∷◌, none, some, inl, inr, ◌≡◌, refl, arith, Option-cases,
  ◌∙◌, ◌≤◌, ap,
}
use lluna.Prelude.Key.{string_key}
use lluna.Prelude.Int.{ℤ, int_beq_iff}
use lluna.Json.{Record, Json, object, Conversions, entries, fields, Fields, entries-fields}
use lluna.Graph.Schema.{Registry}
use lluna.Graph.Migrations.{
  Migrations, and_then, Applied, migrate_node, migrate_item, migrate_items, id_of, version_of,
  any_needs_migration, item_needs_migration, target_of, version_key,
}
use lluna.Graph.Migrations.Climbing.{Result-cases}
use lluna.Graph.Migrations.Versions.{KeepsId, migrate_node-version, migrate_node_again}

module _ (python : Conversions) (migrations : Migrations) (registry : Registry) where
  -- Schema versions start at 1.
  abbrev pub AreVersioned : Type 0
  AreVersioned =
      (schema_id : String) (target : ℕ) → target_of registry schema_id ≡ some target → 1 ≤ target

  abbrev pub IsSettled : Record → Type 0
  IsSettled node =
      (migrate_item python migrations registry (object (fields node)) ≡ inr (node, []))
      × (item_needs_migration python registry (object (fields node)) ≡ some false)

  entries-IsSettled :
      (fs : Fields)
      → migrate_item python migrations registry (object fs) ≡ inr (entries fs, [])
      → item_needs_migration python registry (object fs) ≡ some false
      → (node : Record) → fs ≡ fields node
      → IsSettled node
  entries-IsSettled fs h g node e =
      (rw (← e) (h ∙ ap (λ n. inr (n, [])) (ap entries e ∙ entries-fields node)), rw (← e) g)

  unknown-IsSettled :
      (node : Record) → target_of registry (id_of python node) ≡ none → IsSettled node
  unfolding migrate_item item_needs_migration
  unknown-IsSettled node h =
      let g : target_of registry (id_of python (entries (fields node))) ≡ none =
        rw (entries-fields node) h in
      entries-IsSettled (fields node) (rw (migrate_item, g) refl)
        (rw (item_needs_migration, g) refl) node refl

  known-IsSettled :
      (node : Record) (target : ℕ)
      → target_of registry (id_of python node) ≡ some target
      → version_of python node ≡ some (ℤ.pos target)
      → IsSettled node
  unfolding migrate_item item_needs_migration
  known-IsSettled node target h v =
      let n = entries (fields node) in
      let g : target_of registry (id_of python n) ≡ some target = rw (entries-fields node) h in
      let w : version_of python n ≡ some (ℤ.pos target) = rw (entries-fields node) v in
      entries-IsSettled (fields node)
        (rw (migrate_item, g) (migrate_node_again python migrations n target w))
        (rw (item_needs_migration, g, w)
          (ground (arith, int_beq_iff (ℤ.pos target) (ℤ.pos target))))
        node refl

  migrate_item_again :
      (value : Json) (node : Record) (done : List Applied)
      → KeepsId python migrations
      → AreVersioned
      → migrate_item python migrations registry value ≡ inr (node, done)
      → IsSettled node
  unfolding migrate_item item_needs_migration
  migrate_item_again (object fs) node done keeps versioned h =
      elim (Option-cases (target_of registry (id_of python (entries fs)))) [
        | inl e ↦ let at : entries fs ≡ node = ground arith in unknown-IsSettled node (rw (← at) e)
        | inr (zero, e) ↦ ground (arith, versioned (id_of python (entries fs)) zero e)
        | inr (suc target, e) ↦
            let g : migrate_node python migrations (entries fs) (suc target) ≡ inr (node, done) =
              ground arith in
            let (same, version) =
              migrate_node-version python migrations (entries fs) node target done keeps g in
            known-IsSettled node (suc target) (ap (target_of registry) same ∙ e) version
      ]
  migrate_item_again _ node done keeps versioned h = ground arith

  pub migrate_items_again :
      (values nodes : List Json) (done : List Applied)
      → KeepsId python migrations
      → AreVersioned
      → migrate_items python migrations registry values ≡ inr (nodes, done)
      → (migrate_items python migrations registry nodes ≡ inr (nodes, []))
        × (any_needs_migration python registry nodes ≡ some false)
  unfolding migrate_items and_then any_needs_migration
  migrate_items_again [] nodes done keeps versioned h =
      let e : [] ≡ nodes = ground arith in rw (← e) (refl, refl)
  migrate_items_again (value ∷ values) nodes done keeps versioned h =
      elim (Result-cases (migrate_item python migrations registry value)) [
        | inl (f, e) ↦ ground arith
        | inr ((node, first), e) ↦
            elim (Result-cases (migrate_items python migrations registry values)) [
              | inl (f, g) ↦ ground arith
              | inr ((rest, more), g) ↦
                  let at : object (fields node) ∷ rest ≡ nodes = ground arith in
                  let (same, calm) = migrate_item_again value node first keeps versioned e in
                  let (again, quiet) = migrate_items_again values rest more keeps versioned g in
                  rw (← at)
                    (rw (migrate_items, same, again) refl, rw (any_needs_migration, calm) quiet)
            ]
      ]
