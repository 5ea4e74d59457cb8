-- ===== src/Graph/Migrations/Workflows.antt =====
-- Whole workflows: what `needs_migration` answers, and that a migrated workflow needs no migration.
use lluna.Prelude.{
  ℕ, String, Bool, true, false, not, List, [], ◌∷◌, ◌++◌, some, inl, inr, ◌≡◌, refl, arith,
  Bool-cases, Option-cases, ◌∙◌, sym, ap, length, if◌then◌else◌,
}
use lluna.Prelude.Key.{string_key}
use lluna.Prelude.Dict.{get_or-put, put_again}
use lluna.Prelude.Int.{ℤ, int_beq, int_beq_iff, gap, gap_done, int_lt_irrefl}
use lluna.Json.{
  Record, Json, array, object, nil, cons, Items, Conversions, truthy, or_else, entries, elements,
  items, elements-items,
}
use lluna.Graph.Schema.{Registry}
use lluna.Graph.Migrations.{
  Migrations, and_then, Applied, migrate_node, migrate_item, migrate_items, migrate_workflow,
  raw_nodes, with_nodes, id_of, version_of, needs_migration, any_needs_migration,
  item_needs_migration, target_of,
}
use lluna.Graph.Migrations.Climbing.{Climb, Result-cases, migrate_node_lem}
use lluna.Graph.Migrations.Versions.{KeepsId}
use lluna.Graph.Migrations.Settled.{AreVersioned, migrate_items_again}

-- Whether any step was reported.
abbrev pub is_nonempty {ℓ} : {A : Type ℓ} → List A → Bool
is_nonempty [] = false
is_nonempty (x ∷ xs) = true

is_nonempty-append {ℓ} :
    {A : Type ℓ} (xs ys : List A)
    → is_nonempty (xs ++ ys) ≡ (if is_nonempty xs then true else is_nonempty ys)
is_nonempty-append [] ys = refl
is_nonempty-append (x ∷ xs) ys = refl

array-or_else : (xs : Items) → or_else (array xs) (array nil) ≡ array xs
unfolding truthy
array-or_else nil = refl
array-or_else (cons x xs) = refl

with_nodes_again :
    (document : Record) (nodes : List Json)
    → with_nodes (with_nodes document nodes) nodes ≡ with_nodes document nodes
unfolding with_nodes
with_nodes_again document nodes =
    put_again "nodes" (array (items nodes)) (array (items nodes)) document

nodes_of_with_nodes :
    (document : Record) (nodes : List Json)
    → raw_nodes (with_nodes document nodes) ≡ array (items nodes)
unfolding with_nodes
nodes_of_with_nodes document nodes =
    rw (get_or-put Json.null "nodes" "nodes" (array (items nodes)) document)
      (array-or_else (items nodes))

module _ (python : Conversions) (migrations : Migrations) where
  Climb-moves :
      (schema_id : String) (target : ℕ) (done : List Applied) (v : ℤ) (n m : Record)
      → Climb migrations schema_id target done v n (ℤ.pos target) m
      → length done ≡ gap v target
      → not (int_beq v (ℤ.pos target)) ≡ is_nonempty done
  Climb-moves schema_id target [] v n m (e, f) h = ground (arith, int_beq_iff v (ℤ.pos target))
  Climb-moves schema_id target (a ∷ done) v n m climb h =
      elim (Bool-cases (int_beq v (ℤ.pos target))) [
        | inl e ↦
            let at = (int_beq_iff v (ℤ.pos target)).0 e in
            let none_left : gap v target ≡ 0 =
              rw at (gap_done (ℤ.pos target) target (int_lt_irrefl target)) in
            ground arith
        | inr e ↦ rw e refl
      ]

module _ (python : Conversions) (migrations : Migrations) (registry : Registry) where
  item_needs_migration_lem :
      (value : Json) (node : Record) (done : List Applied)
      → migrate_item python migrations registry value ≡ inr (node, done)
      → item_needs_migration python registry value ≡ some (is_nonempty done)
  unfolding migrate_item item_needs_migration migrate_node
  item_needs_migration_lem (object fs) node done h =
      elim (Option-cases (target_of registry (id_of python (entries fs)))) [
        | inl e ↦ ground arith
        | inr (target, e) ↦
            let g : migrate_node python migrations (entries fs) target ≡ inr (node, done) =
              ground arith in
            elim (Option-cases (version_of python (entries fs))) [
              | inl f ↦ ground arith
              | inr (v, f) ↦ elim (migrate_node_lem python migrations (entries fs) target v f) [
                | inl (newer, r) ↦ ground arith
                | inr (inl (todo, m, climb, count, r)) ↦
                    let same : todo ≡ done = ground arith in
                    rw (item_needs_migration, e, f, ← same)
                      (ap some (
                        Climb-moves python migrations (id_of python (entries fs)) target todo v
                          (entries fs) m climb count))
                | inr (inr (todo, u, m, x, climb, below, stop, r)) ↦ ground arith
              ]
            ]
      ]
  item_needs_migration_lem _ node done h = ground arith

  any_needs_migration_lem :
      (values nodes : List Json) (done : List Applied)
      → migrate_items python migrations registry values ≡ inr (nodes, done)
      → any_needs_migration python registry values ≡ some (is_nonempty done)
  unfolding migrate_items and_then any_needs_migration
  any_needs_migration_lem [] nodes done h = let e : [] ≡ done = ground arith in rw (← e) refl
  any_needs_migration_lem (value ∷ values) nodes done h =
      elim (Result-cases (migrate_item python migrations registry value)) [
        | inl (f, e) ↦ ground arith
        | inr ((node, first), e) ↦
            elim (Result-cases (migrate_items python migrations registry values)) [
              | inl (f, g) ↦ ground arith
              | inr ((rest, more), g) ↦
                  let at : first ++ more ≡ done = ground arith in
                  let one = item_needs_migration_lem value node first e in
                  let others = any_needs_migration_lem values rest more g in
                  let both = is_nonempty-append first more in
                  rw (← at, any_needs_migration, one, both)
                    (elim (Bool-cases (is_nonempty first)) [
                      | inl x ↦ rw x refl
                      | inr x ↦ rw x others
                    ])
            ]
      ]

  migrate_workflow_inv :
      (document migrated : Record) (done : List Applied) (value : Json)
      → raw_nodes document ≡ value
      → migrate_workflow python migrations registry document ≡ inr (migrated, done)
      → (xs : Items) × (nodes : List Json) × (raw_nodes document ≡ array xs)
        × (migrate_items python migrations registry (elements xs) ≡ inr (nodes, done))
        × (migrated ≡ with_nodes document nodes)
  unfolding migrate_workflow and_then
  migrate_workflow_inv document migrated done (array xs) e h =
      elim (Result-cases (migrate_items python migrations registry (elements xs))) [
        | inl (f, g) ↦ ground arith
        | inr ((nodes, steps), g) ↦
            let both : (with_nodes document nodes ≡ migrated) × (steps ≡ done) = ground arith in
            (xs, nodes, e, rw (← both.1) g, sym both.0)
      ]
  migrate_workflow_inv document migrated done _ e h = ground arith

  -- If `migrate_workflow` returns, then `needs_migration` of the workflow it was given answers
  -- exactly whether a step was applied.
  pub needs_migration_lem :
      (document migrated : Record) (done : List Applied)
      → migrate_workflow python migrations registry document ≡ inr (migrated, done)
      → needs_migration python registry document ≡ some (is_nonempty done)
  unfolding needs_migration
  needs_migration_lem document migrated done h =
      let (xs, nodes, e, g, at) =
        migrate_workflow_inv document migrated done (raw_nodes document) refl h in
      rw (needs_migration, e) (any_needs_migration_lem (elements xs) nodes done g)

  -- If every migration leaves the id of its node alone and the schema versions of this build start
  -- at 1, a workflow that `migrate_workflow` returns needs no migration, and to migrate it again
  -- changes nothing and reports no step.
  pub migrate_workflow_settles :
      (document migrated : Record) (done : List Applied)
      → KeepsId python migrations
      → AreVersioned python migrations registry
      → migrate_workflow python migrations registry document ≡ inr (migrated, done)
      → (migrate_workflow python migrations registry migrated ≡ inr (migrated, []))
        × (needs_migration python registry migrated ≡ some false)
  unfolding migrate_workflow and_then needs_migration
  migrate_workflow_settles document migrated done keeps versioned h =
      let (xs, nodes, e, g, at) =
        migrate_workflow_inv document migrated done (raw_nodes document) refl h in
      let (again, quiet) =
        migrate_items_again python migrations registry (elements xs) nodes done keeps versioned g in
      let raw : raw_nodes migrated ≡ array (items nodes) =
        rw at (nodes_of_with_nodes document nodes) in
      (
        rw (migrate_workflow, raw, elements-items nodes, again)
            (ap (λ d. inr (d, []))
              (ap (λ d. with_nodes d nodes) at ∙ with_nodes_again document nodes ∙ sym at)),
        rw (needs_migration, raw, elements-items nodes) quiet,
      )
