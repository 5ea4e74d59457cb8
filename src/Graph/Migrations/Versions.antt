-- ===== src/Graph/Migrations/Versions.antt =====
-- A migrated node is at the version that was asked for.
use mathlib.Core.Sum.{inr-injective}
use lluna.Prelude.{
  ℕ, suc, String, true, List, [], ◌∷◌, some, inl, inr, ◌≡◌, refl, sym, arith, Bool-cases,
  Option-cases, ◌∙◌, ap,
}
use lluna.Prelude.Key.{string_key}
use lluna.Prelude.Dict.{get?, put}
use lluna.Prelude.Int.{ℤ, next, int_lt_irrefl, gap_done}
use lluna.Json.{
  Record, whole, array, object, nil, Conversions, to_str, to_dict, to_int, truthy, lookup, or_else,
  fields, Fields,
}
use lluna.Graph.Migrations.{
  NodeMigration, Migrations, Failure, raised, and_then, Applied, move, step_up, check_version,
  migrate_node, id_of, version_of, set_version, version_key, set_default, video_remove_text_regions,
  shipped_migrations, register,
}
use lluna.Graph.Migrations.Climbing.{Climb, migrate_node_lem}
use lluna.Graph.Migrations.Fields.{lookup_version, saved_id-put, saved_id-set_version}

module _ (python : Conversions) (migrations : Migrations) where
  -- Each migration leaves the id of its node alone.
  abbrev pub KeepsId : Type 0
  KeepsId =
      (key : String × ℤ) (f : NodeMigration) (n n' : Record)
      → get? key migrations ≡ some f
      → f n ≡ some n'
      → id_of python n' ≡ id_of python n

  move_inv :
      (schema_id : String) (target : ℕ) (v : ℤ) (n n' : Record)
      → move migrations schema_id target v n ≡ inr n'
      → (f : NodeMigration) × (moved : Record) × (get? (schema_id, v) migrations ≡ some f)
        × (f n ≡ some moved)
        × (n' ≡ set_version (next v) moved)
  unfolding move
  move_inv schema_id target v n n' h = elim (Option-cases (get? (schema_id, v) migrations)) [
    | inl e ↦ ground arith
    | inr (f, e) ↦ elim (Option-cases (f n)) [
      | inl g ↦ ground arith
      | inr (moved, g) ↦ ground arith
    ]
  ]

  id_of-set_version : (v : ℤ) (n : Record) → id_of python (set_version v n) ≡ id_of python n
  id_of-set_version v n = ap (to_str python) (saved_id-set_version v n)

  Climb-id :
      (schema_id : String) (target : ℕ) (done : List Applied) (v w : ℤ) (n m : Record)
      → KeepsId
      → Climb migrations schema_id target done v n w m
      → id_of python m ≡ id_of python n
  Climb-id schema_id target [] v w n m keeps (e, f) = rw f refl
  Climb-id schema_id target (a ∷ done) v w n m keeps (n', e, moves, climb) =
      let (f, moved, g, h, at) = move_inv schema_id target v n n' moves in
      Climb-id schema_id target done (next v) w n' m keeps climb
      ∙ ap (id_of python) at
      ∙ id_of-set_version (next v) moved
      ∙ keeps (schema_id, v) f n moved g h

  Climb-lookup :
      (schema_id : String) (target : ℕ) (a : Applied) (done : List Applied) (v w : ℤ) (n m : Record)
      → Climb migrations schema_id target (a ∷ done) v n w m
      → lookup "schemaVersion" m ≡ whole w
  Climb-lookup schema_id target a [] v w n m (n', e, moves, (at, same)) =
      let (f, moved, g, h, set) = move_inv schema_id target v n n' moves in
      ap (lookup "schemaVersion") (sym same ∙ set) ∙ lookup_version (next v) moved ∙ ap whole at
  Climb-lookup schema_id target a (b ∷ done) v w n m (n', e, moves, climb) =
      Climb-lookup schema_id target b done (next v) w n' m climb

  truthy_positive : (n : ℕ) → truthy (whole (ℤ.pos (suc n))) ≡ true
  unfolding truthy
  truthy_positive n = ground arith

  Climb-version :
      (schema_id : String) (target : ℕ) (done : List Applied) (v : ℤ) (n m : Record)
      → version_of python n ≡ some v
      → Climb migrations schema_id (suc target) done v n (ℤ.pos (suc target)) m
      → version_of python m ≡ some (ℤ.pos (suc target))
  unfolding to_int
  Climb-version schema_id target [] v n m h (e, f) = rw (← f, ← e) h
  Climb-version schema_id target (a ∷ done) v n m h climb =
      rw
        (
          Climb-lookup schema_id (suc target) a done v (ℤ.pos (suc target)) n m climb,
          truthy_positive target,
        )
        refl

  absurd_failure {ℓ} :
      {A : Type ℓ} (node : Record) (target : ℕ) (result : Record × List Applied) (f : Failure)
      → migrate_node python migrations node target ≡ inl f
      → migrate_node python migrations node target ≡ inr result
      → A
  absurd_failure node target result f h g = let e : inl f ≡ inr result = sym h ∙ g in ground arith

  -- A node that `migrate_node` returns stands at the version that was asked for.
  pub migrate_node-version :
      (node m : Record) (target : ℕ) (done : List Applied)
      → KeepsId
      → migrate_node python migrations node (suc target) ≡ inr (m, done)
      → (id_of python m ≡ id_of python node) × (version_of python m ≡ some (ℤ.pos (suc target)))
  unfolding migrate_node
  migrate_node-version node m target done keeps h = elim (Option-cases (version_of python node)) [
    | inl e ↦ absurd_failure node (suc target) (m, done) raised (rw (migrate_node, e) refl) h
    | inr (v, e) ↦ elim (migrate_node_lem python migrations node (suc target) v e) [
      | inl (newer, r) ↦ absurd_failure node (suc target) (m, done) _ r h
      | inr (inl (todo, m', climb, count, r)) ↦
          let at : m' ≡ m = ap (λ p. p.0) (inr-injective _ _ (sym r ∙ h)) in
          rw (← at) (
            Climb-id (id_of python node) (suc target) todo v (ℤ.pos (suc target)) node m' keeps
                climb,
            Climb-version (id_of python node) target todo v node m' e climb,
          )
      | inr (inr (todo, u, m', f, climb, below, stop, r)) ↦
          absurd_failure node (suc target) (m, done) f r h
    ]
  ]

  pub migrate_node_again :
      (m : Record) (target : ℕ)
      → version_of python m ≡ some (ℤ.pos target)
      → migrate_node python migrations m target ≡ inr (m, [])
  unfolding migrate_node and_then check_version step_up
  migrate_node_again m target h =
      rw
        (
          migrate_node,
          h,
          gap_done (ℤ.pos target) target (int_lt_irrefl target),
          int_lt_irrefl target,
        )
        (rw (check_version, int_lt_irrefl target) refl)

-- The migration that is registered keeps the id of its node.
module _ (python : Conversions) where
  video_remove_text_regions-id :
      (n n' : Record)
      → video_remove_text_regions python n ≡ some n'
      → id_of python n' ≡ id_of python n
  unfolding video_remove_text_regions
  video_remove_text_regions-id n n' h =
      elim (Option-cases (to_dict python (or_else (lookup "parameters" n) (object Fields.end)))) [
        | inl e ↦ ground arith
        | inr (d, e) ↦
            let at : put "parameters" (object (fields (set_default "subAreas" (array nil) d))) n
                ≡ n' =
              ground arith in
            rw (← at) (
              ap (to_str python) (
                saved_id-put "parameters" (object (fields (set_default "subAreas" (array nil) d))) n
                  refl refl))
      ]

  pub shipped-KeepsId : KeepsId python (shipped_migrations python)
  unfolding get? register put
  shipped-KeepsId key f n n' h g =
      elim (Bool-cases (version_key.test key ("lluna.video.remove_text", ℤ.pos 1))) [
        | inl e ↦
            let at : video_remove_text_regions python ≡ f = ground arith in
            video_remove_text_regions-id n n' (ap (λ m. m n) at ∙ g)
        | inr e ↦ ground arith
      ]
