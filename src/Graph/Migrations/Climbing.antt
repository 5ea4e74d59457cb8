-- ===== src/Graph/Migrations/Climbing.antt =====
-- How far the loop of `migrate_node` takes a node, and that it ends.
use lluna.Prelude.{
  ℕ, zero, suc, String, true, false, List, [], ◌∷◌, ◌++◌, some, ◌⊎◌, inl, inr, ◌≡◌, refl, arith,
  Bool-cases, ◌∙◌, append-nil, append_assoc, length,
}
use lluna.Prelude.Int.{
  ℤ, int_lt, int_lt_asymm, next, gap, gap-next, gap_done, next_le, int_lt_connex, int_lt_irrefl,
}
use lluna.Json.{Record, Conversions}
use lluna.Graph.Migrations.{
  Migrations, Failure, Result, and_then, Applied, applied_at, move, step_up, check_version,
  migrate_node, id_of, version_of, newer_version,
}

pub Result-cases {ℓ} :
    {A : Type ℓ} (r : Result A) → ((e : Failure) × (r ≡ inl e)) ⊎ ((a : A) × (r ≡ inr a))
Result-cases (inl e) = inl (e, refl)
Result-cases (inr a) = inr (a, refl)

module _ (migrations : Migrations) (schema_id : String) (target : ℕ) where
  -- The migrations take the node `n` from version `v` to the node `m` at version `w`, one version
  -- at a time; the list names them.
  abbrev pub Climb : List Applied → ℤ → Record → ℤ → Record → Type 0
  Climb [] v n w m = (v ≡ w) × (n ≡ m)
  Climb (a ∷ done) v n w m =
      (n' : Record) × (a ≡ applied_at migrations schema_id target v)
      × (move migrations schema_id target v n ≡ inr n')
      × Climb done (next v) n' w m

  abbrev pub Arrives : ℤ → Record → ℤ → Result (ℤ × Record × List Applied) → List Applied → Type 0
  Arrives v n w result done =
      (todo : List Applied) × (m : Record) × Climb todo v n w m
      × (length todo ≡ gap v target)
      × (result ≡ inr (w, m, done ++ todo))

  abbrev pub Stops {ℓ} : {A : Type ℓ} → ℤ → Record → Result A → Type ℓ
  Stops v n result =
      (todo : List Applied) × (u : ℤ) × (m : Record) × (e : Failure) × Climb todo v n u m
      × (int_lt u (ℤ.pos target) ≡ true)
      × (move migrations schema_id target u m ≡ inl e)
      × (result ≡ inl e)

  step_up_lem :
      (fuel : ℕ) (v : ℤ) (n : Record) (done : List Applied)
      → gap v target ≡ fuel
      → int_lt (ℤ.pos target) v ≡ false
      → Arrives v n (ℤ.pos target) (step_up migrations schema_id target fuel v n done) done
        ⊎ Stops v n (step_up migrations schema_id target fuel v n done)
  unfolding step_up and_then
  step_up_lem zero v n done h g = elim (Bool-cases (int_lt v (ℤ.pos target))) [
    | inl e ↦ ground (arith, gap-next v target e)
    | inr e ↦
        let at = int_lt_connex v target e g in
        rw e (inl ([], n, (at, refl), ground (arith, h), rw (at, append-nil done) refl))
  ]
  step_up_lem (suc fuel) v n done h g = elim (Bool-cases (int_lt v (ℤ.pos target))) [
    | inl e ↦ elim (Result-cases (move migrations schema_id target v n)) [
      | inl (f, m) ↦ rw (e, m) (inr ([], v, n, f, (refl, refl), e, m, refl))
      | inr (n', m) ↦
          let a = applied_at migrations schema_id target v in
          rw (e, m)
            (elim (step_up_lem fuel (next v) n' (done ++ a ∷ [])
              (ground (arith, gap-next v target e)) (next_le v target e)) [
                | inl (todo, w, climb, count, r) ↦ inl (
                  a ∷ todo,
                  w,
                  (n', refl, m, climb),
                  ground (arith, gap-next v target e),
                  r ∙ rw (append_assoc done (a ∷ []) todo) refl,
                )
                | inr (todo, u, w, f, climb, below, stop, r) ↦
                    inr (a ∷ todo, u, w, f, (n', refl, m, climb), below, stop, r)
              ])
    ]
    | inr e ↦ ground (arith, gap_done v target e)
  ]

module _ (python : Conversions) (migrations : Migrations) where
  abbrev pub Migrates : Record → ℕ → ℤ → Result (Record × List Applied) → Type 0
  Migrates node target v result =
      (done : List Applied) × (m : Record) × Climb migrations (id_of python node) target done v node
        (ℤ.pos target) m
      × (length done ≡ gap v target)
      × (result ≡ inr (m, done))

  abbrev pub Ends : Record → ℕ → ℤ → Result (Record × List Applied) → Type 0
  Ends node target v result =
      ((int_lt (ℤ.pos target) v ≡ true)
        × (result ≡ inl (newer_version (id_of python node) v target)))
      ⊎ Migrates node target v result
      ⊎ Stops migrations (id_of python node) target v node result

  -- For a node whose version is a number, `migrate_node` ends in one of three ways. The version is
  -- newer than the target, and it raises MigrationError. Or the registered migrations take the node
  -- from its version to the target, one version at a time; it returns what they make of the node,
  -- and reports as many steps as there are versions between. Or they take it to a version below the
  -- target from which there is no migration, or whose migration raises, and it raises the same.
  pub migrate_node_lem :
      (node : Record) (target : ℕ) (v : ℤ)
      → version_of python node ≡ some v
      → Ends node target v (migrate_node python migrations node target)
  unfolding migrate_node and_then check_version step_up
  migrate_node_lem node target v h = elim (Bool-cases (int_lt (ℤ.pos target) v)) [
    | inl e ↦
        let low = int_lt_asymm (ℤ.pos target) v e in
        inl (e, rw (migrate_node, h, gap_done v target low, low, e) refl)
    | inr e ↦
        elim (step_up_lem migrations (id_of python node) target (gap v target) v node [] refl e) [
          | inl (todo, m, climb, count, r) ↦
              inr (inl (todo, m, climb, count, rw (migrate_node, h, r, int_lt_irrefl target) refl))
          | inr (todo, u, m, f, climb, below, stop, r) ↦
              inr (inr (todo, u, m, f, climb, below, stop, rw (migrate_node, h, r) refl))
        ]
  ]
