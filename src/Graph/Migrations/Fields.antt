-- ===== src/Graph/Migrations/Fields.antt =====
-- The id and the version of a node after one of its fields was set.
use lluna.Prelude.{String, false, ◌≡◌, refl, ◌∙◌}
use lluna.Prelude.Key.{string_key}
use lluna.Prelude.Dict.{put}
use lluna.Prelude.Int.{ℤ}
use lluna.Json.{Record, Json, whole, lookup, lookup-put, lookup_same, lookup-discard}
use lluna.Graph.Migrations.{set_version, saved_id, version_key}

pub lookup-set_version :
    (j : String) (v : ℤ) (d : Record)
    → (string_key.test j "schemaVersion" ≡ false)
    → (string_key.test j "schema_version" ≡ false)
    → lookup j (set_version v d) ≡ lookup j d
lookup-set_version j v d h g =
    lookup-discard "schema_version" j (put "schemaVersion" (whole v) d) g
    ∙ lookup-put "schemaVersion" j (whole v) d h

pub lookup_version : (v : ℤ) (d : Record) → lookup "schemaVersion" (set_version v d) ≡ whole v
lookup_version v d =
    lookup-discard "schema_version" "schemaVersion" (put "schemaVersion" (whole v) d) refl
    ∙ lookup_same "schemaVersion" (whole v) d

pub saved_id-put :
    (k : String) (v : Json) (d : Record)
    → (string_key.test "schemaId" k ≡ false)
    → (string_key.test "schema_id" k ≡ false)
    → saved_id (put k v d) ≡ saved_id d
saved_id-put k v d h g = rw (lookup-put k "schemaId" v d h, lookup-put k "schema_id" v d g) refl

pub saved_id-set_version : (v : ℤ) (d : Record) → saved_id (set_version v d) ≡ saved_id d
saved_id-set_version v d =
    rw (lookup-set_version "schemaId" v d refl refl, lookup-set_version "schema_id" v d refl refl)
      refl
