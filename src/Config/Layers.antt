-- ===== src/Config/Layers.antt =====
-- backend/configuration/loader.py, `_merge`, and service.py, `_deep_merge`: settings written over
-- other settings.
pub mod Paths
use lluna.Prelude.{String, Bool, true, false, Option, none, some, List, [], ◌∷◌}
use lluna.Prelude.Key.{string_key}
use lluna.Prelude.Dict.{get?, put}
use lluna.Json.{Json, Fields, Record, text, object, field, end, entries, fields}

-- `isinstance(value, Mapping)` of what `get` returned, and the mapping
unfoldable pub mapping : Option Json → Option Record
unfolding entries
mapping (some (object fs)) = some (entries fs)
mapping old = none

unfoldable mutual
  unfolding get? put fields mapping

  pub merge : Record → Fields → Record
  merge base end = base
  merge base (field key value rest) = merge (put key (merge_value value (get? key base)) base) rest

  -- What stands under a key after a value was written over it.
  pub merge_value : Json → Option Json → Json
  merge_value (object gs) old = elim (mapping old) [
    | none ↦ object gs
    | some base ↦ object (fields (merge base gs))
  ]
  merge_value value old = value
