-- ===== src/Graph/Devices.antt =====
-- backend/graph/scheduler.py: the admission of jobs to devices (`node_kind`, `DeviceScheduler`,
-- `plan_concurrency`).
pub mod Admission
pub mod Workers
use lluna.Prelude.{
  ℕ, zero, suc, ◌+◌, ◌-◌, min, max, String, Bool, true, false, ◌≡◌, Option, none, some, List, [],
  ◌∷◌, ◌++◌, length, if◌then◌else◌,
}
use lluna.Prelude.Key.{string_key}
use lluna.Prelude.Sets.{elem}
use lluna.Prelude.Dict.{Dict, get?}

pub data Kind : Type 0 where
  heavy light : Kind

abbrev pub inference_adapters : List String
inference_adapters =
    "enhance" ∷ "low_light" ∷ "generate" ∷ "lama_retouch" ∷ "select_subject" ∷ "subtitle"
    ∷ "birefnet" ∷ "describe_image" ∷ []

-- `str(None)` is the text "None", which is no adapter of the set.
unfoldable pub node_kind : Option String → List String → Kind
unfolding elem
node_kind adapter required_models =
    if elem (elim adapter [ none ↦ "None" | some name ↦ name ]) inference_adapters
    then heavy
    else elim required_models [ [] ↦ light | _ ∷ _ ↦ heavy ]

-- `heavy` and `light` are the counters of the two semaphores.
pub record DeviceScheduler : Type 0 where
  pub free_devices : List String
  pub heavy_slots : ℕ
  pub light_slots : ℕ

-- `none` is the ValueError of an empty list of devices.
unfoldable pub new_scheduler : List String → ℕ → Option DeviceScheduler
new_scheduler [] light_slots = none
new_scheduler (d ∷ ds) light_slots = some (record {
  free_devices = d ∷ ds;
  heavy_slots = length (d ∷ ds);
  light_slots = max 1 light_slots;
})

abbrev pub heavy_capacity : DeviceScheduler → ℕ
heavy_capacity s = length s.free_devices

-- The atomic steps of `slot`. `none` of an acquire is a thread that blocks.
unfoldable pub acquire_heavy : DeviceScheduler → Option DeviceScheduler
acquire_heavy s = elim s.heavy_slots [ zero ↦ none | suc n ↦ some (record s { heavy_slots = n }) ]

-- `none` is the IndexError of `popleft` on an empty deque.
unfoldable pub pop_device : DeviceScheduler → Option (String × DeviceScheduler)
pop_device s = elim s.free_devices [
  | [] ↦ none
  | device ∷ rest ↦ some (device, record s { free_devices = rest })
]

unfoldable pub append_device : String → DeviceScheduler → DeviceScheduler
append_device device s = record s { free_devices = s.free_devices ++ device ∷ [] }

unfoldable pub release_heavy : DeviceScheduler → DeviceScheduler
release_heavy s = record s { heavy_slots = s.heavy_slots + 1 }

unfoldable pub acquire_light : DeviceScheduler → Option DeviceScheduler
acquire_light s = elim s.light_slots [ zero ↦ none | suc n ↦ some (record s { light_slots = n }) ]

unfoldable pub release_light : DeviceScheduler → DeviceScheduler
release_light s = record s { light_slots = s.light_slots + 1 }

-- `kinds.get(node_id) == HEAVY`
is_heavy : Dict String Kind → String → Bool
is_heavy kinds node_id = elim (get? node_id kinds) [
  | none ↦ false
  | some heavy ↦ true
  | some light ↦ false
]

pub count_heavy : Dict String Kind → List String → ℕ
count_heavy kinds [] = 0
count_heavy kinds (node_id ∷ wave) =
    (if is_heavy kinds node_id then 1 else 0) + count_heavy kinds wave

unfoldable pub plan_concurrency : List String → Dict String Kind → DeviceScheduler → ℕ
unfolding count_heavy is_heavy get?
plan_concurrency wave kinds scheduler =
    let heavy = count_heavy kinds wave in
    let light = length wave - heavy in
    max 1 (min (length wave) (min heavy (heavy_capacity scheduler) + light))
