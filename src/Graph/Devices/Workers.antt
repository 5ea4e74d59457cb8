-- ===== src/Graph/Devices/Workers.antt =====
-- How many workers `plan_concurrency` of backend/graph/scheduler.py starts for a level.
use lluna.Prelude.{◌-◌, ◌≤◌, max, String, ◌≡◌, List, [], ◌∷◌, length, arith}
use lluna.Prelude.Dict.{Dict}
use lluna.Graph.Devices.{Kind, DeviceScheduler, count_heavy, plan_concurrency, heavy_capacity}

count_heavy-le-length :
    (kinds : Dict String Kind) (wave : List String) → count_heavy kinds wave ≤ length wave
unfolding count_heavy
count_heavy-le-length kinds [] = omega arith
count_heavy-le-length kinds (node_id ∷ wave) = ground (arith, count_heavy-le-length kinds wave)

-- A level gets a worker for each of its nodes, less the heavy nodes for which no device is free,
-- and one worker at least.
pub plan_concurrency_lem :
    (wave : List String) (kinds : Dict String Kind) (scheduler : DeviceScheduler)
    → plan_concurrency wave kinds scheduler
      ≡ max 1 (length wave - (count_heavy kinds wave - heavy_capacity scheduler))
unfolding plan_concurrency
plan_concurrency_lem wave kinds scheduler = omega (arith, count_heavy-le-length kinds wave)
