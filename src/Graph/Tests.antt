-- ===== src/Graph/Tests.antt =====
-- Small workflows, and what backend/graph/scheduler.py does with them.
use mathlib.Core.List.{Perm, Nodup, Nodup-cons, Nodup-nil, not-mem-nil}
use mathlib.Core.List.Memᴰ
use mathlib.Core.Logic.{∥∥₁_elim}
use mathlib.Core.HLevel.{⊥_prop}
use package.text.Mathlib.TextEquality.{eq_iff}
use lluna.Prelude.{
  ℕ, ◌≤◌, ◌<◌, max, String, ◌≡◌, refl, ◌↔◌, true, false, none, some, List, [], ◌∷◌, length, arith,
  inl, inr,
}
use lluna.Prelude.Key.{string_key}
use lluna.Prelude.Sets.{elem}
use lluna.Prelude.Dict.{Dict, get_or}
use lluna.Graph.Schema.{WorkflowEdge, HasEdge, integer, number, ports_compatible}
use lluna.Graph.Scheduler.{ok, cycle, dependencies, execution_waves}
use lluna.Graph.Scheduler.Dependencies.{Depends, sources, elem-dependencies}
use lluna.Graph.Scheduler.Levels.{Scheduled, execution_waves-Scheduled}
use lluna.Graph.Devices.{
  Kind, heavy, light, DeviceScheduler, new_scheduler, acquire_heavy, pop_device, node_kind,
  plan_concurrency,
}
use lluna.Graph.Devices.Admission.{
  System, idle, Reach, here, next, enter_heavy, take_device, slot_excludes, slot_finds_device,
  slot_returns_all,
}

abbrev edge : String → String → WorkflowEdge
edge s t = record {
  id = "e";
  source_node_id = s;
  source_port_id = "out";
  target_node_id = t;
  target_port_id = "in";
}

abbrev nodes : List String
nodes = "c" ∷ "a" ∷ "b" ∷ []

abbrev edges : List WorkflowEdge
edges = edge "a" "b" ∷ edge "b" "c" ∷ edge "a" "c" ∷ edge "x" "a" ∷ edge "b" "b" ∷ []

waves_of_edges : execution_waves nodes edges ≡ ok (("a" ∷ []) ∷ ("b" ∷ []) ∷ ("c" ∷ []) ∷ [])
unfolding execution_waves
waves_of_edges = refl

waves_of_loop : execution_waves nodes (edge "a" "b" ∷ edge "b" "a" ∷ []) ≡ cycle ("a" ∷ "b" ∷ [])
unfolding execution_waves
waves_of_loop = refl

execution_waves-Scheduled_example : Scheduled nodes edges (execution_waves nodes edges)
execution_waves-Scheduled_example = execution_waves-Scheduled nodes edges

elem-dependencies_example :
    (elem "a" (sources (dependencies nodes edges) "b") ≡ true) ↔ Depends nodes edges "a" "b"
elem-dependencies_example = elem-dependencies nodes edges "a" "b"

abbrev rank : String → ℕ
rank n = get_or 3 n (("a", 0) ∷ ("b", 1) ∷ ("c", 2) ∷ [])

abbrev forward : List WorkflowEdge
forward = edge "a" "b" ∷ edge "b" "c" ∷ edge "a" "c" ∷ []

rank_lt : (s n : String) → HasEdge forward s n → rank s < rank n
unfolding get_or
rank_lt s n (inl (p, q)) = rw (p, q) (omega arith)
rank_lt s n (inr (inl (p, q))) = rw (p, q) (omega arith)
rank_lt s n (inr (inr (inl (p, q)))) = rw (p, q) (omega arith)
rank_lt s n (inr (inr (inr h))) = absurd h

ports : (ports_compatible integer number ≡ true) × (ports_compatible number integer ≡ false)
unfolding ports_compatible
ports = (refl, refl)

kinds_of_nodes :
    (node_kind (some "enhance") [] ≡ heavy)
    × (node_kind none [] ≡ light)
    × (node_kind (some "literal") ("m" ∷ []) ≡ heavy)
unfolding node_kind
kinds_of_nodes = (refl, refl, refl)

abbrev devices : List String
devices = "cuda:0" ∷ "cuda:1" ∷ []

abbrev fresh : DeviceScheduler
fresh = record { free_devices = devices; heavy_slots = 2; light_slots = 4 }

made : new_scheduler devices 4 ≡ some fresh
unfolding new_scheduler
made = refl

made_with_one :
    new_scheduler ("cuda:0" ∷ []) 0
    ≡ some (record { free_devices = "cuda:0" ∷ []; heavy_slots = 1; light_slots = 1 })
unfolding new_scheduler
made_with_one = refl

abbrev admitted : System
admitted = record (idle fresh) { scheduler = record fresh { heavy_slots = 1 }; admitted = 1 }

abbrev working : System
working = record (idle fresh) {
  scheduler = record { free_devices = "cuda:1" ∷ []; heavy_slots = 1; light_slots = 4 };
  running = "cuda:0" ∷ [];
}

Reach-admitted : Reach (idle fresh) admitted
unfolding acquire_heavy
Reach-admitted = next here (enter_heavy (record fresh { heavy_slots = 1 }) refl refl)

Reach-working : Reach (idle fresh) working
unfolding pop_device
Reach-working = next Reach-admitted (take_device 0 "cuda:0" working.scheduler refl refl refl)

distinct : Nodup devices
distinct = Nodup-cons.1 (
  (λ m. ∥∥₁_elim m ⊥_prop λ d.
      let e : ◌≡◌ {A = String} "cuda:0" "cuda:1" = Memᴰ.eq_of_singleton d in
      ground (arith, e, eq_iff "cuda:0" "cuda:1")),
  Nodup-cons.1 (not-mem-nil, Nodup-nil),
)

slot_excludes_example : Nodup working.running × (working.light_running ≤ max 1 4)
slot_excludes_example = slot_excludes devices 4 fresh made working Reach-working distinct

slot_finds_device_example :
    (device : String) × (t : DeviceScheduler) × (pop_device admitted.scheduler ≡ some (device, t))
slot_finds_device_example =
    slot_finds_device devices 4 fresh made admitted Reach-admitted (omega arith)

slot_returns_all_example :
    Perm fresh.free_devices devices
    × (fresh.heavy_slots ≡ length devices)
    × (fresh.light_slots ≡ max 1 4)
slot_returns_all_example =
    slot_returns_all devices 4 fresh made (idle fresh) here refl refl refl refl

abbrev kinds : Dict String Kind
kinds = ("a", heavy) ∷ ("b", heavy) ∷ ("c", light) ∷ []

two_workers : plan_concurrency nodes kinds working.scheduler ≡ 2
unfolding plan_concurrency
two_workers = refl
