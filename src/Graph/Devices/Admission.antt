-- ===== src/Graph/Devices/Admission.antt =====
-- The slots of `DeviceScheduler` in backend/graph/scheduler.py, under every interleaving of the
-- threads that enter and leave `slot`.
use mathlib.Core.List.{Perm, perm_middle, Nodup}
use mathlib.Core.List.Perm
use mathlib.Core.List.Nodup
use lluna.Prelude.{
  ℕ, suc, ◌+◌, ◌≤◌, ◌<◌, max, String, ◌≡◌, sym, ap, subst, some, List, [], ◌∷◌, ◌++◌, length,
  length-append, append_assoc, append-nil, arith, List-cases, inl, inr,
}
use mathlib.Core.Option.{some-injective}
use lluna.Graph.Devices.{
  DeviceScheduler, new_scheduler, acquire_heavy, pop_device, append_device, release_heavy,
  acquire_light, release_light,
}

-- Where the threads inside `slot` stand: `admitted` hold the semaphore and have no device yet, each
-- device of `running` is held by one thread, `leaving` gave the device back and not the semaphore.
pub record System : Type 0 where
  pub scheduler : DeviceScheduler
  pub admitted : ℕ
  pub running : List String
  pub leaving : ℕ
  pub light_running : ℕ

abbrev pub idle : DeviceScheduler → System
idle s = record { scheduler = s; admitted = 0; running = []; leaving = 0; light_running = 0 }

-- One thread makes one atomic step.
pub data Step (a b : System) : Type 0 where
  enter_heavy :
      (s : DeviceScheduler)
      → acquire_heavy a.scheduler ≡ some s
      → b ≡ record a { scheduler = s; admitted = suc a.admitted }
      → Step a b
  take_device :
      (n : ℕ) (device : String) (s : DeviceScheduler)
      → a.admitted ≡ suc n
      → pop_device a.scheduler ≡ some (device, s)
      → b ≡ record a { scheduler = s; admitted = n; running = device ∷ a.running }
      → Step a b
  give_device :
      (before : List String) (device : String) (after : List String)
      → a.running ≡ before ++ device ∷ after
      → b ≡ record a {
        scheduler = append_device device a.scheduler;
        running = before ++ after;
        leaving = suc a.leaving;
      }
      → Step a b
  leave_heavy :
      (n : ℕ)
      → a.leaving ≡ suc n
      → b ≡ record a { scheduler = release_heavy a.scheduler; leaving = n }
      → Step a b
  enter_light :
      (s : DeviceScheduler)
      → acquire_light a.scheduler ≡ some s
      → b ≡ record a { scheduler = s; light_running = suc a.light_running }
      → Step a b
  leave_light :
      (n : ℕ)
      → a.light_running ≡ suc n
      → b ≡ record a { scheduler = release_light a.scheduler; light_running = n }
      → Step a b

pub data Reach (a : System) : System → Type 0 where
  here : Reach a a
  next : {b c : System} → Reach a b → Step b c → Reach a c

acquire_heavy-eq-some :
    (s t : DeviceScheduler)
    → acquire_heavy s ≡ some t
    → (s.heavy_slots ≡ suc t.heavy_slots)
      × (t.free_devices ≡ s.free_devices)
      × (t.light_slots ≡ s.light_slots)
unfolding acquire_heavy
acquire_heavy-eq-some s t h = ground arith

acquire_light-eq-some :
    (s t : DeviceScheduler)
    → acquire_light s ≡ some t
    → (s.light_slots ≡ suc t.light_slots)
      × (t.free_devices ≡ s.free_devices)
      × (t.heavy_slots ≡ s.heavy_slots)
unfolding acquire_light
acquire_light-eq-some s t h = ground arith

pop_device-eq-some :
    (s t : DeviceScheduler) (device : String)
    → pop_device s ≡ some (device, t)
    → (s.free_devices ≡ device ∷ t.free_devices)
      × (t.heavy_slots ≡ s.heavy_slots)
      × (t.light_slots ≡ s.light_slots)
unfolding pop_device
pop_device-eq-some s t device h = ground arith

perm_return :
    (before after rest : List String) (device : String) {all : List String}
    → Perm ((before ++ device ∷ after) ++ rest) all
    → Perm ((before ++ after) ++ (rest ++ device ∷ [])) all
perm_return before after rest device p =
    let back : Perm ((after ++ rest) ++ device ∷ []) (device ∷ (after ++ rest)) =
      rw append-nil at (perm_middle {a = device} (after ++ rest) []) in
    let same = simp append_assoc at (Perm.append_left before back) in
    simp append_assoc (Perm.trans same (simp append_assoc at p))

module _ (devices : List String) (slots : ℕ) where
  -- No device is lost or handed out twice, and each semaphore counts what is left.
  pub record IsAccounted (a : System) : Type 0 where
    pub placed : Perm (a.running ++ a.scheduler.free_devices) devices
    pub counted :
        a.scheduler.heavy_slots + a.admitted + length a.running + a.leaving ≡ length devices
    pub free : length a.running + length a.scheduler.free_devices ≡ length devices
    pub light : a.scheduler.light_slots + a.light_running ≡ slots

  Step-IsAccounted : {a b : System} → Step a b → IsAccounted a → IsAccounted b
  unfolding append_device release_heavy release_light
  Step-IsAccounted {a} {b} (enter_heavy s p e) h =
      let (slot, same, other) = acquire_heavy-eq-some a.scheduler s p in
      subst IsAccounted (sym e) (record {
        placed = rw same h.placed;
        counted = omega arith;
        free = rw same h.free;
        light = omega arith;
      })
  Step-IsAccounted {a} {b} (take_device n device s p q e) h =
      let (front, slot, other) = pop_device-eq-some a.scheduler s device q in
      subst IsAccounted (sym e) (record {
        placed =
            Perm.trans (Perm.symm (perm_middle a.running s.free_devices)) (rw front at h.placed);
        counted = omega arith;
        free = omega (arith, ap length front);
        light = omega arith;
      })
  Step-IsAccounted {a} {b} (give_device before device after p e) h =
      subst IsAccounted (sym e) (record {
        placed = perm_return before after a.scheduler.free_devices device (rw p at h.placed);
        counted =
            omega (
              arith,
              ap length p,
              length-append before (device ∷ after),
              length-append before after,
            );
        free = omega (
          arith,
          ap length p,
          length-append before (device ∷ after),
          length-append before after,
          length-append a.scheduler.free_devices (device ∷ []),
        );
        light = h.light;
      })
  Step-IsAccounted {a} {b} (leave_heavy n p e) h =
      subst IsAccounted (sym e)
        (record { placed = h.placed; counted = omega arith; free = h.free; light = h.light })
  Step-IsAccounted {a} {b} (enter_light s p e) h =
      let (slot, same, other) = acquire_light-eq-some a.scheduler s p in
      subst IsAccounted (sym e) (record {
        placed = rw same h.placed;
        counted = omega arith;
        free = rw same h.free;
        light = omega arith;
      })
  Step-IsAccounted {a} {b} (leave_light n p e) h =
      subst IsAccounted (sym e)
        (record { placed = h.placed; counted = h.counted; free = h.free; light = omega arith })

  pub Reach-IsAccounted : {a b : System} → IsAccounted a → Reach a b → IsAccounted b
  Reach-IsAccounted h here = h
  Reach-IsAccounted h (next r s) = Step-IsAccounted s (Reach-IsAccounted h r)

IsAccounted-idle :
    (devices : List String) (light_slots : ℕ) (s : DeviceScheduler)
    → new_scheduler devices light_slots ≡ some s
    → IsAccounted devices (max 1 light_slots) (idle s)
unfolding new_scheduler
IsAccounted-idle [] light_slots s e = cc
IsAccounted-idle (d ∷ ds) light_slots s e =
    subst (λ t. IsAccounted (d ∷ ds) (max 1 light_slots) (idle t)) (some-injective _ _ e)
      (record {
        placed = Perm.refl _;
        counted = omega arith;
        free = omega arith;
        light = omega arith;
      })

module _ (devices : List String) (light_slots : ℕ) (s : DeviceScheduler)
    (made : new_scheduler devices light_slots ≡ some s) (b : System) (r : Reach (idle s) b) where
  accounted : IsAccounted devices (max 1 light_slots) b
  accounted =
      Reach-IsAccounted devices (max 1 light_slots) (IsAccounted-idle devices light_slots s made) r

  -- However the threads interleave, no device is held by two of them, if the devices differ; and at
  -- most as many light jobs run as the scheduler has light slots.
  pub slot_excludes : Nodup devices → Nodup b.running × (b.light_running ≤ max 1 light_slots)
  slot_excludes distinct = (
    Nodup.of_append_left b.scheduler.free_devices
        (Perm.nodup (Perm.symm accounted.placed) distinct),
    omega (arith, accounted.light),
  )

  -- A thread that got through the semaphore always finds a free device: `popleft` is never called
  -- on an empty deque.
  pub slot_finds_device :
      0 < b.admitted
      → (device : String) × (t : DeviceScheduler) × (pop_device b.scheduler ≡ some (device, t))
  unfolding pop_device
  slot_finds_device waiting = elim (List-cases b.scheduler.free_devices) [
    | inl e ↦ absurd (omega (arith, accounted.counted, accounted.free, ap length e))
    | inr (d, rest, e) ↦ (d, record b.scheduler { free_devices = rest }, ground (arith, e))
  ]

  -- When every thread has left, every device is free again and both semaphores are full.
  pub slot_returns_all :
      b.admitted ≡ 0
      → b.running ≡ []
      → b.leaving ≡ 0
      → b.light_running ≡ 0
      → Perm b.scheduler.free_devices devices
        × (b.scheduler.heavy_slots ≡ length devices)
        × (b.scheduler.light_slots ≡ max 1 light_slots)
  slot_returns_all p q u v = (
    rw q at accounted.placed,
    omega (arith, accounted.counted, ap length q),
    omega (arith, accounted.light),
  )
