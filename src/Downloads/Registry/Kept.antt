-- ===== src/Downloads/Registry/Kept.antt =====
-- What is in course is pending in backend/tools/shared/download_registry.py.
use lluna.Prelude.{◌≡◌, subst, Bool, true, not, List, arith}
use lluna.Prelude.Key.{◌==◌}
use lluna.Prelude.Sets.{elem, add, elem-add, elem-select}
use lluna.Downloads.Registry.{
  PendingItem, item_key, ModelDownloadRegistry, new_registry, is_named, schedule, begin, remove,
  complete, fail, keep_for_restart, request_cancel, clear_cancel,
}
use lluna.Downloads.Registry.Pending.{
  is_pending, is_pending-schedule, is_pending-complete, is_pending-fail,
}

-- One operation on the registry, of any thread, whose reads and writes of the file succeed. What
-- begins has a kind and a key that are not empty.
pub data Step (r : ModelDownloadRegistry) : ModelDownloadRegistry → Type 0 where
  schedules : (item : PendingItem) → Step r (schedule true true item r)
  begins : (item : PendingItem) → is_named item ≡ true → Step r (begin true true item r)
  completes : (item : PendingItem) → Step r (complete true true item r)
  fails : (item : PendingItem) (keep_pending : Bool) → Step r (fail true true item keep_pending r)
  requests_cancel : (written : Bool) → Step r (request_cancel written r)
  clears_cancel : (removed : Bool) → Step r (clear_cancel removed r)
  keeps_for_restart : (items : List PendingItem) → Step r (keep_for_restart true true items r)

pub data Reach (r : ModelDownloadRegistry) : ModelDownloadRegistry → Type 0 where
  here : Reach r r
  next : {s t : ModelDownloadRegistry} → Reach r s → Step s t → Reach r t

schedule-active :
    (item : PendingItem) (r : ModelDownloadRegistry) → (schedule true true item r).active ≡ r.active
unfolding schedule
schedule-active item r = ground arith

fail-active :
    (item : PendingItem) (keep_pending : Bool) (r : ModelDownloadRegistry)
    → (fail true true item keep_pending r).active ≡ remove item r.active
unfolding fail schedule
fail-active item keep_pending r = ground arith

abbrev IsKept : ModelDownloadRegistry → Type 0
IsKept r =
    (a : PendingItem) → elem a r.active ≡ true → (is_named a ≡ true) × (is_pending a r ≡ true)

schedule-IsKept :
    (item : PendingItem) (r : ModelDownloadRegistry) → IsKept r → IsKept (schedule true true item r)
schedule-IsKept item r h a m =
    let k = h a (subst (λ xs. elem a xs ≡ true) (schedule-active item r) m) in
    (k.0, ground (arith, is_pending-schedule a item true r k.0, k.1))

begin-IsKept :
    (item : PendingItem) (r : ModelDownloadRegistry)
    → is_named item ≡ true
    → IsKept r
    → IsKept (begin true true item r)
unfolding begin
begin-IsKept item r n h a m =
    let begun = record r { active = add item r.active } in
    let there = subst (λ xs. elem a xs ≡ true) (schedule-active item begun) m in
    let named : is_named a ≡ true =
      ground (arith, elem-add a item r.active, there, h a, item_key.test_iff a item, n) in
    (
      named,
      ground (
        arith,
        is_pending-schedule a item true begun named,
        elem-add a item r.active,
        there,
        h a,
      ),
    )

complete-IsKept :
    (item : PendingItem) (r : ModelDownloadRegistry) → IsKept r → IsKept (complete true true item r)
unfolding complete
complete-IsKept item r h a m =
    let stays = elem-select a (λ other. not (other == item)) r.active in
    let named : is_named a ≡ true = ground (arith, stays, m, h a) in
    (named, ground (arith, is_pending-complete a item true r named, stays, m, h a))

fail-IsKept :
    (item : PendingItem) (keep_pending : Bool) (r : ModelDownloadRegistry)
    → IsKept r
    → IsKept (fail true true item keep_pending r)
fail-IsKept item keep_pending r h a m =
    let stays = elem-select a (λ other. not (other == item)) r.active in
    let there = subst (λ xs. elem a xs ≡ true) (fail-active item keep_pending r) m in
    let named : is_named a ≡ true = ground (arith, stays, there, h a) in
    (named, ground (arith, is_pending-fail a item keep_pending true r named, stays, there, h a))

Step-IsKept : (r s : ModelDownloadRegistry) → Step r s → IsKept r → IsKept s
unfolding request_cancel clear_cancel keep_for_restart elem
Step-IsKept r s (schedules item) h = schedule-IsKept item r h
Step-IsKept r s (begins item n) h = begin-IsKept item r n h
Step-IsKept r s (completes item) h = complete-IsKept item r h
Step-IsKept r s (fails item keep_pending) h = fail-IsKept item keep_pending r h
Step-IsKept r s (requests_cancel written) h = h
Step-IsKept r s (clears_cancel removed) h = h
Step-IsKept r s (keeps_for_restart items) h = λ a m. ground (arith, m)

pub active_is_pending :
    (pending_file : List PendingItem) (cancel_flag : Bool) (r : ModelDownloadRegistry)
    → Reach (new_registry pending_file cancel_flag) r
    → (a : PendingItem) → elem a r.active ≡ true
    → is_pending a r ≡ true
unfolding elem
active_is_pending pending_file cancel_flag r reach a m = (kept r reach a m).1
  where
    kept : (s : ModelDownloadRegistry) → Reach (new_registry pending_file cancel_flag) s → IsKept s
    kept s here b n = ground (arith, n)
    kept s (next {s = t} before step) b n = Step-IsKept t s step (kept t before) b n
