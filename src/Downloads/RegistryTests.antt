-- ===== src/Downloads/RegistryTests.antt =====
-- A registry with one install in course, and what backend/tools/shared/download_registry.py does.
use lluna.Prelude.{◌≡◌, refl, true, false, not, ◌&&◌, ◌||◌, [], ◌∷◌}
use lluna.Prelude.Key.{string_key, ◌==◌}
use lluna.Prelude.Sets.{elem, add, update}
use lluna.Downloads.Registry.{
  PendingItem, item_key, ModelDownloadRegistry, new_registry, load, load_pending, schedule, begin,
  complete, fail, abort_all_and_revert,
}
use lluna.Downloads.Registry.Pending.{
  is_pending, pending_after_fail, pending_lem, abort_all_and_revert_lem,
}
use lluna.Downloads.Registry.Kept.{Reach, here, next, begins, schedules, active_is_pending}

abbrev sam : PendingItem
sam = ("sam3", "sam3")

abbrev enhance : PendingItem
enhance = ("enhance", "x2plus")

abbrev registry : ModelDownloadRegistry
registry = begin true true sam (schedule true true enhance (new_registry [] false))

Reach-registry : Reach (new_registry [] false) registry
unfolding elem
Reach-registry = next (next here (schedules enhance)) (begins sam refl)

pending_of_registry : load_pending true registry ≡ enhance ∷ sam ∷ []
unfolding begin schedule load elem add
pending_of_registry = refl

-- An entry without a key is dropped when the file is read.
load_drops_nameless : load [] (("sam3", "") ∷ sam ∷ sam ∷ []) ≡ sam ∷ []
unfolding load elem
load_drops_nameless = refl

-- A failed read, and the write that follows it: what is in course is forgotten.
failed_read_forgets :
    load_pending true (begin false true ("enhance", "x4plus") registry) ≡ ("enhance", "x4plus") ∷ []
unfolding begin schedule load elem add
failed_read_forgets = refl

aborted : (abort_all_and_revert true true true registry).1 ≡ sam ∷ enhance ∷ []
unfolding abort_all_and_revert begin schedule load elem add update
aborted = refl

pending_lem_example :
    (is_pending sam (schedule true true sam registry)
      ≡ (true && is_pending sam registry || sam == sam))
    × (is_pending sam (begin true true sam registry)
        ≡ (true && is_pending sam registry || sam == sam))
    × (is_pending sam (complete true true sam registry)
        ≡ (true && is_pending sam registry && not (sam == sam)))
    × (is_pending sam (fail true true sam true registry)
        ≡ pending_after_fail true true sam sam (is_pending sam registry))
pending_lem_example = pending_lem sam sam true true registry refl

abort_all_and_revert_lem_example :
    (is_pending sam (abort_all_and_revert true true true registry).0
      ≡ (is_pending sam registry || elem sam registry.active))
    × (elem sam (abort_all_and_revert true true true registry).1
        ≡ (true && is_pending sam registry || elem sam registry.active))
    × ((abort_all_and_revert true true true registry).0.active ≡ [])
abort_all_and_revert_lem_example = abort_all_and_revert_lem sam true true registry refl refl

active_is_pending_example : is_pending sam registry ≡ true
unfolding begin schedule load elem add
active_is_pending_example = active_is_pending [] false registry Reach-registry sam refl
