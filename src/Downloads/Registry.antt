-- ===== src/Downloads/Registry.antt =====
-- `ModelDownloadRegistry` of backend/tools/shared/download_registry.py: which installs are in
-- course, which are to start over when the program opens again, and what cancels them. The file of
-- the pending installs is a list of its entries, none if it is missing or does not hold a JSON list.
-- `readable` says whether a read of it succeeds and `written` whether a write does: the code ignores
-- the OSError of either.
pub mod Pending
pub mod Kept
use lluna.Prelude.{
  String, Bool, true, false, not, ◌&&◌, ◌||◌, Option, none, some, List, [], ◌∷◌, ◌++◌, select,
  reject, if◌then◌else◌,
}
use lluna.Prelude.Key.{Key, string_key, pair_key, ◌==◌}
use lluna.Prelude.Sets.{elem, add, update}

-- `(kind, key)`
abbrev pub PendingItem : Type 0
PendingItem = String × String

instance abbrev pub item_key : Key PendingItem
item_key = pair_key string_key string_key

-- `job_cancel` is the event of the job that runs, and whether it is set. `cancel_flag` says that
-- the flag file exists.
pub record ModelDownloadRegistry : Type 0 where
  pub active : List PendingItem
  pub pending_file : List PendingItem
  pub cancel : Bool
  pub cancel_flag : Bool
  pub job_cancel : Option Bool

abbrev pub new_registry : List PendingItem → Bool → ModelDownloadRegistry
new_registry pending_file cancel_flag = record {
  active = [];
  pending_file = pending_file;
  cancel = false;
  cancel_flag = cancel_flag;
  job_cancel = none;
}

unfoldable pub is_cancelled : ModelDownloadRegistry → Bool
is_cancelled r =
    elim r.job_cancel [ none ↦ false | some stopped ↦ stopped ] || r.cancel || r.cancel_flag

unfoldable pub request_cancel : Bool → ModelDownloadRegistry → ModelDownloadRegistry
request_cancel written r = record r { cancel = true; cancel_flag = r.cancel_flag || written }

unfoldable pub clear_cancel : Bool → ModelDownloadRegistry → ModelDownloadRegistry
clear_cancel removed r = record r { cancel = false; cancel_flag = r.cancel_flag && not removed }

-- `kind and key`, for texts.
abbrev pub is_named : PendingItem → Bool
is_named (kind, key) = not (kind == "") && not (key == "")

-- The loop of `_load_pending_unlocked` over the entries.
unfoldable pub load : List PendingItem → List PendingItem → List PendingItem
load out [] = out
load out (item ∷ raw) =
    load (if is_named item && not (elem item out) then out ++ item ∷ [] else out) raw

-- A read that raises OSError gives no entries.
abbrev pub load_pending : Bool → ModelDownloadRegistry → List PendingItem
load_pending readable r = if readable then load [] r.pending_file else []

abbrev pub save_pending : Bool → List PendingItem → ModelDownloadRegistry → ModelDownloadRegistry
save_pending written items r = if written then record r { pending_file = items } else r

unfoldable pub schedule : Bool → Bool → PendingItem → ModelDownloadRegistry → ModelDownloadRegistry
schedule readable written item r =
    let pending = load_pending readable r in
    if elem item pending then r else save_pending written (pending ++ item ∷ []) r

unfoldable pub begin : Bool → Bool → PendingItem → ModelDownloadRegistry → ModelDownloadRegistry
unfolding schedule
begin readable written item r =
    schedule readable written item (record r { active = add item r.active })

abbrev pub remove : PendingItem → List PendingItem → List PendingItem
remove item items = reject (λ other. other == item) items

unfoldable pub complete : Bool → Bool → PendingItem → ModelDownloadRegistry → ModelDownloadRegistry
complete readable written item r =
    save_pending written (remove item (load_pending readable r))
      (record r { active = remove item r.active })

-- The file is written only if the item is there, that is, if `remaining != pending`.
unfoldable pub fail :
    Bool → Bool → PendingItem → Bool → ModelDownloadRegistry → ModelDownloadRegistry
unfolding schedule
fail readable written item keep_pending r =
    let inactive = record r { active = remove item r.active } in
    let pending = load_pending readable r in
    let dropped =
      if elem item pending then save_pending written (remove item pending) inactive else inactive in
    if keep_pending then schedule readable written item inactive else dropped

-- The first block of `abort_all_and_revert`: a set, here in the order of the two lists.
abbrev pub items_to_abort : Bool → ModelDownloadRegistry → List PendingItem
items_to_abort readable r = update r.active (load_pending readable r)

-- Its second block, which reads the file again.
unfoldable pub keep_for_restart :
    Bool → Bool → List PendingItem → ModelDownloadRegistry → ModelDownloadRegistry
keep_for_restart readable written items r =
    record (save_pending written (update (load_pending readable r) items) r) { active = [] }

-- What it does when no other thread comes between; its two reads are apart. `discard_partial` works
-- on the files of the models.
unfoldable pub abort_all_and_revert :
    Bool → Bool → Bool → ModelDownloadRegistry → ModelDownloadRegistry × List PendingItem
unfolding keep_for_restart request_cancel clear_cancel
abort_all_and_revert readable again written r = elim (items_to_abort readable r) [
  | [] ↦ (clear_cancel written r, [])
  | item ∷ items ↦
      (keep_for_restart again written (item ∷ items) (request_cancel written r), item ∷ items)
]
