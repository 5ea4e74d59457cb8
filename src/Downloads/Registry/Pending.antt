-- ===== src/Downloads/Registry/Pending.antt =====
-- No install of backend/tools/shared/download_registry.py is forgotten.
use lluna.Prelude.{
  ◌≡◌, refl, Bool, true, false, not, ◌&&◌, ◌||◌, List, [], ◌∷◌, ◌++◌, if◌then◌else◌, arith,
  Bool-cases, List-cases, inl, inr,
}
use lluna.Prelude.Key.{◌==◌}
use lluna.Prelude.Sets.{elem, add, update, elem-append, elem-update, elem-select, nil_of_no_elem}
use lluna.Downloads.Registry.{
  PendingItem, item_key, ModelDownloadRegistry, is_named, load, load_pending, save_pending,
  schedule, begin, remove, complete, fail, items_to_abort, keep_for_restart, abort_all_and_revert,
  request_cancel, clear_cancel,
}

elem-load :
    (a : PendingItem) (out raw : List PendingItem)
    → elem a (load out raw) ≡ (elem a out || (elem a raw && is_named a))
unfolding load elem
elem-load a out [] = ground arith
elem-load a out (item ∷ raw) = ground (
  arith,
  elem-load a (if is_named item && not (elem item out) then out ++ item ∷ [] else out) raw,
  elem-append a out (item ∷ []),
  item_key.test_iff a item,
)

-- What the next start finds, if it can read the file.
abbrev pub is_pending : PendingItem → ModelDownloadRegistry → Bool
is_pending a r = elem a (load_pending true r)

-- What is saved is loaded again.
is_pending-save :
    (a : PendingItem) (items : List PendingItem) (r : ModelDownloadRegistry)
    → is_named a ≡ true
    → is_pending a (save_pending true items r) ≡ elem a items
unfolding elem
is_pending-save a items r named = ground (arith, elem-load a [] items, named)

elem-load_pending :
    (a : PendingItem) (readable : Bool) (r : ModelDownloadRegistry)
    → elem a (load_pending readable r) ≡ (readable && is_pending a r)
unfolding elem
elem-load_pending a true r = refl
elem-load_pending a false r = refl

pub is_pending-schedule :
    (a item : PendingItem) (readable : Bool) (r : ModelDownloadRegistry)
    → is_named a ≡ true
    → is_pending a (schedule readable true item r) ≡ (readable && is_pending a r || a == item)
unfolding schedule elem
is_pending-schedule a item readable r named =
    elim (Bool-cases (elem item (load_pending readable r))) [
      | inl old ↦
          rw (old, schedule) ground
            (arith, old, elem-load_pending item readable r, item_key.test_iff a item)
      | inr new ↦
          rw (new, schedule) ground
            (
              arith,
              is_pending-save a (load_pending readable r ++ item ∷ []) r named,
              elem-append a (load_pending readable r) (item ∷ []),
              elem-load_pending a readable r,
            )
    ]

pub is_pending-complete :
    (a item : PendingItem) (readable : Bool) (r : ModelDownloadRegistry)
    → is_named a ≡ true
    → is_pending a (complete readable true item r) ≡ (readable && is_pending a r && not (a == item))
unfolding complete
is_pending-complete a item readable r named = ground (
  arith,
  is_pending-save a (remove item (load_pending readable r))
      (record r { active = remove item r.active }) named,
  elem-select a (λ other. not (other == item)) (load_pending readable r),
  elem-load_pending a readable r,
)

-- What an install that fails leaves pending.
abbrev pub pending_after_fail : Bool → Bool → PendingItem → PendingItem → Bool → Bool
pending_after_fail keep_pending readable a item before =
    if keep_pending then readable && before || a == item else before && not (readable && a == item)

pub is_pending-fail :
    (a item : PendingItem) (keep_pending readable : Bool) (r : ModelDownloadRegistry)
    → is_named a ≡ true
    → is_pending a (fail readable true item keep_pending r)
      ≡ pending_after_fail keep_pending readable a item (is_pending a r)
unfolding fail
is_pending-fail a item true readable r named =
    is_pending-schedule a item readable (record r { active = remove item r.active }) named
is_pending-fail a item false readable r named =
    elim (Bool-cases (elem item (load_pending readable r))) [
      | inl old ↦
          rw (old, fail) ground
            (
              arith,
              is_pending-save a (remove item (load_pending readable r))
                  (record r { active = remove item r.active }) named,
              elem-select a (λ other. not (other == item)) (load_pending readable r),
              elem-load_pending a readable r,
              elem-load_pending item readable r,
              old,
            )
      | inr new ↦
          rw (new, fail) ground
            (arith, new, elem-load_pending item readable r, item_key.test_iff a item)
    ]

-- If the file can be written, for installs whose kind and key are not empty: an install is pending
-- once it is scheduled or begun, or fails in a way that keeps it; it is not once it completes, or
-- fails otherwise and the file can be read. If the file can be read, no operation touches another
-- install. If it cannot, the others are lost, but when an install fails and is not kept: then
-- nothing changes.
pub pending_lem :
    (a item : PendingItem) (keep_pending readable : Bool) (r : ModelDownloadRegistry)
    → is_named a ≡ true
    → (is_pending a (schedule readable true item r) ≡ (readable && is_pending a r || a == item))
      × (is_pending a (begin readable true item r) ≡ (readable && is_pending a r || a == item))
      × (is_pending a (complete readable true item r)
          ≡ (readable && is_pending a r && not (a == item)))
      × (is_pending a (fail readable true item keep_pending r)
          ≡ pending_after_fail keep_pending readable a item (is_pending a r))
unfolding begin
pending_lem a item keep_pending readable r named = (
  is_pending-schedule a item readable r named,
  is_pending-schedule a item readable (record r { active = add item r.active }) named,
  is_pending-complete a item readable r named,
  is_pending-fail a item keep_pending readable r named,
)

pub is_pending-keep_for_restart :
    (a : PendingItem) (readable : Bool) (items : List PendingItem) (r : ModelDownloadRegistry)
    → is_named a ≡ true
    → is_pending a (keep_for_restart readable true items r)
      ≡ (readable && is_pending a r || elem a items)
unfolding keep_for_restart
is_pending-keep_for_restart a readable items r named = ground (
  arith,
  is_pending-save a (update (load_pending readable r) items) r named,
  elem-update a (load_pending readable r) items,
  elem-load_pending a readable r,
)

pub abort_all_and_revert_lem :
    (a : PendingItem) (readable again : Bool) (r : ModelDownloadRegistry)
    → is_named a ≡ true
    → (readable || again) ≡ true
    → (is_pending a (abort_all_and_revert readable again true r).0
        ≡ (is_pending a r || elem a r.active))
      × (elem a (abort_all_and_revert readable again true r).1
          ≡ (readable && is_pending a r || elem a r.active))
      × ((abort_all_and_revert readable again true r).0.active ≡ [])
unfolding abort_all_and_revert clear_cancel request_cancel keep_for_restart elem
abort_all_and_revert_lem a readable again r named one_read =
    let both = λ (b : PendingItem). elem-update b r.active (load_pending readable r) in
    let read = elem-load_pending a readable r in
    elim (List-cases (items_to_abort readable r)) [
      | inl idle ↦
          rw (idle, abort_all_and_revert)
            (
              ground (arith, both a, idle, read),
              ground (arith, both a, idle, read),
              nil_of_no_elem r.active (λ b. ground (arith, both b, idle)),
            )
      | inr (item, items, some_work) ↦
          rw (some_work, abort_all_and_revert)
            (
              ground (
                arith,
                is_pending-keep_for_restart a again (item ∷ items) (request_cancel true r) named,
                both a,
                some_work,
                read,
                one_read,
              ),
              ground (arith, both a, some_work, read),
              refl,
            )
    ]
