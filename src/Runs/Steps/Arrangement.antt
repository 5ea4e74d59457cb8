-- ===== src/Runs/Steps/Arrangement.antt =====
-- The order of the queue of backend/graph/executor.py.

use lluna.Prelude.{
  ℕ, ◌+◌, ◌≤◌, ◌≡◌, refl, sym, subst, Bool, true, false, List, [], ◌∷◌, ◌++◌, arith, select, reject,
  inl, inr, ◌⊎◌,
}
use lluna.Prelude.Int.{pos, negsuc, int_lt}
use lluna.Prelude.Key.{string_key}
use lluna.Prelude.Sort.{insert}
use lluna.Runs.Manager.{Entry, entry_le, priority_of}

-- The run was started with `queue_front`.
abbrev pub is_front : Entry → Bool
is_front entry = int_lt entry.priority (pos 0)

-- Runs of the back, numbered up to `n`.
abbrev pub AreBack : ℕ → List Entry → Type 0
AreBack n [] = Unit
AreBack n (entry ∷ queue) = (entry.priority ≡ pos 0) × (entry.sequence ≤ n) × AreBack n queue

-- Runs of the front, and then runs of the back, numbered up to `n`.
abbrev pub IsArranged : ℕ → List Entry → Type 0
IsArranged n [] = Unit
IsArranged n (entry ∷ queue) =
    AreBack n (entry ∷ queue)
    ⊎ (entry.priority ≡ negsuc 0) × (entry.sequence ≤ n) × IsArranged n queue

-- Where a new run belongs.
abbrev pub placed : Bool → Entry → List Entry → List Entry
placed true entry queue = select is_front queue ++ entry ∷ reject is_front queue
placed false entry queue = queue ++ entry ∷ []

AreBack-weaken : (n : ℕ) (queue : List Entry) → AreBack n queue → AreBack (n + 1) queue
AreBack-weaken n [] h = tt
AreBack-weaken n (entry ∷ queue) h = (h.0, omega arith, AreBack-weaken n queue h.2)

pub IsArranged-weaken : (n : ℕ) (queue : List Entry) → IsArranged n queue → IsArranged (n + 1) queue
IsArranged-weaken n [] h = tt
IsArranged-weaken n (entry ∷ queue) (inl h) = inl (AreBack-weaken n (entry ∷ queue) h)
IsArranged-weaken n (entry ∷ queue) (inr h) = inr (h.0, omega arith, IsArranged-weaken n queue h.2)

insert-back :
    (n : ℕ) (entry : Entry) (queue : List Entry)
    → AreBack n queue
    → entry.priority ≡ pos 0
    → entry.sequence ≡ n + 1
    → insert entry_le entry queue ≡ queue ++ entry ∷ []
unfolding insert entry_le int_lt
insert-back n entry [] h p q = refl
insert-back n entry (e ∷ queue) h p q =
    ground (arith, h.0, h.1, p, q, insert-back n entry queue h.2 p q)

is_front-back :
    (n : ℕ) (queue : List Entry)
    → AreBack n queue
    → (select is_front queue ≡ []) × (reject is_front queue ≡ queue)
unfolding int_lt
is_front-back n [] h = (refl, refl)
is_front-back n (e ∷ queue) h = ground (arith, h.0, is_front-back n queue h.2)

placed-back :
    (n : ℕ) (entry : Entry) (queue : List Entry)
    → AreBack n queue
    → placed true entry queue ≡ entry ∷ queue
placed-back n entry queue h = let parts = is_front-back n queue h in rw (parts.0, parts.1) refl

placed-front :
    (entry e : Entry) (queue : List Entry)
    → e.priority ≡ negsuc 0
    → placed true entry (e ∷ queue) ≡ e ∷ placed true entry queue
unfolding int_lt
placed-front entry e queue h = ground (arith, h)

pub insert-placed :
    (n : ℕ) (queue_front : Bool) (entry : Entry) (queue : List Entry)
    → IsArranged n queue
    → entry.priority ≡ priority_of queue_front
    → entry.sequence ≡ n + 1
    → insert entry_le entry queue ≡ placed queue_front entry queue
unfolding insert entry_le int_lt
insert-placed n false entry [] h p q = refl
insert-placed n true entry [] h p q = refl
insert-placed n false entry (e ∷ queue) (inl h) p q = insert-back n entry (e ∷ queue) h p q
insert-placed n true entry (e ∷ queue) (inl h) p q =
    ground (arith, h.0, p, placed-back n entry (e ∷ queue) h)
insert-placed n false entry (e ∷ queue) (inr h) p q =
    ground (arith, h.0, h.1, p, q, insert-placed n false entry queue h.2 p q)
insert-placed n true entry (e ∷ queue) (inr h) p q =
    ground (arith, h.0, h.1, p, q, insert-placed n true entry queue h.2 p q)

AreBack-snoc :
    (n : ℕ) (entry : Entry) (queue : List Entry)
    → AreBack n queue
    → entry.priority ≡ pos 0
    → entry.sequence ≤ n
    → AreBack n (queue ++ entry ∷ [])
AreBack-snoc n entry [] h p q = (p, q, tt)
AreBack-snoc n entry (e ∷ queue) h p q = (h.0, h.1, AreBack-snoc n entry queue h.2 p q)

pub placed-IsArranged :
    (n : ℕ) (queue_front : Bool) (entry : Entry) (queue : List Entry)
    → IsArranged n queue
    → entry.priority ≡ priority_of queue_front
    → entry.sequence ≤ n
    → IsArranged n (placed queue_front entry queue)
placed-IsArranged n false entry [] h p q = inl (p, q, tt)
placed-IsArranged n true entry [] h p q = inr (p, q, tt)
placed-IsArranged n false entry (e ∷ queue) (inl h) p q =
    inl (AreBack-snoc n entry (e ∷ queue) h p q)
placed-IsArranged n true entry (e ∷ queue) (inl h) p q =
    subst (IsArranged n) (sym (placed-back n entry (e ∷ queue) h)) (inr (p, q, inl h))
placed-IsArranged n false entry (e ∷ queue) (inr h) p q =
    inr (h.0, h.1, placed-IsArranged n false entry queue h.2 p q)
placed-IsArranged n true entry (e ∷ queue) (inr h) p q =
    subst (IsArranged n) (sym (placed-front entry e queue h.0))
      (inr (h.0, h.1, placed-IsArranged n true entry queue h.2 p q))

AreBack-IsArranged : (n : ℕ) (queue : List Entry) → AreBack n queue → IsArranged n queue
AreBack-IsArranged n [] h = tt
AreBack-IsArranged n (e ∷ queue) h = inl h

pub IsArranged-tail :
    (n : ℕ) (e : Entry) (queue : List Entry) → IsArranged n (e ∷ queue) → IsArranged n queue
IsArranged-tail n e queue (inl h) = AreBack-IsArranged n queue h.2
IsArranged-tail n e queue (inr h) = h.2
