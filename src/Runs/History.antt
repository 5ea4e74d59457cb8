-- ===== src/Runs/History.antt =====
-- What `_prune_history_locked` and `history` of backend/graph/executor.py keep.
use mathlib.Core.List.{Perm}
use lluna.Prelude.{
  ◌≤◌, ◌-◌, map, length-append, min, length, ◌++◌, take, drop, take-append-drop, length-take, sym,
  subst, ℕ, String, ◌≡◌, refl, ap, ◌∙◌, ◌⊎◌, true, false, Option, none, some, List, [], ◌∷◌, arith,
  if◌then◌else◌,
}
use lluna.Prelude.Sets.{elem}
use lluna.Prelude.Key.{string_key}
use lluna.Prelude.Dict.{Dict, get?, discard, get?-discard}
use lluna.Prelude.Int.{ℤ, pos, negsuc}
use lluna.Prelude.Perms.{length-perm}
use lluna.Prelude.Sort.{text_le_total, text_le_trans, sort, IsSorted, sort-perm, sort-IsSorted}
use lluna.Runs.Manager.{RunControl, RunManager}
use lluna.Runs.Dispatch.{
  pop_all, prune, drop_last, older, terminal, newer, history, effective_limit,
}

get?-pop_all :
    (j : String) (xs : List (String × RunControl)) (runs : Dict String RunControl)
    → get? j (pop_all xs runs) ≡ (if elem j (map (λ run. run.0) xs) then none else get? j runs)
unfolding pop_all elem
get?-pop_all j [] runs = refl
get?-pop_all j ((i, control) ∷ xs) runs =
    ground (arith, get?-pop_all j xs (discard i runs), get?-discard i j runs)

pub get?-prune :
    (j : String) (limit : ℕ) (runs : Dict String RunControl)
    → (get? j (prune limit runs) ≡ none) ⊎ (get? j (prune limit runs) ≡ get? j runs)
unfolding prune
get?-prune j limit runs =
    ground (arith, get?-pop_all j (drop_last limit (sort older (terminal runs))) runs)

older_total : (a b : String × RunControl) → older a b ≡ false → older b a ≡ true
unfolding older
older_total (i, a) (j, b) h = ground (arith, h, text_le_total i j)

older_trans : (a b c : String × RunControl) → older a b ≡ true → older b c ≡ true → older a c ≡ true
unfolding older
older_trans (i, a) (j, b) (k, c) h g = ground (arith, h, g, text_le_trans i j k)

-- With a limit of at least 1, pruning splits the runs that have ended, sorted from the oldest on,
-- in two parts. It forgets the runs of the first part and no other; the second part has as many
-- runs as the limit, or all.
pub prune_lem :
    (limit : ℕ) (runs : Dict String RunControl)
    → 1 ≤ limit
    → (popped kept : List (String × RunControl)) × Perm (popped ++ kept) (terminal runs)
      × IsSorted older (popped ++ kept)
      × (length kept ≡ min limit (length (terminal runs)))
      × ((id : String)
          → get? id (prune limit runs)
            ≡ (if elem id (map (λ run. run.0) popped) then none else get? id runs))
unfolding prune drop_last
prune_lem limit runs h =
    let ended = sort older (terminal runs) in
    let n = length ended - limit in
    let whole = take-append-drop n ended in
    let size = length-perm (sort-perm older (terminal runs)) in
    (
      take n ended,
      drop n ended,
      subst (λ xs. Perm xs (terminal runs)) (sym whole) (sort-perm older (terminal runs)),
      subst (IsSorted older) (sym whole)
          (sort-IsSorted older older_total older_trans (terminal runs)),
      omega (
        arith,
        size,
        length-append (take n ended) (drop n ended),
        ap length whole,
        length-take n ended,
      ),
      λ id. ground (arith, h, get?-pop_all id (take n ended) runs),
    )

newer_total : (a b : String × RunControl) → newer a b ≡ false → newer b a ≡ true
unfolding newer
newer_total (i, a) (j, b) h = ground (arith, h)

newer_trans : (a b c : String × RunControl) → newer a b ≡ true → newer b c ≡ true → newer a c ≡ true
unfolding newer
newer_trans (i, a) (j, b) (k, c) h g = ground (arith, h, g)

effective_limit_bounds :
    (limit : Option ℤ) (configured : ℕ)
    → 1 ≤ configured
    → (1 ≤ effective_limit limit configured) × (effective_limit limit configured ≤ configured)
unfolding effective_limit
effective_limit_bounds none configured h = (omega arith, omega arith)
effective_limit_bounds (some (pos n)) configured h = (omega arith, omega arith)
effective_limit_bounds (some (negsuc n)) configured h = (omega arith, omega arith)

-- `history` returns the runs that have ended, newest first, and as many as it may: all of them, or
-- the limit, which is at least 1 and at most the configured one. The runs that it leaves out are not
-- newer.
pub history_lem :
    (limit : Option ℤ) (configured : ℕ) (m : RunManager)
    → 1 ≤ configured
    → (rest : List (String × RunControl)) × Perm
        (history limit configured m ++ rest)
        (terminal m.runs)
      × IsSorted newer (history limit configured m ++ rest)
      × (length (history limit configured m)
          ≡ min (effective_limit limit configured) (length (terminal m.runs)))
      × (1 ≤ effective_limit limit configured)
      × (effective_limit limit configured ≤ configured)
unfolding history
history_lem limit configured m h =
    let n = effective_limit limit configured in
    let ended = sort newer (terminal m.runs) in
    let whole = take-append-drop n ended in
    (
      drop n ended,
      subst (λ xs. Perm xs (terminal m.runs)) (sym whole) (sort-perm newer (terminal m.runs)),
      subst (IsSorted newer) (sym whole)
          (sort-IsSorted newer newer_total newer_trans (terminal m.runs)),
      length-take n ended ∙ ap (min n) (length-perm (sort-perm newer (terminal m.runs))),
      (effective_limit_bounds limit configured h).0,
      (effective_limit_bounds limit configured h).1,
    )
