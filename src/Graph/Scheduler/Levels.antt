-- ===== src/Graph/Scheduler/Levels.antt =====
-- The levels that `execution_waves` of backend/graph/scheduler.py returns.
use mathlib.Core.List.{Perm}
use mathlib.Core.List.Perm
use lluna.Prelude.{
  String, ◌≡◌, refl, ap, ◌≢◌, true, false, not, List, [], ◌∷◌, ◌++◌, length, reject, concat,
  concat-concat, append_assoc, append-nil, select-append-reject-perm, arith,
}
use lluna.Prelude.Key.{string_key}
use lluna.Prelude.Sets.{
  elem, update, elem-append, elem-select, elem-update, select-ext, subset-elem, not-subset,
}
use lluna.Prelude.Perms.{elem-perm}
use lluna.Prelude.Dict.{Dict}
use lluna.Graph.Schema.{WorkflowEdge}
use lluna.Graph.Scheduler.{Plan, ok, cycle, out_of_fuel, ready, execution_waves, dependencies}
use lluna.Graph.Scheduler.Dependencies.{sources, Depends, elem-dependencies}
use lluna.Graph.Scheduler.Rounds.{wave, later, Rule, rounds_ind}

-- The nodes of each level are new, and what they depend on stands in the levels before.
abbrev pub IsLevelled : (String → String → Type 0) → List String → List (List String) → Type 0
IsLevelled R seen [] = Unit
IsLevelled R seen (level ∷ levels) =
    ((n : String) → elem n level ≡ true → elem n seen ≡ false)
    × ((s n : String) → elem n level ≡ true → R s n → elem s seen ≡ true)
    × IsLevelled R (seen ++ level) levels

IsLevelled-snoc :
    {R : String → String → Type 0} (seen level : List String) (levels : List (List String))
    → IsLevelled R seen levels
    → ((n : String) → elem n level ≡ true → elem n (seen ++ concat levels) ≡ false)
    → ((s n : String) → elem n level ≡ true → R s n → elem s (seen ++ concat levels) ≡ true)
    → IsLevelled R seen (levels ++ level ∷ [])
IsLevelled-snoc seen level [] h new deps = (rw append-nil at new, rw append-nil at deps, tt)
IsLevelled-snoc seen level (l ∷ levels) h new deps = (
  h.0,
  h.1,
  IsLevelled-snoc (seen ++ l) level levels h.2 (rw (← append_assoc) at new)
      (rw (← append_assoc) at deps),
)

module _ (remaining : Dict String (List String)) (node_ids : List String) where
  record Inv (waves : List (List String)) (settled queue : List String) : Type 0 where
    perm : Perm (concat waves ++ queue) node_ids
    members : (x : String) → elem x settled ≡ elem x (concat waves)
    apart : (x : String) → elem x queue ≡ true → elem x settled ≡ false
    levels : IsLevelled (λ s n. elem s (sources remaining n) ≡ true) [] waves

  -- What leaves the queue is the wave.
  later-eq-reject :
      (settled queue : List String)
      → ((x : String) → elem x queue ≡ true → elem x settled ≡ false)
      → later remaining settled queue ≡ reject (ready remaining settled) queue
  later-eq-reject settled queue apart = select-ext _ _ queue λ n here. ground (
    arith,
    elem-update n settled (wave remaining settled queue),
    elem-select n (ready remaining settled) queue,
    apart n here,
  )

  ready-elem :
      (settled : List String) (s n : String)
      → elem s (sources remaining n) ≡ true
      → ready remaining settled n ≡ true
      → elem s settled ≡ true
  unfolding ready
  ready-elem settled s n dep here = subset-elem s (sources remaining n) settled here dep

  Inv-round :
      (waves : List (List String)) (settled queue : List String)
      → Inv waves settled queue
      → Inv
          (waves ++ wave remaining settled queue ∷ [])
          (update settled (wave remaining settled queue))
          (later remaining settled queue)
  Inv-round waves settled queue h =
      let now = wave remaining settled queue in
      record {
        perm =
            rw (concat-concat waves now, later-eq-reject settled queue h.apart, append_assoc)
              (Perm.trans
                (Perm.append_left (concat waves)
                  (select-append-reject-perm (ready remaining settled) queue))
                h.perm);
        members = λ x. ground (
          arith,
          h.members x,
          elem-update x settled now,
          ap (elem x) (concat-concat waves now),
          elem-append x (concat waves) now,
        );
        apart = λ x here. ground (
          arith,
          elem-update x settled now,
          elem-select x (λ n. not (elem n (update settled now))) queue,
        );
        levels =
            IsLevelled-snoc [] now waves h.levels
              (λ n here.
                ground
                  (arith, h.members n, h.apart n, elem-select n (ready remaining settled) queue))
              (λ s n here dep. ground (
                arith,
                h.members s,
                ready-elem settled s n dep,
                elem-select n (ready remaining settled) queue,
              ));
      }

  Inv-start : Inv [] [] node_ids
  unfolding elem
  Inv-start = record { perm = Perm.rfl; members = λ x. refl; apart = λ x h. refl; levels = tt }

  -- In a queue with an empty wave, each node waits for another node of the queue.
  stuck_waits :
      (waves : List (List String)) (settled queue : List String)
      → ((s n : String) → elem s (sources remaining n) ≡ true → elem s node_ids ≡ true)
      → Inv waves settled queue
      → wave remaining settled queue ≡ []
      → (n : String) → elem n queue ≡ true
      → (s : String) × (elem s queue ≡ true) × (elem s (sources remaining n) ≡ true)
  unfolding ready elem
  stuck_waits waves settled queue closed h e n here =
      let waits : ready remaining settled n ≡ false =
        ground (arith, here, elem-select n (ready remaining settled) queue, ap (elem n) e) in
      let (s, dep, out) = not-subset (sources remaining n) settled waits in
      (
        s,
        ground (
          arith,
          closed s n dep,
          elem-perm s h.perm,
          elem-append s (concat waves) queue,
          h.members s,
        ),
        dep,
      )

module _ (node_ids : List String) (edges : List WorkflowEdge) where
  -- What holds of the outcome of `execution_waves`.
  abbrev pub Scheduled : Plan → Type 0
  Scheduled (ok waves) = Perm (concat waves) node_ids × IsLevelled (Depends node_ids edges) [] waves
  Scheduled (cycle queue) =
      (queue ≢ [])
      × ((n : String)
          → elem n queue ≡ true
          → (s : String) × (elem s queue ≡ true) × Depends node_ids edges s n)
  Scheduled out_of_fuel = ⊥

  IsLevelled-Depends :
      (seen : List String) (waves : List (List String))
      → IsLevelled (λ s n. elem s (sources (dependencies node_ids edges) n) ≡ true) seen waves
      → IsLevelled (Depends node_ids edges) seen waves
  IsLevelled-Depends seen [] h = tt
  IsLevelled-Depends seen (level ∷ levels) h = (
    h.0,
    λ s n here dep. h.1 s n here ((elem-dependencies node_ids edges s n).1 dep),
    IsLevelled-Depends (seen ++ level) levels h.2,
  )

  rule : Rule (dependencies node_ids edges) (Inv (dependencies node_ids edges) node_ids) Scheduled
  rule = record {
    finish = λ waves settled h. (rw append-nil at h.perm, IsLevelled-Depends [] waves h.levels);
    stuck = λ waves settled q qs h e. (
      (λ p. cc p),
      λ n here.
          let deps = dependencies node_ids edges in
          let (s, waits, dep) =
            stuck_waits deps node_ids waves settled (q ∷ qs)
              (λ s m d. ((elem-dependencies node_ids edges s m).0 d).1) h e n here in
          (s, waits, (elem-dependencies node_ids edges s n).0 dep),
    );
    round = Inv-round (dependencies node_ids edges) node_ids;
  }

-- `execution_waves` always ends. If it returns, its levels hold the given nodes, each as often as
-- it was given, and a node stands in a level behind the levels of all the nodes it depends on. If
-- it raises DependencyCycle, the nodes that it names are some, and each of them depends on another
-- of them.
pub execution_waves-Scheduled :
    (node_ids : List String) (edges : List WorkflowEdge)
    → Scheduled node_ids edges (execution_waves node_ids edges)
unfolding execution_waves
execution_waves-Scheduled node_ids edges =
    rounds_ind (rule node_ids edges) (length node_ids) [] [] node_ids (omega arith)
      (Inv-start (dependencies node_ids edges) node_ids)
