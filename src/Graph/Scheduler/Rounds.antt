-- ===== src/Graph/Scheduler/Rounds.antt =====
-- A proof rule for the `while queue` loop of `execution_waves` in backend/graph/scheduler.py.
use lluna.Prelude.{
  ℕ, zero, suc, ◌≤◌, ◌<◌, String, ◌≡◌, List, [], ◌∷◌, ◌++◌, length, select, reject, List-cases, inl,
  inr, arith,
}
use lluna.Prelude.Key.{string_key}
use lluna.Prelude.Sets.{elem, update, elem_head, elem-select, elem-update, length-reject_lt}
use lluna.Prelude.Dict.{Dict}
use lluna.Graph.Scheduler.{Plan, ok, cycle, ready, rounds}

module _ (remaining : Dict String (List String)) where
  -- The nodes of the queue whose dependencies are settled.
  abbrev pub wave : List String → List String → List String
  wave settled queue = select (ready remaining settled) queue

  -- The nodes that wait for a later round.
  abbrev pub later : List String → List String → List String
  later settled queue = reject (λ n. elem n (update settled (wave settled queue))) queue

  rounds-stuck :
      (fuel : ℕ) (waves : List (List String)) (settled : List String) (q : String)
      (qs : List String)
      → wave settled (q ∷ qs) ≡ []
      → rounds remaining (suc fuel) waves settled (q ∷ qs) ≡ cycle (q ∷ qs)
  unfolding rounds
  rounds-stuck fuel waves settled q qs e = rw (e, rounds)

  rounds-next :
      (fuel : ℕ) (waves : List (List String)) (settled : List String) (q : String)
      (qs : List String) (w : String) (ws : List String)
      → wave settled (q ∷ qs) ≡ w ∷ ws
      → rounds remaining (suc fuel) waves settled (q ∷ qs)
        ≡ rounds remaining fuel
            (waves ++ wave settled (q ∷ qs) ∷ [])
            (update settled (wave settled (q ∷ qs)))
            (later settled (q ∷ qs))
  unfolding rounds
  rounds-next fuel waves settled q qs w ws e = ground (arith, e)

  length-later_lt :
      (settled queue : List String) (w : String) (ws : List String)
      → wave settled queue ≡ w ∷ ws
      → length (later settled queue) < length queue
  length-later_lt settled queue w ws e =
      let now = wave settled queue in
      ground (
        arith,
        e,
        elem_head w ws,
        elem-select w (ready remaining settled) queue,
        elem-update w settled now,
        length-reject_lt (λ n. elem n (update settled now)) w queue,
      )

-- What to show of an invariant `P waves settled queue` and a postcondition `Q`.
pub record Rule (remaining : Dict String (List String))
    (P : List (List String) → List String → List String → Type 0) (Q : Plan → Type 0) : Type 0 where
  pub finish :
      (waves : List (List String)) (settled : List String) → P waves settled [] → Q (ok waves)
  pub stuck :
      (waves : List (List String)) (settled : List String) (q : String) (qs : List String)
      → P waves settled (q ∷ qs)
      → wave remaining settled (q ∷ qs) ≡ []
      → Q (cycle (q ∷ qs))
  pub round :
      (waves : List (List String)) (settled queue : List String)
      → P waves settled queue
      → P
          (waves ++ wave remaining settled queue ∷ [])
          (update settled (wave remaining settled queue))
          (later remaining settled queue)

module _ {remaining : Dict String (List String)}
    {P : List (List String) → List String → List String → Type 0} {Q : Plan → Type 0}
    (rule : Rule remaining P Q) where
  -- With fuel for the whole queue the loop ends by itself.
  pub rounds_ind :
      (fuel : ℕ) (waves : List (List String)) (settled queue : List String)
      → length queue ≤ fuel
      → P waves settled queue
      → Q (rounds remaining fuel waves settled queue)
  rounds_ind fuel waves settled [] h p = unfold rounds in rule.finish waves settled p
  rounds_ind zero waves settled (q ∷ qs) h p = absurd (omega arith)
  rounds_ind (suc fuel) waves settled (q ∷ qs) h p =
      elim (List-cases (wave remaining settled (q ∷ qs))) [
        | inl e ↦
            rw (rounds-stuck remaining fuel waves settled q qs e)
              (rule.stuck waves settled q qs p e)
        | inr (w, ws, e) ↦
            let shorter = length-later_lt remaining settled (q ∷ qs) w ws e in
            rw (rounds-next remaining fuel waves settled q qs w ws e) (
              rounds_ind fuel _ _ (later remaining settled (q ∷ qs)) (omega (arith, shorter))
                (rule.round waves settled (q ∷ qs) p))
      ]
