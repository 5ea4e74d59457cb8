-- ===== src/Runs/Execution/Progress/Sequence.antt =====
-- The loop with one worker runs all waves of a plan of distinct nodes.
use lluna.Prelude.{
  ℕ, ◌+◌, String, true, false, ◌||◌, Option, none, List, [], ◌∷◌, ◌++◌, ◌≡◌, refl, sym, subst, ◌∙◌,
  inl, inr, arith, concat, Bool-cases,
}
use lluna.Prelude.Key.{string_key}
use lluna.Prelude.Sets.{elem, subset, not-subset}
use lluna.Prelude.Dict.{get?, get?-put, get_or, put}
use lluna.Prelude.Distinct.{IsDistinct, IsDistinct-right}
use lluna.Graph.Schema.{PortDefinition}
use lluna.Runs.Values.{Value, Store, Incoming, input_values, store_result}
use lluna.Runs.Execution.{
  Execution, current, first_wave, begin_steps, enter, read_inputs, store_step, advance, next_wave,
  may_begin, at_work, percent,
}
use lluna.Runs.Execution.Steps.{Reach, enters, reads, stores, advances, proceeds}
use lluna.Runs.Execution.Sequence.{run_step, run_wave, run_waves}

-- Nothing of the step of the node is done.
abbrev IsNew : String → Execution → Type 0
IsNew n s =
    (elem n s.entered ≡ false)
    × (get? n s.read ≡ none)
    × (elem n s.stored ≡ false)
    × (elem n s.collected ≡ false)

-- The run goes on.
abbrev pub GoesOn : Execution → Type 0
GoesOn s = (s.failure ≡ none) × (s.cancel ≡ false)

module _ (incoming : Incoming) (outputs : String → List PortDefinition)
    (work : String → Option Value) where
  -- The state after the step of a node.
  abbrev after : String → Execution → Execution
  after n s = record s {
    entered = n ∷ s.entered;
    read = put n (input_values s.values (get_or [] n incoming)) s.read;
    values = store_result n (outputs n) (work n) s.values;
    stored = n ∷ s.stored;
    collected = n ∷ s.collected;
    finished = s.finished + 1;
    progress = percent (s.finished + 1) s.total;
  }

  run_step_lem :
      (n : String) (s : Execution)
      → elem n (current s) ≡ true
      → s.cancel ≡ false
      → IsNew n s
      → run_step incoming outputs work n s ≡ after n s
  unfolding run_step enter read_inputs store_step advance may_begin at_work elem
  run_step_lem n s here going (e, r, t, c) = ground (
    arith,
    here,
    going,
    e,
    r,
    t,
    c,
    string_key.test_iff n n,
    get?-put n n (input_values s.values (get_or [] n incoming)) s.read,
  )

  abbrev Fresh : List String → Execution → Type 0
  Fresh todo s = (m : String) → elem m todo ≡ true → IsNew m s

  -- What the steps of a wave leave, with the nodes `later` still to run.
  abbrev Ran : List String → List String → Execution → Execution → Type 0
  Ran wave later s s' =
      (s'.waves ≡ s.waves)
      × GoesOn s'
      × Fresh later s'
      × ((m : String) → (elem m wave || elem m s.collected) ≡ true → elem m s'.collected ≡ true)

  run_wave-Ran :
      (wave later : List String) (s : Execution)
      → ((m : String) → elem m wave ≡ true → elem m (current s) ≡ true)
      → GoesOn s
      → Fresh (wave ++ later) s
      → IsDistinct (wave ++ later)
      → Ran wave later s (run_wave incoming outputs work wave s)
  unfolding run_wave elem
  run_wave-Ran [] later s inside goes fresh d = (refl, goes, fresh, λ m h. h)
  run_wave-Ran (n ∷ wave) later s inside goes fresh d =
      let at =
        run_step_lem n s (inside n (ground (arith, string_key.test_iff n n))) goes.1
          (fresh n (ground (arith, string_key.test_iff n n))) in
      let apart : (m : String) → elem m (wave ++ later) ≡ true → string_key.test m n ≡ false =
        λ m h. ground (arith, string_key.test_iff m n, d.0) in
      let rest =
        run_wave-Ran wave later (after n s) (λ m h. inside m (ground (arith, h))) goes
          (λ m h. (
            ground (arith, apart m h, (fresh m (ground (arith, h))).0),
            get?-put n m (input_values s.values (get_or [] n incoming)) s.read
                ∙ ground (arith, apart m h, (fresh m (ground (arith, h))).1),
            ground (arith, apart m h, (fresh m (ground (arith, h))).2),
            ground (arith, apart m h, (fresh m (ground (arith, h))).3),
          ))
          d.1 in
      subst (λ t. Ran (n ∷ wave) later s (run_wave incoming outputs work wave t)) (sym at)
        (rest.0, rest.1, rest.2, λ m h. rest.3 m (ground (arith, h)))

  run_waves-end :
      (waves : List (List String)) (s : Execution)
      → s.waves ≡ waves
      → GoesOn s
      → Fresh (concat waves) s
      → IsDistinct (concat waves)
      → ((run_waves incoming outputs work waves s).waves ≡ [])
        × GoesOn (run_waves incoming outputs work waves s)
  unfolding run_waves next_wave elem
  run_waves-end [] s at goes fresh d = (at, goes)
  run_waves-end (wave ∷ waves) s at goes fresh d =
      let (same, goes_on, fresh_later, done) =
        run_wave-Ran wave (concat waves) s
          (λ m h. subst (λ w. elem m (first_wave w) ≡ true) (sym at) h) goes fresh d in
      let s1 = run_wave incoming outputs work wave s in
      let full : subset wave s1.collected ≡ true = elim (Bool-cases (subset wave s1.collected)) [
        | inl whole ↦ whole
        | inr part ↦
            let (m, member, out) = not-subset wave s1.collected part in
            absurd (ground (arith, done m, member, out))
      ] in
      let s2 : Execution = record s1 { waves = waves; past = s1.past ++ wave; collected = [] } in
      let next : next_wave s1 ≡ s2 = ground (arith, same ∙ at, goes_on.0, full) in
      subst
        (λ t.
          ((run_waves incoming outputs work waves t).waves ≡ [])
          × GoesOn (run_waves incoming outputs work waves t))
        (sym next)
        (run_waves-end waves s2 refl goes_on
          (λ m h. (let n = fresh_later m h in (n.0, n.1, n.2, refl)))
          (IsDistinct-right wave (concat waves) d))

  module _ (values : Store) (plan : List (List String)) (total : ℕ) where
    run_wave-Reach :
        (wave : List String) (s : Execution)
        → Reach values incoming plan total s
        → Reach values incoming plan total (run_wave incoming outputs work wave s)
    unfolding run_wave run_step
    run_wave-Reach [] s r = r
    run_wave-Reach (n ∷ wave) s r =
        run_wave-Reach wave _
          (advances n _ (stores (outputs n) n (work n) _ (reads n _ (enters n s r))))

    -- The loop with one worker makes steps that the threads of a pool may make too.
    pub run_waves-Reach :
        (waves : List (List String)) (s : Execution)
        → Reach values incoming plan total s
        → Reach values incoming plan total (run_waves incoming outputs work waves s)
    unfolding run_waves
    run_waves-Reach [] s r = r
    run_waves-Reach (wave ∷ waves) s r =
        run_waves-Reach waves _ (proceeds _ (run_wave-Reach wave s r))

  -- From its start on, the loop comes to the end of the waves, and no step fails.
  pub run_waves-begin :
      (values : Store) (waves : List (List String)) (total : ℕ)
      → IsDistinct (concat waves)
      → ((run_waves incoming outputs work waves (begin_steps values waves total)).waves ≡ [])
        × GoesOn (run_waves incoming outputs work waves (begin_steps values waves total))
  unfolding elem get?
  run_waves-begin values waves total d =
      run_waves-end waves (begin_steps values waves total) refl (refl, refl)
        (λ m h. (refl, refl, refl, refl)) d
