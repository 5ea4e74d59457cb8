-- ===== src/Runs/Execution/Reads/Validity.antt =====
-- What holds of the steps of a run, and the steps of a node that keep it.
use lluna.Prelude.{
  ℕ, String, true, false, not, ◌&&◌, ◌||◌, Option, none, some, List, [], ◌++◌, ◌≡◌, ◌≢◌, sym, subst,
  ap, ◌∙◌, inl, inr, arith, Bool-cases, concat,
}
use lluna.Prelude.Key.{string_key}
use lluna.Prelude.Sets.{elem, elem-append}
use lluna.Prelude.Dict.{Dict, get?, get_or, get?-put}
use lluna.Graph.Schema.{WorkflowEdge, PortDefinition, HasEdge}
use lluna.Graph.Scheduler.Dependencies.{Depends}
use lluna.Graph.Scheduler.Levels.{IsLevelled}
use lluna.Runs.Values.{Value, Store, source_key, incoming_of, input_values}
use lluna.Runs.Execution.{
  Execution, current, begin_steps, may_begin, at_work, enter, read_inputs, store_step,
}
use lluna.Runs.Execution.Reads.Sources.{feeds, input_values-store_result, HasEdge-of_feeds}
use lluna.Runs.Execution.Reads.Waves.{first_wave_new, first_wave_depends, first_wave_member}

module _ (node_ids : List String) (edges : List WorkflowEdge) where
  abbrev pub inputs : Store → String → Dict String Value
  inputs values n = input_values values (get_or [] n (incoming_of edges))

  -- A node has begun.
  abbrev pub HasRead : Execution → String → Dict String Value → Type 0
  HasRead s n i = get? n s.read ≡ some i

  pub record Inv (s : Execution) : Type 0 where
    pub levelled : IsLevelled (Depends node_ids edges) s.past s.waves
    pub active : (n : String) → elem n (s.past ++ concat s.waves) ≡ elem n node_ids
    pub settled :
        (n m : String) → elem n s.past ≡ true → Depends node_ids edges m n → elem m s.past ≡ true
    pub kept : (n : String) → elem n s.past ≡ true → elem n s.stored ≡ true
    pub collects :
        (n : String) → s.failure ≡ none → elem n s.collected ≡ true → elem n s.stored ≡ true
    pub begins :
        (n : String) (i : Dict String Value)
        → HasRead s n i
        → (elem n s.past || elem n (current s)) ≡ true
    pub same : (n : String) (i : Dict String Value) → HasRead s n i → i ≡ inputs s.values n

  -- A node that has begun does not depend on one of the wave that is being run.
  apart :
      (no_loop : (n : String) → elem n node_ids ≡ true → HasEdge edges n n → ⊥) (s : Execution)
      (n m : String) (i : Dict String Value)
      → Inv s
      → HasRead s n i
      → elem m (current s) ≡ true
      → feeds m (get_or [] n (incoming_of edges)) ≡ false
  apart no_loop s n m i inv h here = elim (Bool-cases (feeds m (get_or [] n (incoming_of edges)))) [
    | inr e ↦ e
    | inl e ↦
        let edge = HasEdge-of_feeds m edges n e in
        let new = first_wave_new (Depends node_ids edges) s.past s.waves m inv.levelled here in
        let m_active : elem m node_ids ≡ true =
          sym (inv.active m) ∙ first_wave_member (Depends node_ids edges) s.past s.waves m here in
        let differ : elem n node_ids ≡ true → m ≢ n =
          λ a p. no_loop n a (subst (λ k. HasEdge edges k n) p edge) in
        elim (Bool-cases (elem n s.past)) [
          | inl old ↦
              let n_active : elem n node_ids ≡ true =
                sym (inv.active n) ∙ ground (arith, elem-append n s.past (concat s.waves)) in
              let settled = inv.settled n m old (n_active, m_active, differ n_active, edge) in
              ground arith
          | inr young ↦
              let there : elem n (current s) ≡ true = ground (arith, inv.begins n i h) in
              let n_active : elem n node_ids ≡ true =
                sym (inv.active n)
                ∙ first_wave_member (Depends node_ids edges) s.past s.waves n there in
              let settled =
                first_wave_depends (Depends node_ids edges) s.past s.waves m n inv.levelled there
                  (n_active, m_active, differ n_active, edge) in
              ground arith
        ]
  ]

  pub Inv-begin_steps :
      (values : Store) (waves : List (List String)) (total : ℕ)
      → IsLevelled (Depends node_ids edges) [] waves
      → ((n : String) → elem n (concat waves) ≡ elem n node_ids)
      → Inv (begin_steps values waves total)
  unfolding elem get?
  Inv-begin_steps values waves total levels members = record {
    levelled = levels;
    active = members;
    settled = λ n m h d. ground arith;
    kept = λ n h. ground arith;
    collects = λ n f h. ground arith;
    begins = λ n i h. ground arith;
    same = λ n i h. ground arith;
  }

  pub Inv-enter : (n : String) (s : Execution) → Inv s → Inv (enter n s)
  unfolding enter
  Inv-enter n s inv =
      elim (Bool-cases (elem n (current s) && not (elem n s.entered) && not s.cancel)) [
        | inr e ↦ rw e inv
        | inl e ↦ rw e (record {
          levelled = inv.levelled;
          active = inv.active;
          settled = inv.settled;
          kept = inv.kept;
          collects = inv.collects;
          begins = inv.begins;
          same = inv.same;
        })
      ]

  pub Inv-read_inputs :
      (n : String) (s : Execution) → Inv s → Inv (read_inputs (incoming_of edges) n s)
  unfolding read_inputs may_begin
  Inv-read_inputs n s inv = elim (Bool-cases (may_begin n s)) [
    | inr e ↦ rw e inv
    | inl e ↦ rw e (record {
      levelled = inv.levelled;
      active = inv.active;
      settled = inv.settled;
      kept = inv.kept;
      collects = inv.collects;
      begins = λ m i h. elim (Bool-cases (string_key.test m n)) [
        | inl q ↦
            let here : elem n (current s) ≡ true = ground arith in
            let at : m ≡ n = ground (arith, string_key.test_iff m n) in
            let there : elem m (current s) ≡ true =
              subst (λ k. elem k (current s) ≡ true) (sym at) here in
            ground arith
        | inr q ↦ inv.begins m i (ground (arith, get?-put n m (inputs s.values n) s.read))
      ];
      same = λ m i h. elim (Bool-cases (string_key.test m n)) [
        | inl q ↦
            let at : m ≡ n = ground (arith, string_key.test_iff m n) in
            let new : inputs s.values n ≡ i =
              ground (arith, get?-put n m (inputs s.values n) s.read) in
            sym new ∙ ap (inputs s.values) (sym at)
        | inr q ↦ inv.same m i (ground (arith, get?-put n m (inputs s.values n) s.read))
      ];
    })
  ]

  pub Inv-store_step :
      (no_loop : (n : String) → elem n node_ids ≡ true → HasEdge edges n n → ⊥)
      (outputs : List PortDefinition) (n : String) (result : Option Value) (s : Execution)
      → Inv s
      → Inv (store_step outputs n result s)
  unfolding store_step elem at_work
  Inv-store_step no_loop outputs n result s inv = elim (Bool-cases (at_work n s)) [
    | inr e ↦ rw e inv
    | inl e ↦ rw e (record {
      levelled = inv.levelled;
      active = inv.active;
      settled = inv.settled;
      kept = λ m h. ground (arith, inv.kept m h);
      collects = λ m f h. ground (arith, inv.collects m f h);
      begins = inv.begins;
      same = λ m i h.
          inv.same m i h
          ∙ sym (
              input_values-store_result n outputs result s.values (get_or [] m (incoming_of edges))
                (apart no_loop s m n i inv h (ground arith)));
    })
  ]
