-- ===== src/Runs/Execution/Reads/Collecting.antt =====
-- What the main loop does keeps what holds of the steps of a run.
use lluna.Prelude.{
  String, true, not, ◌&&◌, none, List, [], ◌∷◌, ◌++◌, ◌≡◌, sym, subst, ap, ◌∙◌, inl, inr, arith,
  Bool-cases, Option-cases, List-cases, concat, append_assoc,
}
use lluna.Prelude.Key.{string_key}
use lluna.Prelude.Sets.{elem, subset, elem-append, subset-elem}
use lluna.Graph.Schema.{WorkflowEdge}
use lluna.Graph.Scheduler.Dependencies.{Depends}
use lluna.Graph.Scheduler.Levels.{IsLevelled}
use lluna.Runs.Values.{source_key}
use lluna.Runs.Execution.{Execution, first_wave, current, advance, fail, next_wave}
use lluna.Runs.Execution.Reads.Validity.{Inv}

module _ (node_ids : List String) (edges : List WorkflowEdge) where
  pub Inv-advance :
      (n : String) (s : Execution) → Inv node_ids edges s → Inv node_ids edges (advance n s)
  unfolding advance elem
  Inv-advance n s inv =
      elim (Bool-cases (elem n (current s) && elem n s.stored && not (elem n s.collected))) [
        | inr e ↦ rw e inv
        | inl e ↦ rw e (record {
          levelled = inv.levelled;
          active = inv.active;
          settled = inv.settled;
          kept = inv.kept;
          collects = λ m f h. elim (Bool-cases (string_key.test m n)) [
            | inl q ↦
                let here : elem n s.stored ≡ true = ground arith in
                let at : m ≡ n = ground (arith, string_key.test_iff m n) in
                subst (λ k. elem k s.stored ≡ true) (sym at) here
            | inr q ↦ inv.collects m f (ground arith)
          ];
          begins = inv.begins;
          same = inv.same;
        })
      ]

  pub Inv-fail :
      (n code : String) (s : Execution) → Inv node_ids edges s → Inv node_ids edges (fail n code s)
  unfolding fail elem
  Inv-fail n code s inv = elim (Bool-cases (elem n (current s) && not (elem n s.collected))) [
    | inr e ↦ rw e inv
    | inl e ↦ elim (Option-cases s.failure) [
      | inl f ↦
          rw (e, f)
            (record {
              levelled = inv.levelled;
              active = inv.active;
              settled = inv.settled;
              kept = inv.kept;
              collects = λ m g h. ground arith;
              begins = inv.begins;
              same = inv.same;
            })
      | inr (first, f) ↦
          rw (e, f)
            (record {
              levelled = inv.levelled;
              active = inv.active;
              settled = inv.settled;
              kept = inv.kept;
              collects = λ m g h. ground arith;
              begins = inv.begins;
              same = inv.same;
            })
    ]
  ]

  Inv-moved :
      (s : Execution) (wave : List String) (rest : List (List String))
      → s.waves ≡ wave ∷ rest
      → s.failure ≡ none
      → subset wave s.collected ≡ true
      → Inv node_ids edges s
      → Inv node_ids edges (record s { waves = rest; past = s.past ++ wave; collected = [] })
  unfolding elem
  Inv-moved s wave rest at f full inv =
      let levelled = subst (IsLevelled (Depends node_ids edges) s.past) at inv.levelled in
      let here : (n : String) → elem n (current s) ≡ elem n wave =
        λ n. ap (λ waves. elem n (first_wave waves)) at in
      record {
        levelled = levelled.2;
        active = λ n.
            ap (elem n) (append_assoc s.past wave (concat rest))
            ∙ ap (λ waves. elem n (s.past ++ concat waves)) (sym at)
            ∙ inv.active n;
        settled = λ n m h d. elim (Bool-cases (elem n s.past)) [
          | inl old ↦ ground (arith, inv.settled n m old d, elem-append m s.past wave)
          | inr young ↦
              let inside : elem n wave ≡ true = ground (arith, elem-append n s.past wave) in
              ground (arith, levelled.1 m n inside d, elem-append m s.past wave)
        ];
        kept = λ n h. elim (Bool-cases (elem n s.past)) [
          | inl old ↦ inv.kept n old
          | inr young ↦
              let inside : elem n wave ≡ true = ground (arith, elem-append n s.past wave) in
              inv.collects n f (subset-elem n wave s.collected full inside)
        ];
        collects = λ n g h. ground arith;
        begins = λ n i h. ground (arith, inv.begins n i h, here n, elem-append n s.past wave);
        same = inv.same;
      }

  pub Inv-next_wave : (s : Execution) → Inv node_ids edges s → Inv node_ids edges (next_wave s)
  unfolding next_wave
  Inv-next_wave s inv = elim (Option-cases s.failure) [
    | inr (code, f) ↦ let at : s ≡ next_wave s = ground arith in subst (Inv node_ids edges) at inv
    | inl f ↦ elim (List-cases s.waves) [
      | inl e ↦ let at : s ≡ next_wave s = ground arith in subst (Inv node_ids edges) at inv
      | inr (wave, rest, e) ↦ elim (Bool-cases (subset wave s.collected)) [
        | inr more ↦ let at : s ≡ next_wave s = ground arith in subst (Inv node_ids edges) at inv
        | inl full ↦
            let moved : Execution = record s {
              waves = rest;
              past = s.past ++ wave;
              collected = [];
            } in
            let at : moved ≡ next_wave s = ground arith in
            subst (Inv node_ids edges) at (Inv-moved s wave rest e f full inv)
      ]
    ]
  ]
