-- ===== src/Runs/Execution/Progress/Counts.antt =====
-- How many nodes of a run are done.

use native.Mathlib.Nat.{zero-div}
use lluna.Prelude.{
  ℕ, ◌+◌, min, max, String, true, false, not, ◌&&◌, Option, none, List, [], ◌∷◌, ◌++◌, ◌≡◌, refl,
  sym, subst, ap, ◌∙◌, inl, inr, arith, Bool-cases, Option-cases, List-cases, concat, append_assoc,
  length, length-append,
}
use lluna.Prelude.Key.{string_key}
use lluna.Prelude.Sets.{elem, subset, subset-elem}
use lluna.Prelude.Distinct.{IsDistinct, IsDistinct-left, IsDistinct-right, length-le}
use lluna.Graph.Schema.{PortDefinition}
use lluna.Runs.Values.{Value, Store, Incoming}
use lluna.Runs.Execution.{
  Execution, first_wave, current, begin_steps, percent, may_begin, at_work, enter, read_inputs,
  store_step, advance, fail, stop, next_wave,
}
use lluna.Runs.Execution.Steps.{
  Reach, begun, enters, reads, stores, advances, fails, stops, proceeds,
}

module _ (waves : List (List String)) (total : ℕ) where
  pub record Counts (s : Execution) : Type 0 where
    pub all : s.past ++ concat s.waves ≡ concat waves
    pub limit : s.total ≡ max 1 total
    pub shown : s.progress ≡ percent s.finished s.total
    pub counted : s.failure ≡ none → s.finished ≡ length s.past + length s.collected
    pub inside : (n : String) → elem n s.collected ≡ true → elem n (current s) ≡ true
    pub once : IsDistinct s.collected

  Counts-begin_steps : (values : Store) → Counts (begin_steps values waves total)
  unfolding elem
  Counts-begin_steps values = record {
    all = refl;
    limit = refl;
    shown = sym (ap (min 100) (zero-div (max 1 total)));
    counted = λ f. refl;
    inside = λ n h. ground arith;
    once = tt;
  }

  Counts-enter : (n : String) (s : Execution) → Counts s → Counts (enter n s)
  unfolding enter
  Counts-enter n s c =
      elim (Bool-cases (elem n (current s) && not (elem n s.entered) && not s.cancel)) [
        | inr e ↦ rw e c
        | inl e ↦ rw e (record {
          all = c.all;
          limit = c.limit;
          shown = c.shown;
          counted = c.counted;
          inside = c.inside;
          once = c.once;
        })
      ]

  Counts-read_inputs :
      (incoming : Incoming) (n : String) (s : Execution)
      → Counts s
      → Counts (read_inputs incoming n s)
  unfolding read_inputs
  Counts-read_inputs incoming n s c = elim (Bool-cases (may_begin n s)) [
    | inr e ↦ rw e c
    | inl e ↦ rw e (record {
      all = c.all;
      limit = c.limit;
      shown = c.shown;
      counted = c.counted;
      inside = c.inside;
      once = c.once;
    })
  ]

  Counts-store_step :
      (outputs : List PortDefinition) (n : String) (result : Option Value) (s : Execution)
      → Counts s
      → Counts (store_step outputs n result s)
  unfolding store_step
  Counts-store_step outputs n result s c = elim (Bool-cases (at_work n s)) [
    | inr e ↦ rw e c
    | inl e ↦ rw e (record {
      all = c.all;
      limit = c.limit;
      shown = c.shown;
      counted = c.counted;
      inside = c.inside;
      once = c.once;
    })
  ]

  Counts-stop : (s : Execution) → Counts s → Counts (stop s)
  Counts-stop s c = record {
    all = c.all;
    limit = c.limit;
    shown = c.shown;
    counted = c.counted;
    inside = c.inside;
    once = c.once;
  }

  collected_inside :
      (n : String) (s : Execution)
      → Counts s
      → elem n (current s) ≡ true
      → (m : String) → elem m (n ∷ s.collected) ≡ true
      → elem m (current s) ≡ true
  unfolding elem
  collected_inside n s c here m h = elim (Bool-cases (string_key.test m n)) [
    | inl q ↦
        let at : m ≡ n = ground (arith, string_key.test_iff m n) in
        subst (λ k. elem k (current s) ≡ true) (sym at) here
    | inr q ↦ c.inside m (ground arith)
  ]

  Counts-advance : (n : String) (s : Execution) → Counts s → Counts (advance n s)
  unfolding advance
  Counts-advance n s c =
      elim (Bool-cases (elem n (current s) && elem n s.stored && not (elem n s.collected))) [
        | inr e ↦ rw e c
        | inl e ↦ rw e (record {
          all = c.all;
          limit = c.limit;
          shown = refl;
          counted = λ f. ground (arith, c.counted f);
          inside = collected_inside n s c (ground arith);
          once = (ground arith, c.once);
        })
      ]

  Counts-fail : (n code : String) (s : Execution) → Counts s → Counts (fail n code s)
  unfolding fail
  Counts-fail n code s c = elim (Bool-cases (elem n (current s) && not (elem n s.collected))) [
    | inr e ↦ rw e c
    | inl e ↦
        let within = collected_inside n s c (ground arith) in
        let new : elem n s.collected ≡ false = ground arith in
        elim (Option-cases s.failure) [
          | inl f ↦
              rw (e, f)
                (record {
                  all = c.all;
                  limit = c.limit;
                  shown = c.shown;
                  counted = λ g. ground arith;
                  inside = within;
                  once = (new, c.once);
                })
          | inr (first, f) ↦
              rw (e, f)
                (record {
                  all = c.all;
                  limit = c.limit;
                  shown = c.shown;
                  counted = λ g. ground arith;
                  inside = within;
                  once = (new, c.once);
                })
        ]
  ]

  Counts-moved :
      (s : Execution) (wave : List String) (rest : List (List String))
      → s.waves ≡ wave ∷ rest
      → s.failure ≡ none
      → subset wave s.collected ≡ true
      → IsDistinct wave
      → Counts s
      → Counts (record s { waves = rest; past = s.past ++ wave; collected = [] })
  unfolding elem
  Counts-moved s wave rest at f full d c =
      let fewer =
        length-le s.collected wave c.once
          (λ n h. subst (λ w. elem n (first_wave w) ≡ true) at (c.inside n h)) in
      let more = length-le wave s.collected d (λ n h. subset-elem n wave s.collected full h) in
      record {
        all =
            append_assoc s.past wave (concat rest) ∙ ap (λ w. s.past ++ concat w) (sym at) ∙ c.all;
        limit = c.limit;
        shown = c.shown;
        counted = λ g. omega (arith, c.counted f, fewer, more, length-append s.past wave);
        inside = λ n h. ground arith;
        once = tt;
      }

  Counts-next_wave : IsDistinct (concat waves) → (s : Execution) → Counts s → Counts (next_wave s)
  unfolding next_wave
  Counts-next_wave distinct s c = elim (Option-cases s.failure) [
    | inr (code, f) ↦ let at : s ≡ next_wave s = ground arith in subst Counts at c
    | inl f ↦ elim (List-cases s.waves) [
      | inl e ↦ let at : s ≡ next_wave s = ground arith in subst Counts at c
      | inr (wave, rest, e) ↦ elim (Bool-cases (subset wave s.collected)) [
        | inr more ↦ let at : s ≡ next_wave s = ground arith in subst Counts at c
        | inl full ↦
            let moved : Execution = record s {
              waves = rest;
              past = s.past ++ wave;
              collected = [];
            } in
            let at : moved ≡ next_wave s = ground arith in
            let whole : s.past ++ (wave ++ concat rest) ≡ concat waves =
              ap (λ w. s.past ++ concat w) (sym e) ∙ c.all in
            let d = IsDistinct-left wave (concat rest) (
              IsDistinct-right s.past (wave ++ concat rest)
                (subst IsDistinct (sym whole) distinct)) in
            subst Counts at (Counts-moved s wave rest e f full d c)
      ]
    ]
  ]

  module _ (values : Store) (incoming : Incoming) (distinct : IsDistinct (concat waves)) where
    pub Reach-Counts : (s : Execution) → Reach values incoming waves total s → Counts s
    Reach-Counts _ begun = Counts-begin_steps values
    Reach-Counts _ (enters n s r) = Counts-enter n s (Reach-Counts s r)
    Reach-Counts _ (reads n s r) = Counts-read_inputs incoming n s (Reach-Counts s r)
    Reach-Counts _ (stores outputs n result s r) =
        Counts-store_step outputs n result s (Reach-Counts s r)
    Reach-Counts _ (advances n s r) = Counts-advance n s (Reach-Counts s r)
    Reach-Counts _ (fails n code s r) = Counts-fail n code s (Reach-Counts s r)
    Reach-Counts _ (stops s r) = Counts-stop s (Reach-Counts s r)
    Reach-Counts _ (proceeds s r) = Counts-next_wave distinct s (Reach-Counts s r)
