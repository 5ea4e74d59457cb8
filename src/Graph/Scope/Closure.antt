-- ===== src/Graph/Scope/Closure.antt =====
-- `_closure` of backend/graph/validation.py computes reachability.
use mathlib.Core.List.{reverse}
use lluna.Prelude.{
  ℕ, zero, suc, ◌+◌, ◌≤◌, String, ◌≡◌, refl, sym, subst, ◌∙◌, or-eq-true, ◌↔◌, inl, inr, true,
  false, ◌||◌, some, List, [], ◌∷◌, ◌++◌, length, length-append, if◌then◌else◌, Bool-cases, arith,
}
use lluna.Prelude.Key.{string_key, ◌==◌}
use lluna.Prelude.Sets.{elem, add, elem-add, elem-append, elem_head}
use lluna.Prelude.Perms.{elem-reverse, length-reverse}
use lluna.Prelude.Dict.{Dict, get_or, get?}
use lluna.Graph.Scope.{visit, size, closure}

abbrev pub next : Dict String (List String) → String → List String
next links node = get_or [] node links

-- Some chain of steps leads from a start to the node.
pub data Walk (Start : String → Type 0) (Link : String → String → Type 0) : String → Type 0 where
  start : {x : String} → Start x → Walk Start Link x
  step : {x y : String} → Walk Start Link x → Link x y → Walk Start Link y

pub Walk-map :
    {S T : String → Type 0} {Q R : String → String → Type 0}
    → ((x : String) → S x → T x)
    → ((x y : String) → Q x y → R x y)
    → {x : String} → Walk S Q x
    → Walk T R x
Walk-map f g (start s) = start (f _ s)
Walk-map f g (step {x} {y} w l) = step (Walk-map f g w) (g x y l)

-- From the seeds, along the links of the dictionary.
abbrev pub Reached : Dict String (List String) → List String → String → Type 0
Reached links seeds = Walk (λ x. elem x seeds ≡ true) (λ x y. elem y (next links x) ≡ true)

-- The links of the nodes that are not active yet.
weight : List String → Dict String (List String) → ℕ
weight active [] = 0
weight active ((node, ys) ∷ links) =
    (if elem node active then 0 else length ys) + weight active links

weight-add_le :
    (c : String) (active : List String) (links : Dict String (List String))
    → weight (add c active) links ≤ weight active links
unfolding weight
weight-add_le c active [] = omega arith
weight-add_le c active ((node, ys) ∷ links) =
    ground (arith, weight-add_le c active links, elem-add node c active)

weight-add :
    (c : String) (active : List String) (links : Dict String (List String))
    → elem c active ≡ false
    → weight (add c active) links + length (next links c) ≤ weight active links
unfolding weight get_or get?
weight-add c active [] h = omega arith
weight-add c active ((node, ys) ∷ links) h = ground (
  arith,
  weight-add c active links h,
  weight-add_le c active links,
  elem-add node c active,
  string_key.test_iff c node,
  string_key.test_iff node c,
)

weight-nil : (links : Dict String (List String)) → weight [] links ≡ size links
unfolding weight size elem
weight-nil [] = refl
weight-nil ((node, ys) ∷ links) = ground (arith, weight-nil links)

module _ (links : Dict String (List String)) (seeds : List String) where
  record Inv (active stack : List String) : Type 0 where
    active_sound : (x : String) → elem x active ≡ true → Reached links seeds x
    stack_sound : (x : String) → elem x stack ≡ true → Reached links seeds x
    seeded : (x : String) → elem x seeds ≡ true → (elem x active || elem x stack) ≡ true
    closed :
        (x y : String)
        → elem x active ≡ true
        → elem y (next links x) ≡ true
        → (elem y active || elem y stack) ≡ true

  Inv-skip :
      (active stack : List String) (c : String)
      → elem c active ≡ true
      → Inv active (c ∷ stack)
      → Inv active stack
  unfolding elem
  Inv-skip active stack c old h = record {
    active_sound = h.active_sound;
    stack_sound = λ x m. h.stack_sound x (ground (arith, m));
    seeded = λ x m. ground (arith, h.seeded x m, old, string_key.test_iff x c);
    closed = λ x y m l. ground (arith, h.closed x y m l, old, string_key.test_iff y c);
  }

  Inv-expand :
      (active stack : List String) (c : String)
      → Inv active (c ∷ stack)
      → Inv (add c active) (reverse (next links c) ++ stack)
  unfolding elem
  Inv-expand active stack c h =
      let new = reverse (next links c) in
      let here = h.stack_sound c (elem_head c stack) in
      record {
        active_sound = λ x m.
            elim (or-eq-true (x == c) (elem x active) (sym (elem-add x c active) ∙ m)) [
              | inl e ↦ subst (Reached links seeds) (sym ((string_key.test_iff x c).0 e)) here
              | inr old ↦ h.active_sound x old
            ];
        stack_sound = λ x m.
            elim (or-eq-true (elem x new) (elem x stack) (sym (elem-append x new stack) ∙ m)) [
              | inl l ↦ step here (rw elem-reverse at l)
              | inr old ↦ h.stack_sound x (ground (arith, old))
            ];
        seeded = λ x m. ground (arith, h.seeded x m, elem-add x c active, elem-append x new stack);
        closed = λ x y m l. ground (
          arith,
          h.closed x y,
          l,
          m,
          elem-add x c active,
          elem-add y c active,
          elem-append y new stack,
          elem-reverse y (next links c),
          string_key.test_iff x c,
        );
      }

  Inv-start : Inv [] (reverse seeds)
  unfolding elem
  Inv-start = record {
    active_sound = λ x m. cc m;
    stack_sound = λ x m. start (rw elem-reverse at m);
    seeded = λ x m. rw elem-reverse m;
    closed = λ x y m l. cc m;
  }

  visit_ends :
      (fuel : ℕ) (active stack : List String)
      → length stack + weight active links ≤ fuel
      → Inv active stack
      → (r : List String) × (visit links fuel active stack ≡ some r) × Inv r []
  unfolding visit
  visit_ends fuel active [] le h = (active, refl, h)
  visit_ends zero active (c ∷ stack) le h = absurd (omega arith)
  visit_ends (suc fuel) active (c ∷ stack) le h = elim (Bool-cases (elem c active)) [
    | inl old ↦
        let (r, e, i) =
          visit_ends fuel active stack (omega arith) (Inv-skip active stack c old h) in
        (r, ground (arith, old, e), i)
    | inr new ↦
        let (r, e, i) =
          visit_ends fuel (add c active) (reverse (next links c) ++ stack)
            (omega (
              arith,
              weight-add c active links new,
              length-append (reverse (next links c)) stack,
              length-reverse (next links c),
            ))
            (Inv-expand active stack c h) in
        (r, ground (arith, new, e), i)
  ]

  complete : (r : List String) → Inv r [] → {x : String} → Reached links seeds x → elem x r ≡ true
  unfolding elem
  complete r h (start m) = ground (arith, h.seeded _ m)
  complete r h (step {x} {y} w l) = ground (arith, h.closed x y (complete r h w) l)

  -- `_closure` always ends, and its result holds exactly the nodes that a chain of links reaches
  -- from a seed.
  pub closure_lem :
      (r : List String) × (closure seeds links ≡ some r)
      × ((x : String) → (elem x r ≡ true) ↔ Reached links seeds x)
  unfolding closure
  closure_lem =
      let (r, e, i) =
        visit_ends (length seeds + size links) [] (reverse seeds)
          (omega (arith, length-reverse seeds, weight-nil links)) Inv-start in
      (r, e, λ x. (i.active_sound x, complete r i))
