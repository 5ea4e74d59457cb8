-- ===== src/Prelude/Sets.antt =====
-- Python's `in` on lists, and sets as lists without repetition: membership is a Boolean test.
use Prim.Native.Nat.{◌<◌}
use mathlib.Core.Path.{◌≡◌, refl}
use mathlib.Core.Logic.{inl, inr}
use mathlib.Core.Bool.{Bool, true, false, ◌&&◌, ◌||◌}
use mathlib.Core.List.{List, [], ◌∷◌, ◌++◌}
use native.Mathlib.Omega.{arith}
use lluna.Prelude.Tests.{if◌then◌else◌, Bool-cases}
use lluna.Prelude.Lists.{length, select, reject, length-select-add-reject}
use lluna.Prelude.Key.{Key, ◌==◌}

module _ {ℓ} {A : Type ℓ} ⦃e : Key A⦄ where
  -- `a in xs`
  unfoldable pub elem : A → List A → Bool
  elem a [] = false
  elem a (x ∷ xs) = a == x || elem a xs

  -- `xs.add(a)`
  unfoldable pub add : A → List A → List A
  unfolding elem
  add a xs = if elem a xs then xs else xs ++ a ∷ []

  -- `xs.update(ys)`
  unfoldable pub update : List A → List A → List A
  unfolding add
  update xs [] = xs
  update xs (y ∷ ys) = update (add y xs) ys

  -- `not (xs - ys)`
  unfoldable pub subset : List A → List A → Bool
  unfolding elem
  subset [] ys = true
  subset (x ∷ xs) ys = elem x ys && subset xs ys

  pub elem-append : (a : A) (xs ys : List A) → elem a (xs ++ ys) ≡ (elem a xs || elem a ys)
  unfolding elem
  elem-append a [] ys = refl
  elem-append a (x ∷ xs) ys = ground (arith, elem-append a xs ys)

  pub elem-add : (a b : A) (xs : List A) → elem a (add b xs) ≡ (a == b || elem a xs)
  unfolding add elem
  elem-add a b xs = ground (arith, elem-append a xs (b ∷ []), e.test_iff a b)

  pub elem-update : (a : A) (xs ys : List A) → elem a (update xs ys) ≡ (elem a xs || elem a ys)
  unfolding update elem
  elem-update a xs [] = ground arith
  elem-update a xs (y ∷ ys) = ground (arith, elem-update a (add y xs) ys, elem-add a y xs)

  pub elem-select :
      (a : A) (keep : A → Bool) (xs : List A) → elem a (select keep xs) ≡ (elem a xs && keep a)
  unfolding elem
  elem-select a keep [] = refl
  elem-select a keep (x ∷ xs) = ground (arith, elem-select a keep xs, e.test_iff a x)

  -- `subset` is containment.
  pub subset-elem :
      (a : A) (xs ys : List A) → subset xs ys ≡ true → elem a xs ≡ true → elem a ys ≡ true
  unfolding subset elem
  subset-elem a [] ys s h = ground arith
  subset-elem a (x ∷ xs) ys s h = ground (arith, subset-elem a xs ys, e.test_iff a x)

  -- Otherwise some member is missing.
  pub not-subset :
      (xs ys : List A) → subset xs ys ≡ false → (a : A) × (elem a xs ≡ true) × (elem a ys ≡ false)
  unfolding subset elem
  not-subset [] ys s = ground arith
  not-subset (x ∷ xs) ys s = elim (Bool-cases (elem x ys)) [
    | inl here ↦ let (a, mem, out) = not-subset xs ys (ground arith) in (a, ground arith, out)
    | inr gone ↦ (x, ground (arith, e.test_iff x x), gone)
  ]

  -- Two tests that agree on the members keep the same elements.
  pub select-ext :
      (p q : A → Bool) (xs : List A)
      → ((a : A) → elem a xs ≡ true → p a ≡ q a)
      → select p xs ≡ select q xs
  unfolding elem
  select-ext p q [] h = refl
  select-ext p q (x ∷ xs) h =
      let same : p x ≡ q x = h x (ground (arith, e.test_iff x x)) in
      let rest = select-ext p q xs (λ a m. h a (ground (arith, m))) in
      rw same (ground (arith, rest))

  pub length-reject_lt :
      (drop : A → Bool) (a : A) (xs : List A)
      → elem a xs ≡ true
      → drop a ≡ true
      → length (reject drop xs) < length xs
  unfolding elem
  length-reject_lt drop a [] m d = ground arith
  length-reject_lt drop a (x ∷ xs) m d =
      ground (arith, e.test_iff a x, length-reject_lt drop a xs, length-select-add-reject drop xs)

  pub elem_head : (a : A) (xs : List A) → elem a (a ∷ xs) ≡ true
  unfolding elem
  elem_head a xs = ground (arith, e.test_iff a a)

  pub elem_tail : (a x : A) (xs : List A) → elem a xs ≡ true → elem a (x ∷ xs) ≡ true
  unfolding elem
  elem_tail a x xs h = ground arith

  -- A list with no member is empty.
  pub nil_of_no_elem : (xs : List A) → ((a : A) → elem a xs ≡ false) → xs ≡ []
  nil_of_no_elem [] h = refl
  nil_of_no_elem (x ∷ xs) h = cc (h x, elem_head x xs)
