-- ===== src/Prelude/Distinct.antt =====
-- Lists without repetition, by the Boolean test, and the pigeonhole principle for them.
use Prim.Native.Nat.{◌≤◌}
use mathlib.Core.Path.{◌≡◌, refl}
use mathlib.Core.Logic.{inl, inr, ∥∥₁_elim}
use mathlib.Core.Bool.{Bool, true, false, not}
use mathlib.Core.List.{List, [], ◌∷◌, ◌++◌, Perm, Permᴰ}
use mathlib.Core.HLevel.{×_prop}
use mathlib.Core.Bool.{Bool-set}
use native.Mathlib.Omega.{arith}
use lluna.Prelude.Tests.{Bool-cases}
use lluna.Prelude.Lists.{length, select, reject}
use lluna.Prelude.Key.{Key, ◌==◌}
use lluna.Prelude.Perms.{elem-permᴰ}
use lluna.Prelude.Sets.{elem, add, update, elem-append, elem-select, length-reject_lt, elem_head}

module _ {ℓ} {A : Type ℓ} ⦃e : Key A⦄ where
  abbrev pub IsDistinct : List A → Type 0
  IsDistinct [] = Unit
  IsDistinct (x ∷ xs) = (elem x xs ≡ false) × IsDistinct xs

  pub IsDistinct-snoc :
      (xs : List A) (a : A) → IsDistinct xs → elem a xs ≡ false → IsDistinct (xs ++ a ∷ [])
  unfolding elem
  IsDistinct-snoc [] a d h = (refl, tt)
  IsDistinct-snoc (x ∷ xs) a d h = (
    ground (arith, elem-append x xs (a ∷ []), d.0, e.test_iff x a, e.test_iff a x),
    IsDistinct-snoc xs a d.1 (ground arith),
  )

  pub IsDistinct-update : (xs ys : List A) → IsDistinct xs → IsDistinct (update xs ys)
  unfolding update
  IsDistinct-update xs [] d = d
  IsDistinct-update xs (y ∷ ys) d = IsDistinct-update (add y xs) ys (added d)
    where
      added : IsDistinct xs → IsDistinct (add y xs)
      added d = elim (Bool-cases (elem y xs)) [
        | inl old ↦ rw (old, add) d
        | inr new ↦ rw (new, add) (IsDistinct-snoc xs y d new)
      ]

  pub IsDistinct-select :
      (keep : A → Bool) (xs : List A) → IsDistinct xs → IsDistinct (select keep xs)
  IsDistinct-select keep [] d = tt
  IsDistinct-select keep (x ∷ xs) d = elim (Bool-cases (keep x)) [
    | inl kept ↦ rw kept (ground (arith, elem-select x keep xs, d.0), IsDistinct-select keep xs d.1)
    | inr dropped ↦ rw dropped (IsDistinct-select keep xs d.1)
  ]

  pub not_elem_of_IsDistinct :
      (xs ys : List A) (a : A) → IsDistinct (xs ++ a ∷ ys) → elem a xs ≡ false
  unfolding elem
  not_elem_of_IsDistinct [] ys a d = refl
  not_elem_of_IsDistinct (x ∷ xs) ys a d = ground (
    arith,
    not_elem_of_IsDistinct xs ys a d.1,
    elem-append x xs (a ∷ ys),
    d.0,
    e.test_iff a x,
    e.test_iff x a,
  )

  -- Distinct members of a list are at most as many as its elements.
  pub length-le :
      (xs ys : List A)
      → IsDistinct xs
      → ((a : A) → elem a xs ≡ true → elem a ys ≡ true)
      → length xs ≤ length ys
  unfolding elem
  length-le [] ys d h = omega arith
  length-le (x ∷ xs) ys d h =
      let others = reject (λ a. a == x) ys in
      let fewer =
        length-reject_lt (λ a. a == x) x ys (h x (elem_head x xs)) ((e.test_iff x x).1 refl) in
      let rest = length-le xs others d.1 (λ a m. ground (
        arith,
        h a (ground (arith, m)),
        elem-select a (λ b. not (b == x)) ys,
        e.test_iff a x,
        d.0,
        m,
      )) in
      omega (arith, rest, fewer)

  pub IsDistinct-right : (xs ys : List A) → IsDistinct (xs ++ ys) → IsDistinct ys
  IsDistinct-right [] ys d = d
  IsDistinct-right (x ∷ xs) ys d = IsDistinct-right xs ys d.1

  pub IsDistinct-left : (xs ys : List A) → IsDistinct (xs ++ ys) → IsDistinct xs
  IsDistinct-left [] ys d = tt
  IsDistinct-left (x ∷ xs) ys d =
      (ground (arith, elem-append x xs ys, d.0), IsDistinct-left xs ys d.1)

  IsDistinct-permᴰ : {xs ys : List A} → Permᴰ xs ys → IsDistinct xs → IsDistinct ys
  unfolding elem
  IsDistinct-permᴰ Permᴰ.nil d = tt
  IsDistinct-permᴰ (Permᴰ.cons {a = x} p r) d =
      (ground (arith, p, elem-permᴰ x r, d.0), IsDistinct-permᴰ r d.1)
  IsDistinct-permᴰ (Permᴰ.swap {a = a} {b = b} {a' = a'} {b' = b'} p q) d = (
    ground (arith, p, q, d.0, d.1.0, e.test_iff a b, e.test_iff a' b'),
    (ground (arith, p, d.0), d.1.1),
  )
  IsDistinct-permᴰ (Permᴰ.trans r s) d = IsDistinct-permᴰ s (IsDistinct-permᴰ r d)

  IsDistinct-IsProp : (xs : List A) → IsProp (IsDistinct xs)
  IsDistinct-IsProp [] = λ p q. refl
  IsDistinct-IsProp (x ∷ xs) = ×_prop (Bool-set _ _) (IsDistinct-IsProp xs)

  pub IsDistinct-perm : {xs ys : List A} → Perm xs ys → IsDistinct xs → IsDistinct ys
  IsDistinct-perm {ys = ys} p d = ∥∥₁_elim p (IsDistinct-IsProp ys) (λ r. IsDistinct-permᴰ r d)
