-- ===== src/Prelude/Perms.antt =====
-- A permutation has the same members, by the Boolean test.
use mathlib.Core.Path.{◌≡◌, refl, ap, ◌∙◌}
use mathlib.Core.Bool.{Bool-set}
use mathlib.Core.Logic.{∥∥₁_elim}
use mathlib.Core.List.{List, reverse, reverse_perm, Perm, Permᴰ}
use Prim.Native.Nat.{suc}
use native.Mathlib.Nat.{ℕ_set}
use lluna.Prelude.Lists.{length}
use native.Mathlib.Omega.{arith}
use lluna.Prelude.Key.{Key}
use lluna.Prelude.Sets.{elem}

module _ {ℓ} {A : Type ℓ} ⦃e : Key A⦄ where
  pub elem-permᴰ : (a : A) {xs ys : List A} → Permᴰ xs ys → elem a xs ≡ elem a ys
  unfolding elem
  elem-permᴰ a Permᴰ.nil = refl
  elem-permᴰ a (Permᴰ.cons p r) = ground (arith, p, elem-permᴰ a r)
  elem-permᴰ a (Permᴰ.swap p q) = ground (arith, p, q)
  elem-permᴰ a (Permᴰ.trans r s) = elem-permᴰ a r ∙ elem-permᴰ a s

  pub elem-perm : (a : A) {xs ys : List A} → Perm xs ys → elem a xs ≡ elem a ys
  elem-perm a p = ∥∥₁_elim p (Bool-set _ _) (elem-permᴰ a)

module _ {ℓ} {A : Type ℓ} where
  length-permᴰ : {xs ys : List A} → Permᴰ xs ys → length xs ≡ length ys
  length-permᴰ Permᴰ.nil = refl
  length-permᴰ (Permᴰ.cons p r) = ap suc (length-permᴰ r)
  length-permᴰ (Permᴰ.swap p q) = refl
  length-permᴰ (Permᴰ.trans r s) = length-permᴰ r ∙ length-permᴰ s

  pub length-perm : {xs ys : List A} → Perm xs ys → length xs ≡ length ys
  length-perm p = ∥∥₁_elim p (ℕ_set _ _) length-permᴰ

  pub length-reverse : (xs : List A) → length (reverse xs) ≡ length xs
  length-reverse xs = length-perm (reverse_perm xs)

module _ {ℓ} {A : Type ℓ} ⦃e : Key A⦄ where
  pub elem-reverse : (a : A) (xs : List A) → elem a (reverse xs) ≡ elem a xs
  elem-reverse a xs = elem-perm a (reverse_perm xs)
