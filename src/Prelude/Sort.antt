-- ===== src/Prelude/Sort.antt =====
-- Python's `sorted` on texts: by code points, the first difference decides.
use Prim.Native.Char.{code}
use Prim.Native.Nat.{ℕ}
use Prim.Native.String.{String}
use mathlib.Core.Path.{◌≡◌, refl}
use mathlib.Core.Bool.{Bool, true, false, ◌&&◌, ◌||◌}
use mathlib.Core.List.Perm
use mathlib.Core.List.{List, [], ◌∷◌, Perm}
use native.Mathlib.Omega.{arith}
use lluna.Prelude.Tests.{ltb, nat_beq, if◌then◌else◌, Bool-cases}
use mathlib.Core.Logic.{inl, inr}
use lluna.Prelude.Key.{string_key}
use lluna.Prelude.Sets.{elem}
use lluna.Prelude.Perms.{elem-perm}
use lluna.Prelude.Distinct.{IsDistinct}

abbrev codes : String → List ℕ
codes String.[] = []
codes (String.◌∷◌ c s) = code c ∷ codes s

codes_le : List ℕ → List ℕ → Bool
codes_le [] ys = true
codes_le (x ∷ xs) [] = false
codes_le (x ∷ xs) (y ∷ ys) = ltb x y || (nat_beq x y && codes_le xs ys)

module _ {ℓ} {A : Type ℓ} (le : A → A → Bool) where
  -- Before the first element that is not below.
  unfoldable pub insert : A → List A → List A
  insert x [] = x ∷ []
  insert x (y ∷ ys) = if le x y then x ∷ y ∷ ys else y ∷ insert x ys

  -- The stable sort.
  unfoldable pub sort : List A → List A
  unfolding insert
  sort [] = []
  sort (x ∷ xs) = insert x (sort xs)

  pub insert-perm : (x : A) (ys : List A) → Perm (insert x ys) (x ∷ ys)
  unfolding insert
  insert-perm x [] = Perm.rfl
  insert-perm x (y ∷ ys) = elim (Bool-cases (le x y)) [
    | inl below ↦ rw (below, insert) Perm.rfl
    | inr above ↦
        rw (above, insert) (Perm.trans (Perm.cons y (insert-perm x ys)) (Perm.swap x y ys))
  ]

  pub sort-perm : (xs : List A) → Perm (sort xs) xs
  unfolding sort
  sort-perm [] = Perm.rfl
  sort-perm (x ∷ xs) = Perm.trans (insert-perm x (sort xs)) (Perm.cons x (sort-perm xs))

  -- `x` is below all of the list.
  abbrev pub IsBelow : A → List A → Type 0
  IsBelow x [] = Unit
  IsBelow x (y ∷ ys) = (le x y ≡ true) × IsBelow x ys

  abbrev pub IsSorted : List A → Type 0
  IsSorted [] = Unit
  IsSorted (x ∷ xs) = IsBelow x xs × IsSorted xs

  module _ (total : (x y : A) → le x y ≡ false → le y x ≡ true)
      (trans : (x y z : A) → le x y ≡ true → le y z ≡ true → le x z ≡ true) where
    IsBelow-lower : (x y : A) (zs : List A) → le x y ≡ true → IsBelow y zs → IsBelow x zs
    IsBelow-lower x y [] l b = tt
    IsBelow-lower x y (z ∷ zs) l b = (trans x y z l b.0, IsBelow-lower x y zs l b.1)

    insert-IsBelow :
        (x y : A) (zs : List A) → le x y ≡ true → IsBelow x zs → IsBelow x (insert y zs)
    unfolding insert
    insert-IsBelow x y [] l b = (l, tt)
    insert-IsBelow x y (z ∷ zs) l b = elim (Bool-cases (le y z)) [
      | inl below ↦ rw (below, insert) (l, b)
      | inr above ↦ rw (above, insert) (b.0, insert-IsBelow x y zs l b.1)
    ]

    pub insert-IsSorted : (x : A) (ys : List A) → IsSorted ys → IsSorted (insert x ys)
    unfolding insert
    insert-IsSorted x [] s = (tt, tt)
    insert-IsSorted x (y ∷ ys) s = elim (Bool-cases (le x y)) [
      | inl below ↦ rw (below, insert) ((below, IsBelow-lower x y ys below s.0), s)
      | inr above ↦
          rw (above, insert) (insert-IsBelow y x ys (total x y above) s.0, insert-IsSorted x ys s.1)
    ]

    pub sort-IsSorted : (xs : List A) → IsSorted (sort xs)
    unfolding sort
    sort-IsSorted [] = tt
    sort-IsSorted (x ∷ xs) = insert-IsSorted x (sort xs) (sort-IsSorted xs)

unfoldable pub text_le : String → String → Bool
unfolding codes_le
text_le s t = codes_le (codes s) (codes t)

codes_le_total : (xs ys : List ℕ) → codes_le xs ys ≡ false → codes_le ys xs ≡ true
unfolding codes_le
codes_le_total [] ys h = ground (arith, h)
codes_le_total (x ∷ xs) [] h = refl
codes_le_total (x ∷ xs) (y ∷ ys) h = ground (arith, h, codes_le_total xs ys)

codes_le_trans :
    (xs ys zs : List ℕ) → codes_le xs ys ≡ true → codes_le ys zs ≡ true → codes_le xs zs ≡ true
unfolding codes_le
codes_le_trans [] ys zs h g = refl
codes_le_trans (x ∷ xs) [] zs h g = ground (arith, h)
codes_le_trans (x ∷ xs) (y ∷ ys) [] h g = ground (arith, g)
codes_le_trans (x ∷ xs) (y ∷ ys) (z ∷ zs) h g = ground (arith, h, g, codes_le_trans xs ys zs)

pub text_le_total : (s t : String) → text_le s t ≡ false → text_le t s ≡ true
unfolding text_le
text_le_total s t h = codes_le_total (codes s) (codes t) h

pub text_le_trans : (s t u : String) → text_le s t ≡ true → text_le t u ≡ true → text_le s u ≡ true
unfolding text_le
text_le_trans s t u h g = codes_le_trans (codes s) (codes t) (codes u) h g

unfoldable pub sorted : List String → List String
unfolding sort text_le
sorted = sort text_le

insert-IsDistinct :
    (s : String) (ts : List String)
    → elem s ts ≡ false
    → IsDistinct ts
    → IsDistinct (insert text_le s ts)
unfolding insert elem
insert-IsDistinct s [] new d = (refl, tt)
insert-IsDistinct s (t ∷ ts) new d = elim (Bool-cases (text_le s t)) [
  | inl le ↦ rw (le, insert) (new, d)
  | inr gt ↦
      rw (gt, insert)
        (
          ground (
            arith,
            elem-perm t (insert-perm text_le s ts),
            new,
            d.0,
            string_key.test_iff s t,
            string_key.test_iff t s,
          ),
          insert-IsDistinct s ts (ground arith) d.1,
        )
]

pub sorted-perm : (ss : List String) → Perm (sorted ss) ss
unfolding sorted
sorted-perm ss = sort-perm text_le ss

sort-IsDistinct : (ss : List String) → IsDistinct ss → IsDistinct (sort text_le ss)
unfolding sort
sort-IsDistinct [] d = tt
sort-IsDistinct (s ∷ ss) d =
    insert-IsDistinct s (sort text_le ss) (ground (arith, elem-perm s (sort-perm text_le ss), d.0))
      (sort-IsDistinct ss d.1)

pub sorted-IsDistinct : (ss : List String) → IsDistinct ss → IsDistinct (sorted ss)
unfolding sorted
sorted-IsDistinct ss d = sort-IsDistinct ss d
