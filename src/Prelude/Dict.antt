-- ===== src/Prelude/Dict.antt =====
-- Python's `dict` as an association list in insertion order.
use mathlib.Core.Path.{◌≡◌, refl}
use mathlib.Core.Option
use mathlib.Core.Option.{Option, none, some}
use mathlib.Core.List.{List, [], ◌∷◌}
use native.Mathlib.Omega.{arith}
use lluna.Prelude.Tests.{if◌then◌else◌}
use lluna.Prelude.Key.{Key, ◌==◌}

abbrev pub Dict {ℓ κ} : Type ℓ → Type κ → Type (ℓ ⊔ κ)
Dict K V = List (K × V)

module _ {ℓ κ} {K : Type ℓ} {V : Type κ} ⦃e : Key K⦄ where
  -- `d.get(k)`
  unfoldable pub get? : K → Dict K V → Option V
  get? k [] = none
  get? k ((j, v) ∷ d) = if k == j then some v else get? k d

  -- `d.get(k, default)`, and `d[k]` of a `defaultdict`
  unfoldable pub get_or : V → K → Dict K V → V
  unfolding get?
  get_or v k d = elim (get? k d) [ none ↦ v | some w ↦ w ]

  -- `d[k] = v`
  unfoldable pub put : K → V → Dict K V → Dict K V
  put k v [] = (k, v) ∷ []
  put k v ((j, w) ∷ d) = if k == j then (j, v) ∷ d else (j, w) ∷ put k v d

  pub get?-put :
      (k j : K) (v : V) (d : Dict K V) → get? j (put k v d) ≡ (if j == k then some v else get? j d)
  unfolding get? put
  get?-put k j v [] = refl
  get?-put k j v ((i, w) ∷ d) =
      ground
        (arith, get?-put k j v d, e.test_iff k j, e.test_iff k i, e.test_iff j i, e.test_iff j k)

  pub get_or-put :
      (u : V) (k j : K) (v : V) (d : Dict K V)
      → get_or u j (put k v d) ≡ (if j == k then v else get_or u j d)
  unfolding get_or
  get_or-put u k j v d = ground (arith, get?-put k j v d)

  -- To write to the object that `d[k]` refers to.
  unfoldable pub modify : K → (V → V) → Dict K V → Dict K V
  modify k f [] = []
  modify k f ((j, v) ∷ d) = (if k == j then (j, f v) else (j, v)) ∷ modify k f d

  pub get?-modify :
      (k j : K) (f : V → V) (d : Dict K V)
      → get? j (modify k f d) ≡ (if j == k then Option.map f (get? j d) else get? j d)
  unfolding get? modify
  get?-modify k j f [] = ground arith
  get?-modify k j f ((i, w) ∷ d) =
      ground
        (arith, get?-modify k j f d, e.test_iff k j, e.test_iff k i, e.test_iff j i, e.test_iff j k)

  -- The same for all values.
  unfoldable pub map_values : (V → V) → Dict K V → Dict K V
  map_values f [] = []
  map_values f ((j, v) ∷ d) = (j, f v) ∷ map_values f d

  pub get?-map_values :
      (j : K) (f : V → V) (d : Dict K V) → get? j (map_values f d) ≡ Option.map f (get? j d)
  unfolding get? map_values
  get?-map_values j f [] = refl
  get?-map_values j f ((i, w) ∷ d) = ground (arith, get?-map_values j f d)

  -- `d.pop(k, None)`
  unfoldable pub discard : K → Dict K V → Dict K V
  discard k [] = []
  discard k ((j, v) ∷ d) = if k == j then discard k d else (j, v) ∷ discard k d

  pub get?-discard :
      (k j : K) (d : Dict K V) → get? j (discard k d) ≡ (if j == k then none else get? j d)
  unfolding get? discard
  get?-discard k j [] = ground arith
  get?-discard k j ((i, w) ∷ d) =
      ground
        (arith, get?-discard k j d, e.test_iff k j, e.test_iff k i, e.test_iff j i, e.test_iff j k)

  pub put_again : (k : K) (v w : V) (d : Dict K V) → put k w (put k v d) ≡ put k w d
  unfolding put
  put_again k v w [] = ground (arith, e.test_iff k k)
  put_again k v w ((i, u) ∷ d) = ground (arith, put_again k v w d, e.test_iff k i)

  pub get_or-discard :
      (u : V) (k j : K) (d : Dict K V)
      → get_or u j (discard k d) ≡ (if j == k then u else get_or u j d)
  unfolding get_or
  get_or-discard u k j d = ground (arith, get?-discard k j d)

  pub put_present : (k : K) (v : V) (d : Dict K V) → get? k d ≡ some v → put k v d ≡ d
  unfolding put get?
  put_present k v [] h = ground arith
  put_present k v ((j, w) ∷ d) h = ground (arith, put_present k v d, e.test_iff k j)
