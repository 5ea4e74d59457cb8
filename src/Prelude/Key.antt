-- ===== src/Prelude/Key.antt =====
-- Python's `==` on the keys of the program (node ids, job ids, names): a test that decides equality.
use Prim.Native.Nat.{ℕ}
use Prim.Native.String.{String}
use mathlib.Core.Path.{◌≡◌}
use mathlib.Core.Logic.{◌↔◌}
use mathlib.Core.Bool.{Bool, true, ◌&&◌}
use native.Mathlib.Omega.{arith}
use text.Mathlib.Text.{◌==◌ as text_test}
use text.Mathlib.TextEquality.{eq_iff}
use lluna.Prelude.Tests.{nat_beq, nat_beq_iff}

pub record Key {ℓ} (K : Type ℓ) : Type ℓ where
  pub test : (j k : K) → Bool
  pub test_iff : (j k : K) → (test j k ≡ true) ↔ (j ≡ k)

module _ {ℓ} {K : Type ℓ} ⦃key : Key K⦄ where
  infix 50 ◌==◌
  abbrev pub ◌==◌ : K → K → Bool
  j == k = key.test j k

-- Numbers, texts, and tuples of two keys.
instance abbrev pub string_key : Key String
string_key = record { test = text_test; test_iff = eq_iff }

instance abbrev pub nat_key : Key ℕ
nat_key = record { test = nat_beq; test_iff = nat_beq_iff }

abbrev pub both {ℓ κ} : {J : Type ℓ} {K : Type κ} → Key J → Key K → (p q : J × K) → Bool
both first second p q = first.test p.0 q.0 && second.test p.1 q.1

pub both_iff {ℓ κ} :
    {J : Type ℓ} {K : Type κ} (first : Key J) (second : Key K) (p q : J × K)
    → (both first second p q ≡ true) ↔ (p ≡ q)
both_iff first second (a, b) (c, d) = ground (arith, first.test_iff a c, second.test_iff b d)

abbrev pub pair_key {ℓ κ} : {J : Type ℓ} {K : Type κ} → Key J → Key K → Key (J × K)
pair_key first second = record { test = both first second; test_iff = both_iff first second }
