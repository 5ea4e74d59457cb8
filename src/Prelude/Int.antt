-- ===== src/Prelude/Int.antt =====
-- Python's integers: `negsuc n` is -(n + 1).
use Prim.Native.Nat.{ℕ, zero, suc, ◌+◌, ◌-◌, min}
use mathlib.Core.Path.{◌≡◌}
use mathlib.Core.Logic.{◌↔◌}
use mathlib.Core.Bool.{Bool, true, false}
use native.Mathlib.Omega.{arith}
use lluna.Prelude.Tests.{ltb, nat_beq, nat_beq_iff}
use lluna.Prelude.Key.{Key}

pub data ℤ : Type 0 where
  pos : ℕ → ℤ
  negsuc : ℕ → ℤ

-- `max(0, min(bound, i))`
abbrev pub clamp : ℕ → ℤ → ℕ
clamp bound (pos n) = min bound n
clamp bound (negsuc n) = 0

unfoldable pub int_lt : ℤ → ℤ → Bool
int_lt (pos m) (pos n) = ltb m n
int_lt (pos m) (negsuc n) = false
int_lt (negsuc m) (pos n) = true
int_lt (negsuc m) (negsuc n) = ltb n m

pub int_lt_asymm : (i j : ℤ) → int_lt i j ≡ true → int_lt j i ≡ false
unfolding int_lt
int_lt_asymm (pos m) (pos n) h = ground arith
int_lt_asymm (pos m) (negsuc n) h = ground arith
int_lt_asymm (negsuc m) (pos n) h = ground arith
int_lt_asymm (negsuc m) (negsuc n) h = ground arith

-- "Not above" is transitive.
pub int_lt_trans : (i j k : ℤ) → int_lt j i ≡ false → int_lt k j ≡ false → int_lt k i ≡ false
unfolding int_lt
int_lt_trans (pos a) (pos b) (pos c) h g = ground arith
int_lt_trans (pos a) (pos b) (negsuc c) h g = ground arith
int_lt_trans (pos a) (negsuc b) (pos c) h g = ground arith
int_lt_trans (pos a) (negsuc b) (negsuc c) h g = ground arith
int_lt_trans (negsuc a) (pos b) (pos c) h g = ground arith
int_lt_trans (negsuc a) (pos b) (negsuc c) h g = ground arith
int_lt_trans (negsuc a) (negsuc b) (pos c) h g = ground arith
int_lt_trans (negsuc a) (negsuc b) (negsuc c) h g = ground arith

unfoldable pub int_beq : ℤ → ℤ → Bool
int_beq (pos m) (pos n) = nat_beq m n
int_beq (pos m) (negsuc n) = false
int_beq (negsuc m) (pos n) = false
int_beq (negsuc m) (negsuc n) = nat_beq m n

pub int_beq_iff : (i j : ℤ) → (int_beq i j ≡ true) ↔ (i ≡ j)
unfolding int_beq
int_beq_iff (pos m) (pos n) = ground (arith, nat_beq_iff m n)
int_beq_iff (pos m) (negsuc n) = ground arith
int_beq_iff (negsuc m) (pos n) = ground arith
int_beq_iff (negsuc m) (negsuc n) = ground (arith, nat_beq_iff m n)

instance abbrev pub int_key : Key ℤ
int_key = record { test = int_beq; test_iff = int_beq_iff }

-- `i + 1`
unfoldable pub next : ℤ → ℤ
next (pos n) = pos (n + 1)
next (negsuc zero) = pos 0
next (negsuc (suc n)) = negsuc n

-- How often 1 can be added to an integer below a bound until the bound is reached.
unfoldable pub gap : ℤ → ℕ → ℕ
gap (pos v) target = target - v
gap (negsuc v) target = target + v + 1

pub gap-next :
    (i : ℤ) (bound : ℕ) → int_lt i (pos bound) ≡ true → gap i bound ≡ suc (gap (next i) bound)
unfolding int_lt gap next
gap-next (pos v) bound h = ground arith
gap-next (negsuc zero) bound h = ground arith
gap-next (negsuc (suc v)) bound h = ground arith

pub gap_done : (i : ℤ) (bound : ℕ) → int_lt i (pos bound) ≡ false → gap i bound ≡ 0
unfolding int_lt gap
gap_done (pos v) bound h = ground arith
gap_done (negsuc v) bound h = ground arith

-- An integer below a bound is still not above it after the next step.
pub next_le :
    (i : ℤ) (bound : ℕ) → int_lt i (pos bound) ≡ true → int_lt (pos bound) (next i) ≡ false
unfolding int_lt next
next_le (pos v) bound h = ground arith
next_le (negsuc zero) bound h = ground arith
next_le (negsuc (suc v)) bound h = ground arith

pub int_lt_connex :
    (i : ℤ) (bound : ℕ)
    → int_lt i (pos bound) ≡ false
    → int_lt (pos bound) i ≡ false
    → i ≡ pos bound
unfolding int_lt
int_lt_connex (pos v) bound h g = ground arith
int_lt_connex (negsuc v) bound h g = ground arith

pub int_lt_irrefl : (n : ℕ) → int_lt (pos n) (pos n) ≡ false
unfolding int_lt
int_lt_irrefl n = ground arith
