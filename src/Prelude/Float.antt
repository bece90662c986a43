-- ===== src/Prelude/Float.antt =====
-- Go's `float64`: its operations, with the laws of IEEE 754 comparison that the theorems use. They
-- hold of NaN too: every comparison with NaN is false.
use Prim.Native.Nat.{ℕ, ◌+◌, ◌-◌, ◌*◌, ◌/◌}
use mathlib.Core.Path.{◌≡◌, refl}
use mathlib.Core.Logic.{◌⊎◌}
use mathlib.Core.Bool.{Bool, true, false}
use native.Mathlib.Omega.{arith}
use llm_d_inference_payload.Prelude.Tests.{ltb}

pub record Float64 : Type 1 where
  pub F : Type 0
  pub zero_f : F
  pub one_f : F
  -- `a < b`
  pub lt : F → F → Bool
  pub add : F → F → F
  pub sub : F → F → F
  pub mul : F → F → F
  pub div : F → F → F
  -- the conversion of a non-negative integer
  pub of_ℕ : ℕ → F
  pub lt-irrefl : (a : F) → lt a a ≡ false
  pub lt_trans : (a b c : F) → lt a b ≡ true → lt b c ≡ true → lt a c ≡ true
  pub lt-zero-one : lt zero_f one_f ≡ true
  pub is_nan : F → Bool
  -- a number is above the smaller or below the larger of two that differ
  pub lt_either : (a b c : F) → lt a c ≡ true → is_nan b ≡ false → (lt a b ≡ true) ⊎ (lt b c ≡ true)

-- Thousandths, rounded down: an instance that runs in tests.
thousandths_trans : (a b c : ℕ) → ltb a b ≡ true → ltb b c ≡ true → ltb a c ≡ true
thousandths_trans a b c h k = ground arith

thousandths_irrefl : (a : ℕ) → ltb a a ≡ false
thousandths_irrefl a = ground arith

thousandths_either : (a b c : ℕ) → ltb a c ≡ true → (ltb a b ≡ true) ⊎ (ltb b c ≡ true)
thousandths_either a b c h = ground arith

unfoldable pub thousandths : Float64
unfolding thousandths_trans thousandths_irrefl thousandths_either
thousandths = record {
  F = ℕ;
  zero_f = 0;
  one_f = 1000;
  lt = ltb;
  add = ◌+◌;
  sub = ◌-◌;
  mul = λ a b. a * b / 1000;
  div = λ a b. a * 1000 / b;
  of_ℕ = λ n. n * 1000;
  lt-irrefl = thousandths_irrefl;
  lt_trans = thousandths_trans;
  lt-zero-one = refl;
  is_nan = λ a. false;
  lt_either = λ a b c h n. thousandths_either a b c h;
}
