-- ===== src/Prelude/Int.antt =====
-- Signed integers over the native numbers, and Go's `int64`: an integer that wraps at 64 bits.
use Prim.Native.Nat.{ℕ, suc, ◌+◌, ◌-◌, ◌*◌, ◌%◌, ◌<◌, ◌≤◌}
use mathlib.Core.Path.{◌≡◌, refl, ap, ◌∙◌}
use mathlib.Core.Bool.{Bool, true, false}
use native.Mathlib.Omega.{arith}
use llm_d_inference_payload.Prelude.Tests.{leb, if◌then◌else◌}

-- `negsuc n` is -(n + 1).
pub data ℤ : Type 0 where
  pos : ℕ → ℤ
  negsuc : ℕ → ℤ

abbrev pub pos_part : ℤ → ℕ
pos_part (pos n) = n
pos_part (negsuc n) = 0

abbrev pub neg_part : ℤ → ℕ
neg_part (pos n) = 0
neg_part (negsuc n) = suc n

-- a - b, as an integer
abbrev pub sub_ℕ : ℕ → ℕ → ℤ
sub_ℕ a b = if leb b a then pos (a - b) else negsuc (b - a - 1)

abbrev pub is_negative : ℤ → Bool
is_negative (pos n) = false
is_negative (negsuc n) = true

abbrev pub two63 : ℕ
two63 = 9_223_372_036_854_775_808

-- An integer in the range of `int64`: shifted by 2^63, reduced to 64 bits, and shifted back.
unfoldable pub int64 : ℤ → ℤ
int64 (pos n) = sub_ℕ ((n + two63) % (2 * two63)) two63
int64 (negsuc n) = sub_ℕ ((3 * two63 - 1 - n % (2 * two63)) % (2 * two63)) two63

infixl 65 ◌+64◌ ◌-64◌
unfoldable pub ◌+64◌ : ℤ → ℤ → ℤ
unfolding int64
a +64 b = int64 (sub_ℕ (pos_part a + pos_part b) (neg_part a + neg_part b))

unfoldable pub ◌-64◌ : ℤ → ℤ → ℤ
unfolding int64
a -64 b = int64 (sub_ℕ (pos_part a + neg_part b) (neg_part a + pos_part b))

pub int64_pos : (n : ℕ) → n < two63 → int64 (pos n) ≡ pos n
unfolding int64
int64_pos n h = ground arith

sub_ℕ_lem : (a b c : ℕ) → a ≡ b + c → sub_ℕ a b ≡ pos c
sub_ℕ_lem a b c h =
    let e : leb b a ≡ true = ground arith in let d : a - b ≡ c = omega arith in rw (e, d) refl

int64_exact : (a b c : ℕ) → a ≡ b + c → c < two63 → int64 (sub_ℕ a b) ≡ pos c
int64_exact a b c h k = ap int64 (sub_ℕ_lem a b c h) ∙ int64_pos c k

pub +64_pos : (a b : ℕ) → a + b < two63 → pos a +64 pos b ≡ pos (a + b)
unfolding ◌+64◌
+64_pos a b h = int64_exact (a + b) 0 (a + b) (omega arith) h

-- the difference of two integers that are not negative: the exact one, which is in the range
pub -64_pos : (a b : ℕ) → b ≤ a → a < two63 → pos a -64 pos b ≡ pos (a - b)
unfolding ◌-64◌
-64_pos a b h k = int64_exact (a + 0) (0 + b) (a - b) (omega arith) (omega arith)
