-- ===== src/Base/Words.antt =====
-- 32-bit words as bit patterns below `2 ^ 32`. An `int32` is the pattern of its two's complement,
-- so -1 is `2 ^ 32 - 1`; a comparison of `int32` values compares the patterns moved by `2 ^ 31`.
use Prim.Native.Nat.{ℕ, ◌+◌, ◌-◌, ◌%◌, ◌^◌, ◌≤◌, ◌<◌}
use mathlib.Core.Path.{◌≡◌}
use mathlib.Core.Bool.{Bool, true, not}
use native.Mathlib.Omega.{arith}
use cs503_lab.Base.Tests.{ltb}

unfoldable pub bias : ℕ → ℕ
bias a = (a + 2 ^ 31) % 2 ^ 32

-- `(int32) a < (int32) b` and `(int32) a >= (int32) b`
abbrev pub slt : ℕ → ℕ → Bool
slt a b = ltb (bias a) (bias b)

abbrev pub sge : ℕ → ℕ → Bool
sge a b = not (slt a b)

-- uint32 (and wrapping int32) `a + b` and `a - b`
unfoldable pub add32 : ℕ → ℕ → ℕ
add32 a b = (a + b) % 2 ^ 32

unfoldable pub sub32 : ℕ → ℕ → ℕ
sub32 a b = (a + 2 ^ 32 - b) % 2 ^ 32

-- Of numbers below `2 ^ 31` the signed order is the order.
pub slt-eq-ltb : (a b : ℕ) → a < 2 ^ 31 → b < 2 ^ 31 → slt a b ≡ ltb a b
unfolding bias
slt-eq-ltb a b ha hb = ground arith

-- A pattern at or above `2 ^ 31` is negative.
pub slt_neg : (a b : ℕ) → 2 ^ 31 ≤ a → a < 2 ^ 32 → b < 2 ^ 31 → slt a b ≡ true
unfolding bias
slt_neg a b ha ha' hb = ground arith

pub bias-inj : (a b : ℕ) → a < 2 ^ 32 → b < 2 ^ 32 → bias a ≡ bias b → a ≡ b
unfolding bias
bias-inj a b ha hb e = omega arith

-- No wrap-around
pub add32-small : (a b : ℕ) → a + b < 2 ^ 32 → add32 a b ≡ a + b
unfolding add32
add32-small a b lt = omega arith

pub sub32-small : (a b : ℕ) → b ≤ a → a < 2 ^ 32 → sub32 a b ≡ a - b
unfolding sub32
sub32-small a b le lt = omega arith
