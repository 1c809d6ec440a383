-- ===== src/Common/Int.antt =====
-- Signed integers over the native numbers: Go's `int`, `int64` and instants.
use Prim.Native.Nat.{ℕ, suc, ◌+◌, ◌-◌, ◌≤◌}
use mathlib.Core.Path.{◌≡◌}
use mathlib.Core.Bool.{Bool}
use native.Mathlib.Omega.{arith}
use mirror_cloud.Common.Tests.{ltb, leb, if◌then◌else◌}

-- `negsuc n` stands for -(n + 1).
pub data ℤ : Type 0 where
  pos negsuc : ℕ → ℤ

abbrev pub up : ℤ → ℕ
up (pos n) = n
up (negsuc n) = 0

abbrev pub down : ℤ → ℕ
down (pos n) = 0
down (negsuc n) = suc n

-- The integer m - n.
abbrev pub diff : ℕ → ℕ → ℤ
diff m n = if leb n m then pos (m - n) else negsuc (n - m - 1)

infixl 65 ◌+ℤ◌ ◌-ℤ◌
unfoldable pub ◌+ℤ◌ : ℤ → ℤ → ℤ
i +ℤ j = diff (up i + up j) (down i + down j)

unfoldable pub ◌-ℤ◌ : ℤ → ℤ → ℤ
i -ℤ j = diff (up i + down j) (down i + up j)

infix 50 ◌≤ℤ◌ ◌<ℤ◌
abbrev pub ◌≤ℤ◌ : ℤ → ℤ → Type 0
i ≤ℤ j = up i + down j ≤ up j + down i

abbrev pub ◌<ℤ◌ : ℤ → ℤ → Type 0
i <ℤ j = suc (up i + down j) ≤ up j + down i

-- The Boolean test i < j.
abbrev pub ltz : ℤ → ℤ → Bool
ltz i j = ltb (up i + down j) (up j + down i)

pub +ℤ_parts : (i j : ℤ) → up (i +ℤ j) + down i + down j ≡ down (i +ℤ j) + up i + up j
unfolding ◌+ℤ◌
+ℤ_parts i j = ground arith

pub -ℤ_parts : (i j : ℤ) → up (i -ℤ j) + down i + up j ≡ down (i -ℤ j) + up i + down j
unfolding ◌-ℤ◌
-ℤ_parts i j = ground arith

pub eq_of_parts : (i j : ℤ) → up i + down j ≡ up j + down i → i ≡ j
eq_of_parts i j h = ground arith

pub ruleset int_laws = (arith, +ℤ_parts, -ℤ_parts, eq_of_parts)
