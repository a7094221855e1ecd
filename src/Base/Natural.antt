-- ===== src/Base/Natural.antt =====
-- Facts on remainders, and integers.
use Prim.Native.Nat.{ℕ, ◌+◌, ◌%◌, ◌<◌}
use mathlib.Core.Logic.{◌≢◌}
use native.Mathlib.Omega.{arith}

-- Numbers closer together than `2048` have different remainders by it.
pub mod_ne_of_near : (a b : ℕ) → a < b → b < a + 2048 → a % 2048 ≢ b % 2048
mod_ne_of_near a b h k = omega arith

-- An integer as strconv gives it: `negsuc n` is `- (n + 1)`.
pub data ℤ : Type 0 where
  pos negsuc : ℕ → ℤ
