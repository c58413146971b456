-- ===== src/Base/Int.antt =====
-- Machine integers with a sign, over the native numbers.
use Prim.Native.Nat.{ℕ}

-- `negsuc n` is the number `- (n + 1)`.
pub data ℤ : Type 0 where
  pos negsuc : ℕ → ℤ
