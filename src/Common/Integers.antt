-- ===== src/Common/Integers.antt =====
-- Signed integers over the native numbers, for the replies of scripts.
use Prim.Native.Nat.{ℕ}

-- `negsuc n` is -(n + 1).
pub data ℤ : Type 0 where
  pos : ℕ → ℤ
  negsuc : ℕ → ℤ
