-- ===== src/Common/Int.antt =====
-- C's `int`, where only a few small values of either sign occur.
use Prim.Native.Nat.{ℕ}

-- `negsuc n` is -(n + 1).
pub data ℤ : Type 0 where
  pos : ℕ → ℤ
  negsuc : ℕ → ℤ
