-- ===== src/Prelude/Integers.antt =====
-- The integers over the native natural numbers.
use Prim.Native.Nat.{ℕ}

pub data ℤ : Type 0 where
  pos : ℕ → ℤ
  negsuc : ℕ → ℤ
