-- ===== src/Prelude/Int.antt =====
-- Signed integers over the native numbers: the constructors, for `int` values that the code tests.
use Prim.Native.Nat.{ℕ}

-- `negsuc n` is -(n + 1).
pub data ℤ : Type 0 where
  pos : ℕ → ℤ
  negsuc : ℕ → ℤ
