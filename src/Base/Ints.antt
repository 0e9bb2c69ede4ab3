-- ===== src/Base/Ints.antt =====
-- The `int` that a call returns: a number from 0 on, or a negative one.
use Prim.Native.Nat.{ℕ}

pub data ℤ : Type 0 where
  pos : ℕ → ℤ
  negsuc : ℕ → ℤ
