-- ===== src/Prelude/Int.antt =====
-- The C type `int` where it holds an index or -1.
use Prim.Native.Nat.{ℕ}
use mathlib.Core.Bool.{Bool, false}
use driver_arinc.Prelude.Tests.{◌==◌}

-- `negsuc n` is -(n + 1).
pub data ℤ : Type 0 where
  pos : ℕ → ℤ
  negsuc : ℕ → ℤ

-- `x == n` for a literal `n`.
abbrev pub is_index : ℤ → ℕ → Bool
is_index (pos m) n = m == n
is_index (negsuc m) n = false
