-- ===== src/Prelude/Int.antt =====
-- Python's signed integers: `negsuc n` is -(n + 1).
use Prim.Native.Nat.{ℕ}
use mathlib.Core.Bool.{Bool, false}
use scalevault.Prelude.Tests.{leb}

pub data ℤ : Type 0 where
  pos : ℕ → ℤ
  negsuc : ℕ → ℤ

-- `0 <= z <= bound`
abbrev pub within : ℕ → ℤ → Bool
within bound (pos n) = leb n bound
within bound (negsuc n) = false
