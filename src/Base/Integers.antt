-- ===== src/Base/Integers.antt =====
-- The difference of two instants, which is negative where the clock was set back.
use Prim.Native.Nat.{ℕ, ◌-◌}
use mathlib.Core.Bool.{true, false}
use multi_tenant_saa_s_platf.Base.Tests.{leb}

pub data ℤ : Type 0 where
  pos negsuc : ℕ → ℤ

-- `a - b`
unfoldable pub difference : ℕ → ℕ → ℤ
difference a b = elim (leb b a) [ true ↦ pos (a - b) | false ↦ negsuc (b - a - 1) ]
