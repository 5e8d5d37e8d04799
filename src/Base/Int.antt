-- ===== src/Base/Int.antt =====
-- Signed integers, for the delays of flights.
use Prim.Native.Nat.{ℕ, ◌+◌, ◌-◌, ◌/◌}
use mathlib.Core.Bool.{Bool, false}
use sentinel_soroban_v.Base.Tests.{leb, if◌then◌else◌}

-- `negsuc n` is -(n + 1).
pub data ℤ : Type 0 where
  pos : ℕ → ℤ
  negsuc : ℕ → ℤ

-- `Math.round(Number(a - b) / 60)`: half a unit is rounded up, so it is the floor of
-- (a - b + 30) / 60.
unfoldable pub round_minutes : ℕ → ℕ → ℤ
round_minutes a b = if leb b (a + 30) then pos ((a + 30 - b) / 60) else negsuc ((b - a - 31) / 60)

-- `z >= n`
abbrev pub at_least : ℤ → ℕ → Bool
at_least (pos k) n = leb n k
at_least (negsuc k) n = false
