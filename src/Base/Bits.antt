-- ===== src/Base/Bits.antt =====
-- Single bits of registers: `(x >> k) & 1`, `x |= 1 << k`, `x &= ~(1 << k)`, by arithmetic.
use Prim.Native.Nat.{ℕ, ◌+◌, ◌-◌, ◌/◌, ◌%◌, ◌^◌}
use mathlib.Core.Bool.{Bool}
use cdc_vp.Base.Tests.{◌==◌, if◌then◌else◌}

-- Bit `k` of `x`.
abbrev pub bit : ℕ → ℕ → Bool
bit x k = x / 2 ^ k % 2 == 1

-- `x | (1 << k)`
abbrev pub set_bit : ℕ → ℕ → ℕ
set_bit x k = if bit x k then x else x + 2 ^ k

-- `x & ~(1 << k)`
abbrev pub clear_bit : ℕ → ℕ → ℕ
clear_bit x k = if bit x k then x - 2 ^ k else x
