-- ===== src/Prelude/Words.antt =====
-- Machine words as native numbers below 2 ^ w. An `int32_t` is its bit pattern, below 2 ^ 32, and
-- `signed32` is the number that the pattern stands for.
use Prim.Native.Nat.{ℕ, ◌+◌, ◌-◌, ◌/◌, ◌%◌, ◌^◌}
use mathlib.Core.Bool.{Bool}
use ppc2cpp.Prelude.Tests.{◌==◌, ltb, if◌then◌else◌}

abbrev pub u16_mod : ℕ
u16_mod = 2 ^ 16

abbrev pub u32_mod : ℕ
u32_mod = 2 ^ 32

-- `a + b` and `a - b` on `uint32_t`; the first is also `+` of a `uint32_t` and an `int32_t`.
abbrev pub add32 : ℕ → ℕ → ℕ
add32 a b = (a + b) % u32_mod

abbrev pub sub32 : ℕ → ℕ → ℕ
sub32 a b = (a + u32_mod - b) % u32_mod

-- `(x >> lo) & (2 ^ width - 1)`
abbrev pub bits : ℕ → ℕ → ℕ → ℕ
bits x lo width = x / 2 ^ lo % 2 ^ width

-- `((x >> i) & 1) == 1`
abbrev pub bit : ℕ → ℕ → Bool
bit x i = bits x i 1 == 1

pub data ℤ : Type 0 where
  pos : ℕ → ℤ
  negsuc : ℕ → ℤ

abbrev pub signed32 : ℕ → ℤ
signed32 w = if ltb w (2 ^ 31) then pos w else negsuc (2 ^ 32 - w - 1)
