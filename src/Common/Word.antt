-- ===== src/Common/Word.antt =====
-- The u64 operations of the Rust standard library that the code uses, on natural numbers.
use Prim.Native.Nat.{ℕ, ◌+◌, ◌-◌, ◌*◌, ◌/◌, ◌%◌, ◌^◌, min}
use mathlib.Core.Bool.{Bool}
use mathlib.Core.Option.{Option, none, some}
use argos_fs.Common.Tests.{leb, ◌==◌, if◌then◌else◌}

-- `u64::MAX`.
abbrev pub u64_max : ℕ
u64_max = 2 ^ 64 - 1

abbrev pub u32_max : ℕ
u32_max = 2 ^ 32 - 1

abbrev pub saturating_add : ℕ → ℕ → ℕ
saturating_add a b = min u64_max (a + b)

-- Subtraction on ℕ stops at 0, as `saturating_sub` does.
abbrev pub saturating_sub : ℕ → ℕ → ℕ
saturating_sub a b = a - b

abbrev pub saturating_mul : ℕ → ℕ → ℕ
saturating_mul a b = min u64_max (a * b)

abbrev pub checked_add : ℕ → ℕ → Option ℕ
checked_add a b = if leb (a + b) u64_max then some (a + b) else none

-- `u32::checked_add`.
abbrev pub checked_add32 : ℕ → ℕ → Option ℕ
checked_add32 a b = if leb (a + b) u32_max then some (a + b) else none

-- `a.div_ceil(b)`, for `b` that is not 0.
abbrev pub div_ceil : ℕ → ℕ → ℕ
div_ceil a b = if a % b == 0 then a / b else a / b + 1

-- `a.is_multiple_of(b)`.
abbrev pub is_multiple_of : ℕ → ℕ → Bool
is_multiple_of a b = if b == 0 then a == 0 else a % b == 0
