-- ===== src/Prelude/Int.antt =====
-- Go's `int64`: values as integers over the native numbers, and the largest one.
use Prim.Native.Nat.{ℕ, ◌+◌, ◌-◌, ◌^◌}
use mathlib.Core.Bool.{Bool, true, false}
use mathlib.Core.Option.{Option, none, some}
use passwall_node.Prelude.Tests.{ltb, leb, if◌then◌else◌}

-- `negsuc n` is -(n + 1).
pub data ℤ : Type 0 where
  pos : ℕ → ℤ
  negsuc : ℕ → ℤ

-- `x < 0`
abbrev pub is_negative : ℤ → Bool
is_negative (pos n) = false
is_negative (negsuc n) = true

-- `x <= 0`
abbrev pub is_nonpositive : ℤ → Bool
is_nonpositive (pos n) = leb n 0
is_nonpositive (negsuc n) = true

-- The value of a number that a test has shown not to be negative.
abbrev pub to_ℕ : ℤ → ℕ
to_ℕ (pos n) = n
to_ℕ (negsuc n) = 0

-- `math.MaxInt64`
abbrev pub max_int64 : ℕ
max_int64 = 2 ^ 63 - 1

-- `math.MaxUint64`
abbrev pub max_uint64 : ℕ
max_uint64 = 2 ^ 64 - 1

-- The sum of two non-negative values, if it fits an `int64`. Go's test is `a > math.MaxInt64 - b`,
-- which says this of values that are in range.
unfoldable pub checked_add : ℕ → ℕ → Option ℕ
checked_add a b = if ltb max_int64 (a + b) then none else some (a + b)
