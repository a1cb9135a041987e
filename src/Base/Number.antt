-- ===== src/Base/Number.antt =====
-- A JavaScript number, as far as the code tells numbers apart: an integer of either sign, or what
-- `Number.isInteger` rejects (a fraction, an infinity, NaN).
use Prim.Native.Nat.{ℕ}
use mathlib.Core.Bool.{Bool, false}
use slotnova.Base.Tests.{leb}

pub data Number : Type 0 where
  -- n, and -(n + 1)
  nat negative : ℕ → Number
  non_integer : Number

-- `Number.isInteger(x) && x >= least`, the negation of the tests `!Number.isInteger(x) || x < least`.
abbrev pub is_integer_from : ℕ → Number → Bool
is_integer_from least (nat n) = leb least n
is_integer_from least (negative n) = false
is_integer_from least non_integer = false
