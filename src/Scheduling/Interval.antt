-- ===== src/Scheduling/Interval.antt =====
-- apps/api/src/modules/scheduling/domain/interval.ts: the half-open span `[start, end)`.
use slotnova.Base.{ℕ, Bool, ◌&&◌, ◌||◌, compare, Ordering, ltb, leb, ◌==◌, if◌then◌else◌}
use slotnova.Base.Outcome.{Result, ok, err}

-- `Temporal.Instant`, as the nanoseconds since the earliest instant that Temporal represents:
-- the code only compares instants, and moves them through operations taken as parameters.
abbrev pub Instant : Type 0
Instant = ℕ

pub record Interval : Type 0 where
  pub start : Instant
  pub end : Instant

pub data IntervalError : Type 0 where
  invalid_interval_bounds : Instant → Instant → IntervalError

unfoldable pub create_interval : Instant → Instant → Result IntervalError Interval
create_interval start end =
    if leb end start
    then err (invalid_interval_bounds start end)
    else ok (record { start = start; end = end })

unfoldable pub intervals_overlap : Interval → Interval → Bool
intervals_overlap left right = ltb left.start right.end && ltb right.start left.end

unfoldable pub intervals_are_adjacent : Interval → Interval → Bool
intervals_are_adjacent left right = left.end == right.start || right.end == left.start

unfoldable pub interval_contains : Interval → Instant → Bool
interval_contains interval instant = leb interval.start instant && ltb instant interval.end

unfoldable pub compare_intervals : Interval → Interval → Ordering
compare_intervals left right = elim (compare left.start right.start) [
  | Ordering.eq ↦ compare left.end right.end
  | by_start ↦ by_start
]
