-- ===== src/Scheduling/Availability.antt =====
-- The availability of a workspace: apps/api/src/modules/scheduling/application/
-- resolve-availability.use-case.ts with the two queries it makes, of
-- availability-patterns.repository.ts and availability-exceptions.repository.ts. A table is the
-- list of the rows that row-level security shows to the workspace, in the order of the query's
-- ORDER BY.
pub mod Resolved
pub mod Exactness
use slotnova.Base.{
  ℕ, Bool, true, false, not, ◌&&◌, ◌||◌, Option, none, some, String, List, [], ◌∷◌, ◌++◌, map, ltb,
  leb, if◌then◌else◌,
}
use slotnova.Base.Lists.{any, filter}
use slotnova.Base.Number.{Number, nat}
use slotnova.Base.Outcome.{Result, ok, err, ◌>>=◌, ◌>>◌}
use slotnova.Scheduling.Interval.{Instant, Interval, create_interval}
use slotnova.Scheduling.IntervalSet.{union_intervals, subtract_intervals}
use slotnova.Scheduling.WallClock.{PlainDate, TemporalZones, SchedulingError}
use slotnova.Scheduling.Pattern.{WeeklyAvailabilityPatternInput, create_weekly_availability_pattern}
use slotnova.Scheduling.Recurrence.{
  ExpansionRange, from_interval, assert_valid_expansion_range, expand_weekly_availability,
}

-- A stored pattern: the columns that its input is read from.
pub record AvailabilityPatternRecord : Type 0 where
  pub pattern_id : ℕ
  pub stored : WeeklyAvailabilityPatternInput

pub record AvailabilityExceptionRecord : Type 0 where
  pub exception_id : ℕ
  pub exception_starts_at : Instant
  pub exception_ends_at : Instant
  pub exception_reason : Option String

-- `a < b` for the lower bound of a `daterange` and the upper bound of another, where a NULL bound
-- is infinite.
abbrev pub bound_lt : Option PlainDate → Option PlainDate → Bool
bound_lt (some a) (some b) = ltb a b
bound_lt _ _ = true

-- `daterange(from, until, '[)') && daterange($1, $2, '[)')`: neither is empty, and each begins
-- before the other ends.
unfoldable pub dateranges_overlap :
    Option PlainDate → Option PlainDate → Option PlainDate → Option PlainDate → Bool
dateranges_overlap from until from' until' =
    bound_lt from until && bound_lt from' until' && bound_lt from until' && bound_lt from' until

unfoldable pub list_overlapping_effective_window :
    Option PlainDate
    → Option PlainDate
    → List AvailabilityPatternRecord
    → List AvailabilityPatternRecord
list_overlapping_effective_window from until =
    filter (λ r. dateranges_overlap r.stored.input_from r.stored.input_until from until)

-- `WHERE starts_at < $2 AND ends_at > $1`.
unfoldable pub list_overlapping :
    Interval → List AvailabilityExceptionRecord → List AvailabilityExceptionRecord
list_overlapping range =
    filter (λ r. ltb r.exception_starts_at range.end && ltb range.start r.exception_ends_at)

abbrev pub last_of : Interval → List Interval → Interval
last_of x [] = x
last_of x (y ∷ ys) = last_of y ys

-- `records.map((record) => createInterval(record.startsAt, record.endsAt))`.
unfoldable pub to_intervals :
    List AvailabilityExceptionRecord → Result SchedulingError (List Interval)
unfolding create_interval
to_intervals [] = ok []
to_intervals (r ∷ rs) = do
  span ← from_interval (create_interval r.exception_starts_at r.exception_ends_at)
  spans ← to_intervals rs
  ok (span ∷ spans)

-- `loadExceptions`, for available spans from `x` on.
unfoldable pub load_exceptions :
    Interval
    → List Interval
    → List AvailabilityExceptionRecord
    → Result SchedulingError (List Interval)
load_exceptions x xs exceptions = do
  span ← from_interval (create_interval x.start (last_of x xs).end)
  to_intervals (list_overlapping span exceptions)

-- From the test `available.length === 0` on.
abbrev pub without_exceptions :
    List AvailabilityExceptionRecord → List Interval → Result SchedulingError (List Interval)
without_exceptions exceptions [] = ok []
without_exceptions exceptions (x ∷ xs) = do
  removed ← load_exceptions x xs exceptions
  from_interval (subtract_intervals (x ∷ xs) removed)

module _ (temporal : TemporalZones) where
  -- `expand`.
  unfoldable pub expand :
      AvailabilityPatternRecord → ExpansionRange → Result SchedulingError (List Interval)
  expand r range = do
    pattern' ← create_weekly_availability_pattern temporal r.stored
    expand_weekly_availability temporal pattern' range

  -- `records.reduce(...)`.
  unfoldable pub union_expansions :
      ExpansionRange
      → List Interval
      → List AvailabilityPatternRecord
      → Result SchedulingError (List Interval)
  union_expansions range accumulated [] = ok accumulated
  union_expansions range accumulated (r ∷ rs) = do
    spans ← expand r range
    next ← from_interval (union_intervals accumulated spans)
    union_expansions range next rs

  -- `ResolveAvailabilityUseCase.execute`.
  unfoldable pub resolve_availability :
      List AvailabilityPatternRecord
      → List AvailabilityExceptionRecord
      → ExpansionRange
      → Result SchedulingError (List Interval)
  resolve_availability patterns exceptions range = do
    assert_valid_expansion_range range
    available ←
        union_expansions range []
          (list_overlapping_effective_window (some range.from_date) (some range.to_date) patterns)
    without_exceptions exceptions available
