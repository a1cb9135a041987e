-- ===== src/Calendar/Composed.antt =====
-- `ComposeCalendarUseCase.execute`: what a composed calendar shows of its window.
use slotnova.Base.{
  ℕ, ◌≤◌, ◌<◌, ◌≡◌, ◌↔◌, ◌+◌, String, refl, true, false, ◌&&◌, some, List, [], ◌∷◌, leb, ◌==◌,
  arith,
}
use slotnova.Base.Lists.{any, All}
use slotnova.Base.Outcome.{ok}
use slotnova.Scheduling.Interval.{Instant, create_interval, interval_contains}
use slotnova.Scheduling.IntervalSet.{intersect_intervals}
use slotnova.Scheduling.IntervalSet.Sets.{covers, IsCanonical, IsCanonical-IsProper}
use slotnova.Scheduling.IntervalSet.Algebra.{intersect_intervals-Yields}
use slotnova.Scheduling.WallClock.{PlainDateTime, TemporalZones}
use slotnova.Scheduling.Recurrence.{ExpansionRange}
use slotnova.Scheduling.Availability.{
  AvailabilityPatternRecord, AvailabilityExceptionRecord, resolve_availability,
}
use slotnova.Scheduling.Availability.Resolved.{IsProperException, excepts, covered, yielded}
use slotnova.Scheduling.Availability.Exactness.{
  IsReadable, SomeOpen, listed, resolve_availability-Covers,
}
use slotnova.Calendar.Widening.{
  window_of, expansion_range-wide, IsNearUtc, SomeDeclared, SomeOpen-declared,
}
use slotnova.Booking.Store.{Table, PgTimestamps}
use slotnova.Booking.Occupancy.Complete.{blocks, is_occupied, list_occupying_complete}
use slotnova.Calendar.{UtcDates, CalendarView, expansion_range, compose_calendar}

module _ (temporal : TemporalZones) (utc : UtcDates) (pg : PgTimestamps)
    (clock : String → PlainDateTime → Instant) where
  -- What a calendar of the window shows: of its instants exactly those as open that some pattern
  -- declares, on whatever date, and no exception covers, and exactly those as occupied that a booking
  -- of the workspace that is not cancelled blocks.
  abbrev pub Shows :
      ℕ
      → Instant
      → Instant
      → List AvailabilityPatternRecord
      → List AvailabilityExceptionRecord
      → Table
      → CalendarView
      → Type 0
  Shows workspace_id from to patterns exceptions bookings view =
      IsCanonical view.open_time
      × ((t : Instant)
          → (covers view.open_time t ≡ true) ↔ (
              (from ≤ t)
              × (t < to)
              × SomeDeclared temporal utc clock t patterns
              × (any (excepts t) exceptions ≡ false)))
      × ((t : Instant)
          → from ≤ t
          → t < to
          → any (is_occupied t) view.occupied
            ≡ any (λ r. r.workspace_id == workspace_id && blocks t r) bookings)

  -- When the dates about the window are dates and lie within the horizon, the local time of every
  -- zone is less than a day from UTC, the patterns that the query lists are readable and PostgreSQL
  -- keeps the window as it is, a calendar is returned. Its open time is the canonical list of the
  -- instants of the window that some pattern declares on any date and no exception covers, and its
  -- entries show an instant of the window as occupied exactly when a booking of the workspace that
  -- is not cancelled blocks it.
  pub compose_calendar_lem :
      (workspace_id : ℕ) (from to : Instant) (patterns : List AvailabilityPatternRecord)
      (exceptions : List AvailabilityExceptionRecord) (bookings : Table) (dates : ExpansionRange)
      → from < to
      → expansion_range utc (window_of from to) ≡ ok dates
      → dates.to_date ≤ dates.from_date + 370
      → IsNearUtc temporal utc clock
      → All (IsReadable temporal clock dates) (listed temporal clock dates patterns)
      → All IsProperException exceptions
      → pg.timestamptz from ≡ some from
      → pg.timestamptz to ≡ some to
      → (view : CalendarView) × (compose_calendar temporal utc pg workspace_id from to patterns
            exceptions bookings
          ≡ ok view)
        × Shows workspace_id from to patterns exceptions bookings view
  unfolding compose_calendar create_interval interval_contains
  compose_calendar_lem workspace_id from to patterns exceptions bookings dates proper in_dates short
        near readable exceptions_proper kept_from kept_to =
      let window = window_of from to in
      let valid : leb to from ≡ false = ground arith in
      let (some_date, _) = expansion_range-wide utc from to {dates = dates} proper in_dates in
      let (available, resolved, canonical, exact) =
        covered
          (λ t. SomeOpen temporal clock dates t patterns × (any (excepts t) exceptions ≡ false))
          (resolve_availability temporal patterns exceptions dates)
          (resolve_availability-Covers temporal clock patterns exceptions dates some_date short
            readable exceptions_proper) in
      let (spans, eq, canonical', clipped) =
        yielded (λ t. covers available t && covers (window ∷ []) t)
          (intersect_intervals available (window ∷ []))
          (intersect_intervals-Yields available (window ∷ [])
            (IsCanonical-IsProper available canonical) (proper, tt)) in
      let (entries, eq', complete) =
        list_occupying_complete pg workspace_id from to bookings kept_from kept_to (omega arith) in
      (
        record { range = window; open_time = spans; occupied = entries },
        rw (valid, in_dates, resolved, eq, eq') refl,
        (
          canonical',
          λ t. (
            λ c.
                let clip = clipped t in
                let a : from ≤ t = ground (arith, clip, c) in
                let b : t < to = ground (arith, clip, c) in
                let open_then : covers available t ≡ true = ground (arith, clip, c) in
                let (opened, free) = (exact t).0 open_then in
                let declared =
                  SomeOpen-declared temporal utc clock from to t {dates = dates} patterns near
                    proper in_dates a b in
                (a, b, declared.0 opened, free),
            λ (a, b, declared, free).
                let clip = clipped t in
                let opened =
                  SomeOpen-declared temporal utc clock from to t {dates = dates} patterns near
                    proper in_dates a b in
                let open_then = (exact t).1 (opened.1 declared, free) in
                ground (arith, clip, open_then, a, b),
          ),
          complete,
        ),
      )
