-- ===== src/Calendar.antt =====
-- The calendar of a workspace: apps/api/src/modules/calendar-read/application/
-- compose-calendar.use-case.ts, which composes the resolved availability with the occupancy. The
-- dates of instants in UTC and the moves by a day are Temporal's, a parameter.
pub mod Widening
pub mod Composed
mod Tests
use slotnova.Base.{
  ℕ, suc, ◌≤◌, ◌<◌, ◌≡◌, true, Bool, Option, none, some, List, [], ◌∷◌, if◌then◌else◌,
}
use slotnova.Base.Outcome.{Result, ok, err, ◌>>=◌}
use slotnova.Scheduling.Interval.{Instant, Interval, IntervalError, create_interval}
use slotnova.Scheduling.IntervalSet.{intersect_intervals}
use slotnova.Scheduling.WallClock.{PlainDate, TemporalZones, SchedulingError}
use slotnova.Scheduling.Recurrence.{ExpansionRange, from_interval}
use slotnova.Scheduling.Availability.{
  AvailabilityPatternRecord, AvailabilityExceptionRecord, resolve_availability,
}
use slotnova.Booking.Store.{Table, PgTimestamps}
use slotnova.Booking.Occupancy.{ListError, OccupiedBooking, list_occupying}

-- `toZonedDateTimeISO("UTC")`, its date and whether its time is 00:00, and `add` and `subtract` of
-- one day, which throw out of range. The date of a later instant is no earlier, and is later when
-- that instant is a midnight.
pub record UtcDates : Type 0 where
  pub utc_date : Instant → PlainDate
  pub is_midnight : Instant → Bool
  pub next_day : PlainDate → Option PlainDate
  pub previous_day : PlainDate → Option PlainDate
  pub utc_date_lem : (s t : Instant) → s ≤ t → utc_date s ≤ utc_date t
  pub is_midnight_lem : (s t : Instant) → is_midnight t ≡ true → s < t → utc_date s < utc_date t
  pub next_day_lem : (d : PlainDate) {e : PlainDate} → next_day d ≡ some e → e ≡ suc d
  pub previous_day_lem : (d : PlainDate) {e : PlainDate} → previous_day d ≡ some e → d ≡ suc e

pub record CalendarView : Type 0 where
  pub range : Interval
  pub open_time : List Interval
  pub occupied : List OccupiedBooking

pub data CalendarError : Type 0 where
  scheduling : SchedulingError → CalendarError
  occupancy : ListError → CalendarError
  date_range : CalendarError

abbrev pub from_scheduling {ℓ} : {A : Type ℓ} → Result SchedulingError A → Result CalendarError A
from_scheduling (ok a) = ok a
from_scheduling (err e) = err (scheduling e)

abbrev pub from_occupancy {ℓ} : {A : Type ℓ} → Result ListError A → Result CalendarError A
from_occupancy (ok a) = ok a
from_occupancy (err e) = err (occupancy e)

abbrev pub or_date_range : Option PlainDate → Result CalendarError PlainDate
or_date_range none = err date_range
or_date_range (some d) = ok d

-- `expansionRange`: the dates of the window in UTC, a day wider on each side.
unfoldable pub expansion_range : UtcDates → Interval → Result CalendarError ExpansionRange
expansion_range utc window = do
  end_date ←
      (if utc.is_midnight window.end
        then ok (utc.utc_date window.end)
        else or_date_range (utc.next_day (utc.utc_date window.end)))
  from ← or_date_range (utc.previous_day (utc.utc_date window.start))
  to ← or_date_range (utc.next_day end_date)
  ok (record { from_date = from; to_date = to })

module _ (temporal : TemporalZones) (utc : UtcDates) (pg : PgTimestamps) where
  -- `ComposeCalendarUseCase.execute`, over the tables as the two reads find them.
  unfoldable pub compose_calendar :
      ℕ
      → Instant
      → Instant
      → List AvailabilityPatternRecord
      → List AvailabilityExceptionRecord
      → Table
      → Result CalendarError CalendarView
  compose_calendar workspace_id from to patterns exceptions bookings = do
    window ← from_scheduling (from_interval (create_interval from to))
    dates ← expansion_range utc window
    available ← from_scheduling (resolve_availability temporal patterns exceptions dates)
    open_spans ← from_scheduling (from_interval (intersect_intervals available (window ∷ [])))
    entries ← from_occupancy (list_occupying pg workspace_id window.start window.end bookings)
    ok (record { range = window; open_time = open_spans; occupied = entries })
