-- ===== src/Calendar/Tests.antt =====
-- A composed calendar of one weekly window, with one booking, and the instances of the theorems on
-- the occupancy and on the composition.
use slotnova.Base.{
  String, true, ℕ, suc, ◌+◌, ◌*◌, ◌-◌, ◌/◌, ◌%◌, ◌≤◌, ◌<◌, ◌≡◌, refl, ◌&&◌, Option, none, some,
  List, [], ◌∷◌, leb, ◌==◌, if◌then◌else◌, arith,
}
use text.Mathlib.Text.{◌==◌ as str_eq}
use slotnova.Base.Lists.{any, All}
use slotnova.Base.Number.{nat}
use slotnova.Base.Outcome.{ok}
use slotnova.Scheduling.Interval.{Instant}
use slotnova.Scheduling.WallClock.{
  PlainDateTime, TemporalZones, resolve_local_date_time, classify_local_date_time,
  assert_valid_iana_time_zone, has_fixed_offset_prefix,
}
use slotnova.Scheduling.Pattern.{
  WeeklyAvailabilityPattern, create_weekly_availability_pattern, read_rule, read_rules,
  assert_valid_local_time_range, assert_no_overlap_within_day, assert_neighbours, group_rules,
  push_rule, get_rules, sort_rules, insert_rule,
}
use slotnova.Scheduling.Recurrence.{ExpansionRange}
use slotnova.Scheduling.Availability.{
  AvailabilityExceptionRecord, AvailabilityPatternRecord, list_overlapping_effective_window,
  dateranges_overlap,
}
use slotnova.Scheduling.Availability.Exactness.{IsReadable, listed}
use slotnova.Booking.History.{created}
use slotnova.Booking.Store.{BookingRecord, PgTimestamps}
use slotnova.Booking.Occupancy.{OccupiedBooking, list_occupying}
use slotnova.Booking.Occupancy.Complete.{blocks, is_occupied, list_occupying_complete}
use slotnova.Calendar.{UtcDates, CalendarView, expansion_range, compose_calendar}
use slotnova.Calendar.Widening.{window_of, IsNearUtc}
use slotnova.Calendar.Composed.{Shows, compose_calendar_lem}

abbrev day : ℕ
day = 86400000000000

abbrev utc_zone : TemporalZones
utc_zone = record {
  day_of_week = λ d. suc (d % 7);
  is_time_zone = λ z. str_eq z "UTC";
  to_zoned_date_time = λ l z d. some (record { instant = l; plain = l });
  next_transition = λ d z. none;
}

date_order : (s t : ℕ) → s ≤ t → s / day ≤ t / day
date_order s t le = omega (arith, le)

midnight_order : (s t : ℕ) → ((t % day) == 0) ≡ true → s < t → s / day < t / day
midnight_order s t e lt = let k : t % day ≡ 0 = ground (arith, e) in omega (arith, k, lt)

next_lem : (d : ℕ) {e : ℕ} → ◌≡◌ {A = Option ℕ} (some (suc d)) (some e) → e ≡ suc d
next_lem d e = ground (arith, e)

previous_lem : (d : ℕ) {e : ℕ} → (if leb 1 d then some (d - 1) else none) ≡ some e → d ≡ suc e
previous_lem d e = ground (arith, e)

abbrev utc_dates : UtcDates
utc_dates = record {
  utc_date = λ t. t / day;
  is_midnight = λ t. (t % day) == 0;
  next_day = λ d. some (suc d);
  previous_day = λ d. if leb 1 d then some (d - 1) else none;
  utc_date_lem = date_order;
  is_midnight_lem = midnight_order;
  next_day_lem = λ d e. next_lem d e;
  previous_day_lem = λ d e. previous_lem d e;
}

-- The zone shows the times of UTC.
abbrev clock : String → PlainDateTime → Instant
clock zone l = l

near_utc : IsNearUtc utc_zone utc_dates clock
near_utc zone l = (omega arith, λ t lt. omega (arith, lt))

abbrev weekly : AvailabilityPatternRecord
weekly = record {
  pattern_id = 1;
  stored = record {
    input_time_zone = "UTC";
    input_rules =
        record { input_day_of_week = nat 1; input_start = nat 600; input_end = nat 720 } ∷ [];
    input_from = none;
    input_until = none;
  };
}

abbrev minute : ℕ → Instant
minute n = (7 * 1440 + n) * 60000000000

dates_of_window :
    expansion_range utc_dates (window_of (minute 540) (minute 660))
    ≡ ok (record { from_date = 6; to_date = 9 })
unfolding expansion_range
dates_of_window = refl

abbrev mondays : WeeklyAvailabilityPattern
mondays = record {
  time_zone = "UTC";
  rules = record { rule_day = 1; start_minute_of_day = 600; end_minute_of_day = 720 } ∷ [];
  effective_from = none;
  effective_until = none;
}

created_mondays : create_weekly_availability_pattern utc_zone weekly.stored ≡ ok mondays
unfolding create_weekly_availability_pattern assert_valid_iana_time_zone has_fixed_offset_prefix
    read_rules read_rule assert_valid_local_time_range assert_no_overlap_within_day
    assert_neighbours group_rules push_rule get_rules sort_rules insert_rule
created_mondays = refl

abbrev week : ExpansionRange
week = record { from_date = 6; to_date = 9 }

same_clock : (l : PlainDateTime) (zone : String) → resolve_local_date_time utc_zone l zone ≡ ok l
unfolding resolve_local_date_time classify_local_date_time
same_clock l zone = ground arith

IsReadable-weekly : All (IsReadable utc_zone clock week) (listed utc_zone clock week (weekly ∷ []))
unfolding list_overlapping_effective_window dateranges_overlap
IsReadable-weekly =
    ((mondays, created_mondays, λ d a b h. ((same_clock _ "UTC", same_clock _ "UTC"), tt)), tt)

abbrev back : ℕ → ℕ → Option ℕ
back t d = if leb d t then some (t - d) else none

back_lem : (t d : ℕ) {u : ℕ} → back t d ≡ some u → t ≡ u + d
back_lem t d {u} e = ground arith

forth_lem : (t d : ℕ) {u : ℕ} → ◌≡◌ {A = Option ℕ} (some (t + d)) (some u) → u ≡ t + d
forth_lem t d {u} e = ground arith

abbrev microseconds : PgTimestamps
microseconds = record {
  timestamptz = λ t. some (t / 1000 * 1000);
  add_seconds = λ t s. some (t + s * 1000000000);
  subtract_seconds = λ t s. back t (s * 1000000000);
  add_seconds_lem = λ t s e. forth_lem t (s * 1000000000) e;
  subtract_seconds_lem = λ t s e. back_lem t (s * 1000000000) e;
}

abbrev booked : BookingRecord
booked = record {
  booking = created (record {
    id = 1;
    service_id = 7;
    starts_at = minute 610;
    service_duration_minutes = nat 30;
    pre_buffer = nat 5;
    post_buffer = nat 10;
  });
  workspace_id = 3;
  blocking_range = record { start = minute 605; end = minute 650 };
}

list_occupying_complete_example :
    (entries : List OccupiedBooking) × (list_occupying microseconds 3
        (minute 540)
        (minute 660)
        (booked ∷ [])
      ≡ ok entries)
    × ((t : Instant)
        → minute 540 ≤ t
        → t < minute 660
        → any (is_occupied t) entries ≡ any (λ r. r.workspace_id == 3 && blocks t r) (booked ∷ []))
list_occupying_complete_example =
    list_occupying_complete microseconds 3 (minute 540) (minute 660) (booked ∷ []) refl refl
      (omega arith)

-- A closure that begins before the window.
abbrev closure : AvailabilityExceptionRecord
closure = record {
  exception_id = 1;
  exception_starts_at = minute 500;
  exception_ends_at = minute 615;
  exception_reason = none;
}

compose_calendar_lem_example :
    (view : CalendarView) × (compose_calendar utc_zone utc_dates microseconds 3
        (minute 540)
        (minute 660)
        (weekly ∷ [])
        (closure ∷ [])
        (booked ∷ [])
      ≡ ok view)
    × Shows utc_zone utc_dates microseconds clock 3
        (minute 540)
        (minute 660)
        (weekly ∷ [])
        (closure ∷ [])
        (booked ∷ [])
        view
compose_calendar_lem_example =
    compose_calendar_lem utc_zone utc_dates microseconds clock 3 (minute 540) (minute 660)
      (weekly ∷ []) (closure ∷ []) (booked ∷ []) week (omega arith) dates_of_window (omega arith)
      near_utc IsReadable-weekly (omega arith, tt) refl refl
