-- ===== src/Scheduling/WallClock.antt =====
-- apps/api/src/modules/scheduling/domain/wall-clock.ts: local times in a time zone. The zone
-- database is Temporal's, a parameter.
use slotnova.Base.{ℕ, ◌+◌, ◌*◌, Bool, not, ◌||◌, Option, none, some, String, ◌==◌, if◌then◌else◌}
use text.Mathlib.Text.{starts_with, ◌==◌ as str_eq}
use slotnova.Base.Outcome.{Result, ok, err, ◌>>=◌}
use slotnova.Scheduling.Interval.{Instant, IntervalError}

-- `Temporal.PlainDate`, as the days since the earliest date.
abbrev pub PlainDate : Type 0
PlainDate = ℕ

-- `Temporal.PlainDateTime`, as the nanoseconds since the midnight of the earliest date.
abbrev pub PlainDateTime : Type 0
PlainDateTime = ℕ

-- `localMidnight(date).add({ minutes })`.
abbrev pub local_date_time : PlainDate → ℕ → PlainDateTime
local_date_time date minute = (date * 1440 + minute) * 60000000000

pub data Disambiguation : Type 0 where
  earlier later : Disambiguation

pub record ZonedDateTime : Type 0 where
  pub instant : Instant
  pub plain : PlainDateTime

-- What the code takes from Temporal. `toZonedDateTime` and the `add` before it throw a RangeError
-- out of Temporal's range.
pub record TemporalZones : Type 0 where
  pub day_of_week : PlainDate → ℕ
  pub is_time_zone : String → Bool
  pub to_zoned_date_time : PlainDateTime → String → Disambiguation → Option ZonedDateTime
  pub next_transition : ZonedDateTime → String → Option Instant

-- The reasons of `InvalidLocalTimeRangeError`.
pub data LocalTimeReason : Type 0 where
  whole_minutes start_bound end_bound end_after_start : LocalTimeReason

-- The errors of scheduling-errors.ts; an invalid rule by its reason, and Temporal's RangeError.
pub data SchedulingError : Type 0 where
  invalid_interval : IntervalError → SchedulingError
  invalid_time_zone : String → SchedulingError
  invalid_local_time_range : LocalTimeReason → SchedulingError
  invalid_day_of_week : SchedulingError
  overlapping_rules : ℕ → SchedulingError
  invalid_effective_range : PlainDate → PlainDate → SchedulingError
  invalid_expansion_range : PlainDate → PlainDate → SchedulingError
  expansion_horizon_exceeded : ℕ → ℕ → SchedulingError
  range_error : SchedulingError

pub data WallClockResolution : Type 0 where
  unique repeated missing : WallClockResolution

-- `/^[+−-]/u`.
unfoldable pub has_fixed_offset_prefix : String → Bool
has_fixed_offset_prefix value =
    starts_with value "+" || starts_with value "−" || starts_with value "-"

module _ (temporal : TemporalZones) where
  open temporal use {is_time_zone, to_zoned_date_time, next_transition}

  unfoldable pub assert_valid_iana_time_zone : String → Result SchedulingError (Unit {0})
  assert_valid_iana_time_zone value =
      if str_eq value "" || has_fixed_offset_prefix value
      then err (invalid_time_zone value)
      else if is_time_zone value
      then ok tt
      else err (invalid_time_zone value)

  abbrev or_range_error {ℓ} : {A : Type ℓ} → Option A → Result SchedulingError A
  or_range_error none = err range_error
  or_range_error (some a) = ok a

  unfoldable pub classify_local_date_time :
      PlainDateTime → String → Result SchedulingError WallClockResolution
  classify_local_date_time local time_zone = do
    first ← or_range_error (to_zoned_date_time local time_zone earlier)
    (if not (first.plain == local) then ok missing else do
      last ← or_range_error (to_zoned_date_time local time_zone later)
      ok (if first.instant == last.instant then unique else repeated))

  -- `transition?.toInstant() ?? ...`, the answer for a missing local time.
  abbrev end_of_gap :
      Option Instant → Result SchedulingError ZonedDateTime → Result SchedulingError Instant
  end_of_gap (some transition) fallback = ok transition
  end_of_gap none fallback = do last ← fallback; ok last.instant

  unfoldable pub resolve_local_date_time : PlainDateTime → String → Result SchedulingError Instant
  resolve_local_date_time local time_zone = do
    first ← or_range_error (to_zoned_date_time local time_zone earlier)
    resolution ← classify_local_date_time local time_zone
    elim resolution [
      | missing ↦
          end_of_gap (next_transition first time_zone)
            (or_range_error (to_zoned_date_time local time_zone later))
      | _ ↦ ok first.instant
    ]
