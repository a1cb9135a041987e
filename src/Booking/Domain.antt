-- ===== src/Booking/Domain.antt =====
-- apps/api/src/modules/booking/domain: booking-status.ts, booking-errors.ts and booking.ts.
-- Ids are only compared, so they are numbers; a reason is a text. Minutes are numbers of the
-- language until `assertValidSnapshot` has read them, and natural numbers from then on.
use slotnova.Base.{
  ℕ, ◌+◌, ◌*◌, ◌≡◌, Bool, true, false, not, Option, none, some, String, ◌==◌, if◌then◌else◌,
}
use slotnova.Base.Number.{Number, nat, negative, non_integer, is_integer_from}
use slotnova.Base.Outcome.{Result, ok, err, ◌>>=◌, ◌>>◌, throw_if}
use slotnova.Scheduling.Interval.{Instant, Interval, IntervalError, create_interval}

pub data BookingStatus : Type 0 where
  confirmed completed cancelled : BookingStatus

pub data BookingCommand : Type 0 where
  create reschedule cancel complete : BookingCommand

unfoldable pub is_terminal_booking_status : BookingStatus → Bool
is_terminal_booking_status confirmed = false
is_terminal_booking_status completed = true
is_terminal_booking_status cancelled = true

abbrev pub is_confirmed : BookingStatus → Bool
is_confirmed confirmed = true
is_confirmed _ = false

abbrev pub is_completed : BookingStatus → Bool
is_completed completed = true
is_completed _ = false

abbrev pub is_cancelled : BookingStatus → Bool
is_cancelled cancelled = true
is_cancelled _ = false

pub data BufferField : Type 0 where
  pre_buffer_minutes post_buffer_minutes : BufferField

pub data BookingError : Type 0 where
  invalid_booking_duration : Number → BookingError
  invalid_booking_buffer : BufferField → Number → BookingError
  invalid_booking_transition : BookingCommand → BookingStatus → BookingError
  stale_booking_version : ℕ → ℕ → BookingError
  booking_overlap : BookingError
  booking_not_found : ℕ → BookingError

-- `BookingServiceSnapshot`, once it is validated.
pub record BookingServiceSnapshot : Type 0 where
  pub service_duration_minutes : ℕ
  pub pre_buffer : ℕ
  pub post_buffer : ℕ

pub record Booking : Type 0 where
  pub snapshot : BookingServiceSnapshot
  pub id : ℕ
  pub service_id : ℕ
  pub starts_at : Instant
  pub status : BookingStatus
  pub version : ℕ
  pub cancelled_reason : Option String

pub record CreateBookingInput : Type 0 where
  pub id : ℕ
  pub service_id : ℕ
  pub starts_at : Instant
  pub service_duration_minutes : Number
  pub pre_buffer : Number
  pub post_buffer : Number

abbrev pub initial_booking_version : ℕ
initial_booking_version = 1

-- One of the three tests of `assertValidSnapshot`: the integer, or the error.
unfoldable pub read_minutes : ℕ → BookingError → Number → Result BookingError ℕ
read_minutes least error (nat n) = if is_integer_from least (nat n) then ok n else err error
read_minutes least error (negative n) = err error
read_minutes least error non_integer = err error

unfoldable pub assert_valid_snapshot :
    Number → Number → Number → Result BookingError BookingServiceSnapshot
unfolding read_minutes
assert_valid_snapshot duration pre post = do
  d ← read_minutes 1 (invalid_booking_duration duration) duration
  a ← read_minutes 0 (invalid_booking_buffer pre_buffer_minutes pre) pre
  b ← read_minutes 0 (invalid_booking_buffer post_buffer_minutes post) post
  ok (record { service_duration_minutes = d; pre_buffer = a; post_buffer = b })

unfoldable pub assert_version_matches : Booking → ℕ → Result BookingError (Unit {0})
assert_version_matches booking expected_version =
    throw_if (not (expected_version == booking.version))
      (stale_booking_version expected_version booking.version)

unfoldable pub create_booking : CreateBookingInput → Result BookingError Booking
unfolding assert_valid_snapshot
create_booking input = do
  snapshot ← assert_valid_snapshot input.service_duration_minutes input.pre_buffer input.post_buffer
  ok (record {
    snapshot = snapshot;
    id = input.id;
    service_id = input.service_id;
    starts_at = input.starts_at;
    status = confirmed;
    version = initial_booking_version;
    cancelled_reason = none;
  })

-- What a transition returns: the very object that it was given, or a new one.
pub data Returned : Type 0 where
  same fresh : Booking → Returned

abbrev pub value_of : Returned → Booking
value_of (same b) = b
value_of (fresh b) = b

-- `before === after`.
unfoldable pub is_booking_unchanged : Returned → Bool
is_booking_unchanged (same b) = true
is_booking_unchanged (fresh b) = false

unfoldable pub reschedule_booking : Booking → ℕ → Instant → Result BookingError Returned
unfolding assert_version_matches
reschedule_booking booking expected_version starts_at = do
  assert_version_matches booking expected_version
  throw_if (not (is_confirmed booking.status))
      (invalid_booking_transition reschedule booking.status)
  ok (fresh (record booking { starts_at = starts_at; version = booking.version + 1 }))

unfoldable pub cancel_booking : Booking → ℕ → Option String → Result BookingError Returned
unfolding assert_version_matches
cancel_booking booking expected_version reason = do
  assert_version_matches booking expected_version
  let move = (do
    throw_if (not (is_confirmed booking.status)) (invalid_booking_transition cancel booking.status)
    ok (
        fresh (record booking {
          status = cancelled;
          cancelled_reason = reason;
          version = booking.version + 1;
        })))
  if is_cancelled booking.status then ok (same booking) else move

unfoldable pub complete_booking : Booking → ℕ → Result BookingError Returned
unfolding assert_version_matches
complete_booking booking expected_version = do
  assert_version_matches booking expected_version
  let move = (do
    throw_if (not (is_confirmed booking.status))
        (invalid_booking_transition complete booking.status)
    ok (fresh (record booking { status = completed; version = booking.version + 1 })))
  if is_completed booking.status then ok (same booking) else move

-- `Temporal.Instant#add` and `#subtract` of whole minutes, which throw past the range of instants
-- (`none`) and move an instant exactly otherwise.
abbrev pub nanoseconds_per_minute : ℕ
nanoseconds_per_minute = 60000000000

pub record InstantArithmetic : Type 0 where
  pub add_minutes : Instant → ℕ → Option Instant
  pub subtract_minutes : Instant → ℕ → Option Instant
  pub add_minutes_lem :
      (t m : ℕ) {u : ℕ} → add_minutes t m ≡ some u → u ≡ t + m * nanoseconds_per_minute
  pub subtract_minutes_lem :
      (t m : ℕ) {u : ℕ} → subtract_minutes t m ≡ some u → t ≡ u + m * nanoseconds_per_minute

pub data BlockingError : Type 0 where
  range_error : BlockingError
  bounds_error : IntervalError → BlockingError

abbrev pub or_range_error : Option Instant → Result BlockingError Instant
or_range_error none = err range_error
or_range_error (some t) = ok t

abbrev pub or_bounds_error : Result IntervalError Interval → Result BlockingError Interval
or_bounds_error (ok i) = ok i
or_bounds_error (err e) = err (bounds_error e)

module _ (temporal : InstantArithmetic) where
  open temporal use {add_minutes, subtract_minutes}

  unfoldable pub booking_blocking_interval : Booking → Result BlockingError Interval
  booking_blocking_interval booking = do
    start ← or_range_error (subtract_minutes booking.starts_at booking.snapshot.pre_buffer)
    end ← or_range_error (
        add_minutes booking.starts_at
          (booking.snapshot.service_duration_minutes + booking.snapshot.post_buffer))
    or_bounds_error (create_interval start end)
