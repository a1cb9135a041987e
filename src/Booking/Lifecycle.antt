-- ===== src/Booking/Lifecycle.antt =====
-- The transitions of booking.ts against the transition table of its header.
use slotnova.Base.{ℕ, ◌+◌, ◌≡◌, refl, Option, String, arith}
use slotnova.Base.Outcome.{Result, ok, err}
use slotnova.Scheduling.Interval.{Instant}
use slotnova.Booking.Domain.{
  BookingStatus, confirmed, completed, cancelled, BookingCommand, BookingError, Booking, Returned,
  same, fresh, reschedule_booking, cancel_booking, complete_booking,
}

-- A call of one of the three transitions, with its arguments.
pub data Move : Type 0 where
  reschedule : ℕ → Instant → Move
  cancel : ℕ → Option String → Move
  complete : ℕ → Move

abbrev pub expected_version : Move → ℕ
expected_version (reschedule v t) = v
expected_version (cancel v r) = v
expected_version (complete v) = v

abbrev pub command_of : Move → BookingCommand
command_of (reschedule v t) = BookingCommand.reschedule
command_of (cancel v r) = BookingCommand.cancel
command_of (complete v) = BookingCommand.complete

unfoldable pub transition : Booking → Move → Result BookingError Returned
transition b (reschedule v t) = reschedule_booking b v t
transition b (cancel v r) = cancel_booking b v r
transition b (complete v) = complete_booking b v

-- The transition table of the header of booking.ts.
pub data Effect : Type 0 where
  advance : BookingStatus → Effect
  keep reject : Effect

unfoldable pub table : BookingStatus → Move → Effect
table confirmed (reschedule v t) = advance confirmed
table confirmed (cancel v r) = advance cancelled
table confirmed (complete v) = advance completed
table cancelled (cancel v r) = keep
table completed (complete v) = keep
table _ _ = reject

-- The start and the reason after an advance: each command sets its own field alone.
abbrev pub start_after : Booking → Move → Instant
start_after b (reschedule v t) = t
start_after b _ = b.starts_at

abbrev pub reason_after : Booking → Move → Option String
reason_after b (cancel v r) = r
reason_after b _ = b.cancelled_reason

abbrev pub advanced : Booking → Move → BookingStatus → Booking
advanced b m s = record b {
  status = s;
  version = b.version + 1;
  starts_at = start_after b m;
  cancelled_reason = reason_after b m;
}

abbrev pub outcome : Effect → Booking → Move → Result BookingError Returned
outcome (advance s) b m = ok (fresh (advanced b m s))
outcome keep b m = ok (same b)
outcome reject b m = err (BookingError.invalid_booking_transition (command_of m) b.status)

transition_matched :
    (b : Booking) (m : Move) (s : BookingStatus)
    → b.status ≡ s
    → expected_version m ≡ b.version
    → transition b m ≡ outcome (table s m) b m
unfolding transition table reschedule_booking cancel_booking complete_booking
transition_matched b (reschedule v t) confirmed h e = ground arith
transition_matched b (reschedule v t) _ h e = ground arith
transition_matched b (cancel v r) confirmed h e = ground arith
transition_matched b (cancel v r) _ h e = ground arith
transition_matched b (complete v) confirmed h e = ground arith
transition_matched b (complete v) _ h e = ground arith

-- With the current version, every command does what the transition table says: it advances the
-- status and the version and sets its own field alone, returns the booking itself, or refuses.
pub transition-eq-table :
    (b : Booking) (m : Move)
    → expected_version m ≡ b.version
    → transition b m ≡ outcome (table b.status m) b m
transition-eq-table b m e = transition_matched b m b.status refl e
