-- ===== src/Booking/History.antt =====
-- What no sequence of commands on a booking changes, and what `createBooking` and the blocking
-- interval return.
use slotnova.Base.{
  ◌<◌, ◌⊎◌, inl, inr, sym, leb, false, Option-cases, ℕ, ◌+◌, ◌*◌, ◌≤◌, ◌≡◌, refl, true, none, List,
  [], ◌∷◌, arith, is_some,
}
use slotnova.Base.Number.{Number, nat, is_integer_from}
use slotnova.Base.Outcome.{Result, ok, err}
use slotnova.Scheduling.Interval.{Instant, Interval, create_interval}
use slotnova.Booking.Domain.{
  confirmed, cancelled, BookingError, Booking, CreateBookingInput, Returned, value_of,
  create_booking, reschedule_booking, cancel_booking, complete_booking, InstantArithmetic,
  booking_blocking_interval, BlockingError, nanoseconds_per_minute, is_terminal_booking_status,
}
use slotnova.Booking.Lifecycle.{Move, reschedule, cancel, complete, transition}

-- The aggregate after a command: a refused one leaves it as it was.
abbrev settle : Booking → Result BookingError Returned → Booking
settle b (ok r) = value_of r
settle b (err e) = b

unfoldable pub run_moves : Booking → List Move → Booking
run_moves b [] = b
run_moves b (m ∷ ms) = run_moves (settle b (transition b m)) ms

-- A version of at least 1, a duration of at least 1, and a reason only on a cancelled booking.
pub record IsValid (b : Booking) : Type 0 where
  pub versioned : 1 ≤ b.version
  pub lasting : 1 ≤ b.snapshot.service_duration_minutes
  pub reasoned : is_some b.cancelled_reason ≡ true → b.status ≡ cancelled

step-IsValid : (b : Booking) (m : Move) → IsValid b → IsValid (settle b (transition b m))
unfolding transition reschedule_booking cancel_booking complete_booking
step-IsValid b (reschedule v t) h = ground arith
step-IsValid b (cancel v r) h = ground arith
step-IsValid b (complete v) h = ground arith

run_moves-IsValid_from : (b : Booking) (ms : List Move) → IsValid b → IsValid (run_moves b ms)
unfolding run_moves
run_moves-IsValid_from b [] h = h
run_moves-IsValid_from b (m ∷ ms) h =
    run_moves-IsValid_from (settle b (transition b m)) ms (step-IsValid b m h)

terminal_step :
    (b : Booking) (m : Move)
    → is_terminal_booking_status b.status ≡ true
    → settle b (transition b m) ≡ b
unfolding transition reschedule_booking cancel_booking complete_booking is_terminal_booking_status
terminal_step b (reschedule v t) h = ground arith
terminal_step b (cancel v r) h = ground arith
terminal_step b (complete v) h = ground arith

-- No sequence of commands changes a completed or cancelled booking in any field.
pub run_moves_terminal :
    (b : Booking) (ms : List Move) → is_terminal_booking_status b.status ≡ true → run_moves b ms ≡ b
unfolding run_moves
run_moves_terminal b [] h = refl
run_moves_terminal b (m ∷ ms) h = rw (terminal_step b m h) (run_moves_terminal b ms h)

history_step :
    (b : Booking) (m : Move)
    → let b' = settle b (transition b m) in
      (b'.snapshot ≡ b.snapshot)
      × (b'.id ≡ b.id)
      × (b'.service_id ≡ b.service_id)
      × (b.version ≤ b'.version)
unfolding transition reschedule_booking cancel_booking complete_booking
history_step b (reschedule v t) = ground arith
history_step b (cancel v r) = ground arith
history_step b (complete v) = ground arith

-- No sequence of commands changes the snapshot of the service, the id or the service reference,
-- and none lowers the version.
pub run_moves_history :
    (b : Booking) (ms : List Move)
    → let b' = run_moves b ms in
      (b'.snapshot ≡ b.snapshot)
      × (b'.id ≡ b.id)
      × (b'.service_id ≡ b.service_id)
      × (b.version ≤ b'.version)
unfolding run_moves
run_moves_history b [] = (refl, refl, refl, omega arith)
run_moves_history b (m ∷ ms) =
    ground (arith, history_step b m, run_moves_history (settle b (transition b m)) ms)

abbrev natural : Number → ℕ
natural (nat n) = n
natural _ = 0

-- The duration is an integer of at least 1, and both buffers are integers of at least 0.
abbrev pub HasValidMinutes : CreateBookingInput → Type 0
HasValidMinutes input =
    (is_integer_from 1 input.service_duration_minutes ≡ true)
    × (is_integer_from 0 input.pre_buffer ≡ true)
    × (is_integer_from 0 input.post_buffer ≡ true)

-- The input's fields, confirmed, at version 1 and with no reason.
abbrev pub created : CreateBookingInput → Booking
created input = record {
  snapshot = record {
    service_duration_minutes = natural input.service_duration_minutes;
    pre_buffer = natural input.pre_buffer;
    post_buffer = natural input.post_buffer;
  };
  id = input.id;
  service_id = input.service_id;
  starts_at = input.starts_at;
  status = confirmed;
  version = 1;
  cancelled_reason = none;
}

-- With valid minutes `createBooking` returns the input as a confirmed booking at version 1, and it
-- returns a booking with no other minutes.
pub create_booking-eq-created :
    (input : CreateBookingInput)
    → (HasValidMinutes input → create_booking input ≡ ok (created input))
      × ((b : Booking) → create_booking input ≡ ok b → HasValidMinutes input)
unfolding create_booking
create_booking-eq-created input = (λ h. ground arith, λ b e. ground arith)

pub create_booking-IsValid :
    (input : CreateBookingInput) {b : Booking} → create_booking input ≡ ok b → IsValid b
create_booking-IsValid input {b} e =
    let h = (create_booking-eq-created input).1 b e in
    let e' = (create_booking-eq-created input).0 h in ground arith

-- Every booking that `createBooking` returns is valid, and stays so under every later sequence of
-- commands, refused ones included.
pub run_moves-IsValid :
    (input : CreateBookingInput) (ms : List Move) {b : Booking}
    → create_booking input ≡ ok b
    → IsValid (run_moves b ms)
run_moves-IsValid input ms {b} e = run_moves-IsValid_from b ms (create_booking-IsValid input e)

-- The end of the appointment itself.
abbrev pub appointment_end : Booking → Instant
appointment_end b = b.starts_at + b.snapshot.service_duration_minutes * nanoseconds_per_minute

module _ (temporal : InstantArithmetic) where
  open temporal use {add_minutes, subtract_minutes, add_minutes_lem, subtract_minutes_lem}

  -- The blocking interval of a booking holds the appointment with both buffers, and an error is one
  -- of an end that is out of the range of instants.
  abbrev pub HasBlocked : Booking → Type 0
  HasBlocked b =
      ((i : Interval) × (booking_blocking_interval temporal b ≡ ok i)
        × (i.start + b.snapshot.pre_buffer * nanoseconds_per_minute ≡ b.starts_at)
        × (i.end ≡ appointment_end b + b.snapshot.post_buffer * nanoseconds_per_minute)
        × (i.start ≤ b.starts_at)
        × (b.starts_at < appointment_end b)
        × (appointment_end b ≤ i.end))
      ⊎ ((booking_blocking_interval temporal b ≡ err BlockingError.range_error)
          × ((subtract_minutes b.starts_at b.snapshot.pre_buffer ≡ none)
              ⊎ (add_minutes b.starts_at
                    (b.snapshot.service_duration_minutes + b.snapshot.post_buffer)
                  ≡ none)))

  -- A valid booking has a blocking interval, unless one of its ends is out of the range of instants:
  -- it begins the first buffer before the start of the appointment, ends the second buffer after the
  -- end of the appointment, so that it contains the appointment, and is never refused as an interval.
  pub booking_blocking_interval_bounds : (b : Booking) → IsValid b → HasBlocked b
  unfolding booking_blocking_interval create_interval
  booking_blocking_interval_bounds b v =
      let minutes = b.snapshot.service_duration_minutes + b.snapshot.post_buffer in
      elim (Option-cases (subtract_minutes b.starts_at b.snapshot.pre_buffer)) [
        | inl e ↦ inr (rw e refl, inl e)
        | inr (from, e) ↦ elim (Option-cases (add_minutes b.starts_at minutes)) [
          | inl f ↦ inr (rw (e, f) refl, inr f)
          | inr (to, f) ↦
              let lower = subtract_minutes_lem b.starts_at b.snapshot.pre_buffer e in
              let upper = add_minutes_lem b.starts_at minutes f in
              let later : leb to from ≡ false = ground (arith, lower, upper, v.lasting) in
              inl (
                record { start = from; end = to },
                rw (e, f, later) refl,
                sym lower,
                ground (arith, upper),
                omega (arith, lower),
                ground (arith, v.lasting),
                ground (arith, upper),
              )
        ]
      ]
