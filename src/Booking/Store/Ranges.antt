-- ===== src/Booking/Store/Ranges.antt =====
-- The generated column `blocking_range` and the CHECK constraints, against the aggregate.
use slotnova.Base.{Option-cases, Bool-cases, inl, inr, ℕ, ◌≡◌, ◌≢◌, ◌+◌, ◌*◌, true, arith}
use text.Mathlib.Text.{◌==◌ as str_eq}
use slotnova.Base.Outcome.{ok, err, Result-cases}
use slotnova.Scheduling.Interval.{Instant, Interval, create_interval}
use slotnova.Booking.Domain.{
  Booking, CreateBookingInput, create_booking, InstantArithmetic, booking_blocking_interval,
}
use slotnova.Booking.History.{IsValid, create_booking-IsValid}
use slotnova.Booking.Store.{
  BookingRecord, Table, PgTimestamps, PgError, booking_blocking_range, to_row, satisfies_checks,
  create, admit_row, check_violation, bookings_no_overlap, translate_overlap_violation,
  datetime_overflow, postgres,
}

module _ (temporal : InstantArithmetic) (pg : PgTimestamps) where
  open temporal use {add_minutes, subtract_minutes, add_minutes_lem, subtract_minutes_lem}
  open pg use {add_seconds, subtract_seconds, add_seconds_lem, subtract_seconds_lem}

  -- The database and the aggregate compute the same blocking span.
  pub to_row-blocking_range :
      (ws : ℕ) (b : Booking) {row : BookingRecord} {i : Interval}
      → to_row pg ws b ≡ ok row
      → booking_blocking_interval temporal b ≡ ok i
      → row.blocking_range ≡ i
  unfolding to_row booking_blocking_range booking_blocking_interval create_interval
  to_row-blocking_range ws b {row} {i} e f = grind (
    arith,
    add_minutes_lem b.starts_at (b.snapshot.service_duration_minutes + b.snapshot.post_buffer),
    subtract_minutes_lem b.starts_at b.snapshot.pre_buffer,
    add_seconds_lem b.starts_at
        ((b.snapshot.service_duration_minutes + b.snapshot.post_buffer) * 60),
    subtract_seconds_lem b.starts_at (b.snapshot.pre_buffer * 60),
  )

module _ (pg : PgTimestamps) where
  open pg use {add_seconds, subtract_seconds, add_seconds_lem, subtract_seconds_lem}

  to_row_checked :
      (ws : ℕ) (b : Booking) {row : BookingRecord}
      → IsValid b
      → to_row pg ws b ≡ ok row
      → satisfies_checks row ≡ true
  unfolding to_row booking_blocking_range satisfies_checks
  to_row_checked ws b {row} v e = grind (
    arith,
    add_seconds_lem b.starts_at
        ((b.snapshot.service_duration_minutes + b.snapshot.post_buffer) * 60),
    subtract_seconds_lem b.starts_at (b.snapshot.pre_buffer * 60),
  )

  moved-IsValid : (b : Booking) (t : Instant) → IsValid b → IsValid (record b { starts_at = t })
  moved-IsValid b t v = ground arith

  admitted_checks :
      (ws : ℕ) (row : BookingRecord) (table : Table)
      → satisfies_checks row ≡ true
      → admit_row ws row table ≢ err check_violation
  unfolding admit_row
  admitted_checks ws row table c e = ground arith

  translate_check :
      (x : PgError) → translate_overlap_violation x ≡ postgres check_violation → x ≡ check_violation
  unfolding translate_overlap_violation
  translate_check (PgError.exclusion_violation name) e =
      elim (Bool-cases (str_eq name bookings_no_overlap)) [
        | inl same ↦ cc (rw same at e)
        | inr other ↦ cc (rw other at e)
      ]
  translate_check x e = ground arith

  to_row_overflow :
      (ws : ℕ) (b : Booking) {x : PgError} → to_row pg ws b ≡ err x → x ≡ datetime_overflow
  unfolding to_row booking_blocking_range
  to_row_overflow ws b {x} e = ground arith

  -- A booking that `createBooking` has returned never violates a CHECK constraint when it is stored.
  pub create_checked :
      (ws : ℕ) (input : CreateBookingInput) (table : Table) {b : Booking}
      → create_booking input ≡ ok b
      → create pg ws b table ≢ err (postgres check_violation)
  unfolding create
  create_checked ws input table {b} e f = elim (Option-cases (pg.timestamptz b.starts_at)) [
    | inl out_of_range ↦ ground (arith, translate_check datetime_overflow)
    | inr (t, kept) ↦
        let v = moved-IsValid b t (create_booking-IsValid input e) in
        elim (Result-cases (to_row pg ws (record b { starts_at = t }))) [
          | inr (x, overflow) ↦
              ground
                (arith, translate_check x, to_row_overflow ws (record b { starts_at = t }) overflow)
          | inl (row, rowed) ↦
              let checked = to_row_checked ws (record b { starts_at = t }) v rowed in
              let fine = admitted_checks ws row table checked in
              elim (Result-cases (admit_row ws row table)) [
                | inl (done, admitted) ↦ ground arith
                | inr (x, refused) ↦ ground (arith, translate_check x)
              ]
        ]
  ]
