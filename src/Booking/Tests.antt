-- ===== src/Booking/Tests.antt =====
-- Runs and instances of the theorems on bookings.
use slotnova.Base.{
  ℕ, ◌+◌, ◌*◌, ◌-◌, ◌/◌, ◌≤◌, ◌≡◌, ◌≢◌, refl, true, Option, none, some, [], ◌∷◌, arith, leb,
  if◌then◌else◌,
}
use slotnova.Base.Outcome.{err}
use slotnova.Base.Number.{nat}
use slotnova.Scheduling.Interval.{Instant, Interval, create_interval}
use slotnova.Booking.Domain.{
  confirmed, completed, cancelled, Booking, CreateBookingInput, create_booking, InstantArithmetic,
  booking_blocking_interval, nanoseconds_per_minute, reschedule_booking, cancel_booking,
  complete_booking, is_booking_unchanged, is_confirmed, is_terminal_booking_status,
}
use slotnova.Booking.Lifecycle
use slotnova.Booking.Lifecycle.{transition, table, outcome, transition-eq-table, expected_version}
use slotnova.Booking.History.{
  IsValid, created, run_moves, run_moves-IsValid, run_moves_terminal, run_moves_history, HasBlocked,
  booking_blocking_interval_bounds,
}
use slotnova.Booking.Store.{
  BookingRecord, Table, PgTimestamps, create, to_row, booking_blocking_range, check_violation,
  postgres, find_by_id, find_guarded, replace, without, admit_row, satisfies_checks, conflicts,
  guarded_update,
}
use slotnova.Booking.Store
use slotnova.Booking.Store.Sound.{IsSound}
use slotnova.Booking.Store.Ranges.{to_row-blocking_range, create_checked}
use slotnova.Booking.UseCases.{
  committed, cancel_booking_use_case, reschedule_booking_use_case, complete_booking_use_case,
  create_booking_in_transaction, explain_miss,
}
use slotnova.Booking.Interleavings.{Reach, here, Step, Reach-IsSound}
use slotnova.Booking.Interleavings
use slotnova.Booking.Guard.{
  Command, Action, execute, execute_guarded, execute_once, execute-rows_of, rows_of,
}

-- The two models of arithmetic on instants, exact and with no last instant.
abbrev pub back : ℕ → ℕ → Option ℕ
back t d = if leb d t then some (t - d) else none

pub back_lem : (t d : ℕ) {u : ℕ} → back t d ≡ some u → t ≡ u + d
back_lem t d {u} e = ground arith

pub forth_lem : (t d : ℕ) {u : ℕ} → ◌≡◌ {A = Option ℕ} (some (t + d)) (some u) → u ≡ t + d
forth_lem t d {u} e = ground arith

abbrev pub exact : InstantArithmetic
exact = record {
  add_minutes = λ t m. some (t + m * nanoseconds_per_minute);
  subtract_minutes = λ t m. back t (m * nanoseconds_per_minute);
  add_minutes_lem = λ t m e. forth_lem t (m * nanoseconds_per_minute) e;
  subtract_minutes_lem = λ t m e. back_lem t (m * nanoseconds_per_minute) e;
}

abbrev pub micro : PgTimestamps
micro = record {
  timestamptz = λ t. some (t / 1000 * 1000);
  add_seconds = λ t s. some (t + s * 1000000000);
  subtract_seconds = λ t s. back t (s * 1000000000);
  add_seconds_lem = λ t s e. forth_lem t (s * 1000000000) e;
  subtract_seconds_lem = λ t s e. back_lem t (s * 1000000000) e;
}

-- Minutes since the first instant.
abbrev pub at : ℕ → Instant
at m = m * nanoseconds_per_minute

abbrev request : ℕ → ℕ → CreateBookingInput
request id minute = record {
  id = id;
  service_id = 7;
  starts_at = at minute;
  service_duration_minutes = nat 30;
  pre_buffer = nat 5;
  post_buffer = nat 10;
}

abbrev booking : Booking
booking = created (request 1 100)

abbrev done : Booking
done = record booking { status = completed; version = 2 }

transition-eq-table_example :
    transition booking (Lifecycle.cancel 1 (some "ill"))
    ≡ outcome
        (table confirmed (Lifecycle.cancel 1 (some "ill")))
        booking
        (Lifecycle.cancel 1 (some "ill"))
transition-eq-table_example = transition-eq-table booking (Lifecycle.cancel 1 (some "ill")) refl

run_moves-IsValid_example :
    IsValid (run_moves booking (Lifecycle.reschedule 1 (at 200) ∷ Lifecycle.cancel 2 none ∷ []))
unfolding create_booking
run_moves-IsValid_example =
    run_moves-IsValid (request 1 100)
      (Lifecycle.reschedule 1 (at 200) ∷ Lifecycle.cancel 2 none ∷ []) refl

run_moves_terminal_example : run_moves done (Lifecycle.cancel 2 none ∷ []) ≡ done
unfolding is_terminal_booking_status
run_moves_terminal_example = run_moves_terminal done (Lifecycle.cancel 2 none ∷ []) refl

run_moves_history_example :
    let b' = run_moves booking (Lifecycle.complete 1 ∷ []) in
    (b'.snapshot ≡ booking.snapshot) × (b'.id ≡ 1) × (b'.service_id ≡ 7) × (1 ≤ b'.version)
run_moves_history_example = run_moves_history booking (Lifecycle.complete 1 ∷ [])

abbrev blocked : Interval
blocked = record { start = at 95; end = at 140 }

-- Five minutes before the first instant there is none.
booking_blocking_interval_bounds_example : HasBlocked exact booking
booking_blocking_interval_bounds_example =
    booking_blocking_interval_bounds exact booking (ground arith)

abbrev row_of : ℕ → Booking → Interval → BookingRecord
row_of ws b i = record { booking = b; workspace_id = ws; blocking_range = i }

to_row-blocking_range_example : blocked ≡ blocked
unfolding to_row booking_blocking_range booking_blocking_interval create_interval
to_row-blocking_range_example =
    to_row-blocking_range exact micro 3 booking {row = row_of 3 booking blocked} {i = blocked} refl
      refl

abbrev now : Table
now = row_of 3 booking blocked ∷ row_of 4 (created (request 2 100)) blocked ∷ []

create_checked_example : create micro 3 booking now ≢ err (postgres check_violation)
unfolding create_booking
create_checked_example = create_checked micro 3 (request 1 100) now refl

abbrev cancel_it : Command
cancel_it = record { workspace_id = 3; id = 1; expected = 1; action = Action.cancel (some "ill") }

abbrev complete_it : Command
complete_it = record { workspace_id = 3; id = 1; expected = 1; action = Action.complete }

now-IsSound : IsSound now
unfolding satisfies_checks conflicts
now-IsSound = ground arith

runs : Unit {0}
unfolding execute cancel_booking_use_case complete_booking_use_case reschedule_booking_use_case
    cancel_booking complete_booking reschedule_booking is_booking_unchanged find_by_id find_guarded
    replace without admit_row satisfies_checks conflicts guarded_update Store.cancel Store.complete
    to_row booking_blocking_range explain_miss create_booking_in_transaction create_booking create
runs = tt

after_cancel :
    committed (execute exact micro cancel_it now now now) now
    ≡ row_of 3
        (record booking { status = cancelled; version = 2; cancelled_reason = some "ill" })
        blocked
      ∷ row_of 4 (created (request 2 100)) blocked
      ∷ []
unfolding runs
after_cancel = refl

changes : committed (execute exact micro cancel_it now now now) now ≢ now
unfolding runs
changes e = cc e

execute_guarded_example :
    (r : BookingRecord) × (find_guarded 3 1 1 now ≡ some r)
    × (r.id ≡ 1)
    × (r.workspace_id ≡ 3)
    × (r.version ≡ 1)
    × (is_confirmed r.status ≡ true)
execute_guarded_example = execute_guarded exact micro cancel_it now now now changes

execute_once_example :
    let now' = committed (execute exact micro cancel_it now now now) now in
    committed (execute exact micro complete_it now now' now') now' ≡ now'
execute_once_example =
    execute_once exact micro cancel_it complete_it now now now now
      (committed (execute exact micro cancel_it now now now) now) now-IsSound refl refl changes

execute-rows_of_example :
    rows_of 4 (committed (execute exact micro cancel_it now now now) now) ≡ rows_of 4 now
execute-rows_of_example =
    execute-rows_of exact micro cancel_it now now now 4 now-IsSound (omega arith)

abbrev journey :
    Reach exact micro now (committed (complete_booking_use_case exact micro 3 1 1 now now now) now)
journey = Interleavings.after here (Interleavings.complete 3 1 1 now now)

Reach-IsSound_example :
    IsSound (committed (complete_booking_use_case exact micro 3 1 1 now now now) now)
Reach-IsSound_example = Reach-IsSound exact micro now-IsSound journey
