-- ===== src/Booking/UseCases.antt =====
-- apps/api/src/modules/booking/application: create-booking, reschedule-booking, cancel-booking,
-- complete-booking and read-bookings. A transaction reads, writes and reads again, and other
-- transactions may commit between its statements: a use case is given the table as each of its
-- statements finds it (`seen`, `now`, `latest`), and answers with the table after its write.
-- `withWorkspaceContext` rolls back on a throw, so a failed use case leaves the table as it is.
use slotnova.Base.{ℕ, Option, none, some, String, if◌then◌else◌}
use slotnova.Base.Outcome.{Result, ok, err, ◌>>=◌}
use slotnova.Scheduling.Interval.{Instant, Interval}
use slotnova.Booking.Domain.{
  Booking, BookingError, booking_overlap, booking_not_found, stale_booking_version,
  CreateBookingInput, create_booking, value_of, is_booking_unchanged, reschedule_booking,
  cancel_booking, complete_booking, InstantArithmetic, BlockingError, booking_blocking_interval,
}
use slotnova.Booking.Store
use slotnova.Booking.Store.{
  BookingRecord, Table, StoreError, PgError, PgTimestamps, domain, postgres, find_by_id,
}

-- What a use case throws: an error of the domain or of the database, the refinement of the overlap
-- error with the requested interval, or a failure to compute that interval.
pub data UseCaseError : Type 0 where
  booking_error : BookingError → UseCaseError
  database_error : PgError → UseCaseError
  requested_booking_overlap : Instant → Instant → UseCaseError
  blocking : BlockingError → UseCaseError

abbrev pub UseCase : Type 0
UseCase = Result UseCaseError (BookingRecord × Table)

-- The transaction's commit, or its rollback.
abbrev pub committed : UseCase → Table → Table
committed (ok (row, table')) table = table'
committed (err e) table = table

abbrev pub from_domain {ℓ} : {A : Type ℓ} → Result BookingError A → Result UseCaseError A
from_domain (ok a) = ok a
from_domain (err e) = err (booking_error e)

abbrev pub from_store : StoreError → UseCaseError
from_store (domain e) = booking_error e
from_store (postgres e) = database_error e

abbrev pub from_blocking : Result BlockingError Interval → UseCaseError
from_blocking (ok requested) = requested_booking_overlap requested.start requested.end
from_blocking (err e) = blocking e

-- `if (row === null) throw new BookingNotFoundError(id)`.
abbrev pub found : ℕ → Option BookingRecord → Result UseCaseError BookingRecord
found id none = err (booking_error (booking_not_found id))
found id (some row) = ok row

-- After a write that met no row: the second read, and the error that it leads to.
unfoldable pub explain_miss : ℕ → ℕ → ℕ → Table → UseCase
explain_miss workspace_id id expected latest = do
  row ← found id (find_by_id workspace_id id latest)
  err (booking_error (stale_booking_version expected row.version))

abbrev pub finish : ℕ → ℕ → ℕ → Table → Result UseCaseError (Option BookingRecord × Table) → UseCase
finish workspace_id id expected latest (ok (some row, table')) = ok (row, table')
finish workspace_id id expected latest (ok (none, table')) =
    explain_miss workspace_id id expected latest
finish workspace_id id expected latest (err e) = err e

abbrev pub thrown {ℓ} : {A : Type ℓ} → Result StoreError A → Result UseCaseError A
thrown (ok a) = ok a
thrown (err e) = err (from_store e)

module _ (temporal : InstantArithmetic) where
  -- The `catch` that replaces the overlap error by one with the requested interval.
  abbrev pub refine_overlap {ℓ} :
      {A : Type ℓ} → Booking → Result StoreError A → Result UseCaseError A
  refine_overlap booking (ok a) = ok a
  refine_overlap booking (err (domain booking_overlap)) =
      err (from_blocking (booking_blocking_interval temporal booking))
  refine_overlap booking (err e) = err (from_store e)

module _ (temporal : InstantArithmetic) (pg : PgTimestamps) where
  -- `CreateBookingUseCase.executeInTransaction`; the input's id is the fresh `randomUUID()`.
  unfoldable pub create_booking_in_transaction : ℕ → CreateBookingInput → Table → UseCase
  create_booking_in_transaction workspace_id input now = do
    booking ← from_domain (create_booking input)
    refine_overlap temporal booking (Store.create pg workspace_id booking now)

  -- `RescheduleBookingUseCase.execute`.
  unfoldable pub reschedule_booking_use_case : ℕ → ℕ → ℕ → Instant → Table → Table → Table → UseCase
  reschedule_booking_use_case workspace_id id expected starts_at seen now latest = do
    current ← found id (find_by_id workspace_id id seen)
    next ← from_domain (reschedule_booking current.booking expected starts_at)
    let booking = value_of next
    finish workspace_id id expected latest (
        refine_overlap temporal booking
          (Store.reschedule pg workspace_id id booking.starts_at expected booking.version now))

  -- `CancelBookingUseCase.execute`.
  unfoldable pub cancel_booking_use_case :
      ℕ → ℕ → ℕ → Option String → Table → Table → Table → UseCase
  cancel_booking_use_case workspace_id id expected reason seen now latest = do
    current ← found id (find_by_id workspace_id id seen)
    next ← from_domain (cancel_booking current.booking expected reason)
    let booking = value_of next
    (if is_booking_unchanged next
        then ok (current, now)
        else finish workspace_id id expected latest (
            thrown (
              Store.cancel pg workspace_id id booking.cancelled_reason expected booking.version
                now)))

  -- `CompleteBookingUseCase.execute`.
  unfoldable pub complete_booking_use_case : ℕ → ℕ → ℕ → Table → Table → Table → UseCase
  complete_booking_use_case workspace_id id expected seen now latest = do
    current ← found id (find_by_id workspace_id id seen)
    next ← from_domain (complete_booking current.booking expected)
    let booking = value_of next
    (if is_booking_unchanged next
        then ok (current, now)
        else finish workspace_id id expected latest
            (thrown (Store.complete pg workspace_id id expected booking.version now)))
