-- ===== src/Booking/Creation.antt =====
-- apps/api/src/modules/booking/application/create-booking-idempotently.use-case.ts, with the
-- service that it reads through apps/api/src/modules/catalog/application/service-snapshot.port.ts:
-- the claim, the read, the creation and the completion are one transaction.
pub mod Fresh
use slotnova.Base.{
  ℕ, Bool, true, false, not, ◌&&◌, Option, none, some, List, [], ◌∷◌, ◌==◌, if◌then◌else◌,
}
use slotnova.Base.Number.{Number}
use slotnova.Base.Outcome.{Result, ok, err, ◌>>=◌, ◌>>◌, throw_if}
use slotnova.Scheduling.Interval.{Instant}
use slotnova.Idempotency.{
  JsonColumn, IdempotencyScope, StoredResponse, Requests, Execution, execute_idempotently,
}
use slotnova.Booking.Domain.{CreateBookingInput, InstantArithmetic}
use slotnova.Booking.Store.{BookingRecord, Table, PgTimestamps}
use slotnova.Booking.UseCases.{UseCaseError, create_booking_in_transaction}

-- `ServiceSnapshot`, with the workspace that its row belongs to.
pub record ServiceSnapshot : Type 0 where
  pub snapshot_id : ℕ
  pub service_workspace : ℕ
  pub active : Bool
  pub duration_minutes : Number
  pub pre_buffer_minutes : Number
  pub post_buffer_minutes : Number

-- `readInTransaction`, under the workspace's policy.
unfoldable pub read_in_transaction : ℕ → ℕ → List ServiceSnapshot → Option ServiceSnapshot
read_in_transaction workspace_id id [] = none
read_in_transaction workspace_id id (s ∷ services) =
    if s.snapshot_id == id && s.service_workspace == workspace_id
    then some s
    else read_in_transaction workspace_id id services

pub data UnavailableReason : Type 0 where
  unavailable inactive : UnavailableReason

pub data CreationError : Type 0 where
  service_unavailable : ℕ → UnavailableReason → CreationError
  use_case : UseCaseError → CreationError

abbrev pub or_unavailable : ℕ → Option ServiceSnapshot → Result CreationError ServiceSnapshot
or_unavailable id none = err (service_unavailable id unavailable)
or_unavailable id (some s) = ok s

abbrev pub from_use_case {ℓ} : {A : Type ℓ} → Result UseCaseError A → Result CreationError A
from_use_case (ok a) = ok a
from_use_case (err e) = err (use_case e)

-- `CreateBookingRequest`, and the id that the use case draws for the booking.
pub record CreateBookingRequest : Type 0 where
  pub requested_service : ℕ
  pub requested_start : Instant
  pub fresh_id : ℕ

abbrev pub input_of : CreateBookingRequest → ServiceSnapshot → CreateBookingInput
input_of request service = record {
  id = request.fresh_id;
  service_id = request.requested_service;
  starts_at = request.requested_start;
  service_duration_minutes = service.duration_minutes;
  pre_buffer = service.pre_buffer_minutes;
  post_buffer = service.post_buffer_minutes;
}

-- `CREATE_BOOKING_OPERATION`, "booking.create".
abbrev pub create_booking_operation : ℕ
create_booking_operation = 1

abbrev pub creation_scope : ℕ → ℕ → ℕ → IdempotencyScope
creation_scope workspace_id key fingerprint = record {
  workspace_id = workspace_id;
  operation = create_booking_operation;
  idempotency_key = key;
  request_fingerprint = fingerprint;
}

module _ (temporal : InstantArithmetic) (pg : PgTimestamps)
    (render : BookingRecord → StoredResponse) where
  -- The callback of `executeIdempotently`.
  unfoldable pub create_for_service :
      ℕ
      → CreateBookingRequest
      → List ServiceSnapshot
      → Table
      → Result CreationError (StoredResponse × Table)
  create_for_service workspace_id request services bookings = do
    service ←
        or_unavailable request.requested_service
          (read_in_transaction workspace_id request.requested_service services)
    throw_if (not service.active) (service_unavailable request.requested_service inactive)
    (row, after) ←
        from_use_case (
          create_booking_in_transaction temporal pg workspace_id (input_of request service)
            bookings)
    ok (render row, after)

  -- `CreateBookingIdempotentlyUseCase.execute`, with the key and the fingerprint of the request.
  unfoldable pub create_booking_idempotently :
      JsonColumn
      → ℕ
      → ℕ
      → CreateBookingRequest
      → (key fingerprint : ℕ) → List ServiceSnapshot
      → Table
      → List (Requests × Requests)
      → Requests
      → Execution CreationError Table
  create_booking_idempotently json record_id workspace_id request key fingerprint services bookings
        rounds now =
      execute_idempotently json record_id (creation_scope workspace_id key fingerprint)
        (create_for_service workspace_id request services) bookings rounds now
