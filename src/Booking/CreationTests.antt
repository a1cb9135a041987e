-- ===== src/Booking/CreationTests.antt =====
-- A creation under a key, and the instance of the theorem that it gives.
use slotnova.Base.{◌≡◌, ◌⊎◌, refl, true, false, none, some, [], ◌∷◌}
use slotnova.Base.Number.{nat}
use slotnova.Base.Outcome.{ok}
use slotnova.Scheduling.Interval.{intervals_overlap}
use slotnova.Idempotency.{
  JsonColumn, StoredResponse, ExecuteIdempotentlyResult, Requests, null, execute_idempotently,
  attempt_claim, find_request, has_key, mark_completed, complete_rows,
}
use slotnova.Booking.Domain.{confirmed, create_booking, assert_valid_snapshot, read_minutes}
use slotnova.Booking.Store
use slotnova.Booking.Store.{
  BookingRecord, Table, to_row, booking_blocking_range, admit_row, satisfies_checks, conflicts,
}
use slotnova.Booking.Store.Sound.{IsSound}
use slotnova.Booking.UseCases.{create_booking_in_transaction}
use slotnova.Booking.Creation.{
  ServiceSnapshot, CreateBookingRequest, creation_scope, read_in_transaction, create_for_service,
  create_booking_idempotently,
}
use slotnova.Booking.Creation.Fresh.{create_booking_idempotently_lem}
use slotnova.Booking.Tests.{exact, micro, at}

abbrev haircut : ServiceSnapshot
haircut = record {
  snapshot_id = 7;
  service_workspace = 3;
  active = true;
  duration_minutes = nat 30;
  pre_buffer_minutes = nat 5;
  post_buffer_minutes = nat 10;
}

abbrev wish : CreateBookingRequest
wish = record { requested_service = 7; requested_start = at 100; fresh_id = 1 }

abbrev created_response : BookingRecord → StoredResponse
created_response row = record { status = 201; body = none; content_type = none }

abbrev answered : ExecuteIdempotentlyResult
answered = record {
  replayed = false;
  result_status = some 201;
  result_body = none;
  result_content_type = 0;
}

abbrev added_row : BookingRecord
added_row = record {
  booking = record {
    snapshot = record { service_duration_minutes = 30; pre_buffer = 5; post_buffer = 10 };
    id = 1;
    service_id = 7;
    starts_at = at 100;
    status = confirmed;
    version = 1;
    cancelled_reason = none;
  };
  workspace_id = 3;
  blocking_range = record { start = at 95; end = at 140 };
}

abbrev json : JsonColumn
json = record { as_jsonb = λ v. some v }

abbrev kept : Requests
kept =
    record {
      id = 9;
      row_scope = creation_scope 3 4 5;
      response_status = some 201;
      response_body = null;
      response_content_type = 0;
    }
    ∷ []

creates :
    create_booking_idempotently exact micro created_response json 9 3 wish 4 5
      (haircut ∷ [])
      []
      []
      []
    ≡ ok (answered, kept, added_row ∷ [])
unfolding create_booking_idempotently create_for_service read_in_transaction execute_idempotently
    attempt_claim find_request has_key mark_completed complete_rows create_booking_in_transaction
    create_booking assert_valid_snapshot read_minutes Store.create to_row booking_blocking_range
    admit_row satisfies_checks conflicts intervals_overlap
creates = refl

create_booking_idempotently_lem_example :
    IsSound (added_row ∷ [])
    × (((added_row ∷ [] ≡ []) × (false ≡ true))
        ⊎ ((row : BookingRecord) × (service : ServiceSnapshot) × (added_row ∷ [] ≡ row ∷ [])
            × (row.status ≡ confirmed)
            × (row.version ≡ 1)
            × (row.workspace_id ≡ 3)
            × (row.service_id ≡ 7)
            × (micro.timestamptz (at 100) ≡ some row.starts_at)
            × (read_in_transaction 3 7 (haircut ∷ []) ≡ some service)
            × (service.active ≡ true)
            × (service.duration_minutes ≡ nat row.snapshot.service_duration_minutes)
            × (service.pre_buffer_minutes ≡ nat row.snapshot.pre_buffer)
            × (service.post_buffer_minutes ≡ nat row.snapshot.post_buffer)))
create_booking_idempotently_lem_example =
    create_booking_idempotently_lem exact micro json created_response 9 3 wish 4 5 (haircut ∷ []) []
      [] [] tt creates
