-- ===== src/Booking/Creation/Fresh.antt =====
-- What a creation under a key does to the table of bookings.
use slotnova.Base.{
  ℕ, ◌≡◌, sym, ap, ◌∙◌, ◌⊎◌, inl, inr, true, some, List, ◌∷◌, Bool-cases, Option-cases, arith,
}
use mathlib.Core.Path.{subst}
use slotnova.Base.Number.{nat}
use slotnova.Base.Outcome.{Result, ok, err, Result-cases}
use slotnova.Idempotency.{JsonColumn, StoredResponse, Requests, ExecuteIdempotentlyResult}
use slotnova.Idempotency.Replay.{execute_idempotently-HasRun}
use slotnova.Booking.Domain.{
  confirmed, Booking, BookingError, CreateBookingInput, InstantArithmetic, create_booking,
  assert_valid_snapshot, read_minutes,
}
use slotnova.Booking.Store
use slotnova.Booking.Store.{StoreError, BookingRecord, Table, PgTimestamps, to_row}
use slotnova.Booking.Store.Sound.{IsSound, create-IsSound, create_lem}
use slotnova.Booking.UseCases.{UseCaseError, create_booking_in_transaction, refine_overlap}
use slotnova.Booking.Creation.{
  ServiceSnapshot, read_in_transaction, CreateBookingRequest, input_of, creation_scope,
  create_for_service, create_booking_idempotently,
}

module _ (temporal : InstantArithmetic) (pg : PgTimestamps) where
  refined_error :
      (b : Booking) (error : StoreError) {x : BookingRecord × Table}
      → ◌≡◌ {A = Result UseCaseError (BookingRecord × Table)}
          (refine_overlap temporal b (err error))
          (ok x)
      → ⊥
  refined_error b (StoreError.postgres e) h = cc (h)
  refined_error b (StoreError.domain BookingError.booking_overlap) h = cc (h)
  refined_error b (StoreError.domain e) h = cc (h)

  -- The transaction's creation is the aggregate's, stored.
  created_in_transaction :
      (ws : ℕ) (input : CreateBookingInput) (now : Table) {row : BookingRecord} {after : Table}
      → create_booking_in_transaction temporal pg ws input now ≡ ok (row, after)
      → (b : Booking) × (create_booking input ≡ ok b) × (Store.create pg ws b now ≡ ok (row, after))
  unfolding create_booking_in_transaction
  created_in_transaction ws input now {row} {after} e = elim (Result-cases (create_booking input)) [
    | inr (error, f) ↦ absurd (ground (arith, f))
    | inl (b, f) ↦ elim (Result-cases (Store.create pg ws b now)) [
      | inl ((row', after'), g) ↦ (b, f, ground (arith, f, g))
      | inr (error, g) ↦
          let k : refine_overlap temporal b (err error) ≡ ok (row, after) = ground (arith, f, g) in
          absurd (refined_error b error k)
    ]
  ]

  created_fields :
      (input : CreateBookingInput) {b : Booking}
      → create_booking input ≡ ok b
      → (b.status ≡ confirmed)
        × (b.version ≡ 1)
        × (b.service_id ≡ input.service_id)
        × (b.starts_at ≡ input.starts_at)
        × (input.service_duration_minutes ≡ nat b.snapshot.service_duration_minutes)
        × (input.pre_buffer ≡ nat b.snapshot.pre_buffer)
        × (input.post_buffer ≡ nat b.snapshot.post_buffer)
  unfolding create_booking assert_valid_snapshot read_minutes
  created_fields input e = ground arith

  stored_fields :
      (ws : ℕ) (b : Booking) (now : Table) {row : BookingRecord} {after : Table}
      → Store.create pg ws b now ≡ ok (row, after)
      → (row.status ≡ b.status)
        × (row.version ≡ b.version)
        × (row.service_id ≡ b.service_id)
        × (row.snapshot ≡ b.snapshot)
        × (row.workspace_id ≡ ws)
        × (pg.timestamptz b.starts_at ≡ some row.starts_at)
  unfolding Store.create to_row
  stored_fields ws b now e = elim (Option-cases (pg.timestamptz b.starts_at)) [
    | inl f ↦ absurd (ground (arith, f, e))
    | inr (t, f) ↦ ground (arith, f, e)
  ]

  ran_service :
      (render : BookingRecord → StoredResponse) (ws : ℕ) (request : CreateBookingRequest)
      (services : List ServiceSnapshot) (bookings : Table) {response : StoredResponse}
      {after : Table}
      → create_for_service temporal pg render ws request services bookings ≡ ok (response, after)
      → (service : ServiceSnapshot) × (row : BookingRecord) × (read_in_transaction ws
            request.requested_service services
          ≡ some service)
        × (service.active ≡ true)
        × (create_booking_in_transaction temporal pg ws (input_of request service) bookings
            ≡ ok (row, after))
  unfolding create_for_service
  ran_service render ws request services bookings {response} {after} e =
      elim (Option-cases (read_in_transaction ws request.requested_service services)) [
        | inl f ↦ absurd (ground (arith, f))
        | inr (service, f) ↦ elim (Bool-cases service.active) [
          | inr a ↦ absurd (ground (arith, f, a))
          | inl a ↦
              elim (Result-cases (
                create_booking_in_transaction temporal pg ws (input_of request service) bookings)) [
                  | inl ((row, later), c) ↦
                      let same : later ≡ after = ground (arith, f, a, c) in
                      (service, row, f, a, c ∙ ap (λ x. ok (row, x)) same)
                  | inr (error, c) ↦ absurd (ground (arith, f, a, c))
                ]
        ]
      ]

  -- A creation under a key that succeeds has replayed and left the bookings alone, or it has added
  -- one row to them: a confirmed booking at version 1 of the caller's workspace, at the
  -- requested start as PostgreSQL keeps it, for a service of that workspace that is active, with this
  -- service's minutes. A sound table stays sound.
  pub create_booking_idempotently_lem :
      (json : JsonColumn) (render : BookingRecord → StoredResponse) (record_id ws : ℕ)
      (request : CreateBookingRequest) (key fingerprint : ℕ) (services : List ServiceSnapshot)
      (bookings : Table) (rounds : List (Requests × Requests)) (now : Requests)
      {result : ExecuteIdempotentlyResult} {requests : Requests} {after : Table}
      → IsSound bookings
      → create_booking_idempotently temporal pg render json record_id ws request key fingerprint
          services bookings rounds now
        ≡ ok (result, requests, after)
      → IsSound after
        × (((after ≡ bookings) × (result.replayed ≡ true))
            ⊎ ((row : BookingRecord) × (service : ServiceSnapshot) × (after ≡ row ∷ bookings)
                × (row.status ≡ confirmed)
                × (row.version ≡ 1)
                × (row.workspace_id ≡ ws)
                × (row.service_id ≡ request.requested_service)
                × (pg.timestamptz request.requested_start ≡ some row.starts_at)
                × (read_in_transaction ws request.requested_service services ≡ some service)
                × (service.active ≡ true)
                × (service.duration_minutes ≡ nat row.snapshot.service_duration_minutes)
                × (service.pre_buffer_minutes ≡ nat row.snapshot.pre_buffer)
                × (service.post_buffer_minutes ≡ nat row.snapshot.post_buffer)))
  unfolding create_booking_idempotently
  create_booking_idempotently_lem json render record_id ws request key fingerprint services bookings
        rounds now {result} {requests} {after} sound e =
      elim (execute_idempotently-HasRun json record_id (creation_scope ws key fingerprint)
        (create_for_service temporal pg render ws request services) bookings rounds now e) [
          | inl (same, replayed) ↦ (subst IsSound (sym same) sound, inl (same, replayed))
          | inr (response, ran, shown) ↦
              let (service, row, read, active, created) =
                ran_service render ws request services bookings ran in
              let (b, valid, stored) =
                created_in_transaction ws (input_of request service) bookings created in
              let (admitted, added) = create_lem pg ws b bookings stored in
              let (s, v, i, snapshot, w, at) = stored_fields ws b bookings stored in
              let (s', v', i', at', d, p, q) = created_fields (input_of request service) valid in
              (
                create-IsSound pg ws b bookings sound stored,
                inr (
                  row,
                  service,
                  added,
                  s ∙ s',
                  v ∙ v',
                  w,
                  i ∙ i',
                  ap pg.timestamptz (sym at') ∙ at,
                  read,
                  active,
                  d ∙ ap (λ x. nat x.service_duration_minutes) (sym snapshot),
                  p ∙ ap (λ x. nat x.pre_buffer) (sym snapshot),
                  q ∙ ap (λ x. nat x.post_buffer) (sym snapshot),
                ),
              )
        ]
