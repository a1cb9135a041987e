-- ===== src/Idempotency/Replay.antt =====
-- `executeIdempotently`: what a call that succeeds leaves under its key, and what it has run.
use mathlib.Core.Path.{subst}
use slotnova.Base.{
  ◌⊎◌, ℕ, ◌≡◌, refl, sym, ap, ◌∙◌, inl, inr, true, some, List, [], ◌∷◌, ◌==◌, if◌then◌else◌, get_or,
  Option-cases, Bool-cases, arith,
}
use slotnova.Base.Outcome.{Result, ok, err, Result-cases}
use slotnova.Idempotency.{
  JsonColumn, not_storable, complete_rows, Json, IdempotencyScope, null, StoredResponse,
  IdempotentRequestRow, ExecuteIdempotentlyResult, Requests, idempotency_conflict, thrown, has_key,
  find_request, ClaimAttempt, claimed, existing, claim_row, attempt_claim, mark_completed,
  complete_row, replay_of, normalized, settle, execute_idempotently,
}
use slotnova.Idempotency.Claim.{IsClaim, attempt_claim-IsClaim}

-- What a later call answers with, when a call has answered `result`: the same when that was a replay
-- itself, and else the response with its body read back from the `jsonb` column.
abbrev pub as_replay : JsonColumn → ExecuteIdempotentlyResult → ExecuteIdempotentlyResult
as_replay json result = record result {
  replayed = true;
  result_body =
      if result.replayed
      then result.result_body
      else json.as_jsonb (get_or result.result_body null);
}

-- The table holds, under the key, the response that a result reports.
abbrev pub Records : JsonColumn → IdempotencyScope → ExecuteIdempotentlyResult → Requests → Type 0
Records json scope result requests =
    (row : IdempotentRequestRow) × (find_request scope requests ≡ some row)
    × (row.row_scope.request_fingerprint ≡ scope.request_fingerprint)
    × (replay_of row ≡ as_replay json result)

-- The key of a scope finds what the key of any scope with the same key finds.
abbrev pub with_fingerprint : IdempotencyScope → ℕ → IdempotencyScope
with_fingerprint scope fingerprint = record scope { request_fingerprint = fingerprint }

pub find_request-with_fingerprint :
    (scope : IdempotencyScope) (fingerprint : ℕ) (rows : Requests)
    → find_request (with_fingerprint scope fingerprint) rows ≡ find_request scope rows
unfolding find_request has_key
find_request-with_fingerprint scope fingerprint [] = refl
find_request-with_fingerprint scope fingerprint (row ∷ rows) =
    ap (λ rest. if has_key scope row then some row else rest)
      (find_request-with_fingerprint scope fingerprint rows)

find_request-complete_rows :
    (id : ℕ) (scope : IdempotencyScope) (response : StoredResponse) (body : Json)
    (before : Requests)
    → find_request scope (complete_rows id response body (claim_row id scope ∷ before))
      ≡ some (complete_row response body (claim_row id scope))
unfolding find_request complete_rows has_key
find_request-complete_rows id scope response body before = ground arith

module _ {ℓ κ} {E : Type ℓ} {S : Type κ} (json : JsonColumn) where
  settle-Records :
      (id : ℕ) (scope : IdempotencyScope) (fn : S → Result E (StoredResponse × S)) (state : S)
      (attempt : ClaimAttempt) {first : ExecuteIdempotentlyResult} {table : Requests} {after : S}
      → IsClaim id scope attempt
      → settle json scope fn state attempt ≡ ok (first, table, after)
      → Records json scope first table
  unfolding mark_completed
  settle-Records id scope fn state (existing row requests) {first} {table} h e =
      elim (Bool-cases (row.row_scope.request_fingerprint == scope.request_fingerprint)) [
        | inl f ↦
            let answer : settle json scope fn state (existing row requests)
                ≡ ok (replay_of row, requests, state) =
              rw f refl in
            let same_table : requests ≡ table = cc in
            let same_first : replay_of row ≡ first = cc in
            (
              row,
              subst (λ rows. find_request scope rows ≡ some row) same_table h,
              ground arith,
              ap (as_replay json) same_first,
            )
        | inr f ↦
            let answer : settle json scope fn state (existing row requests)
                ≡ err (idempotency_conflict scope.operation scope.idempotency_key) =
              rw f refl in
            absurd (cc (answer, e))
      ]
  settle-Records id scope fn state (claimed record_id requests) {first} {table}
        (before, same_id, same) e =
      elim (Result-cases (fn state)) [
        | inl ((response, later), f) ↦
            elim (Option-cases (json.as_jsonb (get_or response.body null))) [
              | inl g ↦
                  let answer : settle json scope fn state (claimed record_id requests)
                      ≡ err not_storable =
                    rw (f, g) refl in
                  absurd (cc (answer, e))
              | inr (body, g) ↦
                  let answer : settle json scope fn state (claimed record_id requests)
                      ≡ ok (
                        normalized response,
                        complete_rows record_id response body requests,
                        later,
                      ) =
                    rw (f, g) refl in
                  let same_table : complete_rows record_id response body requests ≡ table = cc in
                  let same_first : normalized response ≡ first = cc in
                  (
                    complete_row response body (claim_row id scope),
                    subst
                        (λ rows.
                          find_request scope rows
                          ≡ some (complete_row response body (claim_row id scope)))
                        (sym (ap (complete_rows id response body) same)
                          ∙ ap (λ n. complete_rows n response body requests) (sym same_id)
                          ∙ same_table)
                        (find_request-complete_rows id scope response body before),
                    refl,
                    subst
                        (λ r.
                          replay_of (complete_row response body (claim_row id scope))
                          ≡ as_replay json r)
                        same_first (rw g refl),
                  )
            ]
        | inr (error, f) ↦
            let answer : settle json scope fn state (claimed record_id requests)
                ≡ err (thrown error) =
              rw f refl in
            absurd (cc (answer, e))
      ]

  -- A call that succeeds has replayed, or it has run the mutation on the state.
  abbrev pub HasRun :
      (S → Result E (StoredResponse × S)) → S → ExecuteIdempotentlyResult → S → Type (ℓ ⊔ κ)
  HasRun fn state first after =
      ((after ≡ state) × (first.replayed ≡ true))
      ⊎ ((response : StoredResponse) × (fn state ≡ ok (response, after))
          × (first ≡ normalized response))

  settle-HasRun :
      (scope : IdempotencyScope) (fn : S → Result E (StoredResponse × S)) (state : S)
      (attempt : ClaimAttempt) {first : ExecuteIdempotentlyResult} {table : Requests} {after : S}
      → settle json scope fn state attempt ≡ ok (first, table, after)
      → HasRun fn state first after
  unfolding mark_completed
  settle-HasRun scope fn state (existing row requests) {first} {table} {after} e =
      elim (Bool-cases (row.row_scope.request_fingerprint == scope.request_fingerprint)) [
        | inl f ↦
            let answer : settle json scope fn state (existing row requests)
                ≡ ok (replay_of row, requests, state) =
              rw f refl in
            let same_state : state ≡ after = cc in
            let same_first : replay_of row ≡ first = cc in
            inl (sym same_state, ap (λ r. r.replayed) (sym same_first))
        | inr f ↦
            let answer : settle json scope fn state (existing row requests)
                ≡ err (idempotency_conflict scope.operation scope.idempotency_key) =
              rw f refl in
            absurd (cc (answer, e))
      ]
  settle-HasRun scope fn state (claimed record_id requests) {first} {table} {after} e =
      elim (Result-cases (fn state)) [
        | inl ((response, later), f) ↦
            elim (Option-cases (json.as_jsonb (get_or response.body null))) [
              | inl g ↦
                  let answer : settle json scope fn state (claimed record_id requests)
                      ≡ err not_storable =
                    rw (f, g) refl in
                  absurd (cc (answer, e))
              | inr (body, g) ↦
                  let answer : settle json scope fn state (claimed record_id requests)
                      ≡ ok (
                        normalized response,
                        complete_rows record_id response body requests,
                        later,
                      ) =
                    rw (f, g) refl in
                  let same_state : later ≡ after = cc in
                  let same_first : normalized response ≡ first = cc in
                  inr (response, f ∙ ap (λ s. ok (response, s)) same_state, sym same_first)
            ]
        | inr (error, f) ↦
            let answer : settle json scope fn state (claimed record_id requests)
                ≡ err (thrown error) =
              rw f refl in
            absurd (cc (answer, e))
      ]

  pub execute_idempotently-HasRun :
      (id : ℕ) (scope : IdempotencyScope) (fn : S → Result E (StoredResponse × S)) (state : S)
      (rounds : List (Requests × Requests)) (now : Requests) {first : ExecuteIdempotentlyResult}
      {table : Requests} {after : S}
      → execute_idempotently json id scope fn state rounds now ≡ ok (first, table, after)
      → HasRun fn state first after
  unfolding execute_idempotently
  execute_idempotently-HasRun id scope fn state rounds now e =
      settle-HasRun scope fn state (attempt_claim id scope rounds now) e

  pub execute-Records :
      (id : ℕ) (scope : IdempotencyScope) (fn : S → Result E (StoredResponse × S)) (state : S)
      (rounds : List (Requests × Requests)) (now : Requests) {first : ExecuteIdempotentlyResult}
      {table : Requests} {after : S}
      → execute_idempotently json id scope fn state rounds now ≡ ok (first, table, after)
      → Records json scope first table
  unfolding execute_idempotently
  execute-Records id scope fn state rounds now e =
      settle-Records id scope fn state (attempt_claim id scope rounds now)
        (attempt_claim-IsClaim id scope rounds now) e
