-- ===== src/Idempotency/Once.antt =====
-- `executeIdempotently` after a success: what any later calls, on any keys, do to the row of a key.
use slotnova.Base.{
  ℕ, ◌≡◌, ◌≢◌, refl, ◌∙◌, inl, inr, true, false, none, some, List, [], ◌∷◌, ◌==◌, if◌then◌else◌,
  get_or, Option-cases, Bool-cases, arith,
}
use slotnova.Base.Lists.{any, All}
use slotnova.Base.Outcome.{Result, ok, err}
use slotnova.Idempotency.{
  JsonColumn, Json, null, IdempotencyScope, StoredResponse, IdempotentRequestRow,
  ExecuteIdempotentlyResult, Requests, idempotency_conflict, has_key, find_request, claim_row,
  attempt_claim, complete_rows, mark_completed, execute_idempotently, after_call, completed, Call,
  execute_all,
}
use slotnova.Idempotency.Replay.{
  as_replay, with_fingerprint, find_request-with_fingerprint, execute-Records,
}

-- Scopes with one key find one row.
find_request-same_key :
    (id : ℕ) (scope scope' : IdempotencyScope) (rows : Requests)
    → has_key scope (claim_row id scope') ≡ true
    → find_request scope' rows ≡ find_request scope rows
unfolding find_request has_key
find_request-same_key id scope scope' [] e = refl
find_request-same_key id scope scope' (row ∷ rows) e =
    let rest = find_request-same_key id scope scope' rows e in ground (arith, rest)

find_request-complete_rows-other :
    (id : ℕ) (scope : IdempotencyScope) (response : StoredResponse) (body : Json) (rows : Requests)
    {row : IdempotentRequestRow}
    → find_request scope rows ≡ some row
    → row.id ≢ id
    → find_request scope (complete_rows id response body rows) ≡ some row
unfolding find_request complete_rows has_key
find_request-complete_rows-other id scope response body [] e other = e
find_request-complete_rows-other id scope response body (r ∷ rows) {row} e other =
    elim (Bool-cases (has_key scope r)) [
      | inl f ↦ ground (arith, f)
      | inr f ↦
          let rest =
            find_request-complete_rows-other id scope response body rows {row = row}
              (ground (arith, e, f)) other in
          ground (arith, f, rest)
    ]

find_request-claimed-other :
    (id : ℕ) (scope scope' : IdempotencyScope) (response : StoredResponse) (body : Json)
    (rows : Requests) {row : IdempotentRequestRow}
    → find_request scope rows ≡ some row
    → row.id ≢ id
    → find_request scope' rows ≡ none
    → find_request scope (complete_rows id response body (claim_row id scope' ∷ rows)) ≡ some row
find_request-claimed-other id scope scope' response body rows {row} e other free =
    elim (Bool-cases (has_key scope (claim_row id scope'))) [
      | inl f ↦ let same = find_request-same_key id scope scope' rows f in cc (same, free, e)
      | inr f ↦
          find_request-complete_rows-other id scope response body (claim_row id scope' ∷ rows)
            {row = row} (unfold find_request in (rw f e)) other
    ]

find_request-fresh :
    (id : ℕ) (scope : IdempotencyScope) (rows : Requests) {row : IdempotentRequestRow}
    → find_request scope rows ≡ some row
    → any (λ r. r.id == id) rows ≡ false
    → row.id ≢ id
unfolding find_request
find_request-fresh id scope [] e fresh same = cc (e)
find_request-fresh id scope (r ∷ rows) {row} e fresh same = elim (Bool-cases (has_key scope r)) [
  | inl f ↦ ground (arith, f)
  | inr f ↦
      find_request-fresh id scope rows {row = row} (ground (arith, f)) (ground (arith, fresh)) same
]

module _ {ℓ κ} {E : Type ℓ} {S : Type κ} (json : JsonColumn) where
  completed-find_request :
      (id : ℕ) (scope scope' : IdempotencyScope) (requests : Requests) (state : S)
      (result : Result E (StoredResponse × S)) {row : IdempotentRequestRow}
      → find_request scope requests ≡ some row
      → row.id ≢ id
      → find_request scope' requests ≡ none
      → find_request scope
          (after_call requests state (completed json id (claim_row id scope' ∷ requests) result)).0
        ≡ some row
  unfolding mark_completed
  completed-find_request id scope scope' requests state (err error) e other free = e
  completed-find_request id scope scope' requests state (ok (response, after)) {row} e other free =
      elim (Option-cases (json.as_jsonb (get_or response.body null))) [
        | inl g ↦ rw g e
        | inr (body, g) ↦ rw g (
            find_request-claimed-other id scope scope' response body requests {row = row} e other
              free)
      ]

  -- A call leaves the row of a key that another call has claimed.
  after_call-find_request :
      (scope : IdempotencyScope) (call : Call E S) (requests : Requests) (state : S)
      {row : IdempotentRequestRow}
      → find_request scope requests ≡ some row
      → row.id ≢ call.call_id
      → find_request scope
          (after_call requests state (
            execute_idempotently json call.call_id call.call_scope call.mutation state []
              requests)).0
        ≡ some row
  unfolding execute_idempotently attempt_claim
  after_call-find_request scope call requests state {row} e other =
      elim (Option-cases (find_request call.call_scope requests)) [
        | inl f ↦ rw f (
            completed-find_request call.call_id scope call.call_scope requests state
              (call.mutation state) {row = row} e other f)
        | inr (r, f) ↦
            elim (Bool-cases
              (r.row_scope.request_fingerprint == call.call_scope.request_fingerprint)) [
                | inl g ↦ rw (f, g) e
                | inr g ↦ rw (f, g) e
              ]
      ]

  -- The id that the call is given is not one of the table.
  abbrev pub IsFresh : Requests → Call E S → Type 0
  IsFresh table call = any (λ r. r.id == call.call_id) table ≡ false

  execute_all-find_request :
      (scope : IdempotencyScope) (calls : List (Call E S)) (table requests : Requests) (state : S)
      {row : IdempotentRequestRow}
      → find_request scope table ≡ some row
      → find_request scope requests ≡ some row
      → All (IsFresh table) calls
      → find_request scope (execute_all json calls requests state).0 ≡ some row
  unfolding execute_all
  execute_all-find_request scope [] table requests state e now fresh = now
  execute_all-find_request scope (call ∷ calls) table requests state {row} e now (f, fresh) =
      let result =
        execute_idempotently json call.call_id call.call_scope call.mutation state [] requests in
      let (after, later) = after_call requests state result in
      execute_all-find_request scope calls table after later {row = row} e
        (after_call-find_request scope call requests state {row = row} now
          (find_request-fresh call.call_id scope table {row = row} e f))
        fresh

  -- Once a call has succeeded under a key, and whatever calls on any keys are then committed one
  -- after the other, each given an id that no row of the table it left has, a use of the key leaves
  -- the business state and the table alone: with the same request it answers what the first call
  -- answered, the body as it is read back from its `jsonb` column, and with another request it is
  -- refused as a conflict.
  pub execute_idempotently_once :
      (id id' : ℕ) (scope : IdempotencyScope) (fingerprint : ℕ)
      (fn fn' : S → Result E (StoredResponse × S)) (state : S) (rounds : List (Requests × Requests))
      (now : Requests) (calls : List (Call E S)) {first : ExecuteIdempotentlyResult}
      {table : Requests} {after : S}
      → execute_idempotently json id scope fn state rounds now ≡ ok (first, table, after)
      → All (IsFresh table) calls
      → let (requests, later) = execute_all json calls table after in
        execute_idempotently json id' (with_fingerprint scope fingerprint) fn' later [] requests ≡ (
          if scope.request_fingerprint == fingerprint
          then ok (as_replay json first, requests, later)
          else err (idempotency_conflict scope.operation scope.idempotency_key))
  unfolding execute_idempotently attempt_claim
  execute_idempotently_once id id' scope fingerprint fn fn' state rounds now calls {first} {table}
        {after} e fresh =
      let (row, found, same_fingerprint, same) =
        execute-Records json id scope fn state rounds now e in
      let requests = (execute_all json calls table after).0 in
      let found' =
        find_request-with_fingerprint scope fingerprint requests
        ∙ execute_all-find_request scope calls table table after {row = row} found found fresh in
      rw (found', same_fingerprint, same) refl
