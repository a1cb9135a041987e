-- ===== src/Idempotency.antt =====
-- The idempotent execution of a mutation: apps/api/src/modules/platform/idempotency/
-- idempotent-execution.ts, on the table idempotent_requests. Texts that the code only compares (the
-- operation, the key, the fingerprint, the content type) are numbers. The business state that the
-- mutation changes is a parameter, of any type. A call answers with the table and the state that its
-- transaction commits; an error rolls both back.
mod Claim
pub mod Replay
pub mod Once
mod Tests
use slotnova.Base.{
  ℕ, Bool, true, false, not, ◌&&◌, Option, none, some, List, [], ◌∷◌, ◌==◌, if◌then◌else◌, get_or,
}
use slotnova.Base.Outcome.{Result, ok, err, ◌>>=◌}

pub record IdempotencyScope : Type 0 where
  pub workspace_id : ℕ
  pub operation : ℕ
  pub idempotency_key : ℕ
  pub request_fingerprint : ℕ

-- A value that a response may hold, of which `null` is told apart.
pub data Json : Type 0 where
  null : Json
  value : ℕ → Json

-- `JSON.stringify`, the cast to `jsonb` and the driver's parse of the column: the value that is read
-- back, or `none` where one of them fails. It need not be the value that was written: a `Date` is
-- read back as a string, an `undefined` member is gone.
pub record JsonColumn : Type 0 where
  pub as_jsonb : Json → Option Json

-- `body` is `none` where it is `undefined`.
pub record StoredResponse : Type 0 where
  pub status : ℕ
  pub body : Option Json
  pub content_type : Option ℕ

pub record IdempotentRequestRow : Type 0 where
  pub id : ℕ
  pub row_scope : IdempotencyScope
  pub response_status : Option ℕ
  pub response_body : Json
  pub response_content_type : ℕ

pub record ExecuteIdempotentlyResult : Type 0 where
  pub replayed : Bool
  pub result_status : Option ℕ
  pub result_body : Option Json
  pub result_content_type : ℕ

abbrev pub Requests : Type 0
Requests = List IdempotentRequestRow

pub data IdempotencyError {ℓ} (E : Type ℓ) : Type ℓ where
  idempotency_conflict : ℕ → ℕ → IdempotencyError E
  thrown : E → IdempotencyError E
  not_storable : IdempotencyError E

-- `"application/json"`.
abbrev pub application_json : ℕ
application_json = 0

unfoldable pub has_key : IdempotencyScope → IdempotentRequestRow → Bool
has_key scope row =
    row.row_scope.workspace_id == scope.workspace_id
    && row.row_scope.operation == scope.operation
    && row.row_scope.idempotency_key == scope.idempotency_key

-- The SELECT by workspace, operation and key.
unfoldable pub find_request : IdempotencyScope → Requests → Option IdempotentRequestRow
find_request scope [] = none
find_request scope (row ∷ rows) = if has_key scope row then some row else find_request scope rows

pub data ClaimAttempt : Type 0 where
  claimed : ℕ → Requests → ClaimAttempt
  existing : IdempotentRequestRow → Requests → ClaimAttempt

-- The row that the INSERT writes, with the defaults of its columns.
abbrev pub claim_row : ℕ → IdempotencyScope → IdempotentRequestRow
claim_row id scope = record {
  id = id;
  row_scope = scope;
  response_status = none;
  response_body = null;
  response_content_type = application_json;
}

-- The INSERT, which claims the key when no row has it, and what follows a conflict.
abbrev pub on_insert :
    ℕ → IdempotencyScope → Requests → Option IdempotentRequestRow → ClaimAttempt → ClaimAttempt
on_insert id scope requests none conflict = claimed id (claim_row id scope ∷ requests)
on_insert id scope requests (some _) conflict = conflict

-- The SELECT; `retry` is the recursive call, for a row that is gone.
abbrev pub on_select : Requests → Option IdempotentRequestRow → ClaimAttempt → ClaimAttempt
on_select requests none retry = retry
on_select requests (some row) retry = existing row requests

-- A round in which both find the same table.
abbrev pub last_round : ℕ → IdempotencyScope → Requests → Option IdempotentRequestRow → ClaimAttempt
last_round id scope requests none = claimed id (claim_row id scope ∷ requests)
last_round id scope requests (some row) = existing row requests

-- `attemptClaim`: each round is the table as the INSERT and as the SELECT find it; in the last
-- round both find the same one, so that it answers.
unfoldable pub attempt_claim :
    ℕ → IdempotencyScope → List (Requests × Requests) → Requests → ClaimAttempt
attempt_claim id scope [] now = last_round id scope now (find_request scope now)
attempt_claim id scope ((inserted, selected) ∷ rounds) now =
    on_insert id scope inserted (find_request scope inserted)
      (on_select selected (find_request scope selected) (attempt_claim id scope rounds now))

-- The columns that `markCompleted` sets, where `body` is the value of its `jsonb` column.
abbrev pub complete_row : StoredResponse → Json → IdempotentRequestRow → IdempotentRequestRow
complete_row response body row = record row {
  response_status = some response.status;
  response_body = body;
  response_content_type = get_or response.content_type application_json;
}

-- The UPDATE of `markCompleted`.
unfoldable pub complete_rows : ℕ → StoredResponse → Json → Requests → Requests
complete_rows record_id response body [] = []
complete_rows record_id response body (row ∷ rows) =
    let rest = complete_rows record_id response body rows in
    if row.id == record_id then complete_row response body row ∷ rest else row ∷ rest

abbrev pub write_response : ℕ → StoredResponse → Requests → Option Json → Option Requests
write_response record_id response requests none = none
write_response record_id response requests (some body) =
    some (complete_rows record_id response body requests)

-- `markCompleted`; a body that is `undefined` is written as `null`.
unfoldable pub mark_completed : JsonColumn → ℕ → StoredResponse → Requests → Option Requests
mark_completed json record_id response requests =
    write_response record_id response requests (json.as_jsonb (get_or response.body null))

-- The answer from a row that another call has completed.
abbrev pub replay_of : IdempotentRequestRow → ExecuteIdempotentlyResult
replay_of row = record {
  replayed = true;
  result_status = row.response_status;
  result_body = some row.response_body;
  result_content_type = row.response_content_type;
}

-- The answer of the call that ran the mutation.
abbrev pub normalized : StoredResponse → ExecuteIdempotentlyResult
normalized response = record {
  replayed = false;
  result_status = some response.status;
  result_body = response.body;
  result_content_type = get_or response.content_type application_json;
}

abbrev pub Execution {ℓ κ} : Type ℓ → Type κ → Type (ℓ ⊔ κ)
Execution E S = Result (IdempotencyError E) (ExecuteIdempotentlyResult × Requests × S)

-- A call: the id that the database draws for its row, its scope and its mutation.
pub record Call {ℓ κ} (E : Type ℓ) (S : Type κ) : Type (ℓ ⊔ κ) where
  pub call_id : ℕ
  pub call_scope : IdempotencyScope
  pub mutation : S → Result E (StoredResponse × S)

module _ {ℓ κ} {E : Type ℓ} {S : Type κ} where
  abbrev pub stored : ExecuteIdempotentlyResult → S → Option Requests → Execution E S
  stored result after none = err not_storable
  stored result after (some requests) = ok (result, requests, after)

  -- After the mutation has run.
  abbrev pub completed : JsonColumn → ℕ → Requests → Result E (StoredResponse × S) → Execution E S
  completed json record_id requests (err e) = err (thrown e)
  completed json record_id requests (ok (response, after)) =
      stored (normalized response) after (mark_completed json record_id response requests)

  abbrev pub settle :
      JsonColumn
      → IdempotencyScope
      → (S → Result E (StoredResponse × S))
      → S
      → ClaimAttempt
      → Execution E S
  settle json scope fn state (existing row requests) =
      if row.row_scope.request_fingerprint == scope.request_fingerprint
      then ok (replay_of row, requests, state)
      else err (idempotency_conflict scope.operation scope.idempotency_key)
  settle json scope fn state (claimed record_id requests) =
      completed json record_id requests (fn state)

  -- `executeIdempotently`.
  unfoldable pub execute_idempotently :
      JsonColumn
      → ℕ
      → IdempotencyScope
      → (S → Result E (StoredResponse × S))
      → S
      → List (Requests × Requests)
      → Requests
      → Execution E S
  execute_idempotently json id scope fn state rounds now =
      settle json scope fn state (attempt_claim id scope rounds now)

  -- The table and the state that a transaction of one call leaves.
  abbrev pub after_call : Requests → S → Execution E S → Requests × S
  after_call requests state (ok (result, after, later)) = (after, later)
  after_call requests state (err e) = (requests, state)

  -- The calls in the order in which their transactions commit.
  unfoldable pub execute_all : JsonColumn → List (Call E S) → Requests → S → Requests × S
  execute_all json [] requests state = (requests, state)
  execute_all json (call ∷ calls) requests state =
      let (after, later) =
        after_call requests state (
          execute_idempotently json call.call_id call.call_scope call.mutation state [] requests) in
      execute_all json calls after later
