-- ===== src/Idempotency/Tests.antt =====
-- Runs of a mutation under a key, and the instance of the theorem that they give.
use slotnova.Base.{
  ℕ, ◌+◌, ◌≡◌, refl, false, Option, none, some, List, [], ◌∷◌, ◌==◌, if◌then◌else◌, ltb,
}
use slotnova.Base.Outcome.{Result, ok, err}
use slotnova.Idempotency.{
  JsonColumn, Json, null, value, IdempotencyScope, StoredResponse, IdempotentRequestRow,
  ExecuteIdempotentlyResult, Requests, idempotency_conflict, not_storable, find_request, has_key,
  attempt_claim, mark_completed, complete_rows, execute_idempotently, Call, execute_all,
}
use slotnova.Idempotency.Replay.{as_replay, with_fingerprint}
use slotnova.Idempotency.Once.{execute_idempotently_once}

abbrev scope : IdempotencyScope
scope = record { workspace_id = 1; operation = 2; idempotency_key = 3; request_fingerprint = 4 }

-- Values below 10 are read back as they are; 10 stands for a `Date` whose text is 11, and no other
-- value can be written.
abbrev json : JsonColumn
json = record { as_jsonb = read_back }
  where
    read_back : Json → Option Json
    read_back null = some null
    read_back (value n) =
        if ltb n 10 then some (value n) else if n == 10 then some (value 11) else none

-- A mutation that counts its runs, and answers with a body.
abbrev count : Json → ℕ → Result ℕ (StoredResponse × ℕ)
count body n = ok (record { status = 201; body = some body; content_type = none }, n + 1)

abbrev counted : ExecuteIdempotentlyResult
counted = record {
  replayed = false;
  result_status = some 201;
  result_body = some (value 10);
  result_content_type = 0;
}

abbrev row : ℕ → IdempotencyScope → Json → IdempotentRequestRow
row id under body = record {
  id = id;
  row_scope = under;
  response_status = some 201;
  response_body = body;
  response_content_type = 0;
}

abbrev kept : Requests
kept = row 7 scope (value 11) ∷ []

counts : execute_idempotently json 7 scope (count (value 10)) 0 [] [] ≡ ok (counted, kept, 1)
unfolding execute_idempotently attempt_claim find_request has_key mark_completed complete_rows
counts = refl

-- A body that cannot be written rolls the mutation back.
refuses : execute_idempotently json 7 scope (count (value 12)) 0 [] [] ≡ err not_storable
unfolding execute_idempotently attempt_claim find_request has_key mark_completed complete_rows
refuses = refl

abbrev other : IdempotencyScope
other = record { workspace_id = 1; operation = 2; idempotency_key = 5; request_fingerprint = 6 }

-- A call under another key, and a repetition.
abbrev calls : List (Call ℕ ℕ)
calls =
    record { call_id = 8; call_scope = other; mutation = count null }
    ∷ record { call_id = 9; call_scope = scope; mutation = count null }
    ∷ []

counts_all : execute_all json calls kept 1 ≡ (row 8 other null ∷ kept, 2)
unfolding execute_all execute_idempotently attempt_claim find_request has_key mark_completed
    complete_rows
counts_all = refl

execute_idempotently_once_example :
    execute_idempotently json 10
      (with_fingerprint scope 4)
      (count null)
      (execute_all json calls kept 1).1
      []
      (execute_all json calls kept 1).0
    ≡ (if 4 == 4
        then ok (
          as_replay json counted,
          (execute_all json calls kept 1).0,
          (execute_all json calls kept 1).1,
        )
        else err (idempotency_conflict 2 3))
execute_idempotently_once_example =
    execute_idempotently_once json 7 10 scope 4 (count (value 10)) (count null) 0 [] [] calls counts
      (refl, (refl, tt))
