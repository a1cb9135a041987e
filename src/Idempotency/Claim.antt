-- ===== src/Idempotency/Claim.antt =====
-- What a claim answers with: a row of the table, or its own.
use slotnova.Base.{ℕ, ◌≡◌, refl, Option, none, some, List, [], ◌∷◌}
use slotnova.Idempotency.{
  IdempotencyScope, IdempotentRequestRow, Requests, find_request, ClaimAttempt, claimed, existing,
  claim_row, last_round, on_insert, on_select, attempt_claim,
}

-- A claim answers with the row that the table holds under the key, or puts its own row first.
abbrev pub IsClaim : ℕ → IdempotencyScope → ClaimAttempt → Type 0
IsClaim id scope (claimed record_id requests) =
    (before : Requests) × (record_id ≡ id) × (requests ≡ claim_row id scope ∷ before)
IsClaim id scope (existing row requests) = find_request scope requests ≡ some row

last_round-IsClaim :
    (id : ℕ) (scope : IdempotencyScope) (now : Requests) (found : Option IdempotentRequestRow)
    → find_request scope now ≡ found
    → IsClaim id scope (last_round id scope now found)
last_round-IsClaim id scope now none e = (now, refl, refl)
last_round-IsClaim id scope now (some row) e = e

on_insert-IsClaim :
    (id : ℕ) (scope : IdempotencyScope) (requests : Requests) (found : Option IdempotentRequestRow)
    (conflict : ClaimAttempt)
    → IsClaim id scope conflict
    → IsClaim id scope (on_insert id scope requests found conflict)
on_insert-IsClaim id scope requests none conflict h = (requests, refl, refl)
on_insert-IsClaim id scope requests (some row) conflict h = h

on_select-IsClaim :
    (id : ℕ) (scope : IdempotencyScope) (requests : Requests) (found : Option IdempotentRequestRow)
    (retry : ClaimAttempt)
    → find_request scope requests ≡ found
    → IsClaim id scope retry
    → IsClaim id scope (on_select requests found retry)
on_select-IsClaim id scope requests none retry e h = h
on_select-IsClaim id scope requests (some row) retry e h = e

pub attempt_claim-IsClaim :
    (id : ℕ) (scope : IdempotencyScope) (rounds : List (Requests × Requests)) (now : Requests)
    → IsClaim id scope (attempt_claim id scope rounds now)
unfolding attempt_claim
attempt_claim-IsClaim id scope [] now =
    last_round-IsClaim id scope now (find_request scope now) refl
attempt_claim-IsClaim id scope ((inserted, selected) ∷ rounds) now =
    let retry = attempt_claim id scope rounds now in
    let selection = on_select selected (find_request scope selected) retry in
    on_insert-IsClaim id scope inserted (find_request scope inserted) selection (
      on_select-IsClaim id scope selected (find_request scope selected) retry refl
        (attempt_claim-IsClaim id scope rounds now))
