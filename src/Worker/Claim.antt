-- ===== src/Worker/Claim.antt =====
-- apps/worker/src/outbox/claim.ts. An owner is a number; ids are ordered as the database orders
-- them. The transaction's clock is read once. A worker's session holds the lock of its owner, so
-- that `pg_try_advisory_xact_lock` fails just for the owners that live.
use slotnova.Base.{
  ℕ, suc, Bool, true, false, not, ◌&&◌, Option, none, some, List, [], ◌∷◌, ltb, leb, ◌==◌,
  if◌then◌else◌, is_some,
}
use slotnova.Base.Lists.{filter}
use slotnova.Base.Rows.{update, take, sort_by}
use slotnova.Worker.Dispatch.{OutboxRecord}

-- A row of `outbox_records`.
pub record OutboxRow : Type 0 where
  pub event : OutboxRecord
  pub available_at : ℕ
  pub claimed_at : Option ℕ
  pub claimed_by : Option ℕ
  pub processed_at : Option ℕ
  pub dead_lettered_at : Option ℕ

abbrev pub Outbox : Type 0
Outbox = List OutboxRow

abbrev pub has_id : ℕ → OutboxRow → Bool
has_id id r = r.event.id == id

abbrev pub is_after : Option ℕ → ℕ → Bool
is_after none id = true
is_after (some cursor) id = ltb cursor id

-- The row waits to be handled at a time.
abbrev pub is_waiting : ℕ → OutboxRow → Bool
is_waiting now r =
    not (is_some r.processed_at) && (not (is_some r.dead_lettered_at) && leb r.available_at now)

abbrev pub is_candidate : ℕ → (ℕ → Bool) → Option ℕ → OutboxRow → Bool
is_candidate now locked after_id r =
    is_waiting now r && (is_after after_id r.event.id && not (locked r.event.id))

abbrev pub id_before : OutboxRow → OutboxRow → Bool
id_before a b = ltb a.event.id b.event.id

-- The rows that are locked, `FOR UPDATE SKIP LOCKED`.
unfoldable pub candidates : ℕ → (ℕ → Bool) → ℕ → Option ℕ → Outbox → Outbox
candidates now locked batch_size after_id t =
    take batch_size (sort_by id_before (filter (is_candidate now locked after_id) t))

abbrev pub dead_lettered : ℕ → OutboxRow → OutboxRow
dead_lettered now r = record {
  event = r.event;
  available_at = r.available_at;
  claimed_at = none;
  claimed_by = none;
  processed_at = r.processed_at;
  dead_lettered_at = some now;
}

abbrev pub attempted : OutboxRecord → OutboxRecord
attempted e = record {
  id = e.id;
  workspace_id = e.workspace_id;
  event_name = e.event_name;
  event_version = e.event_version;
  payload = e.payload;
  attempts = suc e.attempts;
}

abbrev pub claimed : ℕ → ℕ → OutboxRow → OutboxRow
claimed now owner r = record {
  event = attempted r.event;
  available_at = r.available_at;
  claimed_at = some now;
  claimed_by = some owner;
  processed_at = r.processed_at;
  dead_lettered_at = r.dead_lettered_at;
}

-- Another worker has claimed the row, and lives.
abbrev pub is_held : (ℕ → Bool) → ℕ → Option ℕ → Bool
is_held live owner none = false
is_held live owner (some other) = not (other == owner) && live other

-- The loop over the locked rows.
unfoldable pub claim_rows :
    (ℕ → Bool) → ℕ → ℕ → ℕ → List OutboxRow → Outbox → List OutboxRecord × Outbox
claim_rows live now owner max_attempts [] t = ([], t)
claim_rows live now owner max_attempts (row ∷ rows) t =
    let skipped = claim_rows live now owner max_attempts rows t in
    let dead =
      claim_rows live now owner max_attempts rows
        (update (has_id row.event.id) (dead_lettered now) t) in
    let taken =
      claim_rows live now owner max_attempts rows
        (update (has_id row.event.id) (claimed now owner) t) in
    if is_held live owner row.claimed_by
    then skipped
    else (if leb max_attempts row.event.attempts
        then dead
        else (attempted row.event ∷ taken.0, taken.1))

-- The id of the last of the rows.
unfoldable pub last_id : List OutboxRow → Option ℕ
last_id [] = none
last_id (row ∷ []) = some row.event.id
last_id (row ∷ next ∷ rows) = last_id (next ∷ rows)

pub record Batch : Type 0 where
  pub records : List OutboxRecord
  pub cursor : Option ℕ

-- `claim`.
unfoldable pub claim : (ℕ → Bool) → (ℕ → Bool) → ℕ → ℕ → ℕ → ℕ → Option ℕ → Outbox → Batch × Outbox
claim live locked now owner batch_size max_attempts after_id t =
    let rows = candidates now locked batch_size after_id t in
    let (records, after) = claim_rows live now owner max_attempts rows t in
    (record { records = records; cursor = last_id rows }, after)
