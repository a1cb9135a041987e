-- ===== src/Worker/Consumer.antt =====
-- apps/worker/src/outbox/consumer.ts: the loop of a worker, poll after poll.
use slotnova.Base.{
  ℕ, ◌+◌, Bool, false, not, ◌&&◌, Option, none, some, List, [], ◌∷◌, leb, ◌==◌, if◌then◌else◌,
  is_some,
}
use slotnova.Base.Outcome.{Result, err, ok}
use slotnova.Base.Rows.{update}
use slotnova.Worker.Dispatch.{OutboxRecord, WorkerError, Handler, dispatch}
use slotnova.Worker.Claim.{OutboxRow, Outbox, claim, has_id}

pub record ConsumerOptions : Type 0 where
  pub owner : ℕ
  pub batch_size : ℕ
  pub max_attempts : ℕ
  pub poll_interval_ms : ℕ
  pub handler : Handler

abbrev pub is_owned : ℕ → Option ℕ → Bool
is_owned owner none = false
is_owned owner (some o) = o == owner

abbrev pub processed : ℕ → OutboxRow → OutboxRow
processed now r = record {
  event = r.event;
  available_at = r.available_at;
  claimed_at = none;
  claimed_by = none;
  processed_at = some now;
  dead_lettered_at = r.dead_lettered_at;
}

-- What a failure leaves: a dead letter after the last attempt, and a later time.
abbrev pub failed : ConsumerOptions → ℕ → OutboxRow → OutboxRow
failed options now r = record {
  event = r.event;
  available_at = now + options.poll_interval_ms;
  claimed_at = none;
  claimed_by = none;
  processed_at = r.processed_at;
  dead_lettered_at = if leb options.max_attempts r.event.attempts then some now else none;
}

abbrev pub settle : ConsumerOptions → ℕ → ℕ → Result WorkerError (Unit {0}) → Outbox → Outbox
settle options now id (err e) t =
    update
      (λ r. has_id id r && (is_owned options.owner r.claimed_by && not (is_some r.processed_at)))
      (failed options now) t
settle options now id (ok _) t =
    update (λ r. has_id id r && is_owned options.owner r.claimed_by) (processed now) t

-- The loop over a batch's records, which ends early when the worker stops.
unfoldable pub consume : ConsumerOptions → ℕ → (ℕ → Bool) → List OutboxRecord → Outbox → Outbox
consume options now stopping [] t = t
consume options now stopping (r ∷ rs) t =
    let rest =
      consume options now stopping rs (settle options now r.id (dispatch options.handler r) t) in
    if stopping r.id then t else rest

-- What one poll finds: the time, the owners that live, the rows that others have locked, and the
-- records before which the worker is told to stop.
pub record World : Type 0 where
  pub now : ℕ
  pub live : ℕ → Bool
  pub locked : ℕ → Bool
  pub stopping : ℕ → Bool

pub record Consumer : Type 0 where
  pub cursor : Option ℕ
  pub outbox : Outbox

-- One round of the `while` loop in `startConsumer`.
unfoldable pub poll : ConsumerOptions → World → Consumer → Consumer
poll options world c =
    let (batch, after) =
      claim world.live world.locked world.now options.owner options.batch_size options.max_attempts
        c.cursor c.outbox in
    record {
      cursor = batch.cursor;
      outbox = consume options world.now world.stopping batch.records after;
    }

unfoldable pub polls : ConsumerOptions → List World → Consumer → Consumer
polls options [] c = c
polls options (w ∷ ws) c = polls options ws (poll options w c)
