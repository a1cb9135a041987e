-- ===== src/Worker/Tests.antt =====
-- Runs of a worker, 1, whose batches have one row and whose records get two attempts.
use slotnova.Base.{ℕ, ◌≡◌, refl, false, Option, none, some, List, [], ◌∷◌, ◌==◌, arith}
use slotnova.Base.Outcome.{err, ok}
use slotnova.Base.Rows.{find, update, count, take, sort_by, insert_by}
use slotnova.Worker.Dispatch.{
  Payload, OutboxRecord, WorkerError, text_value, object, not_object, dispatch,
  handle_identity_event,
}
use slotnova.Worker.Claim.{OutboxRow, Outbox, has_id, candidates, claim_rows, claim, last_id}
use slotnova.Worker.Consumer.{ConsumerOptions, World, Consumer, consume, poll, polls}
use slotnova.Worker.Handling.{waits}
use slotnova.Worker.Progress.{polls_handle}
use slotnova.Worker.Ownership.{polls_held}

abbrev options : ConsumerOptions
options = record {
  owner = 1;
  batch_size = 1;
  max_attempts = 2;
  poll_interval_ms = 500;
  handler = handle_identity_event;
}

abbrev issued_payload : Payload
issued_payload = object (
    ("requestId", text_value "r-1")
    ∷ ("invitationId", text_value "i-1")
    ∷ ("role", text_value "staff")
    ∷ [])

abbrev event : ℕ → Payload → ℕ → OutboxRecord
event id payload attempts = record {
  id = id;
  workspace_id = some 5;
  event_name = "invitation.issued";
  event_version = 1;
  payload = payload;
  attempts = attempts;
}

abbrev waiting : OutboxRecord → Option ℕ → OutboxRow
waiting e claimed_by = record {
  event = e;
  available_at = 10;
  claimed_at = none;
  claimed_by = claimed_by;
  processed_at = none;
  dead_lettered_at = none;
}

dispatch_issued : dispatch handle_identity_event (event 4 issued_payload 1) ≡ ok tt
unfolding dispatch handle_identity_event
dispatch_issued = refl

dispatch_not_object :
    dispatch handle_identity_event (event 4 not_object 1) ≡ err WorkerError.request_id_missing
unfolding dispatch
dispatch_not_object = refl

-- The row 9 is bad, the row 4 is good, and a dead worker, 2, had claimed it.
abbrev outbox : Outbox
outbox = waiting (event 9 not_object 0) none ∷ waiting (event 4 issued_payload 0) (some 2) ∷ []

abbrev alone : ℕ → World
alone now = record { now = now; live = λ o. o == 1; locked = λ id. false; stopping = λ id. false }

abbrev start : Consumer
start = record { cursor = none; outbox = outbox }

abbrev five : List World
five = alone 100 ∷ alone 700 ∷ alone 1300 ∷ alone 1900 ∷ alone 2500 ∷ []

poll_once :
    (poll options (alone 100) start).outbox
    ≡ waiting (event 9 not_object 0) none
      ∷ record {
        event = event 4 issued_payload 1;
        available_at = 10;
        claimed_at = none;
        claimed_by = none;
        processed_at = some 100;
        dead_lettered_at = none;
      }
      ∷ []
unfolding poll claim candidates claim_rows consume dispatch handle_identity_event update take
    sort_by insert_by last_id
poll_once = refl

-- The bad row is put off once, and is a dead letter after its second attempt.
run_five :
    (polls options five start).outbox
    ≡ record {
      event = event 9 not_object 2;
      available_at = 2400;
      claimed_at = none;
      claimed_by = none;
      processed_at = none;
      dead_lettered_at = some 1900;
    }
      ∷ record {
        event = event 4 issued_payload 1;
        available_at = 10;
        claimed_at = none;
        claimed_by = none;
        processed_at = some 100;
        dead_lettered_at = none;
      }
      ∷ []
unfolding polls poll claim candidates claim_rows consume dispatch handle_identity_event update take
    sort_by insert_by last_id
run_five = refl

polls_handle_example :
    (count (waits 9 50) (polls options five start).outbox ≡ 0)
    × (count (has_id 9) (polls options five start).outbox ≡ count (has_id 9) outbox)
polls_handle_example =
    polls_handle options 9 50 five start (omega arith) (omega arith)
      (
        (omega arith, λ o e. e, refl, λ i. refl),
        (
          (omega arith, λ o e. e, refl, λ i. refl),
          (
            (omega arith, λ o e. e, refl, λ i. refl),
            (
              (omega arith, λ o e. e, refl, λ i. refl),
              ((omega arith, λ o e. e, refl, λ i. refl), tt),
            ),
          ),
        ),
      )
      (omega arith)

-- Another worker, 2, lives.
abbrev with_other : World
with_other = record { now = 100; live = λ o. o == 2; locked = λ id. false; stopping = λ id. false }

polls_held_example :
    find (has_id 4) (polls options (with_other ∷ with_other ∷ []) start).outbox
    ≡ some (waiting (event 4 issued_payload 0) (some 2))
unfolding find count
polls_held_example =
    polls_held options 4 (with_other ∷ with_other ∷ []) start
      {r = waiting (event 4 issued_payload 0) (some 2)} refl (omega arith) (refl, (refl, tt))
