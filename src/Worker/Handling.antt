-- ===== src/Worker/Handling.antt =====
-- What a poll does to the rows with one id: they are kept, and handled when they are claimed.
use mathlib.Core.Path.{subst}
use slotnova.Base.{
  ℕ, ◌+◌, ◌≤◌, ◌<◌, ◌≡◌, refl, sym, inl, inr, Bool, true, false, not, ◌&&◌, List, [], ◌∷◌, leb,
  ◌==◌, is_some, Bool-cases, ==→eq, arith,
}
use slotnova.Base.Lists.{any}
use slotnova.Base.Outcome.{Result, err, ok}
use slotnova.Base.Rows.{tally, update, count, count-update, count-update-gone}
use slotnova.Worker.Dispatch.{OutboxRecord, WorkerError, dispatch}
use slotnova.Worker.Claim.{
  OutboxRow, Outbox, has_id, is_waiting, is_held, dead_lettered, claimed, claim_rows,
}
use slotnova.Worker.Consumer.{ConsumerOptions, is_owned, processed, failed, settle, consume}

-- The row has the id and waits at the time, and no claim of the worker is on it.
abbrev pub waits : ℕ → ℕ → OutboxRow → Bool
waits x since r = has_id x r && is_waiting since r

abbrev pub waits_unclaimed : ℕ → ℕ → ℕ → OutboxRow → Bool
waits_unclaimed owner x since r = waits x since r && not (is_owned owner r.claimed_by)

update-id :
    (f : ℕ → Bool) (p : OutboxRow → Bool) (g : OutboxRow → OutboxRow) (t : Outbox)
    → ((r : OutboxRow) → (g r).event.id ≡ r.event.id)
    → count (λ r. f r.event.id) (update p g t) ≡ count (λ r. f r.event.id) t
update-id f p g t same =
    count-update p g (λ r. f r.event.id) (λ r. f r.event.id) t
      (λ r. elim (Bool-cases (p r)) [ inl e ↦ rw (e, same r) refl | inr e ↦ rw e refl ])

pub claim_rows-id :
    (f : ℕ → Bool) (live : ℕ → Bool) (now owner most : ℕ) (rows : List OutboxRow) (t : Outbox)
    → count (λ r. f r.event.id) (claim_rows live now owner most rows t).1
      ≡ count (λ r. f r.event.id) t
unfolding claim_rows
claim_rows-id f live now owner most [] t = refl
claim_rows-id f live now owner most (row ∷ rows) t =
    elim (Bool-cases (is_held live owner row.claimed_by)) [
      | inl e ↦ rw e (claim_rows-id f live now owner most rows t)
      | inr e ↦ elim (Bool-cases (leb most row.event.attempts)) [
        | inl g ↦
            rw
              (
                e,
                g,
                claim_rows-id f live now owner most rows
                    (update (has_id row.event.id) (dead_lettered now) t),
              )
              (update-id f (has_id row.event.id) (dead_lettered now) t (λ r. refl))
        | inr g ↦
            rw
              (
                e,
                g,
                claim_rows-id f live now owner most rows
                    (update (has_id row.event.id) (claimed now owner) t),
              )
              (update-id f (has_id row.event.id) (claimed now owner) t (λ r. refl))
      ]
    ]

-- A row that waits, and that settling does not select, is not the worker's.
unsettled_failure :
    (its owned done rest : Bool)
    → its && (owned && not done) ≡ false
    → tally (its && (not done && rest)) ≤ tally ((its && (not done && rest)) && not owned)
unsettled_failure its owned done rest e = ground (arith, e)

unsettled_success :
    (its owned waiting : Bool)
    → its && owned ≡ false
    → tally (its && waiting) ≤ tally ((its && waiting) && not owned)
unsettled_success its owned waiting e = ground (arith, e)

module _ (options : ConsumerOptions) (now : ℕ) where
  settle-id :
      (f : ℕ → Bool) (i : ℕ) (result : Result WorkerError (Unit {0})) (t : Outbox)
      → count (λ r. f r.event.id) (settle options now i result t) ≡ count (λ r. f r.event.id) t
  settle-id f i (err e) t = update-id f _ (failed options now) t (λ r. refl)
  settle-id f i (ok u) t = update-id f _ (processed now) t (λ r. refl)

  pub consume-id :
      (f : ℕ → Bool) (stopping : ℕ → Bool) (rs : List OutboxRecord) (t : Outbox)
      → count (λ r. f r.event.id) (consume options now stopping rs t) ≡ count (λ r. f r.event.id) t
  unfolding consume
  consume-id f stopping [] t = refl
  consume-id f stopping (r ∷ rs) t = elim (Bool-cases (stopping r.id)) [
    | inl e ↦ rw e refl
    | inr e ↦
        rw (e, consume-id f stopping rs (settle options now r.id (dispatch options.handler r) t))
          (settle-id f r.id (dispatch options.handler r) t)
  ]

  module _ (x since : ℕ) (later : since < now + options.poll_interval_ms) where
    failed-waits : (r : OutboxRow) → waits x since (failed options now r) ≡ false
    failed-waits r =
        let past : leb (now + options.poll_interval_ms) since ≡ false = ground arith in
        ground (arith, past)

    processed-waits : (r : OutboxRow) → waits x since (processed now r) ≡ false
    processed-waits r = ground arith

    -- What is settled waits no more: a failure puts it off to a later time.
    settle-waits :
        (i : ℕ) (result : Result WorkerError (Unit {0})) (t : Outbox)
        → count (waits x since) (settle options now i result t) ≤ count (waits x since) t
    settle-waits i (err e) t =
        count-update-gone _ (failed options now) (waits x since) (waits x since) t failed-waits
          (λ r e. omega arith)
    settle-waits i (ok u) t =
        count-update-gone _ (processed now) (waits x since) (waits x since) t processed-waits
          (λ r e. omega arith)

    settle-unclaimed :
        (i : ℕ) (result : Result WorkerError (Unit {0})) (t : Outbox)
        → count (waits_unclaimed options.owner x since) (settle options now i result t)
          ≤ count (waits_unclaimed options.owner x since) t
    settle-unclaimed i (err e) t =
        let q = waits_unclaimed options.owner x since in
        count-update-gone _ (failed options now) q q t (λ r. rw (failed-waits r) refl)
          (λ r e. omega arith)
    settle-unclaimed i (ok u) t =
        let q = waits_unclaimed options.owner x since in
        count-update-gone _ (processed now) q q t (λ r. rw (processed-waits r) refl)
          (λ r e. omega arith)

    -- What the worker has claimed and settles waits no more.
    settle-claimed :
        (result : Result WorkerError (Unit {0})) (t : Outbox)
        → count (waits x since) (settle options now x result t)
          ≤ count (waits_unclaimed options.owner x since) t
    settle-claimed (err e) t =
        count-update-gone _ (failed options now) (waits x since)
          (waits_unclaimed options.owner x since) t failed-waits
          (λ r e.
            unsettled_failure (has_id x r) (is_owned options.owner r.claimed_by)
              (is_some r.processed_at)
              (not (is_some r.dead_lettered_at) && leb r.available_at since) e)
    settle-claimed (ok u) t =
        count-update-gone _ (processed now) (waits x since) (waits_unclaimed options.owner x since)
          t processed-waits
          (λ r e.
            unsettled_success (has_id x r) (is_owned options.owner r.claimed_by)
              (is_waiting since r) e)

    pub consume-waits :
        (stopping : ℕ → Bool) (rs : List OutboxRecord) (t : Outbox)
        → count (waits x since) (consume options now stopping rs t) ≤ count (waits x since) t
    unfolding consume
    consume-waits stopping [] t = omega arith
    consume-waits stopping (r ∷ rs) t = elim (Bool-cases (stopping r.id)) [
      | inl e ↦ rw e (omega arith)
      | inr e ↦ rw e (
          omega (
            arith,
            consume-waits stopping rs (settle options now r.id (dispatch options.handler r) t),
            settle-waits r.id (dispatch options.handler r) t,
          ))
    ]

    -- A worker that does not stop handles each record of its batch.
    pub consume-claimed :
        (stopping : ℕ → Bool) (rs : List OutboxRecord) (t : Outbox)
        → ((i : ℕ) → stopping i ≡ false)
        → any (λ r. r.id == x) rs ≡ true
        → count (waits_unclaimed options.owner x since) t ≡ 0
        → count (waits x since) (consume options now stopping rs t) ≡ 0
    unfolding consume
    consume-claimed stopping [] t goes found none_left = cc (found)
    consume-claimed stopping (r ∷ rs) t goes found none_left =
        let result = dispatch options.handler r in
        elim (Bool-cases (r.id == x)) [
          | inl e ↦
              let settled =
                subst
                  (λ i.
                    count (waits x since) (settle options now i result t)
                    ≤ count (waits_unclaimed options.owner x since) t)
                  (sym (==→eq r.id x e)) (settle-claimed result t) in
              rw (goes r.id) (
                omega (
                  arith,
                  consume-waits stopping rs (settle options now r.id result t),
                  settled,
                  none_left,
                ))
          | inr e ↦ rw (goes r.id) (
              consume-claimed stopping rs (settle options now r.id result t) goes
                (ground (arith, e, found))
                (omega (arith, settle-unclaimed r.id result t, none_left)))
        ]
