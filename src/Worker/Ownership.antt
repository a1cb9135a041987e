-- ===== src/Worker/Ownership.antt =====
-- What a live worker has claimed is its own.
use slotnova.Base.{
  ℕ, ◌≤◌, ◌≡◌, refl, ◌∙◌, inl, inr, Bool, true, false, some, List, [], ◌∷◌, leb, ◌==◌, Bool-cases,
  arith,
}
use slotnova.Base.Lists.{any, filter, All, All-filter}
use slotnova.Base.Outcome.{Result, err, ok}
use slotnova.Base.Rows.{
  find, update, count, take, sort_by, find-All, find-update, All-take, All-sort_by, All-imp,
}
use slotnova.Worker.Dispatch.{OutboxRecord, WorkerError, dispatch}
use slotnova.Worker.Claim.{
  OutboxRow, Outbox, has_id, id_before, is_candidate, is_held, dead_lettered, claimed, claim_rows,
  claim, candidates,
}
use slotnova.Worker.Claiming.{poll-id}
use slotnova.Worker.Consumer.{
  ConsumerOptions, World, Consumer, processed, failed, settle, consume, poll, polls,
}

find-update_id :
    (x i : ℕ) (p : OutboxRow → Bool) (g : OutboxRow → OutboxRow) (t : Outbox)
    → (i == x) ≡ false
    → ((r : OutboxRow) → p r ≡ true → has_id i r ≡ true)
    → ((r : OutboxRow) → (g r).event.id ≡ r.event.id)
    → find (has_id x) (update p g t) ≡ find (has_id x) t
find-update_id x i p g t other its same =
    find-update (has_id x) p g t
      (λ r e. elim (Bool-cases (p r)) [
        | inl f ↦ absurd (ground (arith, other, its r f, e))
        | inr f ↦ f
      ])
      (λ r. rw (same r) refl)

-- No row with the id is touched when all the locked ones of them are held by others.
claim_rows-held :
    (live : ℕ → Bool) (now owner most x : ℕ) (rows : List OutboxRow) (t : Outbox)
    → All (λ s. has_id x s ≡ true → is_held live owner s.claimed_by ≡ true) rows
    → let (records, after) = claim_rows live now owner most rows t in
      (find (has_id x) after ≡ find (has_id x) t) × (any (λ r. r.id == x) records ≡ false)
unfolding claim_rows
claim_rows-held live now owner most x [] t h = (refl, refl)
claim_rows-held live now owner most x (row ∷ rows) t (held, h) =
    let i = row.event.id in
    let dead = update (has_id i) (dead_lettered now) t in
    let taken = update (has_id i) (claimed now owner) t in
    elim (Bool-cases (is_held live owner row.claimed_by)) [
      | inl e ↦ rw e (claim_rows-held live now owner most x rows t h)
      | inr e ↦
          let other : (i == x) ≡ false = elim (Bool-cases (i == x)) [
            | inl f ↦ absurd (cc (e, held f))
            | inr f ↦ f
          ] in
          elim (Bool-cases (leb most row.event.attempts)) [
            | inl g ↦
                let (same, unseen) = claim_rows-held live now owner most x rows dead h in
                rw (e, g)
                  (
                    same
                        ∙ find-update_id x i (has_id i) (dead_lettered now) t other (λ r k. k)
                            (λ r. refl),
                    unseen,
                  )
            | inr g ↦
                let (same, unseen) = claim_rows-held live now owner most x rows taken h in
                rw (e, g, other)
                  (
                    same
                        ∙ find-update_id x i (has_id i) (claimed now owner) t other (λ r k. k)
                            (λ r. refl),
                    unseen,
                  )
          ]
    ]

settle-other :
    (options : ConsumerOptions) (now x i : ℕ) (result : Result WorkerError (Unit {0})) (t : Outbox)
    → (i == x) ≡ false
    → find (has_id x) (settle options now i result t) ≡ find (has_id x) t
settle-other options now x i (err e) t other =
    find-update_id x i _ (failed options now) t other (λ r k. ground (arith, k)) (λ r. refl)
settle-other options now x i (ok u) t other =
    find-update_id x i _ (processed now) t other (λ r k. ground (arith, k)) (λ r. refl)

consume-other :
    (options : ConsumerOptions) (now x : ℕ) (stopping : ℕ → Bool) (rs : List OutboxRecord)
    (t : Outbox)
    → any (λ r. r.id == x) rs ≡ false
    → find (has_id x) (consume options now stopping rs t) ≡ find (has_id x) t
unfolding consume
consume-other options now x stopping [] t unseen = refl
consume-other options now x stopping (r ∷ rs) t unseen = elim (Bool-cases (stopping r.id)) [
  | inl e ↦ rw e refl
  | inr e ↦ rw e (
      consume-other options now x stopping rs
        (settle options now r.id (dispatch options.handler r) t) (ground (arith, unseen))
      ∙ settle-other options now x r.id (dispatch options.handler r) t (ground (arith, unseen)))
]

poll_held :
    (options : ConsumerOptions) (x : ℕ) (w : World) (c : Consumer) {r : OutboxRow}
    → find (has_id x) c.outbox ≡ some r
    → count (has_id x) c.outbox ≤ 1
    → is_held w.live options.owner r.claimed_by ≡ true
    → find (has_id x) (poll options w c).outbox ≡ some r
unfolding poll claim candidates
poll_held options x w c {r} e one held =
    let all =
      All-imp (λ s. has_id x s ≡ true → s ≡ r)
        (λ s. has_id x s ≡ true → is_held w.live options.owner s.claimed_by ≡ true) c.outbox
        (λ s same k. rw (same k) held) (find-All (has_id x) c.outbox {x = r} e one) in
    let chosen = filter (is_candidate w.now w.locked c.cursor) c.outbox in
    let rows = take options.batch_size (sort_by id_before chosen) in
    let Held =
      λ (s : OutboxRow). has_id x s ≡ true → is_held w.live options.owner s.claimed_by ≡ true in
    let locked = All-take Held options.batch_size (sort_by id_before chosen) (
      All-sort_by Held id_before chosen
        (All-filter Held (is_candidate w.now w.locked c.cursor) c.outbox all)) in
    let (same, unseen) =
      claim_rows-held w.live w.now options.owner options.max_attempts x rows c.outbox locked in
    let result = claim_rows w.live w.now options.owner options.max_attempts rows c.outbox in
    consume-other options w.now x w.stopping result.0 result.1 unseen ∙ (same ∙ e)

-- However often a worker polls, and whatever its handler does, it leaves a row as it is that
-- another worker has claimed, as long as that worker lives. Ids are unique in the outbox.
pub polls_held :
    (options : ConsumerOptions) (x : ℕ) (ws : List World) (c : Consumer) {r : OutboxRow}
    → find (has_id x) c.outbox ≡ some r
    → count (has_id x) c.outbox ≤ 1
    → All (λ w. is_held w.live options.owner r.claimed_by ≡ true) ws
    → find (has_id x) (polls options ws c).outbox ≡ some r
unfolding polls
polls_held options x [] c e one h = e
polls_held options x (w ∷ ws) c {r} e one (held, h) =
    polls_held options x ws (poll options w c) {r = r} (poll_held options x w c {r = r} e one held)
      (omega (arith, one, poll-id options (λ i. i == x) w c)) h
