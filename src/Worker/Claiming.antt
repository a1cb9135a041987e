-- ===== src/Worker/Claiming.antt =====
-- What the loop over the locked rows does to the rows that wait.
use mathlib.Core.Path.{subst}
use slotnova.Base.{
  ◌∙◌, ℕ, ◌≤◌, ◌≡◌, refl, ◌⊎◌, inl, inr, Bool, true, false, Option, none, some, List, [], ◌∷◌, leb,
  ◌==◌, Bool-cases, ==→eq, arith,
}
use slotnova.Base.Lists.{any}
use slotnova.Base.Rows.{update, count, count-update, count-update-gone, count-none}
use slotnova.Worker.Claim.{OutboxRow, Outbox, has_id, is_held, dead_lettered, claimed, claim_rows}
use slotnova.Worker.Consumer.{ConsumerOptions, World, Consumer, poll}
use slotnova.Worker.Claim.{candidates, claim}
use slotnova.Worker.Handling.{claim_rows-id, consume-id, waits, waits_unclaimed}

pub poll-id :
    (options : ConsumerOptions) (f : ℕ → Bool) (w : World) (c : Consumer)
    → count (λ r. f r.event.id) (poll options w c).outbox ≡ count (λ r. f r.event.id) c.outbox
unfolding poll claim
poll-id options f w c =
    let rows = candidates w.now w.locked options.batch_size c.cursor c.outbox in
    let result = claim_rows w.live w.now options.owner options.max_attempts rows c.outbox in
    consume-id options w.now f w.stopping result.0 result.1
    ∙ claim_rows-id f w.live w.now options.owner options.max_attempts rows c.outbox

module _ (live : ℕ → Bool) (now owner most x since : ℕ) where
  dead_lettered-gone :
      (q : OutboxRow → Bool) (i : ℕ) (t : Outbox)
      → ((r : OutboxRow) → q (dead_lettered now r) ≡ false)
      → count q (update (has_id i) (dead_lettered now) t) ≤ count q t
  dead_lettered-gone q i t gone =
      count-update-gone (has_id i) (dead_lettered now) q q t gone (λ r e. omega arith)

  pub claim_rows-waits :
      (rows : List OutboxRow) (t : Outbox)
      → (count (waits x since) (claim_rows live now owner most rows t).1 ≤ count (waits x since) t)
        × (count (waits_unclaimed owner x since) (claim_rows live now owner most rows t).1
            ≤ count (waits_unclaimed owner x since) t)
  unfolding claim_rows
  claim_rows-waits [] t = (omega arith, omega arith)
  claim_rows-waits (row ∷ rows) t = elim (Bool-cases (is_held live owner row.claimed_by)) [
    | inl e ↦ rw e (claim_rows-waits rows t)
    | inr e ↦ elim (Bool-cases (leb most row.event.attempts)) [
      | inl g ↦
          let (one, two) =
            claim_rows-waits rows (update (has_id row.event.id) (dead_lettered now) t) in
          rw (e, g)
            (
              omega (arith, dead_lettered-gone (waits x since) row.event.id t (λ r. ground arith)),
              omega (
                arith,
                dead_lettered-gone (waits_unclaimed owner x since) row.event.id t
                    (λ r. ground arith),
              ),
            )
      | inr g ↦
          let (one, two) =
            claim_rows-waits rows (update (has_id row.event.id) (claimed now owner) t) in
          let same : count (waits x since) (update (has_id row.event.id) (claimed now owner) t)
              ≡ count (waits x since) t =
            count-update (has_id row.event.id) (claimed now owner) (waits x since) (waits x since) t
              (λ r. elim (Bool-cases (has_id row.event.id r)) [
                | inl k ↦ rw k refl
                | inr k ↦ rw k refl
              ]) in
          let fewer =
            count-update-gone (has_id row.event.id) (claimed now owner)
              (waits_unclaimed owner x since) (waits_unclaimed owner x since) t (λ r. ground arith)
              (λ r k. omega arith) in
          rw (e, g) (omega arith, omega arith)
    ]
  ]

  not_held :
      (claimed_by : Option ℕ)
      → ((o : ℕ) → live o ≡ true → (o == owner) ≡ true)
      → is_held live owner claimed_by ≡ false
  not_held none alone = refl
  not_held (some o) alone = elim (Bool-cases (live o)) [
    | inl e ↦ rw (alone o e) refl
    | inr e ↦ ground (arith, e)
  ]

  -- A row that is updated to one of another kind.
  updated-gone :
      (q : OutboxRow → Bool) (g : OutboxRow → OutboxRow) (i : ℕ) (t : Outbox)
      → (i == x) ≡ true
      → ((r : OutboxRow) → q (g r) ≡ false)
      → ((r : OutboxRow) → has_id x r ≡ false → q r ≡ false)
      → count q (update (has_id i) g t) ≤ 0
  updated-gone q g i t same gone its =
      let kept =
        count-update-gone (has_id i) g q (λ r. false) t gone
          (λ r e. rw (its r (subst (λ k. has_id k r ≡ false) (==→eq i x same) e)) (omega arith)) in
      omega (arith, kept, count-none (λ (r : OutboxRow). false) t (λ r. refl))

  -- When no other worker lives, a row that is locked is claimed or waits no more.
  pub claim_rows-found :
      (rows : List OutboxRow) (t : Outbox)
      → ((o : ℕ) → live o ≡ true → (o == owner) ≡ true)
      → any (has_id x) rows ≡ true
      → (count (waits x since) (claim_rows live now owner most rows t).1 ≡ 0)
        ⊎ ((any (λ r. r.id == x) (claim_rows live now owner most rows t).0 ≡ true)
            × (count (waits_unclaimed owner x since) (claim_rows live now owner most rows t).1 ≡ 0))
  unfolding claim_rows
  claim_rows-found [] t alone found = cc (found)
  claim_rows-found (row ∷ rows) t alone found =
      let i = row.event.id in
      let dead = update (has_id i) (dead_lettered now) t in
      let taken = update (has_id i) (claimed now owner) t in
      elim (Bool-cases (i == x)) [
        | inl e ↦ elim (Bool-cases (leb most row.event.attempts)) [
          | inl g ↦
              let gone =
                updated-gone (waits x since) (dead_lettered now) i t e (λ r. ground arith)
                  (λ r k. rw k refl) in
              rw (not_held row.claimed_by alone, g)
                (inl (omega (arith, (claim_rows-waits rows dead).0, gone)))
          | inr g ↦
              let gone =
                updated-gone (waits_unclaimed owner x since) (claimed now owner) i t e
                  (λ r. ground arith) (λ r k. rw k refl) in
              rw (not_held row.claimed_by alone, g, e)
                (inr (refl, omega (arith, (claim_rows-waits rows taken).1, gone)))
        ]
        | inr e ↦
            let rest : any (has_id x) rows ≡ true = ground (arith, e, found) in
            elim (Bool-cases (leb most row.event.attempts)) [
              | inl g ↦
                  rw (not_held row.claimed_by alone, g) (claim_rows-found rows dead alone rest)
              | inr g ↦
                  rw (not_held row.claimed_by alone, g, e) (claim_rows-found rows taken alone rest)
            ]
      ]
