-- ===== src/Worker/Progress.antt =====
-- A worker gets to every record.
use mathlib.Core.Path.{subst}
use slotnova.Base.{
  ℕ, suc, ◌-◌, ◌*◌, ◌≤◌, ◌<◌, ◌≡◌, refl, sym, ◌∙◌, ◌⊎◌, inl, inr, Bool, true, false, ◌&&◌, Option,
  some, List, [], ◌∷◌, leb, ◌==◌, Bool-cases, Option-cases, ==→eq, leb→le, arith,
}
use slotnova.Base.Lists.{length, any, All}
use slotnova.Base.Rows.{count, count-le}
use slotnova.Worker.Claim.{
  Outbox, has_id, is_candidate, is_after, candidates, claim_rows, claim, last_id,
}
use slotnova.Worker.Consumer.{ConsumerOptions, World, Consumer, poll, polls}
use slotnova.Worker.Claiming.{poll-id, claim_rows-waits, claim_rows-found}
use slotnova.Worker.Handling.{waits, consume-waits, consume-claimed}
use slotnova.Worker.Paging.{last_id-candidates, candidates-reach}
use slotnova.Worker.Distance.{
  ahead, distance_if, distance, distance_closer, distance_on, distance_back, distance_le,
}

-- A poll at the time or later that finds the worker alone, not told to stop, and the row unlocked.
abbrev pub IsUndisturbed : ConsumerOptions → ℕ → ℕ → World → Type 0
IsUndisturbed options x since w =
    (since ≤ w.now)
    × ((o : ℕ) → w.live o ≡ true → (o == options.owner) ≡ true)
    × (w.locked x ≡ false)
    × ((i : ℕ) → w.stopping i ≡ false)

module _ (options : ConsumerOptions) (x since : ℕ) (interval : 1 ≤ options.poll_interval_ms) where
  poll-waits :
      (w : World) (c : Consumer)
      → since ≤ w.now
      → count (waits x since) (poll options w c).outbox ≤ count (waits x since) c.outbox
  unfolding poll claim
  poll-waits w c late =
      let rows = candidates w.now w.locked options.batch_size c.cursor c.outbox in
      let result = claim_rows w.live w.now options.owner options.max_attempts rows c.outbox in
      omega (
        arith,
        consume-waits options w.now x since (omega arith) w.stopping result.0 result.1,
        (claim_rows-waits w.live w.now options.owner options.max_attempts x since rows c.outbox).0,
      )

  distance-poll :
      (cursor : Option ℕ) (w : World) (c : Consumer)
      → distance x cursor (poll options w c).outbox ≡ distance x cursor c.outbox
  distance-poll cursor w c =
      rw
        (
          poll-id options (λ i. is_after cursor i && leb i x) w c,
          poll-id options (λ i. is_after cursor i) w c,
          poll-id options (λ i. leb i x) w c,
        )
        refl

  -- The row that waits may be locked, when the cursor is before it.
  waits-is_candidate :
      (now : ℕ) (locked : ℕ → Bool) (cursor : Option ℕ) (t : Outbox)
      → since ≤ now
      → locked x ≡ false
      → is_after cursor x ≡ true
      → count (waits x since) t ≤ count (λ r. has_id x r && is_candidate now locked cursor r) t
  waits-is_candidate now locked cursor t late free before =
      count-le (waits x since) (λ r. has_id x r && is_candidate now locked cursor r) t
        (λ r. elim (Bool-cases (has_id x r)) [
          | inl e ↦
              let same : x ≡ r.event.id = sym (==→eq r.event.id x e) in
              let unlocked = subst (λ i. locked i ≡ false) same free in
              let after = subst (λ i. is_after cursor i ≡ true) same before in
              rw (e, unlocked, after) (ground (arith, late))
          | inr e ↦ rw e (omega arith)
        ])

  -- A row among those that a poll locks waits no more after it.
  poll-found :
      (w : World) (c : Consumer)
      → IsUndisturbed options x since w
      → any (has_id x) (candidates w.now w.locked options.batch_size c.cursor c.outbox) ≡ true
      → count (waits x since) (poll options w c).outbox ≡ 0
  unfolding poll claim
  poll-found w c (late, alone, free, goes) found =
      let rows = candidates w.now w.locked options.batch_size c.cursor c.outbox in
      let result = claim_rows w.live w.now options.owner options.max_attempts rows c.outbox in
      elim (claim_rows-found w.live w.now options.owner options.max_attempts x since rows c.outbox
        alone found) [
          | inl none_left ↦ omega (
            arith,
            none_left,
            consume-waits options w.now x since (omega arith) w.stopping result.0 result.1,
          )
          | inr (taken, none_left) ↦
              consume-claimed options w.now x since (omega arith) w.stopping result.0 result.1 goes
                taken none_left
        ]

  poll-cursor :
      (w : World) (c : Consumer)
      → (poll options w c).cursor
        ≡ last_id (candidates w.now w.locked options.batch_size c.cursor c.outbox)
  unfolding poll claim
  poll-cursor w c = refl

  -- A poll handles the row, or brings the cursor closer to it.
  poll-nearer :
      (n : ℕ) (w : World) (c : Consumer)
      → options.batch_size ≡ suc n
      → IsUndisturbed options x since w
      → 1 ≤ count (waits x since) c.outbox
      → (count (waits x since) (poll options w c).outbox ≡ 0)
        ⊎ (suc (distance x (poll options w c).cursor (poll options w c).outbox)
            ≤ distance x c.cursor c.outbox)
  poll-nearer n w c size (late, alone, free, goes) waiting =
      elim (Bool-cases (is_after c.cursor x)) [
        | inl before ↦
            elim (candidates-reach w.now w.locked c.cursor n x c.outbox (
              omega (
                arith,
                waiting,
                waits-is_candidate w.now w.locked c.cursor c.outbox late free before,
              ))) [
                | inl found ↦ inl (poll-found w c (late, alone, free, goes) (rw size found))
                | inr (next, e, lt) ↦
                    let here : last_id
                          (candidates w.now w.locked options.batch_size c.cursor c.outbox)
                        ≡ some next =
                      rw size e in
                    let (on, there) =
                      last_id-candidates w.now w.locked c.cursor options.batch_size c.outbox
                        {c = next} here in
                    inr (
                      rw (distance-poll (poll options w c).cursor w c, poll-cursor w c, here)
                        (distance_closer x next c.outbox there c.cursor before on lt))
              ]
        | inr past ↦
            elim (Option-cases
              (last_id (candidates w.now w.locked options.batch_size c.cursor c.outbox))) [
                | inl e ↦ inr (
                    rw (distance-poll (poll options w c).cursor w c, poll-cursor w c, e)
                      (distance_back x c.outbox c.cursor past))
                | inr (next, e) ↦
                    let (on, there) =
                      last_id-candidates w.now w.locked c.cursor options.batch_size c.outbox
                        {c = next} e in
                    inr (
                      rw (distance-poll (poll options w c).cursor w c, poll-cursor w c, e)
                        (distance_on x next c.outbox there c.cursor past on))
              ]
      ]

  polls-waits :
      (ws : List World) (c : Consumer)
      → All (IsUndisturbed options x since) ws
      → count (waits x since) (polls options ws c).outbox ≤ count (waits x since) c.outbox
  unfolding polls
  polls-waits [] c h = omega arith
  polls-waits (w ∷ ws) c (u, h) =
      omega (arith, polls-waits ws (poll options w c) h, poll-waits w c u.0)

  polls-id :
      (ws : List World) (c : Consumer)
      → count (has_id x) (polls options ws c).outbox ≡ count (has_id x) c.outbox
  unfolding polls
  polls-id [] c = refl
  polls-id (w ∷ ws) c = polls-id ws (poll options w c) ∙ poll-id options (λ i. i == x) w c

  waits-distance :
      (cursor : Option ℕ) (t : Outbox) → distance x cursor t ≤ 0 → count (waits x since) t ≡ 0
  waits-distance cursor t near = elim (Bool-cases (is_after cursor x)) [
    | inl before ↦
        let few = count-le (waits x since) (ahead cursor x) t (λ r. elim (Bool-cases (has_id x r)) [
          | inl e ↦
              let same : x ≡ r.event.id = sym (==→eq r.event.id x e) in
              let after = subst (λ i. is_after cursor i ≡ true) same before in
              rw (e, after) (ground arith)
          | inr e ↦ rw e (omega arith)
        ]) in
        omega (arith, few, subst (λ b. distance_if b x cursor t ≤ 0) before near)
    | inr past ↦ absurd (omega (arith, subst (λ b. distance_if b x cursor t ≤ 0) past near))
  ]

  polls-nearer :
      (n : ℕ) (ws : List World) (c : Consumer)
      → options.batch_size ≡ suc n
      → All (IsUndisturbed options x since) ws
      → distance x c.cursor c.outbox ≤ length ws
      → count (waits x since) (polls options ws c).outbox ≡ 0
  unfolding polls
  polls-nearer n [] c size h near = waits-distance c.cursor c.outbox near
  polls-nearer n (w ∷ ws) c size (u, h) near =
      elim (Bool-cases (leb 1 (count (waits x since) c.outbox))) [
        | inl waiting ↦
            elim (poll-nearer n w c size u (leb→le 1 (count (waits x since) c.outbox) waiting)) [
              | inl none_left ↦ omega (arith, none_left, polls-waits ws (poll options w c) h)
              | inr nearer ↦ polls-nearer n ws (poll options w c) size h (omega arith)
            ]
        | inr e ↦
            let none_left : count (waits x since) c.outbox ≤ 0 = ground (arith, e) in
            omega (arith, none_left, poll-waits w c u.0, polls-waits ws (poll options w c) h)
      ]

-- Let a worker that puts failures off, and takes a row at least in each batch, poll more than
-- twice as often as the outbox has rows, whatever its cursor is at first, with no other worker
-- alive, no one else's lock on the record and no signal to stop. A record that was waiting at the
-- start is not waiting any more for its time then: it was processed, became a dead letter or was
-- put off to a later time. It is not lost: the outbox has as many rows with its id as before.
pub polls_handle :
    (options : ConsumerOptions) (x since : ℕ) (ws : List World) (c : Consumer)
    → 1 ≤ options.poll_interval_ms
    → 1 ≤ options.batch_size
    → All (IsUndisturbed options x since) ws
    → 2 * length c.outbox < length ws
    → (count (waits x since) (polls options ws c).outbox ≡ 0)
      × (count (has_id x) (polls options ws c).outbox ≡ count (has_id x) c.outbox)
polls_handle options x since ws c interval size h enough = (
  polls-nearer options x since interval (options.batch_size - 1) ws c (omega arith) h
      (omega (arith, distance_le x c.cursor c.outbox)),
  polls-id options x since interval ws c,
)
