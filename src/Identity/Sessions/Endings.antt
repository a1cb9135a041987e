-- ===== src/Identity/Sessions/Endings.antt =====
-- A session that is over stays over.
use mathlib.Core.Path.{subst}
use slotnova.Base.{
  ℕ, ◌≤◌, ◌≡◌, refl, ◌∙◌, inl, inr, Bool, false, not, ◌&&◌, Option, none, some, List, [], ◌∷◌, ◌==◌,
  Bool-cases, Option-cases, ==→eq, arith,
}
use slotnova.Base.Lists.{filter, All}
use slotnova.Base.Outcome.{ok}
use slotnova.Base.Rows.{
  find, update, count, find-some, any-false, count-le, count-update, count-update-le, count-filter,
  count-none, count-zero,
}
use slotnova.Identity.Sessions.{
  SessionRecord, InsertSessionInput, Sessions, References, constraints, inserted_row, has_row,
  insert, is_active, is_unrevoked, touched, revoked, touch_last_seen, find_active_by_hashed_id,
  revoke, rotate_atomically,
}
use slotnova.Identity.Sessions.Service.{
  Clocks, IssueSessionInput, IssuedSession, Call, issuing, validating, rotating, revoking, pruning,
  issue, issue_input, validate, rotate, next_input, revoke_token, expired, prune_expired_sessions,
  step,
}

-- A call at its time, and the calls that come one after another.
pub record Event : Type 0 where
  pub clocks : Clocks
  pub call : Call

unfoldable pub run : References → (ℕ → ℕ) → List Event → Sessions → Sessions
run refs hash [] t = t
run refs hash (e ∷ es) t = run refs hash es (step refs hash e.clocks e.call t)

-- The token that a call makes.
abbrev pub made : Call → Option ℕ
made (issuing raw_token input) = some raw_token
made (rotating raw_token next_raw_token override) = some next_raw_token
made _ = none

abbrev hashes_to : (ℕ → ℕ) → ℕ → Option ℕ → Bool
hashes_to hash id none = false
hashes_to hash id (some raw_token) = hash raw_token == id

-- The calls come at the time or later, and make no token with the hash.
abbrev pub ComeAfter : (ℕ → ℕ) → ℕ → ℕ → List Event → Type 0
ComeAfter hash now id = All (λ e. (now ≤ e.clocks.now) × (hashes_to hash id (made e.call) ≡ false))

-- No session with the id is active at the time, so that none is active later.
abbrev pub IsOver : ℕ → ℕ → Sessions → Type 0
IsOver now id t = count (is_active now id) t ≡ 0

revoking-IsOver :
    (p : SessionRecord → Bool) (at now id : ℕ) (t : Sessions)
    → IsOver now id t
    → IsOver now id (update p (revoked at) t)
revoking-IsOver p at now id t h = omega (
  arith,
  count-update-le p (revoked at) (is_active now id) t
      (λ r. elim (Bool-cases (p r)) [ inl e ↦ rw e (ground arith) | inr e ↦ rw e (omega arith) ]),
)

touched-IsOver :
    (at i now id : ℕ) (t : Sessions) → IsOver now id t → IsOver now id (touch_last_seen at i t)
unfolding touch_last_seen
touched-IsOver at i now id t h = omega (
  arith,
  count-update-le (λ r. r.id == i) (touched at) (is_active now id) t
      (λ r. elim (Bool-cases (r.id == i)) [
        | inl e ↦ rw e (omega arith)
        | inr e ↦ rw e (omega arith)
      ]),
)

inserted-IsOver :
    (at now id : ℕ) (input : InsertSessionInput) (t : Sessions)
    → (input.hashed_id == id) ≡ false
    → IsOver now id t
    → IsOver now id (inserted_row at input ∷ t)
unfolding count
inserted-IsOver at now id input t other h = rw (other, h) (omega arith)

filter-IsOver :
    (keep : SessionRecord → Bool) (now id : ℕ) (t : Sessions)
    → IsOver now id t
    → IsOver now id (filter keep t)
filter-IsOver keep now id t h =
    let few =
      count-le (λ r. is_active now id r && keep r) (is_active now id) t (λ r. ground arith) in
    rw (count-filter keep (is_active now id) t) (omega arith)

issue-IsOver :
    (refs : References) (hash : ℕ → ℕ) (clocks : Clocks) (raw_token : ℕ) (input : IssueSessionInput)
    (now id : ℕ) (t : Sessions)
    → (hash raw_token == id) ≡ false
    → IsOver now id t
    → IsOver now id (issue refs hash clocks raw_token input t).1
unfolding issue insert
issue-IsOver refs hash clocks raw_token input now id t other h =
    let new = issue_input refs hash clocks raw_token input in
    elim (Option-cases (constraints refs new t)) [
      | inl e ↦ rw e (inserted-IsOver clocks.now now id new t other h)
      | inr (x, e) ↦ rw e h
    ]

rotate-IsOver :
    (refs : References) (hash : ℕ → ℕ) (clocks : Clocks) (raw_token next_raw_token : ℕ)
    (override : Option (Option ℕ)) (now id : ℕ) (t : Sessions)
    → (hash next_raw_token == id) ≡ false
    → IsOver now id t
    → IsOver now id (rotate refs hash clocks raw_token next_raw_token override t).1
unfolding rotate rotate_atomically insert
rotate-IsOver refs hash clocks raw_token next_raw_token override now id t other h =
    let superseded = update (is_active clocks.now (hash raw_token)) (revoked clocks.now) t in
    let still = revoking-IsOver (is_active clocks.now (hash raw_token)) clocks.now now id t h in
    elim (Option-cases (find (is_active clocks.now (hash raw_token)) t)) [
      | inl e ↦ rw e h
      | inr (row, e) ↦
          let next = next_input refs hash clocks next_raw_token override (revoked clocks.now row) in
          elim (Option-cases (constraints refs next superseded)) [
            | inl f ↦ rw (e, f) (inserted-IsOver clocks.now now id next superseded other still)
            | inr (x, f) ↦ rw (e, f) h
          ]
    ]

validate-IsOver :
    (refs : References) (hash : ℕ → ℕ) (clocks : Clocks) (raw_token now id : ℕ) (t : Sessions)
    → IsOver now id t
    → IsOver now id (validate refs hash clocks raw_token t).1
unfolding validate
validate-IsOver refs hash clocks raw_token now id t h =
    elim (Option-cases (find_active_by_hashed_id clocks.now (hash raw_token) t)) [
      | inl e ↦ rw e h
      | inr (r, e) ↦ rw e (touched-IsOver clocks.now (hash raw_token) now id t h)
    ]

step-IsOver :
    (refs : References) (hash : ℕ → ℕ) (clocks : Clocks) (call : Call) (now id : ℕ) (t : Sessions)
    → hashes_to hash id (made call) ≡ false
    → IsOver now id t
    → IsOver now id (step refs hash clocks call t)
unfolding step revoke_token revoke prune_expired_sessions
step-IsOver refs hash clocks (issuing raw_token input) now id t other h =
    issue-IsOver refs hash clocks raw_token input now id t other h
step-IsOver refs hash clocks (validating raw_token) now id t other h =
    validate-IsOver refs hash clocks raw_token now id t h
step-IsOver refs hash clocks (revoking raw_token) now id t other h =
    revoking-IsOver (is_unrevoked (hash raw_token)) clocks.now now id t h
step-IsOver refs hash clocks (rotating raw_token next_raw_token override) now id t other h =
    rotate-IsOver refs hash clocks raw_token next_raw_token override now id t other h
step-IsOver refs hash clocks (pruning batch_size days locked) now id t other h =
    filter-IsOver (λ s. not (has_row s.id (expired batch_size days clocks.now locked t))) now id t h

run-IsOver :
    (refs : References) (hash : ℕ → ℕ) (now id : ℕ) (events : List Event) (t : Sessions)
    → ComeAfter hash now id events
    → IsOver now id t
    → IsOver now id (run refs hash events t)
unfolding run
run-IsOver refs hash now id [] t h over = over
run-IsOver refs hash now id (e ∷ es) t ((late, other), h) over =
    run-IsOver refs hash now id es (step refs hash e.clocks e.call t) h
      (step-IsOver refs hash e.clocks e.call now id t other over)

-- A token whose session is over is refused by validate and by rotate.
abbrev pub IsRefused : References → (ℕ → ℕ) → Clocks → ℕ → Sessions → Type 0
IsRefused refs hash clocks raw_token t =
    ((validate refs hash clocks raw_token t).0 ≡ none)
    × ((next_raw_token : ℕ) (override : Option (Option ℕ))
        → rotate refs hash clocks raw_token next_raw_token override t ≡ (ok none, t))

IsRefused-of :
    (refs : References) (hash : ℕ → ℕ) (now raw_token : ℕ) (later : Clocks) (t : Sessions)
    → IsOver now (hash raw_token) t
    → now ≤ later.now
    → IsRefused refs hash later raw_token t
unfolding validate find_active_by_hashed_id rotate rotate_atomically
IsRefused-of refs hash now raw_token later t over late =
    let few =
      count-le (is_active later.now (hash raw_token)) (is_active now (hash raw_token)) t
        (λ r. ground arith) in
    let nothing = count-zero (is_active later.now (hash raw_token)) t (omega arith) in
    (rw nothing refl, λ next override. rw nothing refl)

-- After a token is revoked, and whatever calls come later that make no token with its hash, the
-- token is refused: it is not valid and cannot be rotated.
pub revoke_token_final :
    (refs : References) (hash : ℕ → ℕ) (clocks : Clocks) (raw_token : ℕ) (t : Sessions)
    (events : List Event) (later : Clocks)
    → ComeAfter hash clocks.now (hash raw_token) events
    → clocks.now ≤ later.now
    → IsRefused refs hash later raw_token
        (run refs hash events (revoke_token refs hash clocks raw_token t))
unfolding revoke_token revoke
revoke_token_final refs hash clocks raw_token t events later h late =
    let after = update (is_unrevoked (hash raw_token)) (revoked clocks.now) t in
    let over : IsOver clocks.now (hash raw_token) after =
      count-update (is_unrevoked (hash raw_token)) (revoked clocks.now)
        (is_active clocks.now (hash raw_token)) (λ r. false) t
        (λ r. elim (Bool-cases (is_unrevoked (hash raw_token) r)) [
          | inl e ↦ rw e (ground arith)
          | inr e ↦ rw e (ground arith)
        ])
      ∙ count-none (λ r. false) t (λ r. refl) in
    IsRefused-of refs hash clocks.now raw_token later (run refs hash events after)
      (run-IsOver refs hash clocks.now (hash raw_token) events after h over) late

-- A successor has another id than the session that it supersedes, which keeps its row.
successor_other :
    (refs : References) (hash : ℕ → ℕ) (now id : ℕ) (next : InsertSessionInput) (t : Sessions)
    {row : SessionRecord}
    → find (is_active now id) t ≡ some row
    → constraints refs next (update (is_active now id) (revoked now) t) ≡ none
    → (next.hashed_id == id) ≡ false
successor_other refs hash now id next t {row} e f = elim (Bool-cases (next.hashed_id == id)) [
  | inr g ↦ g
  | inl g ↦
      let superseded = update (is_active now id) (revoked now) t in
      let (active, some_active) = find-some (is_active now id) t {x = row} e in
      let rows_before = count-le (is_active now id) (λ r. r.id == id) t (λ r. ground arith) in
      let rows_after : count (λ r. r.id == id) superseded ≡ count (λ r. r.id == id) t =
        count-update (is_active now id) (revoked now) (λ r. r.id == id) (λ r. r.id == id) t
          (λ r. elim (Bool-cases (is_active now id r)) [ inl k ↦ rw k refl | inr k ↦ rw k refl ]) in
      let unused : count (λ r. r.id == id) superseded ≡ 0 =
        subst (λ i. count (λ r. r.id == i) superseded ≡ 0) (==→eq next.hashed_id id g)
          (any-false (λ r. r.id == next.hashed_id) superseded (ground (arith, f))) in
      absurd (omega arith)
]

superseded-IsOver :
    (now id : ℕ) (t : Sessions) → IsOver now id (update (is_active now id) (revoked now) t)
superseded-IsOver now id t =
    count-update (is_active now id) (revoked now) (is_active now id) (λ r. false) t
      (λ r. elim (Bool-cases (is_active now id r)) [ inl e ↦ rw e (ground arith) | inr e ↦ rw e e ])
    ∙ count-none (λ r. false) t (λ r. refl)

rotated-IsOver :
    (refs : References) (hash : ℕ → ℕ) (clocks : Clocks) (raw_token next_raw_token : ℕ)
    (override : Option (Option ℕ)) (t : Sessions) {issued : IssuedSession}
    → (rotate refs hash clocks raw_token next_raw_token override t).0 ≡ ok (some issued)
    → IsOver clocks.now
        (hash raw_token)
        (rotate refs hash clocks raw_token next_raw_token override t).1
unfolding rotate rotate_atomically insert
rotated-IsOver refs hash clocks raw_token next_raw_token override t {issued} done =
    let id = hash raw_token in
    let superseded = update (is_active clocks.now id) (revoked clocks.now) t in
    elim (Option-cases (find (is_active clocks.now id) t)) [
      | inl e ↦ absurd (ground (arith, e, done))
      | inr (row, e) ↦
          let next = next_input refs hash clocks next_raw_token override (revoked clocks.now row) in
          elim (Option-cases (constraints refs next superseded)) [
            | inl f ↦
                rw (e, f)
                  (inserted-IsOver clocks.now clocks.now id next superseded
                    (successor_other refs hash clocks.now id next t {row = row} e f)
                    (superseded-IsOver clocks.now id t))
            | inr (x, f) ↦ absurd (ground (arith, e, f, done))
          ]
    ]

-- After a token is rotated with success, and whatever calls come later that make no token with its
-- hash, the token is refused: a session has one successor.
pub rotate_final :
    (refs : References) (hash : ℕ → ℕ) (clocks : Clocks) (raw_token next_raw_token : ℕ)
    (override : Option (Option ℕ)) (t : Sessions) {issued : IssuedSession} (events : List Event)
    (later : Clocks)
    → (rotate refs hash clocks raw_token next_raw_token override t).0 ≡ ok (some issued)
    → ComeAfter hash clocks.now (hash raw_token) events
    → clocks.now ≤ later.now
    → IsRefused refs hash later raw_token
        (run refs hash events (rotate refs hash clocks raw_token next_raw_token override t).1)
rotate_final refs hash clocks raw_token next_raw_token override t {issued} events later e h late =
    let after = (rotate refs hash clocks raw_token next_raw_token override t).1 in
    IsRefused-of refs hash clocks.now raw_token later (run refs hash events after)
      (run-IsOver refs hash clocks.now (hash raw_token) events after h
        (rotated-IsOver refs hash clocks raw_token next_raw_token override t {issued = issued} e))
      late
