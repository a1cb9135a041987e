-- ===== src/Identity/Sessions/Conservation.antt =====
-- A rotation neither adds a session nor takes one away.
use slotnova.Base.{
  ℕ, ◌+◌, ◌<◌, ◌≡◌, refl, ◌∙◌, inl, inr, Bool, not, ◌&&◌, Option, some, ◌∷◌, ltb, ◌==◌,
  if◌then◌else◌, is_some, Bool-cases, Option-cases, lt→ltb, arith,
}
use slotnova.Base.Rows.{tally, find, update, count, count-le, count-update, count-sum, count-find}
use slotnova.Identity.Sessions.{
  SessionRecord, InsertSessionInput, Sessions, References, constraints, inserted_row, insert,
  is_active, revoked, rotate_atomically,
}
use slotnova.Identity.Sessions.Service.{Clocks, rotate, next_input}
use slotnova.Identity.Sessions.Service.{session_ttl_ms}
use slotnova.Identity.Sessions.Chains.{IsChained}

-- The user's sessions that are active at the time.
abbrev pub is_live : ℕ → ℕ → SessionRecord → Bool
is_live now user r = (r.user_id == user) && (not (is_some r.revoked_at) && ltb now r.expires_at)

abbrev pub live_sessions : ℕ → ℕ → Sessions → ℕ
live_sessions now user = count (is_live now user)

superseded-live :
    (now id user : ℕ) (t : Sessions) {row : SessionRecord}
    → find (is_active now id) t ≡ some row
    → IsChained t
    → live_sessions now user t
      ≡ live_sessions now user (update (is_active now id) (revoked now) t)
        + tally (row.user_id == user)
superseded-live now id user t {row} e h =
    let few = count-le (is_active now id) (λ r. r.id == id) t (λ r. ground arith) in
    let one = (h id).0 in
    let its = count-find (is_active now id) (λ r. r.user_id == user) t {x = row} e (omega arith) in
    let both =
      count-sum (is_live now user)
        (λ r. is_live now user (if is_active now id r then revoked now r else r))
        (λ r. is_active now id r && (r.user_id == user)) t
        (λ r. elim (Bool-cases (is_active now id r)) [
          | inl f ↦ rw f (ground (arith, f))
          | inr f ↦ rw f (omega arith)
        ]) in
    rw
      (count-update (is_active now id) (revoked now) (is_live now user)
        (λ r. is_live now user (if is_active now id r then revoked now r else r)) t (λ r. refl))
      (omega arith)

inserted-live :
    (now user : ℕ) (input : InsertSessionInput) (t : Sessions)
    → now < input.expires_at
    → live_sessions now user (inserted_row now input ∷ t)
      ≡ tally (input.user_id == user) + live_sessions now user t
unfolding count
inserted-live now user input t young =
    rw (lt→ltb now input.expires_at young)
      (elim (Bool-cases (input.user_id == user)) [ inl e ↦ rw e refl | inr e ↦ rw e refl ])

-- In a table with proper chains, and when the lifetime of a new session has not passed already at
-- the database's time, every user has as many active sessions after a rotation as before it,
-- whether it succeeds, fails in the database or finds no session.
pub live_sessions-rotate :
    (refs : References) (hash : ℕ → ℕ) (clocks : Clocks) (raw_token next_raw_token user : ℕ)
    (override : Option (Option ℕ)) (t : Sessions)
    → IsChained t
    → clocks.now < clocks.server + session_ttl_ms
    → live_sessions clocks.now user (rotate refs hash clocks raw_token next_raw_token override t).1
      ≡ live_sessions clocks.now user t
unfolding rotate rotate_atomically insert
live_sessions-rotate refs hash clocks raw_token next_raw_token user override t h young =
    let id = hash raw_token in
    let superseded = update (is_active clocks.now id) (revoked clocks.now) t in
    elim (Option-cases (find (is_active clocks.now id) t)) [
      | inl e ↦ rw e refl
      | inr (row, e) ↦
          let next = next_input refs hash clocks next_raw_token override (revoked clocks.now row) in
          elim (Option-cases (constraints refs next superseded)) [
            | inl f ↦
                rw (e, f)
                  (inserted-live clocks.now user next superseded young
                    ∙ omega (arith, superseded-live clocks.now id user t {row = row} e h))
            | inr (x, f) ↦ rw (e, f) refl
          ]
    ]
