-- ===== src/Identity/Sessions/Service.antt =====
-- application/session/session.service.ts and `pruneExpiredSessions` of infrastructure/maintenance.ts
-- in apps/api/src/modules/identity: issue, validate, rotate and revoke, and the sweep.
use slotnova.Base.{
  ℕ, ◌+◌, ◌*◌, Bool, true, false, not, ◌&&◌, ◌||◌, Option, none, some, ltb, ◌==◌, get_or,
}
use slotnova.Base.Lists.{any, filter}
use slotnova.Base.Outcome.{Result, err, ok}
use slotnova.Base.Rows.{take, sort_by}
use slotnova.Identity.Sessions.{
  SessionRecord, InsertSessionInput, Sessions, References, DatabaseError, Rotation, has_row, insert,
  find_active_by_hashed_id, touch_last_seen, revoke, rotate_atomically,
}

abbrev pub session_ttl_ms : ℕ
session_ttl_ms = 43200000

pub record IssueSessionInput : Type 0 where
  pub user_id : ℕ
  pub active_workspace_id : Option ℕ

pub record IssuedSession : Type 0 where
  pub raw_token : ℕ
  pub session : SessionRecord

-- The clocks of the database and of the server.
pub record Clocks : Type 0 where
  pub now : ℕ
  pub server : ℕ

-- The service. The function that hashes a token is a parameter, as is each fresh token.
module _ (refs : References) (hash_session_token : ℕ → ℕ) where
  abbrev pub issue_input : Clocks → ℕ → IssueSessionInput → InsertSessionInput
  issue_input clocks raw_token input = record {
    hashed_id = hash_session_token raw_token;
    user_id = input.user_id;
    active_workspace_id = input.active_workspace_id;
    expires_at = clocks.server + session_ttl_ms;
    rotated_from = none;
  }

  abbrev pub issued :
      ℕ
      → Sessions
      → Result DatabaseError (SessionRecord × Sessions)
      → Result DatabaseError IssuedSession × Sessions
  issued raw_token before (err e) = (err e, before)
  issued raw_token before (ok (session, after)) =
      (ok (record { raw_token = raw_token; session = session }), after)

  unfoldable pub issue :
      Clocks → ℕ → IssueSessionInput → Sessions → Result DatabaseError IssuedSession × Sessions
  issue clocks raw_token input sessions =
      issued raw_token sessions
        (insert refs clocks.now (issue_input clocks raw_token input) sessions)

  abbrev pub validated : ℕ → ℕ → Sessions → Option SessionRecord → Option SessionRecord × Sessions
  validated now id sessions none = (none, sessions)
  validated now id sessions (some session) = (some session, touch_last_seen now id sessions)

  unfoldable pub validate : Clocks → ℕ → Sessions → Option SessionRecord × Sessions
  validate clocks raw_token sessions =
      let id = hash_session_token raw_token in
      validated clocks.now id sessions (find_active_by_hashed_id clocks.now id sessions)

  -- The session that replaces another; an override is the new workspace, or NULL for none.
  abbrev pub next_input : Clocks → ℕ → Option (Option ℕ) → SessionRecord → InsertSessionInput
  next_input clocks next_raw_token override previous = record {
    hashed_id = hash_session_token next_raw_token;
    user_id = previous.user_id;
    active_workspace_id = get_or override previous.active_workspace_id;
    expires_at = clocks.server + session_ttl_ms;
    rotated_from = some previous.id;
  }

  abbrev pub rotated :
      ℕ → Result DatabaseError (Option Rotation) → Result DatabaseError (Option IssuedSession)
  rotated next_raw_token (err e) = err e
  rotated next_raw_token (ok none) = ok none
  rotated next_raw_token (ok (some r)) =
      ok (some (record { raw_token = next_raw_token; session = r.next }))

  unfoldable pub rotate :
      Clocks
      → ℕ
      → ℕ
      → Option (Option ℕ)
      → Sessions
      → Result DatabaseError (Option IssuedSession) × Sessions
  rotate clocks raw_token next_raw_token override sessions =
      let (result, after) =
        rotate_atomically refs clocks.now (hash_session_token raw_token)
          (next_input clocks next_raw_token override) sessions in
      (rotated next_raw_token result, after)

  unfoldable pub revoke_token : Clocks → ℕ → Sessions → Sessions
  revoke_token clocks raw_token sessions = revoke clocks.now (hash_session_token raw_token) sessions

abbrev pub day_ms : ℕ
day_ms = 86400000

abbrev pub is_before_days : ℕ → ℕ → ℕ → Bool
is_before_days days now instant = ltb (instant + days * day_ms) now

-- A child is a session that came of this one by rotation.
abbrev pub is_child_of : ℕ → SessionRecord → Bool
is_child_of id r = elim r.rotated_from [ none ↦ false | some parent ↦ parent == id ]

abbrev revoked_before : ℕ → ℕ → Option ℕ → Bool
revoked_before days now none = true
revoked_before days now (some instant) = is_before_days days now instant

abbrev pub is_prunable : ℕ → ℕ → Sessions → SessionRecord → Bool
is_prunable days now sessions r =
    is_before_days days now r.expires_at
    && (revoked_before days now r.revoked_at && not (any (is_child_of r.id) sessions))

-- `ORDER BY s.expires_at, s.id`.
abbrev pub expires_before : SessionRecord → SessionRecord → Bool
expires_before a b =
    ltb a.expires_at b.expires_at || ((a.expires_at == b.expires_at) && ltb a.id b.id)

-- `pruneExpiredSessions`, which skips the rows that other transactions have locked.
unfoldable pub expired : ℕ → ℕ → ℕ → (ℕ → Bool) → Sessions → Sessions
expired batch_size days now locked sessions = take batch_size (
    sort_by expires_before
      (filter (λ r. is_prunable days now sessions r && not (locked r.id)) sessions))

unfoldable pub prune_expired_sessions : ℕ → ℕ → ℕ → (ℕ → Bool) → Sessions → Sessions
prune_expired_sessions batch_size days now locked sessions =
    filter (λ s. not (has_row s.id (expired batch_size days now locked sessions))) sessions

-- One call of the service or of the sweep, and what it makes of the table.
pub data Call : Type 0 where
  issuing : ℕ → IssueSessionInput → Call
  validating revoking : ℕ → Call
  rotating : ℕ → ℕ → Option (Option ℕ) → Call
  pruning : ℕ → ℕ → (ℕ → Bool) → Call

unfoldable pub step : References → (ℕ → ℕ) → Clocks → Call → Sessions → Sessions
step refs hash clocks (issuing raw_token input) sessions =
    (issue refs hash clocks raw_token input sessions).1
step refs hash clocks (validating raw_token) sessions =
    (validate refs hash clocks raw_token sessions).1
step refs hash clocks (revoking raw_token) sessions =
    revoke_token refs hash clocks raw_token sessions
step refs hash clocks (rotating raw_token next_raw_token override) sessions =
    (rotate refs hash clocks raw_token next_raw_token override sessions).1
step refs hash clocks (pruning batch_size days locked) sessions =
    prune_expired_sessions batch_size days clocks.now locked sessions
