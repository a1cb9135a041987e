-- ===== src/Identity/Sessions.antt =====
-- The sessions of apps/api/src/modules/identity: the table `sessions` of migration
-- packages/db/migrations/0002_identity.sql and infrastructure/repositories/sessions.repository.ts.
-- Ids and tokens are numbers, since they are only compared; times are milliseconds. The client's
-- hint is left out: no statement reads it. The order of the rows means nothing.
pub mod Service
pub mod Chains
pub mod Endings
pub mod Conservation
mod Tests
use slotnova.Base.{
  ℕ, ◌+◌, ◌*◌, Bool, true, false, not, ◌&&◌, ◌||◌, Option, none, some, List, [], ◌∷◌, map, ltb, leb,
  ◌==◌, if◌then◌else◌, is_some, get_or,
}
use slotnova.Base.Lists.{any, filter}
use slotnova.Base.Outcome.{Result, err, ok}
use slotnova.Base.Rows.{find, update, take, sort_by}

pub record SessionRecord : Type 0 where
  pub id : ℕ
  pub user_id : ℕ
  pub active_workspace_id : Option ℕ
  pub created_at : ℕ
  pub last_seen_at : ℕ
  pub expires_at : ℕ
  pub revoked_at : Option ℕ
  pub rotated_from : Option ℕ

pub record InsertSessionInput : Type 0 where
  pub hashed_id : ℕ
  pub user_id : ℕ
  pub active_workspace_id : Option ℕ
  pub expires_at : ℕ
  pub rotated_from : Option ℕ

abbrev pub Sessions : Type 0
Sessions = List SessionRecord

-- The rows of other tables that a session may refer to.
pub record References : Type 0 where
  pub has_user : ℕ → Bool
  pub has_workspace : ℕ → Bool

pub data DatabaseError : Type 0 where
  unique_violation foreign_key_violation : DatabaseError

-- A foreign key, which a NULL satisfies.
abbrev pub refers : (ℕ → Bool) → Option ℕ → Bool
refers has none = true
refers has (some id) = has id

abbrev pub has_row : ℕ → Sessions → Bool
has_row id = any (λ r. r.id == id)

-- The constraints of the table: the primary key and the references.
abbrev pub constraints : References → InsertSessionInput → Sessions → Option DatabaseError
constraints refs input sessions =
    if has_row input.hashed_id sessions
    then some unique_violation
    else (if refs.has_user input.user_id
          && (refers refs.has_workspace input.active_workspace_id
              && refers (λ id. has_row id sessions) input.rotated_from)
        then none
        else some foreign_key_violation)

abbrev pub inserted_row : ℕ → InsertSessionInput → SessionRecord
inserted_row now input = record {
  id = input.hashed_id;
  user_id = input.user_id;
  active_workspace_id = input.active_workspace_id;
  created_at = now;
  last_seen_at = now;
  expires_at = input.expires_at;
  revoked_at = none;
  rotated_from = input.rotated_from;
}

-- `insert`: the row and the table that has it.
abbrev inserted :
    ℕ
    → InsertSessionInput
    → Sessions
    → Option DatabaseError
    → Result DatabaseError (SessionRecord × Sessions)
inserted now input sessions (some e) = err e
inserted now input sessions none = ok (inserted_row now input, inserted_row now input ∷ sessions)

unfoldable pub insert :
    References → ℕ → InsertSessionInput → Sessions → Result DatabaseError (SessionRecord × Sessions)
insert refs now input sessions = inserted now input sessions (constraints refs input sessions)

-- `id = $1 AND revoked_at IS NULL AND expires_at > now()`.
abbrev pub is_active : ℕ → ℕ → SessionRecord → Bool
is_active now id r = (r.id == id) && (not (is_some r.revoked_at) && ltb now r.expires_at)

unfoldable pub find_active_by_hashed_id : ℕ → ℕ → Sessions → Option SessionRecord
find_active_by_hashed_id now id sessions = find (is_active now id) sessions

abbrev pub touched : ℕ → SessionRecord → SessionRecord
touched now r = record {
  id = r.id;
  user_id = r.user_id;
  active_workspace_id = r.active_workspace_id;
  created_at = r.created_at;
  last_seen_at = now;
  expires_at = r.expires_at;
  revoked_at = r.revoked_at;
  rotated_from = r.rotated_from;
}

abbrev pub revoked : ℕ → SessionRecord → SessionRecord
revoked now r = record {
  id = r.id;
  user_id = r.user_id;
  active_workspace_id = r.active_workspace_id;
  created_at = r.created_at;
  last_seen_at = r.last_seen_at;
  expires_at = r.expires_at;
  revoked_at = some now;
  rotated_from = r.rotated_from;
}

unfoldable pub touch_last_seen : ℕ → ℕ → Sessions → Sessions
touch_last_seen now id sessions = update (λ r. r.id == id) (touched now) sessions

abbrev pub is_unrevoked : ℕ → SessionRecord → Bool
is_unrevoked id r = (r.id == id) && not (is_some r.revoked_at)

unfoldable pub revoke : ℕ → ℕ → Sessions → Sessions
revoke now id sessions = update (is_unrevoked id) (revoked now) sessions

-- A rotation's answer: the two sessions, or none when there was no active session.
pub record Rotation : Type 0 where
  pub previous : SessionRecord
  pub next : SessionRecord

-- The end of the transaction: COMMIT after the insert, ROLLBACK when it fails.
abbrev pub end_rotation :
    SessionRecord
    → Sessions
    → Result DatabaseError (SessionRecord × Sessions)
    → Result DatabaseError (Option Rotation) × Sessions
end_rotation previous before (err e) = (err e, before)
end_rotation previous before (ok (next, after)) =
    (ok (some (record { previous = previous; next = next })), after)

abbrev pub rotate_found :
    References
    → ℕ
    → ℕ
    → (SessionRecord → InsertSessionInput)
    → Sessions
    → Option SessionRecord
    → Result DatabaseError (Option Rotation) × Sessions
rotate_found refs now id build_next sessions none = (ok none, sessions)
rotate_found refs now id build_next sessions (some row) =
    let superseded = update (is_active now id) (revoked now) sessions in
    end_rotation (revoked now row) sessions
      (insert refs now (build_next (revoked now row)) superseded)

unfoldable pub rotate_atomically :
    References
    → ℕ
    → ℕ
    → (SessionRecord → InsertSessionInput)
    → Sessions
    → Result DatabaseError (Option Rotation) × Sessions
rotate_atomically refs now id build_next sessions =
    rotate_found refs now id build_next sessions (find (is_active now id) sessions)
