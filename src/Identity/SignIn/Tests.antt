-- ===== src/Identity/SignIn/Tests.antt =====
-- Runs of signing in and of switching the workspace: user 3, a member of the workspaces 5 and 6.
use slotnova.Base.{ℕ, ◌+◌, ◌≡◌, refl, Bool, true, false, Option, none, some, List, [], ◌∷◌, arith}
use slotnova.Base.Outcome.{err, ok}
use slotnova.Base.Rows.{find, update, sort_by, insert_by}
use slotnova.Identity.Invitations.{InvitableRole, invited}
use slotnova.Identity.Sessions.{
  SessionRecord, Sessions, References, find_active_by_hashed_id, touch_last_seen, insert,
  rotate_atomically,
}
use slotnova.Identity.Sessions.Service.{Clocks, rotating, validate, rotate, issue}
use slotnova.Identity.Sessions.Endings.{Event, run, IsRefused}
use slotnova.Identity.Directory.{
  UserRecord, MembershipRow, Directory, find_by_id, views, list_active_memberships_for_user,
  CredentialAdapterResult, resolve_verified_user, link_external_ref, find_by_external_ref,
  find_by_email,
}
use slotnova.Identity.Access.{build}
use slotnova.Identity.SignIn.{
  SwitchProblem, Switched, find_own_membership_in_workspace, switch_workspace, SignInOutcome,
  sign_in,
}
use slotnova.Identity.SignIn.Switching.{switch_workspace_final}

abbrev refs : References
refs = record { has_user = λ u. true; has_workspace = λ w. true }

abbrev hash : ℕ → ℕ
hash token = token + 100

abbrev clocks : Clocks
clocks = record { now = 2000; server = 2000 }

abbrev later : Clocks
later = record { now = 3000; server = 3000 }

abbrev session : ℕ → ℕ → Option ℕ → SessionRecord
session id workspace_id rotated_from = record {
  id = id;
  user_id = 3;
  active_workspace_id = some workspace_id;
  created_at = 2000;
  last_seen_at = 2000;
  expires_at = 43202000;
  revoked_at = none;
  rotated_from = rotated_from;
}

abbrev sessions : Sessions
sessions = session 107 5 none ∷ []

abbrev user : UserRecord
user = record { id = 3; external_ref = none; email = 30; display_name = 31; disabled = false }

abbrev member : ℕ → ℕ → MembershipRow
member id workspace_id = record {
  id = id;
  workspace_id = workspace_id;
  user_id = 3;
  role = invited InvitableRole.admin;
  permissions = [];
  active = true;
}

-- The workspace 6 may be suspended.
abbrev directory : Bool → Directory
directory active = record {
  users = user ∷ [];
  workspaces =
      record { id = 5; name = 50; active = true }
      ∷ record { id = 6; name = 60; active = active }
      ∷ [];
  memberships = member 12 5 ∷ member 13 6 ∷ [];
}

-- The workspace 9 has no member 3.
switch_stranger :
    (switch_workspace refs hash clocks (directory true) (some 7) 8 9 sessions).0
    ≡ err SwitchProblem.not_a_member
unfolding switch_workspace validate find_active_by_hashed_id touch_last_seen find update
    find_own_membership_in_workspace
switch_stranger = refl

-- A suspended workspace is refused, and the session goes on.
switch_suspended :
    switch_workspace refs hash clocks (directory false) (some 7) 8 6 sessions
    ≡ (err SwitchProblem.workspace_unavailable, sessions)
unfolding switch_workspace validate find_active_by_hashed_id touch_last_seen find update
    find_own_membership_in_workspace
switch_suspended = refl

abbrev events : List Event
events = record { clocks = clocks; call = rotating 8 9 none } ∷ []

abbrev switched : Switched
switched = record {
  issued = record { raw_token = 8; session = session 108 6 (some 107) };
  context = record {
    user = user;
    active_workspace =
        some (record { id = 6; name = 60; role = invited InvitableRole.admin; permissions = [] });
    workspaces =
        record { id = 5; name = 50; role = invited InvitableRole.admin }
        ∷ record { id = 6; name = 60; role = invited InvitableRole.admin }
        ∷ [];
    session_expires_at = 43202000;
  };
}

switch_once :
    (switch_workspace refs hash clocks (directory true) (some 7) 8 6 sessions).0 ≡ ok switched
unfolding switch_workspace validate find_active_by_hashed_id touch_last_seen find update
    find_own_membership_in_workspace build find_by_id list_active_memberships_for_user views sort_by
    insert_by rotate rotate_atomically insert
switch_once = refl

switch_workspace_final_example :
    (switched.issued.session.active_workspace_id ≡ some 6)
    × (build switched.issued.session (directory true) ≡ some switched.context)
    × IsRefused refs hash later 7 (
        run refs hash events
          (switch_workspace refs hash clocks (directory true) (some 7) 8 6 sessions).1)
switch_workspace_final_example =
    switch_workspace_final refs hash clocks later (directory true) 7 8 6 sessions events
      {s = switched} ((omega arith, refl), tt) (omega arith) switch_once

abbrev verified : CredentialAdapterResult
verified = record { external_ref = 40; email = 30 }

-- A user of two workspaces is signed in to none of them.
signed_in_twice :
    (sign_in refs hash clocks 7 (some verified) (directory true) []).1.sessions
    ≡ record {
      id = 107;
      user_id = 3;
      active_workspace_id = none;
      created_at = 2000;
      last_seen_at = 2000;
      expires_at = 43202000;
      revoked_at = none;
      rotated_from = none;
    }
      ∷ []
unfolding sign_in resolve_verified_user find_by_external_ref find_by_email link_external_ref find
    update list_active_memberships_for_user views sort_by insert_by issue insert
signed_in_twice = refl

sign_in_unverified :
    (sign_in refs hash clocks 7 none (directory true) sessions).0
    ≡ ok SignInOutcome.invalid_credentials
unfolding sign_in
sign_in_unverified = refl
