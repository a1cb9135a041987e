-- ===== src/Identity/Access/Tests.antt =====
-- Runs of the guard: the user 3, who may invite members in the workspace 5.
use Prim.Native.String.{String}
use slotnova.Base.{ℕ, ◌+◌, ◌≡◌, refl, Bool, true, false, Option, none, some, List, [], ◌∷◌}
use slotnova.Base.Outcome.{err, ok}
use slotnova.Base.Rows.{find, sort_by, insert_by}
use slotnova.Identity.Invitations.{InvitableRole, invited}
use slotnova.Identity.Sessions.{SessionRecord, References, find_active_by_hashed_id}
use slotnova.Identity.Sessions.Service.{Clocks, validate}
use slotnova.Identity.Directory.{
  UserRecord, Directory, find_by_id, views, list_active_memberships_for_user, resolve_verified_user,
  find_by_external_ref, find_by_email,
}
use slotnova.Identity.Access.{GuardProblem, RequestWorkspaceContext, build, authorize, can_activate}
use slotnova.Identity.Access.Guarded.{Entitlement, can_activate-Entitlement}

abbrev refs : References
refs = record { has_user = λ u. true; has_workspace = λ w. true }

abbrev hash : ℕ → ℕ
hash token = token + 100

abbrev clocks : Clocks
clocks = record { now = 2000; server = 2000 }

abbrev session : SessionRecord
session = record {
  id = 107;
  user_id = 3;
  active_workspace_id = some 5;
  created_at = 1000;
  last_seen_at = 1000;
  expires_at = 43201000;
  revoked_at = none;
  rotated_from = none;
}

abbrev user : UserRecord
user = record { id = 3; external_ref = none; email = 30; display_name = 31; disabled = false }

abbrev directory : Bool → Directory
directory active = record {
  users = user ∷ [];
  workspaces = record { id = 5; name = 50; active = active } ∷ [];
  memberships =
      record {
        id = 12;
        workspace_id = 5;
        user_id = 3;
        role = invited InvitableRole.admin;
        permissions = "members:invite" ∷ [];
        active = true;
      }
      ∷ [];
}

abbrev context : RequestWorkspaceContext
context = record { workspace_id = 5; user_id = 3 }

abbrev invite : Option (List String)
invite = some ("members:invite" ∷ [])

can_activate_passes :
    (can_activate refs hash clocks (directory true) invite (some 7) (session ∷ [])).0
    ≡ ok (some context)
unfolding can_activate validate find_active_by_hashed_id find build find_by_id
    list_active_memberships_for_user views sort_by insert_by authorize
can_activate_passes = refl

-- Of two capabilities the second is missing.
can_activate_missing :
    (can_activate refs hash clocks
      (directory true)
      (some ("members:invite" ∷ "members:manage" ∷ []))
      (some 7)
      (session ∷ [])).0
    ≡ err (GuardProblem.forbidden (some "members:manage"))
unfolding can_activate validate find_active_by_hashed_id find build find_by_id
    list_active_memberships_for_user views sort_by insert_by authorize
can_activate_missing = refl

-- The workspace is suspended.
can_activate_suspended :
    (can_activate refs hash clocks (directory false) invite (some 7) (session ∷ [])).0
    ≡ err GuardProblem.session_invalid
unfolding can_activate validate find_active_by_hashed_id find build find_by_id
    list_active_memberships_for_user views sort_by insert_by authorize
can_activate_suspended = refl

-- A user whose identity is linked is not linked again.
resolve_verified_user_linked :
    (resolve_verified_user
      (record { external_ref = 9; email = 30 })
      (record { id = 3; external_ref = some 8; email = 30; display_name = 31; disabled = false }
        ∷ [])).0
    ≡ none
unfolding resolve_verified_user find_by_external_ref find_by_email find
resolve_verified_user_linked = refl

can_activate-Entitlement_example :
    (raw_token : ℕ) × (s : SessionRecord) × (some 7 ≡ some raw_token)
    × (find_active_by_hashed_id 2000 (hash raw_token) (session ∷ []) ≡ some s)
    × Entitlement (directory true) ("members:invite" ∷ []) s context
unfolding can_activate validate find_active_by_hashed_id find build find_by_id
    list_active_memberships_for_user views sort_by insert_by authorize
can_activate-Entitlement_example =
    can_activate-Entitlement refs hash clocks (directory true) "members:invite" [] (some 7)
      (session ∷ []) {context = context} refl
