-- ===== src/Identity/Directory.antt =====
-- Users and their memberships, as sessions are built on them: users.repository.ts and
-- memberships.repository.ts of apps/api/src/modules/identity/infrastructure/repositories, and
-- application/session/resolve-verified-user.ts. A user's external reference and email are numbers,
-- the email standing for its text in lower case; the names that rows are ordered by are numbers too.
use Prim.Native.String.{String}
use slotnova.Base.{
  ℕ, Bool, false, not, ◌&&◌, Option, none, some, List, [], ◌∷◌, ltb, ◌==◌, if◌then◌else◌, is_some,
}
use slotnova.Base.Rows.{find, update, sort_by}
use slotnova.Identity.Invitations.{MembershipRole}

pub record UserRecord : Type 0 where
  pub id : ℕ
  pub external_ref : Option ℕ
  pub email : ℕ
  pub display_name : ℕ
  pub disabled : Bool

pub record Workspace : Type 0 where
  pub id : ℕ
  pub name : ℕ
  pub active : Bool

pub record MembershipRow : Type 0 where
  pub id : ℕ
  pub workspace_id : ℕ
  pub user_id : ℕ
  pub role : MembershipRole
  pub permissions : List String
  pub active : Bool

pub record Directory : Type 0 where
  pub users : List UserRecord
  pub workspaces : List Workspace
  pub memberships : List MembershipRow

abbrev equals : Option ℕ → ℕ → Bool
equals none n = false
equals (some m) n = m == n

unfoldable pub find_by_external_ref : ℕ → List UserRecord → Option UserRecord
find_by_external_ref external_ref users = find (λ u. equals u.external_ref external_ref) users

unfoldable pub find_by_email : ℕ → List UserRecord → Option UserRecord
find_by_email email users = find (λ u. u.email == email) users

unfoldable pub find_by_id : ℕ → List UserRecord → Option UserRecord
find_by_id id users = find (λ u. u.id == id) users

abbrev linked : ℕ → UserRecord → UserRecord
linked external_ref u = record {
  id = u.id;
  external_ref = some external_ref;
  email = u.email;
  display_name = u.display_name;
  disabled = u.disabled;
}

unfoldable pub link_external_ref : ℕ → ℕ → List UserRecord → List UserRecord
link_external_ref id external_ref users =
    update (λ u. (u.id == id) && not (is_some u.external_ref)) (linked external_ref) users

-- What the credential adapter has verified.
pub record CredentialAdapterResult : Type 0 where
  pub external_ref : ℕ
  pub email : ℕ

abbrev resolved_by_email :
    CredentialAdapterResult
    → List UserRecord
    → Option UserRecord
    → Option UserRecord × List UserRecord
resolved_by_email verified users none = (none, users)
resolved_by_email verified users (some u) =
    if is_some u.external_ref
    then (none, users)
    else (some (linked verified.external_ref u), link_external_ref u.id verified.external_ref users)

abbrev resolved :
    CredentialAdapterResult
    → List UserRecord
    → Option UserRecord
    → Option UserRecord × List UserRecord
resolved verified users (some u) = (some u, users)
resolved verified users none = resolved_by_email verified users (find_by_email verified.email users)

-- `resolveVerifiedUser`: a link to another identity is never replaced.
unfoldable pub resolve_verified_user :
    CredentialAdapterResult → List UserRecord → Option UserRecord × List UserRecord
resolve_verified_user verified users =
    resolved verified users (find_by_external_ref verified.external_ref users)

pub record ActiveMembershipView : Type 0 where
  pub membership_id : ℕ
  pub workspace_id : ℕ
  pub workspace_name : ℕ
  pub role : MembershipRole
  pub permissions : List String

abbrev pub view_of : MembershipRow → Workspace → ActiveMembershipView
view_of m w = record {
  membership_id = m.id;
  workspace_id = m.workspace_id;
  workspace_name = w.name;
  role = m.role;
  permissions = m.permissions;
}

abbrev pub with_view :
    MembershipRow → Option Workspace → List ActiveMembershipView → List ActiveMembershipView
with_view m none views = views
with_view m (some w) views = view_of m w ∷ views

abbrev pub is_active_workspace : ℕ → Workspace → Bool
is_active_workspace id w = (w.id == id) && w.active

-- The join of the user's active memberships with the active workspaces.
unfoldable pub views : ℕ → List Workspace → List MembershipRow → List ActiveMembershipView
views user_id workspaces [] = []
views user_id workspaces (m ∷ ms) =
    let rest = views user_id workspaces ms in
    let with_it = with_view m (find (is_active_workspace m.workspace_id) workspaces) rest in
    if (m.user_id == user_id) && m.active then with_it else rest

abbrev pub name_before : ActiveMembershipView → ActiveMembershipView → Bool
name_before a b = ltb a.workspace_name b.workspace_name

unfoldable pub list_active_memberships_for_user : ℕ → Directory → List ActiveMembershipView
list_active_memberships_for_user user_id d =
    sort_by name_before (views user_id d.workspaces d.memberships)
