-- ===== src/Identity/SignIn.antt =====
-- Signing in and switching the workspace, of apps/api/src/modules/identity: sign-in.use-case.ts of
-- application/session, `switchWorkspace` of http/workspace-context.controller.ts with its query in
-- memberships.repository.ts. What the credential adapter verifies is a parameter; the cookies that
-- are set are left out.
pub mod Switching
mod Tests
use Prim.Native.String.{String}
use slotnova.Base.{
  ℕ, Bool, true, false, not, ◌&&◌, ◌||◌, Option, none, some, List, [], ◌∷◌, map, ◌==◌,
  if◌then◌else◌,
}
use slotnova.Base.Outcome.{Result, err, ok}
use slotnova.Base.Rows.{find}
use slotnova.Identity.Invitations.{MembershipRole}
use slotnova.Identity.Sessions.{SessionRecord, Sessions, References, DatabaseError}
use slotnova.Identity.Sessions.Service.{Clocks, IssueSessionInput, IssuedSession, issue, rotate}
use slotnova.Identity.Directory.{
  UserRecord, Workspace, MembershipRow, Directory, CredentialAdapterResult, resolve_verified_user,
  list_active_memberships_for_user,
}
use slotnova.Identity.Access.{
  WorkspaceMembershipSummary, to_workspace_summary, SessionContext, build, session_of,
}

pub record OwnMembershipInWorkspace : Type 0 where
  pub membership_id : ℕ
  pub workspace_id : ℕ
  pub role : MembershipRole
  pub permissions : List String
  pub membership_active : Bool
  pub workspace_active : Bool

abbrev pub own_membership : MembershipRow → Option Workspace → Option OwnMembershipInWorkspace
own_membership m none = none
own_membership m (some w) = some (record {
  membership_id = m.id;
  workspace_id = m.workspace_id;
  role = m.role;
  permissions = m.permissions;
  membership_active = m.active;
  workspace_active = w.active;
})

abbrev pub joined_membership :
    List Workspace → Option MembershipRow → Option OwnMembershipInWorkspace
joined_membership workspaces none = none
joined_membership workspaces (some m) =
    own_membership m (find (λ w. w.id == m.workspace_id) workspaces)

-- `findOwnMembershipInWorkspace`, whatever the statuses are.
unfoldable pub find_own_membership_in_workspace :
    ℕ → ℕ → Directory → Option OwnMembershipInWorkspace
find_own_membership_in_workspace user_id workspace_id d =
    joined_membership d.workspaces
      (find (λ m. (m.user_id == user_id) && (m.workspace_id == workspace_id)) d.memberships)

pub data SwitchProblem : Type 0 where
  session_invalid not_a_member workspace_unavailable : SwitchProblem
  database : DatabaseError → SwitchProblem

pub record Switched : Type 0 where
  pub issued : IssuedSession
  pub context : SessionContext

module _ (refs : References) (hash_session_token : ℕ → ℕ) where
  -- The answer after a rotation, which has happened whatever the answer is.
  abbrev pub with_context : IssuedSession → Option SessionContext → Result SwitchProblem Switched
  with_context issued none = err session_invalid
  with_context issued (some context) = ok (record { issued = issued; context = context })

  abbrev pub after_rotation :
      Directory → Result DatabaseError (Option IssuedSession) → Result SwitchProblem Switched
  after_rotation d (err e) = err (database e)
  after_rotation d (ok none) = err session_invalid
  after_rotation d (ok (some issued)) = with_context issued (build issued.session d)

  abbrev pub switch_to :
      Clocks
      → Directory
      → ℕ
      → ℕ
      → Option OwnMembershipInWorkspace
      → Sessions
      → Result SwitchProblem Switched × Sessions
  switch_to clocks d raw_token next_raw_token none sessions = (err not_a_member, sessions)
  switch_to clocks d raw_token next_raw_token (some target) sessions =
      let (result, after) =
        rotate refs hash_session_token clocks raw_token next_raw_token
          (some (some target.workspace_id)) sessions in
      if not target.membership_active || not target.workspace_active
      then (err workspace_unavailable, sessions)
      else (after_rotation d result, after)

  abbrev pub switch_session :
      Clocks
      → Directory
      → ℕ
      → ℕ
      → ℕ
      → Option SessionRecord
      → Sessions
      → Result SwitchProblem Switched × Sessions
  switch_session clocks d raw_token next_raw_token workspace_id none sessions =
      (err session_invalid, sessions)
  switch_session clocks d raw_token next_raw_token workspace_id (some session) sessions =
      switch_to clocks d raw_token next_raw_token
        (find_own_membership_in_workspace session.user_id workspace_id d) sessions

  -- `switchWorkspace`, given the fresh token.
  unfoldable pub switch_workspace :
      Clocks → Directory → Option ℕ → ℕ → ℕ → Sessions → Result SwitchProblem Switched × Sessions
  switch_workspace clocks d none next_raw_token workspace_id sessions =
      (err session_invalid, sessions)
  switch_workspace clocks d (some raw_token) next_raw_token workspace_id sessions =
      let (session, found) = session_of refs hash_session_token clocks (some raw_token) sessions in
      switch_session clocks d raw_token next_raw_token workspace_id session found

-- A user who has just one workspace is signed in to it.
abbrev only_workspace : List WorkspaceMembershipSummary → Option WorkspaceMembershipSummary
only_workspace (w ∷ []) = some w
only_workspace _ = none

abbrev workspace_id_of : Option WorkspaceMembershipSummary → Option ℕ
workspace_id_of none = none
workspace_id_of (some w) = some w.id

pub record SignedInResult : Type 0 where
  pub raw_token : ℕ
  pub user : UserRecord
  pub active_workspace : Option WorkspaceMembershipSummary
  pub workspaces : List WorkspaceMembershipSummary

pub data SignInOutcome : Type 0 where
  signed_in : SignedInResult → SignInOutcome
  invalid_credentials user_disabled : SignInOutcome

-- The users and the sessions, which signing in changes.
pub record Accounts : Type 0 where
  pub users : List UserRecord
  pub sessions : Sessions

abbrev signed_in_user :
    UserRecord
    → List WorkspaceMembershipSummary
    → Result DatabaseError IssuedSession
    → Result DatabaseError SignInOutcome
signed_in_user user workspaces (err e) = err e
signed_in_user user workspaces (ok issued) = ok (
    signed_in (record {
      raw_token = issued.raw_token;
      user = user;
      active_workspace = only_workspace workspaces;
      workspaces = workspaces;
    }))

module _ (refs : References) (hash_session_token : ℕ → ℕ) where
  abbrev sign_in_resolved :
      Clocks
      → ℕ
      → Directory
      → Option UserRecord
      → Sessions
      → Result DatabaseError SignInOutcome × Sessions
  sign_in_resolved clocks raw_token d none sessions = (ok invalid_credentials, sessions)
  sign_in_resolved clocks raw_token d (some user) sessions =
      let workspaces = map to_workspace_summary (list_active_memberships_for_user user.id d) in
      let (issued, after) =
        issue refs hash_session_token clocks raw_token
          (record {
            user_id = user.id;
            active_workspace_id = workspace_id_of (only_workspace workspaces);
          })
          sessions in
      if user.disabled
      then (ok user_disabled, sessions)
      else (signed_in_user user workspaces issued, after)

  -- `SignInUseCase.execute`, given what the adapter has verified and the fresh token: the outcome,
  -- the users and the sessions.
  unfoldable pub sign_in :
      Clocks
      → ℕ
      → Option CredentialAdapterResult
      → Directory
      → Sessions
      → Result DatabaseError SignInOutcome × Accounts
  sign_in clocks raw_token none d sessions =
      (ok invalid_credentials, record { users = d.users; sessions = sessions })
  sign_in clocks raw_token (some verified) d sessions =
      let (user, users) = resolve_verified_user verified d.users in
      let (outcome, after) = sign_in_resolved clocks raw_token d user sessions in
      (outcome, record { users = users; sessions = after })
