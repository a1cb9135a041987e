-- ===== src/Identity/Access.antt =====
-- Who may call a gated route, of apps/api/src/modules/identity: session-context.service.ts of
-- application/session, and authorize.ts and capability.guard.ts of domain/policy.
pub mod Guarded
mod Tests
use Prim.Native.String.{String}
use text.Mathlib.Text
use slotnova.Base.{
  ℕ, Bool, true, false, not, ◌&&◌, Option, none, some, List, [], ◌∷◌, map, ◌==◌, if◌then◌else◌,
}
use slotnova.Base.Lists.{any}
use slotnova.Base.Outcome.{Result, err, ok}
use slotnova.Base.Rows.{find}
use slotnova.Identity.Invitations.{MembershipRole}
use slotnova.Identity.Sessions.{SessionRecord, Sessions, References, DatabaseError}
use slotnova.Identity.Sessions.Service.{Clocks, IssueSessionInput, IssuedSession, issue, validate}
use slotnova.Identity.Directory.{
  UserRecord, Directory, CredentialAdapterResult, ActiveMembershipView, find_by_id,
  resolve_verified_user, list_active_memberships_for_user,
}

pub record WorkspaceMembershipSummary : Type 0 where
  pub id : ℕ
  pub name : ℕ
  pub role : MembershipRole

abbrev pub to_workspace_summary : ActiveMembershipView → WorkspaceMembershipSummary
to_workspace_summary view = record {
  id = view.workspace_id;
  name = view.workspace_name;
  role = view.role;
}

pub record ActiveWorkspaceContext : Type 0 where
  pub id : ℕ
  pub name : ℕ
  pub role : MembershipRole
  pub permissions : List String

pub record SessionContext : Type 0 where
  pub user : UserRecord
  pub active_workspace : Option ActiveWorkspaceContext
  pub workspaces : List WorkspaceMembershipSummary
  pub session_expires_at : ℕ

abbrev pub context_of :
    SessionRecord
    → UserRecord
    → List ActiveMembershipView
    → Option ActiveWorkspaceContext
    → SessionContext
context_of session user memberships active_workspace = record {
  user = user;
  active_workspace = active_workspace;
  workspaces = map to_workspace_summary memberships;
  session_expires_at = session.expires_at;
}

abbrev pub active_context : ActiveMembershipView → ActiveWorkspaceContext
active_context view = record {
  id = view.workspace_id;
  name = view.workspace_name;
  role = view.role;
  permissions = view.permissions;
}

-- A session whose workspace is not one of the user's any more has no context.
abbrev pub build_view :
    SessionRecord
    → UserRecord
    → List ActiveMembershipView
    → Option ActiveMembershipView
    → Option SessionContext
build_view session user memberships none = none
build_view session user memberships (some view) =
    some (context_of session user memberships (some (active_context view)))

abbrev pub build_workspace :
    SessionRecord → UserRecord → List ActiveMembershipView → Option ℕ → Option SessionContext
build_workspace session user memberships none = some (context_of session user memberships none)
build_workspace session user memberships (some id) =
    build_view session user memberships (find (λ view. view.workspace_id == id) memberships)

abbrev pub build_user : SessionRecord → Directory → Option UserRecord → Option SessionContext
build_user session d none = none
build_user session d (some user) =
    let memberships = list_active_memberships_for_user user.id d in
    if user.disabled
    then none
    else build_workspace session user memberships session.active_workspace_id

-- `SessionContextService.build`.
unfoldable pub build : SessionRecord → Directory → Option SessionContext
build session d = build_user session d (find_by_id session.user_id d.users)

pub record AuthorizationSubject : Type 0 where
  pub membership_active : Bool
  pub workspace_active : Bool
  pub permissions : List String

unfoldable pub authorize : AuthorizationSubject → String → Bool
authorize subject required_capability =
    subject.membership_active
    && (subject.workspace_active && any (λ p. Text.◌==◌ p required_capability) subject.permissions)

pub record RequestWorkspaceContext : Type 0 where
  pub workspace_id : ℕ
  pub user_id : ℕ

pub data GuardProblem : Type 0 where
  forbidden : Option String → GuardProblem
  session_invalid : GuardProblem

-- A route without metadata is not gated; what the guard publishes is the request's context.
abbrev pub Decision : Type 0
Decision = Result GuardProblem (Option RequestWorkspaceContext)

abbrev pub subject_of : ActiveWorkspaceContext → AuthorizationSubject
subject_of w = record {
  membership_active = true;
  workspace_active = true;
  permissions = w.permissions;
}

abbrev pub decide_missing : SessionRecord → ActiveWorkspaceContext → Option String → Decision
decide_missing session w (some missing) = err (forbidden (some missing))
decide_missing session w none =
    ok (some (record { workspace_id = w.id; user_id = session.user_id }))

abbrev pub decide_workspace :
    SessionRecord → String → List String → Option ActiveWorkspaceContext → Decision
decide_workspace session first required none = err (forbidden (some first))
decide_workspace session first required (some w) =
    decide_missing session w (find (λ c. not (authorize (subject_of w) c)) required)

abbrev pub decide_context : SessionRecord → String → List String → Option SessionContext → Decision
decide_context session first required none = err session_invalid
decide_context session first required (some context) =
    decide_workspace session first required context.active_workspace

abbrev pub decide_session : Directory → String → List String → Option SessionRecord → Decision
decide_session d first required none = err session_invalid
decide_session d first required (some session) =
    decide_context session first required (build session d)

module _ (refs : References) (hash_session_token : ℕ → ℕ) where
  -- The session of a cookie.
  abbrev pub session_of : Clocks → Option ℕ → Sessions → Option SessionRecord × Sessions
  session_of clocks none sessions = (none, sessions)
  session_of clocks (some raw_token) sessions =
      validate refs hash_session_token clocks raw_token sessions

  -- `CapabilityGuard.canActivate`.
  unfoldable pub can_activate :
      Clocks → Directory → Option (List String) → Option ℕ → Sessions → Decision × Sessions
  can_activate clocks d none cookie sessions = (ok none, sessions)
  can_activate clocks d (some []) cookie sessions = (err (forbidden none), sessions)
  can_activate clocks d (some (c ∷ cs)) cookie sessions =
      let (session, after) = session_of clocks cookie sessions in
      (decide_session d c (c ∷ cs) session, after)
