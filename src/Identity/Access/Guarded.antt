-- ===== src/Identity/Access/Guarded.antt =====
-- Who passes the guard.
use Prim.Native.String.{String}
use text.Mathlib.Text
use mathlib.Core.Path.{subst}
use slotnova.Base.{
  ℕ, ◌≡◌, refl, sym, ap, ◌∙◌, inl, inr, Bool, true, false, not, ◌&&◌, Option, none, some, List, [],
  ◌∷◌, ◌==◌, if◌then◌else◌, Bool-cases, Option-cases, ==→eq, arith,
}
use slotnova.Base.Lists.{any, all, All}
use slotnova.Base.Outcome.{ok}
use slotnova.Base.Rows.{
  find-all, find-some, count-any, find, sort_by, All-sort_by, All-find, All-imp,
}
use slotnova.Identity.Sessions.{SessionRecord, Sessions, References, find_active_by_hashed_id}
use slotnova.Identity.Sessions.Service.{validated, Clocks, validate}
use slotnova.Identity.Directory.{
  UserRecord, Workspace, MembershipRow, Directory, ActiveMembershipView, find_by_id, views,
  is_active_workspace, name_before, list_active_memberships_for_user,
}
use slotnova.Identity.Access.{
  SessionContext, ActiveWorkspaceContext, active_context, build_view, build_workspace, build_user,
  build, authorize, subject_of, RequestWorkspaceContext, decide_missing, decide_context,
  decide_session, can_activate,
}

abbrev pub includes : List String → String → Bool
includes permissions c = any (λ p. Text.◌==◌ p c) permissions

-- An active membership of the user in the workspace, with all the capabilities.
abbrev pub is_entitled : ℕ → ℕ → List String → MembershipRow → Bool
is_entitled user workspace required m =
    (m.user_id == user)
    && (m.active && ((m.workspace_id == workspace) && all (includes m.permissions) required))

-- The workspace, not suspended.
abbrev pub is_open : ℕ → Workspace → Bool
is_open id w = (w.id == id) && w.active

-- What the guard has found out about a request that it lets pass.
pub record Entitlement (d : Directory) (required : List String) (session : SessionRecord)
    (context : RequestWorkspaceContext) : Type 0 where
  pub user : UserRecord
  pub its_user : find_by_id session.user_id d.users ≡ some user
  pub enabled : user.disabled ≡ false
  pub same_user : context.user_id ≡ session.user_id
  pub same_workspace : session.active_workspace_id ≡ some context.workspace_id
  pub open_workspace : any (is_open context.workspace_id) d.workspaces ≡ true
  pub entitled : any (is_entitled user.id context.workspace_id required) d.memberships ≡ true

-- A view is of an active membership in an active workspace.
abbrev IsGranted : ℕ → List Workspace → List MembershipRow → ActiveMembershipView → Type 0
IsGranted user ws ms v =
    (any (is_open v.workspace_id) ws ≡ true)
    × ((required : List String)
        → all (includes v.permissions) required ≡ true
        → any (is_entitled user v.workspace_id required) ms ≡ true)

entitled-head :
    (user : ℕ) (m : MembershipRow) (ms : List MembershipRow) (required : List String)
    → (m.user_id == user) && m.active ≡ true
    → all (includes m.permissions) required ≡ true
    → any (is_entitled user m.workspace_id required) (m ∷ ms) ≡ true
entitled-head user m ms required e k =
    let its : (m.user_id == user) ≡ true = ground (arith, e) in
    let active : m.active ≡ true = ground (arith, e) in
    let same : (m.workspace_id == m.workspace_id) ≡ true = ground arith in
    rw (its, active, same, k) refl

views-IsGranted :
    (user : ℕ) (ws : List Workspace) (ms : List MembershipRow)
    → All (IsGranted user ws ms) (views user ws ms)
unfolding views
views-IsGranted user ws [] = tt
views-IsGranted user ws (m ∷ ms) =
    let rest =
      All-imp (IsGranted user ws ms) (IsGranted user ws (m ∷ ms)) (views user ws ms)
        (λ v g. (g.0, λ required e. rw (g.1 required e) (ground arith)))
        (views-IsGranted user ws ms) in
    elim (Bool-cases ((m.user_id == user) && m.active)) [
      | inr e ↦ rw e rest
      | inl e ↦ elim (Option-cases (find (is_active_workspace m.workspace_id) ws)) [
        | inl f ↦ rw (e, f) rest
        | inr (w, f) ↦
            rw (e, f)
              (
                (
                  count-any (is_active_workspace m.workspace_id) ws
                      ((find-some (is_active_workspace m.workspace_id) ws {x = w} f).1),
                  λ required k. (entitled-head user m ms required e k),
                ),
                rest,
              )
      ]
    ]

-- A view among the user's views.
found-IsGranted :
    (user id : ℕ) (d : Directory) {v : ActiveMembershipView}
    → find (λ view. view.workspace_id == id) (list_active_memberships_for_user user d) ≡ some v
    → (v.workspace_id ≡ id) × IsGranted user d.workspaces d.memberships v
unfolding list_active_memberships_for_user
found-IsGranted user id d {v} e =
    let granted =
      All-sort_by (IsGranted user d.workspaces d.memberships) name_before
        (views user d.workspaces d.memberships) (views-IsGranted user d.workspaces d.memberships) in
    let (its, g) =
      All-find (IsGranted user d.workspaces d.memberships) (λ view. view.workspace_id == id)
        (sort_by name_before (views user d.workspaces d.memberships)) {x = v} e granted in
    (==→eq v.workspace_id id its, g)

-- No capability is missing from the permissions.
none_missing :
    (w : ActiveWorkspaceContext) (required : List String)
    → find (λ c. not (authorize (subject_of w) c)) required ≡ none
    → all (includes w.permissions) required ≡ true
unfolding authorize
none_missing w required e = find-all (includes w.permissions) required e

decide_missing-eq-ok :
    (session : SessionRecord) (w : ActiveWorkspaceContext) (missing : Option String)
    {context : RequestWorkspaceContext}
    → decide_missing session w missing ≡ ok (some context)
    → (missing ≡ none) × (w.id ≡ context.workspace_id) × (context.user_id ≡ session.user_id)
decide_missing-eq-ok session w (some c) e = cc (e)
decide_missing-eq-ok session w none e = (refl, cc (e), cc (e))

decide_view-eq-ok :
    (session : SessionRecord) (first : String) (required : List String) (user : UserRecord)
    (list : List ActiveMembershipView) (found : Option ActiveMembershipView)
    {context : RequestWorkspaceContext}
    → decide_context session first required (build_view session user list found) ≡ ok (some context)
    → (v : ActiveMembershipView) × (found ≡ some v)
      × (find (λ c. not (authorize (subject_of (active_context v)) c)) required ≡ none)
      × (v.workspace_id ≡ context.workspace_id)
      × (context.user_id ≡ session.user_id)
decide_view-eq-ok session first required user list none e = cc (e)
decide_view-eq-ok session first required user list (some v) e =
    let (none_left, at, who) =
      decide_missing-eq-ok session (active_context v)
        (find (λ c. not (authorize (subject_of (active_context v)) c)) required) e in
    (v, refl, none_left, at, who)

decide_workspace-eq-ok :
    (d : Directory) (session : SessionRecord) (first : String) (required : List String)
    (user : UserRecord) (workspace : Option ℕ) {context : RequestWorkspaceContext}
    → decide_context session first required
        (build_workspace session user (list_active_memberships_for_user user.id d) workspace)
      ≡ ok (some context)
    → (workspace ≡ some context.workspace_id)
      × (context.user_id ≡ session.user_id)
      × (any (is_open context.workspace_id) d.workspaces ≡ true)
      × (any (is_entitled user.id context.workspace_id required) d.memberships ≡ true)
decide_workspace-eq-ok d session first required user none e = cc (e)
decide_workspace-eq-ok d session first required user (some id) {context} e =
    let list = list_active_memberships_for_user user.id d in
    let (v, f, none_left, at, who) =
      decide_view-eq-ok session first required user list
        (find (λ view. view.workspace_id == id) list) e in
    let (its, (its_workspace, its_members)) = found-IsGranted user.id id d {v = v} f in
    (
      ap some (sym its ∙ at),
      who,
      subst (λ i. any (is_active_workspace i) d.workspaces ≡ true) at its_workspace,
      subst (λ i. any (is_entitled user.id i required) d.memberships ≡ true) at
          (its_members required (none_missing (active_context v) required none_left)),
    )

decide_enabled-eq-ok :
    (session : SessionRecord) (first : String) (required : List String) (disabled : Bool)
    (built : Option SessionContext) {context : RequestWorkspaceContext}
    → decide_context session first required (if disabled then none else built) ≡ ok (some context)
    → (disabled ≡ false) × (decide_context session first required built ≡ ok (some context))
decide_enabled-eq-ok session first required true built e = cc (e)
decide_enabled-eq-ok session first required false built e = (refl, e)

decide_user-eq-ok :
    (d : Directory) (session : SessionRecord) (first : String) (required : List String)
    (found : Option UserRecord) {context : RequestWorkspaceContext}
    → find_by_id session.user_id d.users ≡ found
    → decide_context session first required (build_user session d found) ≡ ok (some context)
    → Entitlement d required session context
decide_user-eq-ok d session first required none its_user e = cc (e)
decide_user-eq-ok d session first required (some user) {context} its_user e =
    let built =
      build_workspace session user (list_active_memberships_for_user user.id d)
        session.active_workspace_id in
    let (on, e1) = decide_enabled-eq-ok session first required user.disabled built e in
    let (at, who, place, entitled) =
      decide_workspace-eq-ok d session first required user session.active_workspace_id
        {context = context} e1 in
    record {
      user = user;
      its_user = its_user;
      enabled = on;
      same_user = who;
      same_workspace = at;
      open_workspace = place;
      entitled = entitled;
    }

decide_session-eq-ok :
    (refs : References) (hash : ℕ → ℕ) (d : Directory) (first : String) (required : List String)
    (now id : ℕ) (sessions : Sessions) (found : Option SessionRecord)
    {context : RequestWorkspaceContext}
    → decide_session d first required (validated refs hash now id sessions found).0
      ≡ ok (some context)
    → (session : SessionRecord) × (found ≡ some session) × Entitlement d required session context
unfolding build
decide_session-eq-ok refs hash d first required now id sessions none e = cc (e)
decide_session-eq-ok refs hash d first required now id sessions (some session) {context} e = (
  session,
  refl,
  decide_user-eq-ok d session first required (find_by_id session.user_id d.users)
      {context = context} refl e,
)

-- The guard of a gated route lets a request pass only with the token of an active session whose
-- user is not disabled and has, in the session's workspace, which is active, an active membership
-- with every capability that the route requires. The context that it publishes is of that workspace
-- and that user.
pub can_activate-Entitlement :
    (refs : References) (hash : ℕ → ℕ) (clocks : Clocks) (d : Directory) (first : String)
    (rest : List String) (cookie : Option ℕ) (sessions : Sessions)
    {context : RequestWorkspaceContext}
    → (can_activate refs hash clocks d (some (first ∷ rest)) cookie sessions).0 ≡ ok (some context)
    → (raw_token : ℕ) × (session : SessionRecord) × (cookie ≡ some raw_token)
      × (find_active_by_hashed_id clocks.now (hash raw_token) sessions ≡ some session)
      × Entitlement d (first ∷ rest) session context
unfolding can_activate validate build
can_activate-Entitlement refs hash clocks d first rest none sessions e = cc (e)
can_activate-Entitlement refs hash clocks d first rest (some raw_token) sessions {context} e =
    let (session, f, entitlement) =
      decide_session-eq-ok refs hash d first (first ∷ rest) clocks.now (hash raw_token) sessions
        (find_active_by_hashed_id clocks.now (hash raw_token) sessions) {context = context} e in
    (raw_token, session, refl, f, entitlement)
