-- ===== src/Identity/Invitations.antt =====
-- Invitations and the memberships that they make, of apps/api/src/modules/identity: the tables of
-- packages/db/migrations/0002_identity.sql and infrastructure/repositories/invitations.repository.ts.
-- Ids are numbers, and so is an email, which stands for its text in lower case: the column and the
-- code compare emails without regard to case. The order of the rows means nothing.
pub mod Lifecycle
pub mod Accepting
pub mod Single
pub mod Members
pub mod Fresh
mod Tests
use slotnova.Base.{
  ℕ, Bool, true, false, not, ◌&&◌, ◌||◌, Option, none, some, List, [], ◌∷◌, leb, ◌==◌,
  if◌then◌else◌,
}
use slotnova.Base.Lists.{any}
use slotnova.Base.Outcome.{Result, err, ok}
use slotnova.Base.Rows.{find, update, count}

pub data InvitationStatus : Type 0 where
  pending accepted revoked expired : InvitationStatus

-- The roles of a membership, of which an invitation may give all but the owner's.
pub data InvitableRole : Type 0 where
  admin manager staff : InvitableRole

pub data Capability : Type 0 where
  members_invite members_manage : Capability

pub data MembershipRole : Type 0 where
  owner : MembershipRole
  invited : InvitableRole → MembershipRole

abbrev pub default_permissions_for_role : MembershipRole → List Capability
default_permissions_for_role owner = members_invite ∷ members_manage ∷ []
default_permissions_for_role (invited admin) = members_invite ∷ members_manage ∷ []
default_permissions_for_role (invited manager) = []
default_permissions_for_role (invited staff) = []

pub record Invitation : Type 0 where
  pub id : ℕ
  pub workspace_id : ℕ
  pub email : ℕ
  pub role : InvitableRole
  pub token_hash : ℕ
  pub status : InvitationStatus
  pub expires_at : ℕ
  pub invited_by : ℕ
  pub accepted_by_user_id : Option ℕ

pub record Membership : Type 0 where
  pub id : ℕ
  pub workspace_id : ℕ
  pub user_id : ℕ
  pub role : MembershipRole
  pub permissions : List Capability
  pub active : Bool

-- What is recorded of a change, in the audit log and in the outbox, about an invitation or a
-- membership.
pub data Change : Type 0 where
  invitation_issued invitation_accepted invitation_revoked membership_created : Change

pub record Entry : Type 0 where
  pub change : Change
  pub workspace_id : ℕ
  pub entity_id : ℕ

-- The tables that the use cases change.
pub record Tenancy : Type 0 where
  pub invitations : List Invitation
  pub memberships : List Membership
  pub audit : List Entry
  pub outbox : List Entry

-- The problems that the use cases report, an internal error, and the errors of the database.
pub data InvitationError : Type 0 where
  invitation_expired email_mismatch already_member invitation_exists : InvitationError
  invitation_not_found not_found internal : InvitationError
  unique_violation foreign_key_violation : InvitationError

abbrev pub is_pending : InvitationStatus → Bool
is_pending pending = true
is_pending _ = false

-- `findByTokenHash`.
unfoldable pub find_by_token_hash : ℕ → List Invitation → Option Invitation
find_by_token_hash token_hash invitations = find (λ i. i.token_hash == token_hash) invitations

abbrev pub is_member : ℕ → ℕ → Membership → Bool
is_member workspace_id user_id m = (m.workspace_id == workspace_id) && (m.user_id == user_id)

abbrev pub has_membership : ℕ → ℕ → List Membership → Bool
has_membership workspace_id user_id = any (is_member workspace_id user_id)

abbrev pub has_active_membership : ℕ → ℕ → List Membership → Bool
has_active_membership workspace_id user_id = any (λ m. is_member workspace_id user_id m && m.active)

-- The row that an invitation is inserted as, pending by default.
pub record InvitationInput : Type 0 where
  pub id : ℕ
  pub workspace_id : ℕ
  pub email : ℕ
  pub role : InvitableRole
  pub token_hash : ℕ
  pub expires_at : ℕ
  pub invited_by : ℕ

abbrev pub to_invitation : InvitationInput → Invitation
to_invitation input = record {
  id = input.id;
  workspace_id = input.workspace_id;
  email = input.email;
  role = input.role;
  token_hash = input.token_hash;
  status = pending;
  expires_at = input.expires_at;
  invited_by = input.invited_by;
  accepted_by_user_id = none;
}

-- The primary key, and the unique indexes on the token's hash and on the pending invitations.
abbrev pub clashes : InvitationInput → Invitation → Bool
clashes input i =
    (i.id == input.id)
    || ((i.token_hash == input.token_hash)
        || (is_pending i.status
            && ((i.workspace_id == input.workspace_id) && (i.email == input.email))))

-- `createInvitation`.
unfoldable pub create_invitation :
    InvitationInput → Tenancy → Result InvitationError (List Invitation)
create_invitation input s =
    if any (clashes input) s.invitations
    then err unique_violation
    else (if any (λ m. (m.workspace_id == input.workspace_id) && (m.id == input.invited_by))
          s.memberships
        then ok (to_invitation input ∷ s.invitations)
        else err foreign_key_violation)

pub record MembershipInput : Type 0 where
  pub id : ℕ
  pub workspace_id : ℕ
  pub user_id : ℕ
  pub role : MembershipRole
  pub permissions : List Capability

abbrev pub to_membership : MembershipInput → Membership
to_membership input = record {
  id = input.id;
  workspace_id = input.workspace_id;
  user_id = input.user_id;
  role = input.role;
  permissions = input.permissions;
  active = true;
}

-- `createMembership`: the primary key, the unique index and the reference to the user.
unfoldable pub create_membership :
    (ℕ → Bool) → MembershipInput → List Membership → Result InvitationError (List Membership)
create_membership has_user input memberships =
    if any (λ m. (m.id == input.id) || is_member input.workspace_id input.user_id m) memberships
    then err unique_violation
    else (if has_user input.user_id
        then ok (to_membership input ∷ memberships)
        else err foreign_key_violation)

abbrev pub with_status : InvitationStatus → Option ℕ → Invitation → Invitation
with_status status accepted_by i = record {
  id = i.id;
  workspace_id = i.workspace_id;
  email = i.email;
  role = i.role;
  token_hash = i.token_hash;
  status = status;
  expires_at = i.expires_at;
  invited_by = i.invited_by;
  accepted_by_user_id = accepted_by;
}

abbrev pub is_pending_with : ℕ → Invitation → Bool
is_pending_with id i = (i.id == id) && is_pending i.status

-- `markAccepted`, which fails when it changes another number of rows than one.
unfoldable pub mark_accepted : ℕ → ℕ → List Invitation → Result InvitationError (List Invitation)
mark_accepted id user_id invitations =
    if count (is_pending_with id) invitations == 1
    then ok (update (is_pending_with id) (with_status accepted (some user_id)) invitations)
    else err internal

abbrev pub revoked_row : Invitation → Invitation
revoked_row i = with_status revoked i.accepted_by_user_id i

abbrev pub is_revocable : ℕ → ℕ → Invitation → Bool
is_revocable workspace_id id i = is_pending_with id i && (i.workspace_id == workspace_id)

-- `revokePending` in the context of a workspace, whose rows alone it sees: the rows, and whether
-- one was changed.
unfoldable pub revoke_pending : ℕ → ℕ → List Invitation → List Invitation × Bool
revoke_pending workspace_id id invitations = (
  update (is_revocable workspace_id id) revoked_row invitations,
  count (is_revocable workspace_id id) invitations == 1,
)
