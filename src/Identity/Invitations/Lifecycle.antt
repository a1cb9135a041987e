-- ===== src/Identity/Invitations/Lifecycle.antt =====
-- The use cases of apps/api/src/modules/identity/application/invitation: issue, accept, revoke and
-- preview, each one transaction that changes nothing when it fails, and `expireWorkspaceInvitations`
-- of infrastructure/maintenance.ts.
use slotnova.Base.{
  ℕ, ◌+◌, Bool, true, false, not, ◌&&◌, ◌||◌, Option, none, some, List, [], ◌∷◌, ltb, leb, ◌==◌,
}
use slotnova.Base.Lists.{any, all, filter, length}
use slotnova.Base.Outcome.{Result, err, ok, throw_if, ◌>>=◌, ◌>>◌}
use slotnova.Base.Rows.{update, take, sort_by}
use slotnova.Identity.Invitations.{
  Invitation, InvitationStatus, revoked, expired, InvitableRole, invited, Membership, Tenancy,
  Change, invitation_issued, invitation_accepted, invitation_revoked, membership_created, Entry,
  InvitationError, invitation_expired, email_mismatch, already_member, invitation_exists,
  invitation_not_found, not_found, internal, unique_violation, is_pending, find_by_token_hash,
  has_membership, has_active_membership, InvitationInput, create_invitation, MembershipInput,
  create_membership, with_status, mark_accepted, revoke_pending, default_permissions_for_role,
}

-- A raw token: the units of its text.
abbrev pub Token : Type 0
Token = List ℕ

abbrev is_token_unit : ℕ → Bool
is_token_unit c =
    (leb 65 c && leb c 90)
    || ((leb 97 c && leb c 122) || ((leb 48 c && leb c 57) || ((c == 95) || (c == 45))))

-- `/^[A-Za-z0-9_-]{43}$/`.
abbrev pub is_token : Token → Bool
is_token token = all is_token_unit token && (length token == 43)

abbrev pub invitation_ttl_ms : ℕ
invitation_ttl_ms = 259200000

-- What the use cases read of other tables, and the hash of a token.
pub record Environment : Type 0 where
  pub hash_invitation_token : Token → ℕ
  pub has_user : ℕ → Bool
  pub user_by_email : ℕ → Option ℕ
  pub workspace_name : ℕ → Option ℕ

abbrev pub entry : Change → ℕ → ℕ → Entry
entry change workspace_id entity_id = record {
  change = change;
  workspace_id = workspace_id;
  entity_id = entity_id;
}

pub record IssueInput : Type 0 where
  pub workspace_id : ℕ
  pub invited_by : ℕ
  pub email : ℕ
  pub role : InvitableRole

-- A unique violation is reported as an invitation that exists.
abbrev pub reported : InvitationError → InvitationError
reported unique_violation = invitation_exists
reported e = e

abbrev pub translate : {A : Type 0} → Result InvitationError A → Result InvitationError A
translate (err e) = err (reported e)
translate (ok a) = ok a

abbrev pub issued_state : InvitationInput → Tenancy → List Invitation → Tenancy
issued_state row s invitations = record {
  invitations = invitations;
  memberships = s.memberships;
  audit = entry invitation_issued row.workspace_id row.id ∷ s.audit;
  outbox = entry invitation_issued row.workspace_id row.id ∷ s.outbox;
}

abbrev pub is_active_user : Option ℕ → ℕ → List Membership → Bool
is_active_user none workspace_id memberships = false
is_active_user (some user) workspace_id memberships =
    has_active_membership workspace_id user memberships

abbrev pub issue_row : Environment → ℕ → Token → ℕ → IssueInput → InvitationInput
issue_row env now raw_token id input = record {
  id = id;
  workspace_id = input.workspace_id;
  email = input.email;
  role = input.role;
  token_hash = env.hash_invitation_token raw_token;
  expires_at = now + invitation_ttl_ms;
  invited_by = input.invited_by;
}

-- `IssueInvitationUseCase.execute`, given the fresh token and the fresh id.
unfoldable pub issue :
    Environment → ℕ → Token → ℕ → IssueInput → Tenancy → Result InvitationError Tenancy
issue env now raw_token id input s =
    let row = issue_row env now raw_token id input in
    translate (
      throw_if (is_active_user (env.user_by_email input.email) input.workspace_id s.memberships)
        already_member
      >> (create_invitation row s >>= λ invitations. ok (issued_state row s invitations)))

pub record AcceptInput : Type 0 where
  pub raw_token : Token
  pub user_id : ℕ
  pub user_email : ℕ

abbrev pub found_or {ℓ} : {A : Type ℓ} → InvitationError → Option A → Result InvitationError A
found_or e none = err e
found_or e (some a) = ok a

abbrev pub membership_of : ℕ → AcceptInput → Invitation → MembershipInput
membership_of id input i = record {
  id = id;
  workspace_id = i.workspace_id;
  user_id = input.user_id;
  role = invited i.role;
  permissions = default_permissions_for_role (invited i.role);
}

abbrev pub is_over : ℕ → Invitation → Bool
is_over now i = not (is_pending i.status) || leb i.expires_at now

abbrev pub accepted_state : ℕ → Invitation → List Invitation → List Membership → Tenancy → Tenancy
accepted_state membership_id i invitations memberships s = record {
  invitations = invitations;
  memberships = memberships;
  audit =
      entry membership_created i.workspace_id membership_id
      ∷ entry invitation_accepted i.workspace_id i.id
      ∷ s.audit;
  outbox =
      entry membership_created i.workspace_id membership_id
      ∷ entry invitation_accepted i.workspace_id i.id
      ∷ s.outbox;
}

-- What follows when the invitation is found and its row is locked.
unfoldable pub accept_found :
    Environment → ℕ → ℕ → AcceptInput → Tenancy → Invitation → Result InvitationError Tenancy
accept_found env now membership_id input s i =
    throw_if (is_over now i) invitation_expired
    >> (throw_if (not (i.email == input.user_email)) email_mismatch
        >> (found_or internal (env.workspace_name i.workspace_id) >>= λ name.
            throw_if (has_membership i.workspace_id input.user_id s.memberships) already_member
            >> (create_membership env.has_user (membership_of membership_id input i) s.memberships
                >>= λ memberships. mark_accepted i.id input.user_id s.invitations >>= λ invitations.
                    ok (accepted_state membership_id i invitations memberships s))))

-- `AcceptInvitationUseCase.execute`, given the fresh id of a membership. The row that is read
-- again under its lock is the one that the token was found at.
unfoldable pub accept : Environment → ℕ → ℕ → AcceptInput → Tenancy → Result InvitationError Tenancy
accept env now membership_id input s =
    throw_if (not (is_token input.raw_token)) invitation_expired
    >> (found_or invitation_expired
          (find_by_token_hash (env.hash_invitation_token input.raw_token) s.invitations)
        >>= accept_found env now membership_id input s)

abbrev pub revoked_state : ℕ → ℕ → List Invitation → Tenancy → Tenancy
revoked_state workspace_id id invitations s = record {
  invitations = invitations;
  memberships = s.memberships;
  audit = entry invitation_revoked workspace_id id ∷ s.audit;
  outbox = s.outbox;
}

-- `RevokeInvitationUseCase.execute`.
unfoldable pub revoke_invitation : ℕ → ℕ → Tenancy → Result InvitationError Tenancy
revoke_invitation workspace_id id s =
    let (invitations, changed) = revoke_pending workspace_id id s.invitations in
    throw_if (not changed) not_found >> ok (revoked_state workspace_id id invitations s)

abbrev is_revoked : InvitationStatus → Bool
is_revoked revoked = true
is_revoked _ = false

-- `PreviewInvitationUseCase.execute`: the invitation and the name of its workspace.
unfoldable pub preview : Environment → ℕ → Token → Tenancy → Result InvitationError (Invitation × ℕ)
preview env now raw_token s =
    throw_if (not (is_token raw_token)) invitation_not_found
    >> (found_or invitation_not_found
          (find_by_token_hash (env.hash_invitation_token raw_token) s.invitations)
        >>= λ i.
            throw_if (is_revoked i.status) invitation_not_found
            >> (throw_if (is_over now i) invitation_expired
                >> (found_or internal (env.workspace_name i.workspace_id) >>= λ name.
                    ok (i, name))))

-- `expireWorkspaceInvitations`, which skips the rows that other transactions have locked.
abbrev is_expirable : ℕ → ℕ → Invitation → Bool
is_expirable workspace_id now i =
    (i.workspace_id == workspace_id) && (is_pending i.status && leb i.expires_at now)

abbrev ends_before : Invitation → Invitation → Bool
ends_before a b = ltb a.expires_at b.expires_at || ((a.expires_at == b.expires_at) && ltb a.id b.id)

abbrev pub expired_row : Invitation → Invitation
expired_row i = with_status expired i.accepted_by_user_id i

unfoldable pub overdue : ℕ → ℕ → ℕ → (ℕ → Bool) → List Invitation → List Invitation
overdue workspace_id batch_size now locked invitations = take batch_size (
    sort_by ends_before
      (filter (λ i. is_expirable workspace_id now i && not (locked i.id)) invitations))

abbrev pub is_chosen : ℕ → List Invitation → Invitation → Bool
is_chosen workspace_id chosen i =
    any (λ e. e.id == i.id) chosen && ((i.workspace_id == workspace_id) && is_pending i.status)

unfoldable pub expire_workspace_invitations : ℕ → ℕ → ℕ → (ℕ → Bool) → Tenancy → Tenancy
expire_workspace_invitations workspace_id batch_size now locked s = record {
  invitations =
      update (is_chosen workspace_id (overdue workspace_id batch_size now locked s.invitations))
        expired_row s.invitations;
  memberships = s.memberships;
  audit = s.audit;
  outbox = s.outbox;
}

-- One call, at a time of the server; a call that fails changes nothing.
pub data Call : Type 0 where
  issuing : ℕ → Token → ℕ → IssueInput → Call
  accepting : ℕ → ℕ → AcceptInput → Call
  revoking : ℕ → ℕ → Call
  expiring : ℕ → ℕ → ℕ → (ℕ → Bool) → Call

abbrev pub kept : Tenancy → Result InvitationError Tenancy → Tenancy
kept s (err e) = s
kept s (ok after) = after

unfoldable pub step : Environment → Call → Tenancy → Tenancy
step env (issuing now raw_token id input) s = kept s (issue env now raw_token id input s)
step env (accepting now membership_id input) s = kept s (accept env now membership_id input s)
step env (revoking workspace_id id) s = kept s (revoke_invitation workspace_id id s)
step env (expiring workspace_id batch_size now locked) s =
    expire_workspace_invitations workspace_id batch_size now locked s

unfoldable pub run : Environment → List Call → Tenancy → Tenancy
run env [] s = s
run env (c ∷ cs) s = run env cs (step env c s)
