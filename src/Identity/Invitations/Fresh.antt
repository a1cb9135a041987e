-- ===== src/Identity/Invitations/Fresh.antt =====
-- An invitation that is issued can be accepted.
use slotnova.Base.{
  ℕ, ◌+◌, ◌<◌, ◌≡◌, refl, sym, true, false, ◌||◌, some, List, ◌∷◌, leb, ◌==◌, arith,
}
use slotnova.Base.Lists.{any}
use slotnova.Base.Outcome.{ok}
use slotnova.Base.Rows.{any-weaken, find, update, count, any-false, count-le}
use slotnova.Identity.Invitations.{
  Invitation, Membership, Tenancy, InvitationInput, is_pending_with, is_member, has_membership,
  find_by_token_hash, accepted, with_status, to_invitation, create_membership, mark_accepted,
  clashes, invited, default_permissions_for_role,
}
use slotnova.Identity.Invitations.Lifecycle.{
  Token, Environment, IssueInput, invitation_ttl_ms, is_token, accept, accept_found, accepted_state,
  issue, issue_row,
}
use slotnova.Identity.Invitations.Accepting.{issue-eq-ok}

-- The membership that an invitation of the role gives.
abbrev pub given : ℕ → ℕ → IssueInput → Membership
given membership_id user input = record {
  id = membership_id;
  workspace_id = input.workspace_id;
  user_id = user;
  role = invited input.role;
  permissions = default_permissions_for_role (invited input.role);
  active = true;
}

-- A row that clashes with none is the only pending one with its id.
fresh-count :
    (row : InvitationInput) (is : List Invitation)
    → any (clashes row) is ≡ false
    → count (is_pending_with row.id) (to_invitation row ∷ is) ≡ 1
unfolding count
fresh-count row is free =
    let none_yet = any-false (clashes row) is free in
    let few = count-le (is_pending_with row.id) (clashes row) is (λ i. ground arith) in
    let same : (row.id == row.id) ≡ true = ground arith in rw same (omega arith)

-- An invitation that was issued is accepted, before its lifetime has passed, by the user with its
-- email, if the workspace and the user exist, the user is not a member and the new membership's id
-- is free; the user is then a member, with the role of the invitation and the permissions of that
-- role.
pub issue-accept :
    (env : Environment) (now : ℕ) (raw_token : Token) (id : ℕ) (input : IssueInput) (s : Tenancy)
    {after : Tenancy} (later membership_id user name : ℕ)
    → issue env now raw_token id input s ≡ ok after
    → is_token raw_token ≡ true
    → later < now + invitation_ttl_ms
    → env.has_user user ≡ true
    → env.workspace_name input.workspace_id ≡ some name
    → any (λ m. (m.id == membership_id) || is_member input.workspace_id user m) s.memberships
      ≡ false
    → (done : Tenancy) × (accept env later membership_id
          (record { raw_token = raw_token; user_id = user; user_email = input.email })
          after
        ≡ ok done)
      × (done.memberships ≡ given membership_id user input ∷ s.memberships)
unfolding accept accept_found find_by_token_hash find create_membership mark_accepted
issue-accept env now raw_token id input s {after} later membership_id user name e token early known
      named free =
    let row = issue_row env now raw_token id input in
    let (unclashed, result) = issue-eq-ok env now raw_token id input s {after = after} e in
    let one = fresh-count row s.invitations unclashed in
    let hash : (row.token_hash == row.token_hash) ≡ true = ground arith in
    let mail : (input.email == input.email) ≡ true = ground arith in
    let open_yet : leb (now + invitation_ttl_ms) later ≡ false = ground arith in
    let no_member : has_membership input.workspace_id user s.memberships ≡ false =
      any-weaken (λ m. (m.id == membership_id) || is_member input.workspace_id user m)
        (is_member input.workspace_id user) s.memberships (λ m k. ground (arith, k)) free in
    let done =
      accepted_state membership_id (to_invitation row)
        (update (is_pending_with id) (with_status accepted (some user))
          (to_invitation row ∷ s.invitations))
        (given membership_id user input ∷ s.memberships) after in
    (
      done,
      rw (sym result, token, hash, open_yet, mail, named, no_member, free, known, one) refl,
      refl,
    )
