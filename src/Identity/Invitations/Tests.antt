-- ===== src/Identity/Invitations/Tests.antt =====
-- Runs of the invitations: the workspace 5 with its owner, the user 1, who invites the user 3.
use slotnova.Base.{
  ℕ, zero, suc, ◌+◌, ◌≡◌, refl, true, false, none, some, List, [], ◌∷◌, ◌==◌, if◌then◌else◌, arith,
}
use slotnova.Base.Outcome.{err, ok}
use slotnova.Base.Rows.{find, update, count}
use slotnova.Identity.Invitations.{
  InvitationStatus, InvitableRole, MembershipRole, Capability, Membership, Tenancy, InvitationError,
  find_by_token_hash, create_invitation, create_membership, mark_accepted,
}
use slotnova.Identity.Invitations.Lifecycle.{
  Token, Environment, IssueInput, AcceptInput, issue, accept, accept_found, Call, issuing,
  accepting, revoking, expiring, step, run,
}
use slotnova.Identity.Invitations.Single.{accept_final}
use slotnova.Identity.Invitations.Members.{memberships_of, acceptances_of, run-members}
use slotnova.Identity.Invitations.Fresh.{given, issue-accept}

abbrev repeated : ℕ → ℕ → Token
repeated unit zero = []
repeated unit (suc n) = unit ∷ repeated unit n

abbrev token : Token
token = repeated 97 43

abbrev first_unit : Token → ℕ
first_unit [] = 0
first_unit (c ∷ cs) = c

abbrev env : Environment
env = record {
  hash_invitation_token = first_unit;
  has_user = λ u. true;
  user_by_email = λ e. if e == 30 then some 3 else none;
  workspace_name = λ w. if w == 5 then some 50 else none;
}

abbrev owner : Membership
owner = record {
  id = 11;
  workspace_id = 5;
  user_id = 1;
  role = MembershipRole.owner;
  permissions = Capability.members_invite ∷ Capability.members_manage ∷ [];
  active = true;
}

abbrev start : Tenancy
start = record { invitations = []; memberships = owner ∷ []; audit = []; outbox = [] }

abbrev to_staff : IssueInput
to_staff = record { workspace_id = 5; invited_by = 11; email = 30; role = InvitableRole.staff }

abbrev input : AcceptInput
input = record { raw_token = token; user_id = 3; user_email = 30 }

abbrev calls : List Call
calls = issuing 1000 token 7 to_staff ∷ accepting 2000 12 input ∷ []

-- A second invitation of the same email is refused while the first is pending.
issue_twice :
    issue env 1500 (repeated 98 43) 8 to_staff (step env (issuing 1000 token 7 to_staff) start)
    ≡ err InvitationError.invitation_exists
unfolding step issue create_invitation
issue_twice = refl

accept_late :
    accept env (1000 + 259200000) 12 input (step env (issuing 1000 token 7 to_staff) start)
    ≡ err InvitationError.invitation_expired
unfolding step issue create_invitation accept accept_found find_by_token_hash find
accept_late = refl

run_twice : (run env calls start).memberships ≡ given 12 3 to_staff ∷ owner ∷ []
unfolding run step issue create_invitation accept accept_found find_by_token_hash find
    create_membership mark_accepted update count
run_twice = refl

abbrev issued_start : Tenancy
issued_start = record {
  invitations =
      record {
        id = 7;
        workspace_id = 5;
        email = 30;
        role = InvitableRole.staff;
        token_hash = 97;
        status = InvitationStatus.pending;
        expires_at = 259201000;
        invited_by = 11;
        accepted_by_user_id = none;
      }
      ∷ [];
  memberships = owner ∷ [];
  audit = [];
  outbox = [];
}

abbrev again : AcceptInput
again = record { raw_token = token; user_id = 4; user_email = 30 }

accept_final_example :
    accept env 3000 13 again (
      run env
        (revoking 5 7 ∷ expiring 5 10 4000 (λ id. false) ∷ [])
        (run env (accepting 2000 12 input ∷ []) issued_start))
    ≡ err InvitationError.invitation_expired
unfolding run step accept accept_found find_by_token_hash find create_membership mark_accepted
    update count
accept_final_example =
    accept_final env 2000 12 input issued_start
      {after = run env (accepting 2000 12 input ∷ []) issued_start}
      (revoking 5 7 ∷ expiring 5 10 4000 (λ id. false) ∷ []) 3000 13 again refl (omega arith)
      (refl, (refl, tt)) refl

run-members_example :
    memberships_of 5 3 (run env calls start) + acceptances_of 5 3 start
    ≡ memberships_of 5 3 start + acceptances_of 5 3 (run env calls start)
run-members_example = run-members env calls 5 3 start

issue-accept_example :
    (done : Tenancy) × (accept env 2000 12 input (step env (issuing 1000 token 7 to_staff) start)
      ≡ ok done)
    × (done.memberships ≡ given 12 3 to_staff ∷ owner ∷ [])
unfolding step issue create_invitation
issue-accept_example =
    issue-accept env 1000 token 7 to_staff start
      {after = step env (issuing 1000 token 7 to_staff) start} 2000 12 3 50 refl refl (omega arith)
      refl refl refl
