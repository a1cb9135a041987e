-- ===== src/Identity/Invitations/Members.antt =====
-- A membership comes of each acceptance, and of nothing else.
use slotnova.Base.{
  ℕ, ◌+◌, ◌≤◌, ◌≡◌, refl, sym, ◌∙◌, inl, inr, Bool, true, false, ◌&&◌, Option, none, some, List, [],
  ◌∷◌, ◌==◌, if◌then◌else◌, Bool-cases, arith,
}
use slotnova.Base.Outcome.{Result-cases}
use slotnova.Base.Rows.{tally, update, count, count-sum, count-update, count-found}
use slotnova.Identity.Invitations.{
  Invitation, InvitationStatus, Tenancy, is_pending, is_pending_with, is_member, find_by_token_hash,
  accepted, with_status, is_revocable, revoked_row, revoke_pending,
}
use slotnova.Identity.Invitations.Lifecycle.{
  Token, Environment, AcceptInput, IssueInput, is_over, accept, issue, revoke_invitation,
  expire_workspace_invitations, overdue, is_chosen, expired_row, Call, issuing, accepting, revoking,
  expiring, kept, step, run,
}
use slotnova.Identity.Invitations.Accepting.{accept-eq-ok, issue-eq-ok}

abbrev is_accepted : InvitationStatus → Bool
is_accepted InvitationStatus.accepted = true
is_accepted _ = false

abbrev is_by : ℕ → Option ℕ → Bool
is_by user none = false
is_by user (some u) = u == user

-- The invitation to the workspace was accepted by the user.
abbrev pub is_acceptance : ℕ → ℕ → Invitation → Bool
is_acceptance workspace user i =
    (i.workspace_id == workspace) && (is_accepted i.status && is_by user i.accepted_by_user_id)

abbrev pub memberships_of : ℕ → ℕ → Tenancy → ℕ
memberships_of workspace user s = count (is_member workspace user) s.memberships

abbrev pub acceptances_of : ℕ → ℕ → Tenancy → ℕ
acceptances_of workspace user s = count (is_acceptance workspace user) s.invitations

pending-not_accepted : (s : InvitationStatus) → is_pending s ≡ true → is_accepted s ≡ false
pending-not_accepted InvitationStatus.pending e = refl
pending-not_accepted InvitationStatus.accepted e = cc (e)
pending-not_accepted InvitationStatus.revoked e = refl
pending-not_accepted InvitationStatus.expired e = refl

over-is_pending : (now : ℕ) (i : Invitation) → is_over now i ≡ false → is_pending_with i.id i ≡ true
over-is_pending now i e = ground (arith, e)

module _ (workspace user : ℕ) where
  -- A pending invitation that ends without an acceptance.
  ending-acceptances :
      (p : Invitation → Bool) (g : Invitation → Invitation) (is : List Invitation)
      → ((i : Invitation) → p i ≡ true → is_pending i.status ≡ true)
      → ((i : Invitation) → is_accepted (g i).status ≡ false)
      → count (is_acceptance workspace user) (update p g is)
        ≡ count (is_acceptance workspace user) is
  ending-acceptances p g is open_yet final =
      count-update p g (is_acceptance workspace user) (is_acceptance workspace user) is (λ i.
        elim (Bool-cases (p i)) [
          | inl e ↦
              let no : is_accepted i.status ≡ false =
                pending-not_accepted i.status (open_yet i e) in
              rw (e, final i, no) (ground arith)
          | inr e ↦ rw e refl
        ])

  accepting-acceptances :
      (hash id by : ℕ) (is : List Invitation) {i : Invitation}
      → find_by_token_hash hash is ≡ some i
      → is_pending_with id i ≡ true
      → count (is_pending_with id) is ≤ 1
      → count
          (is_acceptance workspace user)
          (update (is_pending_with id) (with_status accepted (some by)) is)
        ≡ count (is_acceptance workspace user) is
          + tally ((i.workspace_id == workspace) && (by == user))
  unfolding find_by_token_hash
  accepting-acceptances hash id by is {i} e holds one =
      let g = with_status accepted (some by) in
      let its =
        count-found (λ j. j.token_hash == hash) (is_pending_with id)
          (λ j. (j.workspace_id == workspace) && (by == user)) is {x = i} e holds one in
      let both =
        count-sum (λ j. is_acceptance workspace user (if is_pending_with id j then g j else j))
          (is_acceptance workspace user)
          (λ j. is_pending_with id j && ((j.workspace_id == workspace) && (by == user))) is
          (λ j. elim (Bool-cases (is_pending_with id j)) [
            | inl f ↦
                let no : is_accepted j.status ≡ false =
                  pending-not_accepted j.status (ground (arith, f)) in
                rw (f, no) (ground arith)
            | inr f ↦ rw f (omega arith)
          ]) in
      count-update (is_pending_with id) g (is_acceptance workspace user)
        (λ j. is_acceptance workspace user (if is_pending_with id j then g j else j)) is (λ j. refl)
      ∙ omega arith

  accept-members :
      (env : Environment) (now membership_id : ℕ) (input : AcceptInput) (s : Tenancy)
      → let after = kept s (accept env now membership_id input s) in
        memberships_of workspace user after + acceptances_of workspace user s
        ≡ memberships_of workspace user s + acceptances_of workspace user after
  unfolding count
  accept-members env now membership_id input s =
      elim (Result-cases (accept env now membership_id input s)) [
        | inr (e, f) ↦ rw f refl
        | inl (after, f) ↦
            let a = accept-eq-ok env now membership_id input s {after = after} f in
            let more =
              accepting-acceptances (env.hash_invitation_token input.raw_token) a.invitation.id
                input.user_id s.invitations {i = a.invitation} a.was_found
                (over-is_pending now a.invitation a.was_open) (omega (arith, a.was_one)) in
            rw (f, sym a.result, more) (omega arith)
      ]

  revoke-members :
      (workspace_id id : ℕ) (s : Tenancy)
      → let after = kept s (revoke_invitation workspace_id id s) in
        memberships_of workspace user after + acceptances_of workspace user s
        ≡ memberships_of workspace user s + acceptances_of workspace user after
  unfolding revoke_invitation revoke_pending
  revoke-members workspace_id id s =
      elim (Bool-cases (count (is_revocable workspace_id id) s.invitations == 1)) [
        | inl e ↦
            rw
              (
                e,
                ending-acceptances (is_revocable workspace_id id) revoked_row s.invitations
                    (λ i k. ground (arith, k)) (λ i. refl),
              )
              refl
        | inr e ↦ rw e refl
      ]

  issue-members :
      (env : Environment) (now : ℕ) (raw_token : Token) (id : ℕ) (input : IssueInput) (s : Tenancy)
      → let after = kept s (issue env now raw_token id input s) in
        memberships_of workspace user after + acceptances_of workspace user s
        ≡ memberships_of workspace user s + acceptances_of workspace user after
  unfolding count
  issue-members env now raw_token id input s =
      elim (Result-cases (issue env now raw_token id input s)) [
        | inr (e, f) ↦ rw f refl
        | inl (after, f) ↦
            let (free, result) = issue-eq-ok env now raw_token id input s {after = after} f in
            rw (f, sym result) (ground arith)
      ]

  step-members :
      (env : Environment) (call : Call) (s : Tenancy)
      → memberships_of workspace user (step env call s) + acceptances_of workspace user s
        ≡ memberships_of workspace user s + acceptances_of workspace user (step env call s)
  unfolding step expire_workspace_invitations
  step-members env (issuing now raw_token id input) s = issue-members env now raw_token id input s
  step-members env (accepting now membership_id input) s =
      accept-members env now membership_id input s
  step-members env (revoking workspace_id id) s = revoke-members workspace_id id s
  step-members env (expiring workspace_id batch_size now locked) s =
      rw
        (ending-acceptances
          (is_chosen workspace_id (overdue workspace_id batch_size now locked s.invitations))
          expired_row s.invitations (λ i k. ground (arith, k)) (λ i. refl))
        refl

-- Whatever calls come, failed ones too: of each user and workspace there are as many memberships
-- after the calls, with the acceptances before them, as memberships before and acceptances after.
-- So a membership is added by an acceptance and by nothing else.
pub run-members :
    (env : Environment) (calls : List Call) (workspace user : ℕ) (s : Tenancy)
    → memberships_of workspace user (run env calls s) + acceptances_of workspace user s
      ≡ memberships_of workspace user s + acceptances_of workspace user (run env calls s)
unfolding run
run-members env [] workspace user s = refl
run-members env (c ∷ cs) workspace user s =
    omega
      (arith, step-members workspace user env c s, run-members env cs workspace user (step env c s))
