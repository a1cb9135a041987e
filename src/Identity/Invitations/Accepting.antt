-- ===== src/Identity/Invitations/Accepting.antt =====
-- What an acceptance that succeeds has found and done.
use slotnova.Base.{
  ℕ, ◌≡◌, refl, sym, inl, inr, Bool, true, false, not, Option, none, some, List, ◌∷◌, ◌==◌,
  Bool-cases, ==→eq, arith,
}
use slotnova.Base.Lists.{any}
use slotnova.Base.Outcome.{Result, err, ok, throw_if, ◌>>◌, >>=-eq-ok}
use slotnova.Base.Rows.{update, count}
use slotnova.Identity.Invitations.{
  Invitation, Membership, Tenancy, InvitationError, is_pending_with, find_by_token_hash,
  has_membership, accepted, InvitationInput, to_invitation, clashes, create_invitation,
  MembershipInput, to_membership, create_membership, with_status, mark_accepted,
}
use slotnova.Identity.Invitations.Lifecycle.{
  Token, IssueInput, issue_row, issued_state, issue, is_active_user, translate, Environment,
  AcceptInput, is_token, is_over, found_or, membership_of, accepted_state, accept_found, accept,
}

pub throw_if-eq-ok :
    {A : Type 0} (test : Bool) (e : InvitationError) (rest : Result InvitationError A) {value : A}
    → (throw_if test e >> rest) ≡ ok value
    → (test ≡ false) × (rest ≡ ok value)
throw_if-eq-ok true e rest h = cc (h)
throw_if-eq-ok false e rest h = (refl, h)

found_or-eq-ok :
    {A : Type 0} (e : InvitationError) (o : Option A) {a : A} → found_or e o ≡ ok a → o ≡ some a
found_or-eq-ok e none h = cc (h)
found_or-eq-ok e (some b) {a} h = ground (arith, h)

pub ok-eq-ok : {A : Type 0} {a b : A} → ◌≡◌ {A = Result InvitationError A} (ok a) (ok b) → a ≡ b
ok-eq-ok h = cc (h)

create_membership-eq-ok :
    (has_user : ℕ → Bool) (input : MembershipInput) (ms : List Membership) {after : List Membership}
    → create_membership has_user input ms ≡ ok after
    → (to_membership input ∷ ms) ≡ after
unfolding create_membership
create_membership-eq-ok has_user input ms e = ground (arith, e)

mark_accepted-eq-ok :
    (id user : ℕ) (is : List Invitation) {after : List Invitation}
    → mark_accepted id user is ≡ ok after
    → (count (is_pending_with id) is ≡ 1)
      × (update (is_pending_with id) (with_status accepted (some user)) is ≡ after)
unfolding mark_accepted
mark_accepted-eq-ok id user is {after} e = elim (Bool-cases (count (is_pending_with id) is == 1)) [
  | inl f ↦ (==→eq (count (is_pending_with id) is) 1 f, ok-eq-ok (rw (sym (picked f)) e))
  | inr f ↦ absurd (ground (arith, e, f))
]
  where
    picked :
        (count (is_pending_with id) is == 1) ≡ true
        → mark_accepted id user is
          ≡ ok (update (is_pending_with id) (with_status accepted (some user)) is)
    picked f = rw f refl

-- The invitation that was accepted.
pub record Acceptance (env : Environment) (now membership_id : ℕ) (input : AcceptInput)
    (s after : Tenancy) : Type 0 where
  pub invitation : Invitation
  pub was_token : is_token input.raw_token ≡ true
  pub was_found :
      find_by_token_hash (env.hash_invitation_token input.raw_token) s.invitations ≡ some invitation
  pub was_open : is_over now invitation ≡ false
  pub was_theirs : (invitation.email == input.user_email) ≡ true
  pub was_no_member : has_membership invitation.workspace_id input.user_id s.memberships ≡ false
  pub was_one : count (is_pending_with invitation.id) s.invitations ≡ 1
  pub result :
      accepted_state membership_id invitation
        (update
          (is_pending_with invitation.id)
          (with_status accepted (some input.user_id))
          s.invitations)
        (to_membership (membership_of membership_id input invitation) ∷ s.memberships)
        s
      ≡ after

accepted_state-eq :
    (membership_id user : ℕ) (input : AcceptInput) (i : Invitation) (s after : Tenancy)
    (is : List Invitation) (ms : List Membership)
    → update (is_pending_with i.id) (with_status accepted (some input.user_id)) s.invitations ≡ is
    → (to_membership (membership_of membership_id input i) ∷ s.memberships) ≡ ms
    → ◌≡◌ {A = Result InvitationError Tenancy}
        (ok (accepted_state membership_id i is ms s))
        (ok after)
    → accepted_state membership_id i
        (update (is_pending_with i.id) (with_status accepted (some input.user_id)) s.invitations)
        (to_membership (membership_of membership_id input i) ∷ s.memberships)
        s
      ≡ after
accepted_state-eq membership_id user input i s after is ms updated created e =
    rw (updated, created) (ok-eq-ok e)

accept_found-eq-ok :
    (env : Environment) (now membership_id : ℕ) (input : AcceptInput) (s : Tenancy) (i : Invitation)
    {after : Tenancy}
    → is_token input.raw_token ≡ true
    → find_by_token_hash (env.hash_invitation_token input.raw_token) s.invitations ≡ some i
    → accept_found env now membership_id input s i ≡ ok after
    → Acceptance env now membership_id input s after
unfolding accept_found
accept_found-eq-ok env now membership_id input s i {after} token f e2 =
    let (not_over, e3) = throw_if-eq-ok (is_over now i) InvitationError.invitation_expired _ e2 in
    let (theirs, e4) =
      throw_if-eq-ok (not (i.email == input.user_email)) InvitationError.email_mismatch _ e3 in
    let (name, n, e5) =
      >>=-eq-ok (found_or InvitationError.internal (env.workspace_name i.workspace_id)) _ e4 in
    let (no_member, e6) =
      throw_if-eq-ok (has_membership i.workspace_id input.user_id s.memberships)
        InvitationError.already_member _ e5 in
    let (ms, m, e7) =
      >>=-eq-ok (create_membership env.has_user (membership_of membership_id input i) s.memberships)
        _ e6 in
    let (is, k, e8) = >>=-eq-ok (mark_accepted i.id input.user_id s.invitations) _ e7 in
    let (one, updated) = mark_accepted-eq-ok i.id input.user_id s.invitations {after = is} k in
    let created =
      create_membership-eq-ok env.has_user (membership_of membership_id input i) s.memberships
        {after = ms} m in
    record {
      invitation = i;
      was_token = token;
      was_found = f;
      was_open = not_over;
      was_theirs = ground (arith, theirs);
      was_no_member = no_member;
      was_one = one;
      result =
          accepted_state-eq membership_id input.user_id input i s after is ms updated created e8;
    }

pub accept-eq-ok :
    (env : Environment) (now membership_id : ℕ) (input : AcceptInput) (s : Tenancy)
    {after : Tenancy}
    → accept env now membership_id input s ≡ ok after
    → Acceptance env now membership_id input s after
unfolding accept
accept-eq-ok env now membership_id input s {after} e =
    let (token, e1) =
      throw_if-eq-ok (not (is_token input.raw_token)) InvitationError.invitation_expired _ e in
    let (i, f, e2) =
      >>=-eq-ok
        (found_or InvitationError.invitation_expired
          (find_by_token_hash (env.hash_invitation_token input.raw_token) s.invitations))
        (accept_found env now membership_id input s) e1 in
    accept_found-eq-ok env now membership_id input s i {after = after} (ground (arith, token))
      (found_or-eq-ok InvitationError.invitation_expired _ f) e2

create_invitation-eq-ok :
    (row : InvitationInput) (s : Tenancy) {after : List Invitation}
    → create_invitation row s ≡ ok after
    → (any (clashes row) s.invitations ≡ false) × ((to_invitation row ∷ s.invitations) ≡ after)
unfolding create_invitation
create_invitation-eq-ok row s e = ground (arith, e)

translate-eq-ok :
    {A : Type 0} (r : Result InvitationError A) {a : A} → translate r ≡ ok a → r ≡ ok a
translate-eq-ok (err e) h = cc (h)
translate-eq-ok (ok b) h = h

issued_state-eq :
    (row : InvitationInput) (s : Tenancy) (is : List Invitation) (after : Tenancy)
    → (to_invitation row ∷ s.invitations) ≡ is
    → ◌≡◌ {A = Result InvitationError Tenancy} (ok (issued_state row s is)) (ok after)
    → issued_state row s (to_invitation row ∷ s.invitations) ≡ after
issued_state-eq row s is after created e = rw created (ok-eq-ok e)

-- An invitation that is issued clashes with none, and is one more row.
pub issue-eq-ok :
    (env : Environment) (now : ℕ) (raw_token : Token) (id : ℕ) (input : IssueInput) (s : Tenancy)
    {after : Tenancy}
    → issue env now raw_token id input s ≡ ok after
    → let row = issue_row env now raw_token id input in
      (any (clashes row) s.invitations ≡ false)
      × (issued_state row s (to_invitation row ∷ s.invitations) ≡ after)
unfolding issue
issue-eq-ok env now raw_token id input s {after} e =
    let row = issue_row env now raw_token id input in
    let (no_member, e1) =
      throw_if-eq-ok
        (is_active_user (env.user_by_email input.email) input.workspace_id s.memberships)
        InvitationError.already_member _ (translate-eq-ok _ e) in
    let (is, k, e2) = >>=-eq-ok (create_invitation row s) (λ is. ok (issued_state row s is)) e1 in
    let (free, created) = create_invitation-eq-ok row s {after = is} k in
    (free, issued_state-eq row s is after created e2)
