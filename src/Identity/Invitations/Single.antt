-- ===== src/Identity/Invitations/Single.antt =====
-- An invitation is accepted once.
use slotnova.Base.{
  ℕ, ◌≤◌, ◌≡◌, refl, sym, inl, inr, Bool, true, false, not, ◌&&◌, some, List, [], ◌∷◌, ◌==◌,
  Bool-cases, Option-cases, arith,
}
use slotnova.Base.Lists.{All}
use slotnova.Base.Outcome.{err, ok, Result-cases}
use slotnova.Base.Rows.{find-count, find, update, count, count-update-gone, count-find}
use slotnova.Identity.Invitations.{
  Invitation, Tenancy, invitation_expired, is_pending, is_pending_with, find_by_token_hash,
  accepted, with_status, is_revocable, revoked_row, revoke_pending,
}
use slotnova.Identity.Invitations.Lifecycle.{
  Token, Environment, AcceptInput, IssueInput, is_token, is_over, accept_found, accept, issue,
  revoke_invitation, expire_workspace_invitations, overdue, is_chosen, expired_row, Call, issuing,
  accepting, revoking, expiring, kept, step, run,
}
use slotnova.Identity.Invitations.Accepting.{accept-eq-ok, issue-eq-ok}

abbrev is_pending_of : ℕ → Invitation → Bool
is_pending_of hash i = (i.token_hash == hash) && is_pending i.status

-- No pending invitation has the hash.
abbrev pub IsClosed : ℕ → Tenancy → Type 0
IsClosed hash s = count (is_pending_of hash) s.invitations ≡ 0

-- The call makes a token with the hash.
abbrev pub makes : Environment → ℕ → Call → Bool
makes env hash (issuing now raw_token id input) = env.hash_invitation_token raw_token == hash
makes env hash _ = false

closing-IsClosed :
    (hash : ℕ) (p : Invitation → Bool) (g : Invitation → Invitation) (is : List Invitation)
    → ((i : Invitation) → is_pending (g i).status ≡ false)
    → count (is_pending_of hash) is ≡ 0
    → count (is_pending_of hash) (update p g is) ≡ 0
closing-IsClosed hash p g is final h = omega (
  arith,
  h,
  count-update-gone p g (is_pending_of hash) (is_pending_of hash) is (λ i. ground (arith, final i))
      (λ i e. omega arith),
)

issued-IsClosed :
    (env : Environment) (hash now : ℕ) (raw_token : Token) (id : ℕ) (input : IssueInput)
    (s : Tenancy)
    → (env.hash_invitation_token raw_token == hash) ≡ false
    → IsClosed hash s
    → IsClosed hash (kept s (issue env now raw_token id input s))
unfolding count
issued-IsClosed env hash now raw_token id input s other h =
    elim (Result-cases (issue env now raw_token id input s)) [
      | inr (e, f) ↦ rw f h
      | inl (after, f) ↦
          let (free, result) = issue-eq-ok env now raw_token id input s {after = after} f in
          rw (f, sym result, other) (omega (arith, h))
    ]

accepted-IsClosed :
    (env : Environment) (hash now membership_id : ℕ) (input : AcceptInput) (s : Tenancy)
    → IsClosed hash s
    → IsClosed hash (kept s (accept env now membership_id input s))
accepted-IsClosed env hash now membership_id input s h =
    elim (Result-cases (accept env now membership_id input s)) [
      | inr (e, f) ↦ rw f h
      | inl (after, f) ↦
          let a = accept-eq-ok env now membership_id input s {after = after} f in
          rw (f, sym a.result)
            (closing-IsClosed hash (is_pending_with a.invitation.id)
              (with_status accepted (some input.user_id)) s.invitations (λ i. refl) h)
    ]

revoked-IsClosed :
    (hash workspace_id id : ℕ) (s : Tenancy)
    → IsClosed hash s
    → IsClosed hash (kept s (revoke_invitation workspace_id id s))
unfolding revoke_invitation revoke_pending
revoked-IsClosed hash workspace_id id s h =
    elim (Bool-cases (count (is_revocable workspace_id id) s.invitations == 1)) [
      | inl e ↦ rw e (
          closing-IsClosed hash (is_revocable workspace_id id) revoked_row s.invitations (λ i. refl)
            h)
      | inr e ↦ rw e h
    ]

step-IsClosed :
    (env : Environment) (hash : ℕ) (call : Call) (s : Tenancy)
    → makes env hash call ≡ false
    → IsClosed hash s
    → IsClosed hash (step env call s)
unfolding step expire_workspace_invitations
step-IsClosed env hash (issuing now raw_token id input) s other h =
    issued-IsClosed env hash now raw_token id input s other h
step-IsClosed env hash (accepting now membership_id input) s other h =
    accepted-IsClosed env hash now membership_id input s h
step-IsClosed env hash (revoking workspace_id id) s other h =
    revoked-IsClosed hash workspace_id id s h
step-IsClosed env hash (expiring workspace_id batch_size now locked) s other h =
    closing-IsClosed hash
      (is_chosen workspace_id (overdue workspace_id batch_size now locked s.invitations))
      expired_row s.invitations (λ i. refl) h

run-IsClosed :
    (env : Environment) (hash : ℕ) (calls : List Call) (s : Tenancy)
    → All (λ c. makes env hash c ≡ false) calls
    → IsClosed hash s
    → IsClosed hash (run env calls s)
unfolding run
run-IsClosed env hash [] s others h = h
run-IsClosed env hash (c ∷ cs) s (other, others) h =
    run-IsClosed env hash cs (step env c s) others (step-IsClosed env hash c s other h)

-- An acceptance is refused while no pending invitation has the token's hash.
accept-closed :
    (env : Environment) (now membership_id : ℕ) (input : AcceptInput) (s : Tenancy)
    → IsClosed (env.hash_invitation_token input.raw_token) s
    → accept env now membership_id input s ≡ err invitation_expired
unfolding accept accept_found find_by_token_hash
accept-closed env now membership_id input s h =
    let hash = env.hash_invitation_token input.raw_token in
    elim (Bool-cases (is_token input.raw_token)) [
      | inr e ↦ rw e refl
      | inl e ↦ elim (Option-cases (find (λ i. i.token_hash == hash) s.invitations)) [
        | inl f ↦ rw (e, f) refl
        | inr (i, f) ↦
            let over : is_over now i ≡ true = elim (Bool-cases (is_pending i.status)) [
              | inl g ↦
                  let some_row =
                    find-count (λ j. j.token_hash == hash) (λ j. is_pending j.status) s.invitations
                      {x = i} f g in
                  absurd (omega (arith, h))
              | inr g ↦ rw g refl
            ] in
            rw (e, f, over) refl
      ]
    ]

-- An acceptance closes its token.
accept-IsClosed :
    (env : Environment) (now membership_id : ℕ) (input : AcceptInput) (s : Tenancy)
    {after : Tenancy}
    → accept env now membership_id input s ≡ ok after
    → count (λ i. i.token_hash == env.hash_invitation_token input.raw_token) s.invitations ≤ 1
    → IsClosed (env.hash_invitation_token input.raw_token) after
unfolding find_by_token_hash
accept-IsClosed env now membership_id input s {after} e one =
    let hash = env.hash_invitation_token input.raw_token in
    let a = accept-eq-ok env now membership_id input s {after = after} e in
    let i = a.invitation in
    let left = λ (j : Invitation). is_pending j.status && not (j.id == i.id) in
    let few =
      count-update-gone (is_pending_with i.id) (with_status accepted (some input.user_id))
        (is_pending_of hash) (λ j. (j.token_hash == hash) && left j) s.invitations
        (λ j. ground arith) (λ j k. ground (arith, k)) in
    let none_left =
      count-find (λ j. j.token_hash == hash) left s.invitations {x = i} (found a.was_found) one in
    rw (sym a.result) (ground (arith, few, none_left))
  where
    found :
        {i : Invitation}
        → find_by_token_hash (env.hash_invitation_token input.raw_token) s.invitations ≡ some i
        → find (λ j. j.token_hash == env.hash_invitation_token input.raw_token) s.invitations
          ≡ some i
    found f = f

-- Once an invitation is accepted, and whatever calls come later that make no token with its hash,
-- no one can accept it again: the token is answered as an expired one, whoever uses it. The hashes
-- of the table's tokens are unique.
pub accept_final :
    (env : Environment) (now membership_id : ℕ) (input : AcceptInput) (s : Tenancy)
    {after : Tenancy} (calls : List Call) (later other_id : ℕ) (again : AcceptInput)
    → accept env now membership_id input s ≡ ok after
    → count (λ i. i.token_hash == env.hash_invitation_token input.raw_token) s.invitations ≤ 1
    → All (λ c. makes env (env.hash_invitation_token input.raw_token) c ≡ false) calls
    → again.raw_token ≡ input.raw_token
    → accept env later other_id again (run env calls after) ≡ err invitation_expired
accept_final env now membership_id input s {after} calls later other_id again e one others same =
    let hash = env.hash_invitation_token input.raw_token in
    accept-closed env later other_id again (run env calls after) (
      rw same (
        run-IsClosed env hash calls after others
          (accept-IsClosed env now membership_id input s {after = after} e one)))
