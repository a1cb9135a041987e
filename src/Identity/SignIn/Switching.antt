-- ===== src/Identity/SignIn/Switching.antt =====
-- `switchWorkspace` of apps/api/src/modules/identity/http/workspace-context.controller.ts: the lemmas
-- on a switch that succeeds, by its steps from the answer back to the rotation of the session.
use mathlib.Core.Path.{subst}
use slotnova.Base.{
  ◌==◌, ◌&&◌, ℕ, ◌≤◌, ◌≡◌, refl, sym, Bool, true, false, not, ◌||◌, Option, none, some, List,
  if◌then◌else◌, Option-cases, inl, inr, arith,
}
use slotnova.Base.Outcome.{Result, err, ok}
use slotnova.Base.Rows.{find, update, find-some}
use slotnova.Identity.Sessions.{
  SessionRecord, Sessions, is_active, revoked, constraints, insert, rotate_atomically, References,
  DatabaseError,
}
use slotnova.Identity.Sessions.Service.{Clocks, IssuedSession, rotate, next_input}
use slotnova.Identity.Sessions.Endings.{Event, run, ComeAfter, IsRefused, rotate_final}
use slotnova.Identity.Directory.{MembershipRow, Directory}
use slotnova.Identity.Access.{SessionContext, build, session_of}
use slotnova.Identity.SignIn.{
  OwnMembershipInWorkspace, find_own_membership_in_workspace, SwitchProblem, Switched, with_context,
  after_rotation, switch_to, switch_session, switch_workspace,
}

module _ (refs : References) (hash : ℕ → ℕ) where
  with_context-eq-ok :
      (issued : IssuedSession) (context : Option SessionContext) {s : Switched}
      → with_context refs hash issued context ≡ ok s
      → (issued ≡ s.issued) × (context ≡ some s.context)
  with_context-eq-ok issued none e = cc (e)
  with_context-eq-ok issued (some context) e = (cc (e), cc (e))

  after_rotation-eq-ok :
      (d : Directory) (result : Result DatabaseError (Option IssuedSession)) {s : Switched}
      → after_rotation refs hash d result ≡ ok s
      → (result ≡ ok (some s.issued)) × (build s.issued.session d ≡ some s.context)
  after_rotation-eq-ok d (err x) e = cc (e)
  after_rotation-eq-ok d (ok none) e = cc (e)
  after_rotation-eq-ok d (ok (some issued)) {s} e =
      let (same, built) = with_context-eq-ok issued (build issued.session d) e in
      (rw same refl, subst (λ i. build i.session d ≡ some s.context) same built)

  rotate-active_workspace :
      (clocks : Clocks) (raw_token next_raw_token : ℕ) (workspace : Option ℕ) (t : Sessions)
      {issued : IssuedSession}
      → (rotate refs hash clocks raw_token next_raw_token (some workspace) t).0 ≡ ok (some issued)
      → issued.session.active_workspace_id ≡ workspace
  unfolding rotate rotate_atomically insert
  rotate-active_workspace clocks raw_token next_raw_token workspace t {issued} done =
      elim (Option-cases (find (is_active clocks.now (hash raw_token)) t)) [
        | inl e ↦ absurd (ground (arith, e, done))
        | inr (row, e) ↦
            let next =
              next_input refs hash clocks next_raw_token (some workspace)
                (revoked clocks.now row) in
            let superseded =
              update (is_active clocks.now (hash raw_token)) (revoked clocks.now) t in
            elim (Option-cases (constraints refs next superseded)) [
              | inl f ↦ ground (arith, e, f, done)
              | inr (x, f) ↦ absurd (ground (arith, e, f, done))
            ]
      ]

  find_own_membership-workspace_id :
      (user_id workspace_id : ℕ) (d : Directory) {target : OwnMembershipInWorkspace}
      → find_own_membership_in_workspace user_id workspace_id d ≡ some target
      → target.workspace_id ≡ workspace_id
  unfolding find_own_membership_in_workspace
  find_own_membership-workspace_id user_id workspace_id d e =
      let is_own =
        λ (m : MembershipRow). (m.user_id == user_id) && (m.workspace_id == workspace_id) in
      elim (Option-cases (find is_own d.memberships)) [
        | inl f ↦ absurd (ground (arith, f, e))
        | inr (m, f) ↦
            let (own, _) = find-some is_own d.memberships f in
            elim (Option-cases (find (λ w. w.id == m.workspace_id) d.workspaces)) [
              | inl g ↦ absurd (ground (arith, e, f, g))
              | inr (w, g) ↦ ground (arith, e, f, g, own)
            ]
      ]

  module _ (clocks later : Clocks) (d : Directory) (raw_token next_raw_token workspace_id : ℕ)
      (events : List Event) (h : ComeAfter hash clocks.now (hash raw_token) events)
      (late : clocks.now ≤ later.now) where
    -- What the answer of a switch promises, by the sessions it leaves.
    abbrev HasSwitched : Switched → Sessions → Type 0
    HasSwitched s after =
        (s.issued.session.active_workspace_id ≡ some workspace_id)
        × (build s.issued.session d ≡ some s.context)
        × IsRefused refs hash later raw_token (run refs hash events after)

    rotated-HasSwitched :
        (t : Sessions) {s : Switched}
        → let (result, after) =
            rotate refs hash clocks raw_token next_raw_token (some (some workspace_id)) t in
          after_rotation refs hash d result ≡ ok s → HasSwitched s after
    rotated-HasSwitched t e =
        let override = some (some workspace_id) in
        let result = (rotate refs hash clocks raw_token next_raw_token override t).0 in
        let (rotated, built) = after_rotation-eq-ok d result e in
        (
          rotate-active_workspace clocks raw_token next_raw_token (some workspace_id) t rotated,
          built,
          rotate_final refs hash clocks raw_token next_raw_token override t events later rotated h
              late,
        )

    unless_unavailable :
        (unavailable : Bool) (t : Sessions) (answer : Result SwitchProblem Switched × Sessions)
        {s : Switched}
        → (answer.0 ≡ ok s → HasSwitched s answer.1)
        → (if unavailable then (err SwitchProblem.workspace_unavailable, t) else answer).0 ≡ ok s
        → HasSwitched s
            (if unavailable then (err SwitchProblem.workspace_unavailable, t) else answer).1
    unless_unavailable true t answer switched e = cc (e)
    unless_unavailable false t answer switched e = switched e

    switch_to-HasSwitched :
        (target : Option OwnMembershipInWorkspace) (t : Sessions) {s : Switched}
        → ((own : OwnMembershipInWorkspace) → target ≡ some own → own.workspace_id ≡ workspace_id)
        → (switch_to refs hash clocks d raw_token next_raw_token target t).0 ≡ ok s
        → HasSwitched s (switch_to refs hash clocks d raw_token next_raw_token target t).1
    switch_to-HasSwitched none t same e = cc (e)
    switch_to-HasSwitched (some target) t {s} same e =
        subst
          (λ id.
            let (result, after) =
              rotate refs hash clocks raw_token next_raw_token (some (some id)) t in
            let answer : Result SwitchProblem Switched × Sessions =
              if not target.membership_active || not target.workspace_active
              then (err SwitchProblem.workspace_unavailable, t)
              else (after_rotation refs hash d result, after) in
            answer.0 ≡ ok s → HasSwitched s answer.1)
          (sym (same target refl))
          (unless_unavailable (not target.membership_active || not target.workspace_active) t
            (
              after_rotation refs hash d
                  (rotate refs hash clocks raw_token next_raw_token (some (some workspace_id)) t).0,
              (rotate refs hash clocks raw_token next_raw_token (some (some workspace_id)) t).1,
            )
            (rotated-HasSwitched t))
          e

    switch_session-HasSwitched :
        (session : Option SessionRecord) (t : Sessions) {s : Switched}
        → (switch_session refs hash clocks d raw_token next_raw_token workspace_id session t).0
          ≡ ok s
        → HasSwitched s
            (switch_session refs hash clocks d raw_token next_raw_token workspace_id session t).1
    switch_session-HasSwitched none t e = cc (e)
    switch_session-HasSwitched (some session) t e =
        switch_to-HasSwitched (find_own_membership_in_workspace session.user_id workspace_id d) t
          (λ own. find_own_membership-workspace_id session.user_id workspace_id d {target = own}) e

-- A switch of the workspace that succeeds issues a session of the workspace it was asked for, answers
-- with the context that the directory gives for that session, and the token it was asked with is refused from then on, whatever calls come later
-- that make no token with its hash.
pub switch_workspace_final :
    (refs : References) (hash : ℕ → ℕ) (clocks later : Clocks) (d : Directory)
    (raw_token next_raw_token workspace_id : ℕ) (t : Sessions) (events : List Event) {s : Switched}
    → ComeAfter hash clocks.now (hash raw_token) events
    → clocks.now ≤ later.now
    → (switch_workspace refs hash clocks d (some raw_token) next_raw_token workspace_id t).0 ≡ ok s
    → (s.issued.session.active_workspace_id ≡ some workspace_id)
      × (build s.issued.session d ≡ some s.context)
      × IsRefused refs hash later raw_token (
          run refs hash events
            (switch_workspace refs hash clocks d (some raw_token) next_raw_token workspace_id t).1)
unfolding switch_workspace
switch_workspace_final refs hash clocks later d raw_token next_raw_token workspace_id t events h
      late e =
    let (session, found) = session_of refs hash clocks (some raw_token) t in
    switch_session-HasSwitched refs hash clocks later d raw_token next_raw_token workspace_id events
      h late session found e
