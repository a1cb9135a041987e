-- ===== src/Booking/Guard.antt =====
-- The version guard and the tenant boundary of the commands on an existing booking.
use slotnova.Base.{
  ℕ, ◌+◌, ◌≡◌, ◌≢◌, refl, sym, ◌∙◌, ◌⊎◌, inl, inr, true, false, Option, none, some, String, [], ◌∷◌,
  arith, ◌==◌, Bool-cases,
}
use slotnova.Base.Lists.{All, filter}
use slotnova.Scheduling.Interval.{Instant}
use slotnova.Booking.Domain.{InstantArithmetic, is_confirmed}
use slotnova.Booking.Store.{BookingRecord, Table, PgTimestamps, find_guarded, replace}
use slotnova.Booking.Store.Sound.{
  IsSound, All-ids, to_row_lem, find_guarded_lem, guarded_update_lem,
}
use slotnova.Booking.UseCases.{
  UseCase, committed, reschedule_booking_use_case, cancel_booking_use_case,
  complete_booking_use_case,
}
use slotnova.Booking.Commits.{
  CommitsUpdate, cancel-CommitsUpdate, complete-CommitsUpdate, reschedule-CommitsUpdate,
}

-- A command on an existing booking, with its id and the version that the caller holds.
pub data Action : Type 0 where
  reschedule : Instant → Action
  cancel : Option String → Action
  complete : Action

pub record Command : Type 0 where
  pub workspace_id : ℕ
  pub id : ℕ
  pub expected : ℕ
  pub action : Action

module _ (temporal : InstantArithmetic) (pg : PgTimestamps) where
  dispatch : Action → ℕ → ℕ → ℕ → Table → Table → Table → UseCase
  dispatch (reschedule t) ws id v seen now latest =
      reschedule_booking_use_case temporal pg ws id v t seen now latest
  dispatch (cancel reason) ws id v seen now latest =
      cancel_booking_use_case temporal pg ws id v reason seen now latest
  dispatch complete ws id v seen now latest =
      complete_booking_use_case temporal pg ws id v seen now latest

  unfoldable pub execute : Command → Table → Table → Table → UseCase
  unfolding dispatch
  execute c seen now latest = dispatch c.action c.workspace_id c.id c.expected seen now latest

  dispatch-CommitsUpdate :
      (a : Action) (ws id v : ℕ) (seen now latest : Table)
      → CommitsUpdate temporal pg ws id v now (dispatch a ws id v seen now latest)
  unfolding dispatch
  dispatch-CommitsUpdate (reschedule t) ws id v seen now latest =
      reschedule-CommitsUpdate temporal pg ws id v t seen now latest
  dispatch-CommitsUpdate (cancel reason) ws id v seen now latest =
      cancel-CommitsUpdate temporal pg ws id v reason seen now latest
  dispatch-CommitsUpdate complete ws id v seen now latest =
      complete-CommitsUpdate temporal pg ws id v seen now latest

absent_guarded :
    (ws id v : ℕ) (rs : Table) → All (λ r. (r.id == id) ≡ false) rs → find_guarded ws id v rs ≡ none
unfolding find_guarded
absent_guarded ws id v [] h = refl
absent_guarded ws id v (r ∷ rs) (p, h) = ground (arith, absent_guarded ws id v rs h)

-- Once a row has another version, the guard on the old one finds nothing.
replaced_guarded :
    (ws id v : ℕ) (row : BookingRecord) (rs : Table)
    → IsSound rs
    → row.id ≡ id
    → row.version ≡ v + 1
    → find_guarded ws id v (replace row rs) ≡ none
unfolding find_guarded replace
replaced_guarded ws id v row [] h e k = refl
replaced_guarded ws id v row (r ∷ rs) (c, h, s) e k = elim (Bool-cases (r.id == row.id)) [
  | inl here ↦ rw here (ground (arith, absent_guarded ws id v rs, All-ids r id rs))
  | inr later ↦ rw later (ground (arith, replaced_guarded ws id v row rs s e k))
]

-- The rows that a workspace sees.
abbrev pub rows_of : ℕ → Table → Table
rows_of ws = filter (λ r. r.workspace_id == ws)

rows_of-replace :
    (ws other id v : ℕ) (row f : BookingRecord) (rs : Table)
    → IsSound rs
    → other ≢ ws
    → row.id ≡ id
    → row.workspace_id ≡ ws
    → find_guarded ws id v rs ≡ some f
    → rows_of other (replace row rs) ≡ rows_of other rs
unfolding find_guarded replace
rows_of-replace ws other id v row f [] h ne e k g = refl
rows_of-replace ws other id v row f (r ∷ rs) (c, h, s) ne e k g =
    elim (Bool-cases (r.id == row.id)) [
      | inl here ↦ rw here (ground (arith, absent_guarded ws id v rs, All-ids r id rs))
      | inr later ↦ rw later (ground (arith, rows_of-replace ws other id v row f rs s ne e k))
    ]

module _ (temporal : InstantArithmetic) (pg : PgTimestamps) (c : Command) where
  -- The commit of a command: nothing, or one guarded update.
  CommitsHere : (seen now latest : Table) → Type 0
  CommitsHere seen now latest =
      CommitsUpdate temporal pg c.workspace_id c.id c.expected now
        (execute temporal pg c seen now latest)

  commits_here : (seen now latest : Table) → CommitsHere seen now latest
  unfolding CommitsHere execute
  commits_here seen now latest =
      dispatch-CommitsUpdate temporal pg c.action c.workspace_id c.id c.expected seen now latest

  -- What a commit that changed the table has done to it.
  record HasReplaced (now now' : Table) : Type 0 where
    row : BookingRecord
    found : BookingRecord
    guarded : find_guarded c.workspace_id c.id c.expected now ≡ some found
    replaced : now' ≡ replace row now
    keyed : row.id ≡ c.id
    owned : row.workspace_id ≡ c.workspace_id
    raised : row.version ≡ c.expected + 1

  commit_cases :
      (seen now latest : Table)
      → (committed (execute temporal pg c seen now latest) now ≡ now)
        ⊎ HasReplaced now (committed (execute temporal pg c seen now latest) now)
  unfolding CommitsHere CommitsUpdate
  commit_cases seen now latest = elim (commits_here seen now latest) [
    | inl unchanged ↦ inl unchanged
    | inr (set, row, keeps, updated, returned) ↦
        elim (guarded_update_lem pg c.workspace_id c.id c.expected set now updated) [
          | inl (nothing, _, _) ↦ absurd (cc nothing)
          | inr (row', same_row, u) ↦
              let (booked, owner) = to_row_lem pg c.workspace_id (set u.found.booking) u.rowed in
              let (found_id, _, _, _) =
                find_guarded_lem c.workspace_id c.id c.expected now u.guarded in
              inr (record {
                row = row';
                found = u.found;
                guarded = u.guarded;
                replaced = u.replaced;
                keyed = ground (arith, keeps u.found.booking);
                owned = owner;
                raised = ground (arith, keeps u.found.booking);
              })
        ]
  ]

  changed-HasReplaced :
      (seen now latest : Table)
      → committed (execute temporal pg c seen now latest) now ≢ now
      → HasReplaced now (committed (execute temporal pg c seen now latest) now)
  changed-HasReplaced seen now latest changed = elim (commit_cases seen now latest) [
    | inl unchanged ↦ absurd (changed unchanged)
    | inr u ↦ u
  ]

  none_left :
      (now now' : Table) (ws : ℕ)
      → IsSound now
      → HasReplaced now now'
      → find_guarded ws c.id c.expected now' ≡ none
  none_left now now' ws sound u =
      rw u.replaced (replaced_guarded ws c.id c.expected u.row now sound u.keyed u.raised)

  -- A command that changes the table has found its booking confirmed, in its workspace and at the
  -- version that the caller holds, when it wrote: no change of another transaction is overwritten.
  pub execute_guarded :
      (seen now latest : Table)
      → committed (execute temporal pg c seen now latest) now ≢ now
      → (r : BookingRecord) × (find_guarded c.workspace_id c.id c.expected now ≡ some r)
        × (r.id ≡ c.id)
        × (r.workspace_id ≡ c.workspace_id)
        × (r.version ≡ c.expected)
        × (is_confirmed r.status ≡ true)
  execute_guarded seen now latest changed =
      let u = changed-HasReplaced seen now latest changed in
      let (a, b, d, e) = find_guarded_lem c.workspace_id c.id c.expected now u.guarded in
      (u.found, u.guarded, a, b, d, e)

  -- A command changes no row of another workspace.
  pub execute-rows_of :
      (seen now latest : Table) (other : ℕ)
      → IsSound now
      → other ≢ c.workspace_id
      → rows_of other (committed (execute temporal pg c seen now latest) now) ≡ rows_of other now
  execute-rows_of seen now latest other sound ne = elim (commit_cases seen now latest) [
    | inl unchanged ↦ rw unchanged
    | inr u ↦ rw u.replaced (
        rows_of-replace c.workspace_id other c.id c.expected u.row u.found now sound ne u.keyed
          u.owned u.guarded)
  ]

-- Of two commands on one booking that carry the same version only one changes the table: after the
-- first has, the second leaves it alone, whatever its reads saw.
pub execute_once :
    (temporal : InstantArithmetic) (pg : PgTimestamps) (c d : Command)
    (seen now latest seen' latest' : Table)
    → IsSound now
    → d.id ≡ c.id
    → d.expected ≡ c.expected
    → committed (execute temporal pg c seen now latest) now ≢ now
    → let now' = committed (execute temporal pg c seen now latest) now in
      committed (execute temporal pg d seen' now' latest') now' ≡ now'
execute_once temporal pg c d seen now latest seen' latest' sound same_id same_version changed =
    let now' = committed (execute temporal pg c seen now latest) now in
    let left =
      none_left temporal pg c now now' d.workspace_id sound
        (changed-HasReplaced temporal pg c seen now latest changed) in
    elim (commit_cases temporal pg d seen' now' latest') [
      | inl unchanged ↦ unchanged
      | inr u ↦
          let gone : find_guarded d.workspace_id d.id d.expected now' ≡ none =
            rw (same_id, same_version) left in
          let guarded = u.guarded in absurd (cc (sym gone ∙ guarded))
    ]
