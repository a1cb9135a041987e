-- ===== src/Identity/Sessions/Tests.antt =====
-- Runs of the sessions: user 3 of workspace 5, whose tokens hash to the token and 100.
use slotnova.Base.{ℕ, ◌+◌, ◌*◌, ◌≡◌, refl, false, Option, none, some, List, [], ◌∷◌, ◌==◌, arith}
use slotnova.Base.Outcome.{err, ok}
use slotnova.Base.Rows.{find, update, count, take, sort_by, insert_by}
use slotnova.Identity.Sessions.{
  SessionRecord, Sessions, References, DatabaseError, insert, rotate_atomically,
}
use slotnova.Identity.Sessions.Service.{
  Clocks, IssueSessionInput, issuing, rotating, issue, rotate, revoke_token, expired,
  prune_expired_sessions, step,
}
use slotnova.Identity.Sessions.Chains.{IsChained, step-IsChained}
use slotnova.Identity.Sessions.Endings.{Event, run, IsRefused, revoke_token_final, rotate_final}
use slotnova.Identity.Sessions.Conservation.{live_sessions, live_sessions-rotate}

abbrev refs : References
refs = record { has_user = λ u. u == 3; has_workspace = λ w. w == 5 }

abbrev hash : ℕ → ℕ
hash token = token + 100

abbrev clocks : Clocks
clocks = record { now = 1000; server = 1000 }

abbrev later : Clocks
later = record { now = 2000; server = 2000 }

abbrev session : ℕ → Option ℕ → Option ℕ → SessionRecord
session id revoked_at rotated_from = record {
  id = id;
  user_id = 3;
  active_workspace_id = some 5;
  created_at = 1000;
  last_seen_at = 1000;
  expires_at = 43201000;
  revoked_at = revoked_at;
  rotated_from = rotated_from;
}

abbrev one : Sessions
one = session 107 none none ∷ []

abbrev who : IssueSessionInput
who = record { user_id = 3; active_workspace_id = some 5 }

issue_once :
    issue refs hash clocks 7 who []
    ≡ (ok (record { raw_token = 7; session = session 107 none none }), one)
unfolding issue insert
issue_once = refl

-- A rotation into the token that is rotated fails, and leaves the table as it was.
rotate_same : rotate refs hash clocks 7 7 none one ≡ (err DatabaseError.unique_violation, one)
unfolding rotate rotate_atomically insert find update
rotate_same = refl

abbrev chain : Sessions
chain = session 108 none (some 107) ∷ session 107 (some 1000) none ∷ []

rotate_once :
    rotate refs hash clocks 7 8 none one
    ≡ (ok (some (record { raw_token = 8; session = session 108 none (some 107) })), chain)
unfolding rotate rotate_atomically insert find update
rotate_once = refl

-- Long after both have ended, the sweep deletes the successor first.
abbrev long_after : ℕ
long_after = 43201000 + 8 * 86400000

prune_chain :
    prune_expired_sessions 10 7 long_after (λ id. false) chain ≡ session 107 (some 1000) none ∷ []
unfolding prune_expired_sessions expired take sort_by insert_by
prune_chain = refl

one-IsChained : IsChained one
unfolding count
one-IsChained id = (ground arith, ground arith)

step-IsChained_example : IsChained (step refs hash clocks (rotating 7 8 none) one)
step-IsChained_example = step-IsChained refs hash clocks (rotating 7 8 none) one one-IsChained

abbrev events : List Event
events =
    record { clocks = clocks; call = issuing 9 who }
    ∷ record { clocks = later; call = rotating 9 8 (some none) }
    ∷ []

revoke_token_final_example :
    IsRefused refs hash later 7 (run refs hash events (revoke_token refs hash clocks 7 one))
revoke_token_final_example =
    revoke_token_final refs hash clocks 7 one events later
      ((omega arith, refl), ((omega arith, refl), tt)) (omega arith)

abbrev one_event : List Event
one_event = record { clocks = clocks; call = rotating 8 9 none } ∷ []

rotate_final_example :
    IsRefused refs hash later 7 (run refs hash one_event (rotate refs hash clocks 7 8 none one).1)
unfolding rotate rotate_atomically insert find update
rotate_final_example =
    rotate_final refs hash clocks 7 8 none one
      {issued = record { raw_token = 8; session = session 108 none (some 107) }} one_event later
      refl ((omega arith, refl), tt) (omega arith)

live_sessions-rotate_example :
    live_sessions 1000 3 (rotate refs hash clocks 7 8 none one).1 ≡ live_sessions 1000 3 one
live_sessions-rotate_example =
    live_sessions-rotate refs hash clocks 7 8 3 none one one-IsChained (omega arith)
